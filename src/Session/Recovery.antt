-- ===== src/Session/Recovery.antt =====
-- Recovery from HOLDING in apps/control-api/session_store.py: reports of one source that are good for the
-- stable period.
use irlight.Base.{
  ℕ, ◌+◌, ◌-◌, ◌≤◌, ◌<◌, ◌≡◌, refl, sym, ◌∙◌, ap, subst, inl, inr, Bool, true, false, ◌&&◌, le→leb,
  leb→le, ltb→lt, Option, none, some, List, [], ◌∷◌, String, arith, leb, if◌then◌else◌, Bool-cases,
}
use irlight.Base.Text.{◌=?◌, =?_refl, =?_iff}
use irlight.Session.Status.{Status, ◌=st◌}
use irlight.Session.Record.{Session, TextField, Stamp}
use irlight.Session.Events.{append_event_locked}
use irlight.Session.Ingest.{
  Observation, Facts, Decision, is_accepted, append_ingest_events, recovery_decision, recover,
  restarts, waited, enact, observe, facts_of,
}
use irlight.Session.Holding.{
  wrap, appended, observe_holding, recover_first, recover_next, recovers, Reports, observe_all,
  are_within,
}

-- HOLDING, with the candidate `source` since `from`.
Waiting : ℕ → Option String → Session → Type 0
Waiting from source s =
    (s.status ≡ Status.holding)
    × (s.stamps Stamp.recovery_candidate_since ≡ some from)
    × (s.texts TextField.recovery_candidate_source_id ≡ source)

-- A report of `source` that is good enough to recover from.
unfoldable pub is_good : Option String → Observation → Bool
is_good source o = (o.source_id =? source) && recovers (recovery_decision (facts_of o))

recovery_target :
    (f : Facts) (d : Decision)
    → recovery_decision f ≡ some d
    → (d.target ≡ (if is_accepted f.status then Status.live else Status.degraded))
      × ((d.target =st Status.holding) ≡ false)
unfolding recovery_decision
recovery_target f d e = ground arith

early :
    (stable now from : ℕ) → (from ≤ now) → (now < from + stable) → leb stable (now - from) ≡ false
early stable now from low high = ground arith

recovers-some : (d : Option Decision) → recovers d ≡ true → (e : Decision) × (d ≡ some e)
recovers-some none h = ground arith
recovers-some (some d) h = (d, refl)

restarts_no :
    (from now : ℕ) (source : Option String)
    → (from ≤ now)
    → restarts (some from) source source now ≡ false
restarts_no from now source low = ground (arith, =?_refl source)

ap2_restarts :
    {a b : Option ℕ} {x y : Option String} (source : Option String) (now : ℕ)
    → a ≡ b
    → x ≡ y
    → restarts a x source now ≡ restarts b y source now
ap2_restarts source now p q = λ i. restarts (p i) (q i) source now

-- A good report to a waiting Session, once the decision is known.
observe-good :
    (stable : ℕ) (node : String) (ts : List String) (o : Observation) (now from : ℕ) (s : Session)
    (d : Decision)
    → Waiting from o.source_id s
    → recovery_decision (facts_of o) ≡ some d
    → (from ≤ now)
    → observe stable node ts o now s
      ≡ wrap node o now Status.holding
          (if leb stable (now - from) then some d else none, append_ingest_events node o now ts s)
unfolding Waiting
observe-good stable node ts o now from s d w e low =
    let t : Session = append_ingest_events node o now ts s in
    let a = appended node o now ts s in
    let since : t.stamps Stamp.recovery_candidate_since ≡ some from =
      ap (λ f. f Stamp.recovery_candidate_since) a.1 ∙ w.1 in
    let same : t.texts TextField.recovery_candidate_source_id ≡ o.source_id =
      ap (λ f. f TextField.recovery_candidate_source_id) a.2 ∙ w.2 in
    let goes : restarts (t.stamps Stamp.recovery_candidate_since)
          (t.texts TextField.recovery_candidate_source_id) o.source_id now
        ≡ false =
      ap2_restarts o.source_id now since same ∙ restarts_no from now o.source_id low in
    observe_holding stable node ts o now s w.0
    ∙ ap (λ r. wrap node o now Status.holding (recover stable t o.source_id now r)) e
    ∙ ap (wrap node o now Status.holding) (
        recover_next stable t o.source_id now d goes
        ∙ ap (λ x. (if waited x now stable then some d else none, t)) since)

unfoldable pub are_good : Option String → Reports → Bool
are_good source [] = true
are_good source (r ∷ rs) = is_good source r.1 && are_good source rs

wrap-status :
    (node : String) (o : Observation) (now : ℕ) (d : Decision) (t : Session)
    → (d.target =st Status.holding) ≡ false
    → (wrap node o now Status.holding (some d, t)).status ≡ d.target
unfolding enact append_event_locked
wrap-status node o now d t moves = elim (Bool-cases o.online) [
  | inl on ↦ simp (moves, on)
  | inr off ↦ simp (moves, off)
]

good_decision :
    (source : Option String) (o : Observation)
    → is_good source o ≡ true
    → (o.source_id ≡ source) × (d : Decision) × (recovery_decision (facts_of o) ≡ some d)
unfolding is_good
good_decision source o good =
    let (d, e) = recovers-some (recovery_decision (facts_of o)) (ground arith) in
    ((=?_iff o.source_id source).0 (ground arith), d, e)

observe-Waiting :
    (stable : ℕ) (node : String) (ts : List String) (o : Observation) (now from : ℕ)
    (source : Option String) (s : Session)
    → Waiting from source s
    → is_good source o ≡ true
    → (from ≤ now)
    → (now < from + stable)
    → Waiting from source (observe stable node ts o now s)
unfolding Waiting enact
observe-Waiting stable node ts o now from source s w good low high =
    let (same, d, e) = good_decision source o good in
    let a = appended node o now ts s in
    subst (Waiting from source)
      (sym (
        observe-good stable node ts o now from s d (subst (λ x. Waiting from x s) (sym same) w) e
          low
        ∙ ap
            (λ b.
              wrap node o now Status.holding
                (if b then some d else none, append_ingest_events node o now ts s))
            (early stable now from low high)))
      (
        a.0 ∙ w.0,
        ap (λ f. f Stamp.recovery_candidate_since) a.1 ∙ w.1,
        ap (λ f. f TextField.recovery_candidate_source_id) a.2 ∙ w.2,
      )

-- The first good report makes the candidate.
observe-first :
    (stable : ℕ) (node : String) (ts : List String) (o : Observation) (now : ℕ)
    (source : Option String) (s : Session)
    → s.status ≡ Status.holding
    → s.stamps Stamp.recovery_candidate_since ≡ none
    → is_good source o ≡ true
    → (0 < stable)
    → Waiting now source (observe stable node ts o now s)
unfolding Waiting enact
observe-first stable node ts o now source s held fresh good slow =
    let (same, d, e) = good_decision source o good in
    let t : Session = append_ingest_events node o now ts s in
    let a = appended node o now ts s in
    let candidate : Option String = t.texts TextField.recovery_candidate_source_id in
    let starts =
      ap2_restarts {x = candidate} {y = candidate} o.source_id now
        (ap (λ f. f Stamp.recovery_candidate_since) a.1 ∙ fresh) refl in
    subst (Waiting now source)
      (sym (
        observe_holding stable node ts o now s held
        ∙ ap (λ r. wrap node o now Status.holding (recover stable t o.source_id now r)) e
        ∙ ap (wrap node o now Status.holding)
            (recover_first stable t o.source_id now d starts (ground arith))))
      (a.0 ∙ held, refl, same)

all-Waiting :
    (stable from : ℕ) (node : String) (source : Option String) (rs : Reports) (s : Session)
    → Waiting from source s
    → are_within from stable rs ≡ true
    → are_good source rs ≡ true
    → Waiting from source (observe_all stable node rs s)
unfolding observe_all are_within are_good
all-Waiting stable from node source [] s w h good = w
all-Waiting stable from node source (((now, ts), o) ∷ rs) s w h good =
    all-Waiting stable from node source rs (observe stable node ts o now s)
      (observe-Waiting stable node ts o now from source s w (ground arith)
        (leb→le from now (ground arith)) (ltb→lt now (from + stable) (ground arith)))
      (ground arith) (ground arith)

-- A Session that is HOLDING without a candidate recovers, where the stable period is not zero:
-- after a good report at `from`, any good reports of the same source before `from + stable`, and
-- one more at `from + stable` or later, it is LIVE if that last report is accepted, and DEGRADED
-- otherwise.
pub observe_all-recovers :
    (stable from : ℕ) (node : String) (source : Option String) (ts : List String)
    (first : Observation) (rs : Reports) (now : ℕ) (us : List String) (last : Observation)
    (s : Session)
    → s.status ≡ Status.holding
    → s.stamps Stamp.recovery_candidate_since ≡ none
    → (0 < stable)
    → is_good source first ≡ true
    → are_good source rs ≡ true
    → is_good source last ≡ true
    → are_within from stable rs ≡ true
    → (from + stable ≤ now)
    → (observe stable node us last now
        (observe_all stable node rs (observe stable node ts first from s))).status
      ≡ (if is_accepted last.status then Status.live else Status.degraded)
unfolding enact append_event_locked
observe_all-recovers stable from node source ts first rs now us last s held fresh slow g1 g2 g3 h
      late =
    let (same, d, e) = good_decision source last g3 in
    let u = observe_all stable node rs (observe stable node ts first from s) in
    let w =
      all-Waiting stable from node source rs _
        (observe-first stable node ts first from source s held fresh g1 slow) h g2 in
    let q = recovery_target (facts_of last) d e in
    ap (λ x. x.status)
      (observe-good stable node us last now from u d (subst (λ x. Waiting from x u) (sym same) w) e
          (omega (arith, late))
        ∙ ap
            (λ b.
              wrap node last now Status.holding
                (if b then some d else none, append_ingest_events node last now us u))
            (le→leb stable (now - from) (omega (arith, late))))
    ∙ wrap-status node last now d _ q.1
    ∙ q.0
