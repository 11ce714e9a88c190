-- ===== src/Session/Holding.antt =====
-- HOLDING in apps/control-api/session_store.py: what `_recovery_candidate_ready` does with a report
-- of the Node, and the reports that leave a Session HOLDING.
use irlight.Base.{
  ℕ, ◌+◌, ◌≤◌, ◌<◌, ◌≡◌, refl, sym, ◌∙◌, ap, subst, inl, inr, Bool, true, false, ◌&&◌, le→leb,
  leb→le, ltb→lt, Option, none, some, List, [], ◌∷◌, String, arith, ◌==◌, leb, ltb, if◌then◌else◌,
  Bool-cases,
}
use irlight.Session.Status.{Status, ◌=st◌}
use irlight.Session.Record.{Session, TextField, Stamp, set_text, clear_recovery_candidate}
use irlight.Session.Events.{append_event_locked}
use irlight.Session.Ingest.{
  Observation, Facts, Decision, append_ingest_events, recovery_decision, recovery_candidate_ready,
  decide, recover, restarts, waited, start_candidate, enact, observe, facts_of,
}

decide_holding :
    (stable : ℕ) (t : Session) (f : Facts) (source : Option String) (now : ℕ)
    → t.status ≡ Status.holding
    → decide stable t f source now ≡ recover stable t source now (recovery_decision f)
unfolding decide
decide_holding stable t f source now held = rw (ap (λ a. a =st Status.holding) held)

-- The writes that follow `decide`.
abbrev pub wrap : String → Observation → ℕ → Status → Option Decision × Session → Session
wrap node o now a p =
    set_text TextField.node_id (some node)
      (record (enact node o a now p.0 p.1) { updated_at = now })

pub appended :
    (node : String) (o : Observation) (now : ℕ) (ts : List String) (s : Session)
    → let t = append_ingest_events node o now ts s in
      (t.status ≡ s.status) × (t.stamps ≡ s.stamps) × (t.texts ≡ s.texts)
unfolding append_ingest_events append_event_locked
appended node o now [] s = (refl, refl, refl)
appended node o now (t ∷ ts) s = appended node o now ts _

pub observe_holding :
    (stable : ℕ) (node : String) (ts : List String) (o : Observation) (now : ℕ) (s : Session)
    → s.status ≡ Status.holding
    → observe stable node ts o now s
      ≡ wrap node o now Status.holding (
          recover stable
            (append_ingest_events node o now ts s)
            o.source_id
            now
            (recovery_decision (facts_of o)))
unfolding observe
observe_holding stable node ts o now s held =
    let t : Session = append_ingest_events node o now ts s in
    let e =
      decide_holding stable t (facts_of o) o.source_id now ((appended node o now ts s).0 ∙ held) in
    λ i. wrap node o now (held i) (e i)

pub recover_first :
    (stable : ℕ) (t : Session) (source : Option String) (now : ℕ) (d : Decision)
    → restarts
        (t.stamps Stamp.recovery_candidate_since)
        (t.texts TextField.recovery_candidate_source_id)
        source
        now
      ≡ true
    → (stable == 0) ≡ false
    → recover stable t source now (some d) ≡ (none, start_candidate source now t)
unfolding recovery_candidate_ready
recover_first stable t source now d starts slow = simp (starts, slow)

pub recover_next :
    (stable : ℕ) (t : Session) (source : Option String) (now : ℕ) (d : Decision)
    → restarts
        (t.stamps Stamp.recovery_candidate_since)
        (t.texts TextField.recovery_candidate_source_id)
        source
        now
      ≡ false
    → recover stable t source now (some d)
      ≡ (if waited (t.stamps Stamp.recovery_candidate_since) now stable then some d else none, t)
unfolding recovery_candidate_ready
recover_next stable t source now d goes = simp goes

recover_bad :
    (stable : ℕ) (t : Session) (source : Option String) (now : ℕ)
    → recover stable t source now none ≡ (none, clear_recovery_candidate t)
recover_bad stable t source now = refl

abbrev pub recovers : Option Decision → Bool
recovers none = false
recovers (some d) = true

-- The reports of one Node, each with its time.
abbrev pub Reports : Type 0
Reports = List ((ℕ × List String) × Observation)

unfoldable pub observe_all : ℕ → String → Reports → Session → Session
observe_all stable node [] s = s
observe_all stable node (r ∷ rs) s =
    observe_all stable node rs (observe stable node r.0.1 r.1 r.0.0 s)

-- The times of the reports lie in a window of `stable` ticks that opens at `from`.
unfoldable pub are_within : ℕ → ℕ → Reports → Bool
are_within from stable [] = true
are_within from stable (r ∷ rs) =
    leb from r.0.0 && ltb r.0.0 (from + stable) && are_within from stable rs

unfoldable since_at_least : ℕ → Option ℕ → Bool
since_at_least from none = true
since_at_least from (some t) = leb from t

-- HOLDING, with no candidate from before `from`.
Held : ℕ → Session → Type 0
Held from s =
    (s.status ≡ Status.holding)
    × (since_at_least from (s.stamps Stamp.recovery_candidate_since) ≡ true)

wrap-none :
    (node : String) (o : Observation) (now from : ℕ) (t : Session)
    → Held from t
    → Held from (wrap node o now Status.holding (none, t))
unfolding enact Held
wrap-none node o now from t h = h

too_soon :
    (stable now from : ℕ) (since : Option ℕ)
    → since_at_least from since ≡ true
    → (from ≤ now)
    → (now < from + stable)
    → waited since now stable ≡ false
unfolding since_at_least
too_soon stable now from none h low high = refl
too_soon stable now from (some t) h low high = ground arith

recover-Held :
    (stable : ℕ) (node : String) (o : Observation) (t : Session) (now from : ℕ)
    (d : Option Decision)
    → Held from t
    → (from ≤ now)
    → (now < from + stable)
    → Held from (wrap node o now Status.holding (recover stable t o.source_id now d))
unfolding Held since_at_least enact
recover-Held stable node o t now from none h low high = (h.0, refl)
recover-Held stable node o t now from (some d) h low high =
    elim (Bool-cases (
      restarts (t.stamps Stamp.recovery_candidate_since)
        (t.texts TextField.recovery_candidate_source_id) o.source_id now)) [
          | inl starts ↦
              subst (λ p. Held from (wrap node o now Status.holding p))
                (sym (recover_first stable t o.source_id now d starts (ground arith)))
                (wrap-none node o now from (start_candidate o.source_id now t)
                  (h.0, le→leb from now low))
          | inr goes ↦
              subst (λ p. Held from (wrap node o now Status.holding p))
                (sym (
                  recover_next stable t o.source_id now d goes
                  ∙ ap (λ b. (if b then some d else none, t))
                      (too_soon stable now from (t.stamps Stamp.recovery_candidate_since) h.1 low
                        high)))
                (wrap-none node o now from t h)
        ]

observe-Held :
    (stable : ℕ) (node : String) (ts : List String) (o : Observation) (now from : ℕ) (s : Session)
    → Held from s
    → (from ≤ now)
    → (now < from + stable)
    → Held from (observe stable node ts o now s)
unfolding Held
observe-Held stable node ts o now from s h low high =
    let t : Session = append_ingest_events node o now ts s in
    let e = appended node o now ts s in
    subst (Held from) (sym (observe_holding stable node ts o now s h.0)) (
      recover-Held stable node o t now from (recovery_decision (facts_of o))
        (e.0 ∙ h.0, ap (λ f. since_at_least from (f Stamp.recovery_candidate_since)) e.1 ∙ h.1) low
        high)

all-Held :
    (stable from : ℕ) (node : String) (rs : Reports) (s : Session)
    → Held from s
    → are_within from stable rs ≡ true
    → Held from (observe_all stable node rs s)
unfolding observe_all are_within
all-Held stable from node [] s held h = held
all-Held stable from node (((now, ts), o) ∷ rs) s held h =
    let low : from ≤ now = leb→le from now (ground arith) in
    all-Held stable from node rs _
      (observe-Held stable node ts o now from s held low
        (ltb→lt now (from + stable) (ground arith)))
      (ground arith)

-- A Session that is HOLDING without a candidate stays HOLDING through any reports, good or bad, of
-- which none comes before `from` and none at `from + stable` or later.
pub observe_all-holds :
    (stable from : ℕ) (node : String) (rs : Reports) (s : Session)
    → s.status ≡ Status.holding
    → s.stamps Stamp.recovery_candidate_since ≡ none
    → are_within from stable rs ≡ true
    → (observe_all stable node rs s).status ≡ Status.holding
unfolding Held since_at_least
observe_all-holds stable from node rs s held fresh h =
    (all-Held stable from node rs s (held, ap (since_at_least from) fresh) h).0
