-- ===== src/Session/Lifecycle.antt =====
-- The lifecycle decisions of `apply_ingest_observation` (apps/control-api/session_store.py) against the
-- transition table of the same file.
use irlight.Base.{
  ℕ, ◌≡◌, refl, sym, ◌∙◌, subst, inl, inr, Option, none, some, List, [], ◌∷◌, String, arith,
  Bool-cases,
}
use irlight.Session.Status.{Status, =st_eq, ◌=st◌}
use irlight.Session.Record.{Session}
use irlight.Session.Events.{append_event_locked}
use irlight.Session.Ingest.{
  Observation, Facts, Decision, lifecycle_decision, recovery_decision, recovery_candidate_ready,
  decide, enact, observe, append_ingest_events, facts_of, recover,
}
use irlight.Session.Edges.{IsEdge}

-- A decision for a Session that is not HOLDING keeps its state or takes an edge of the table.
pub lifecycle_decision-IsEdge :
    (a : Status) (f : Facts) (d : Decision) → lifecycle_decision a f ≡ some d → IsEdge a d.target
unfolding lifecycle_decision
lifecycle_decision-IsEdge Status.stopped f d h = ground arith
lifecycle_decision-IsEdge _ f d h = ground arith

recovery_decision-IsEdge :
    (f : Facts) (d : Decision) → recovery_decision f ≡ some d → IsEdge Status.holding d.target
unfolding recovery_decision
recovery_decision-IsEdge f d h = ground arith

append_ingest_events-status :
    (node : String) (o : Observation) (now : ℕ) (ts : List String) (s : Session)
    → (append_ingest_events node o now ts s).status ≡ s.status
unfolding append_ingest_events append_event_locked
append_ingest_events-status node o now [] s = refl
append_ingest_events-status node o now (t ∷ ts) s = append_ingest_events-status node o now ts _

recover-status :
    (stable : ℕ) (s : Session) (source : Option String) (now : ℕ) (d : Option Decision)
    → (recover stable s source now d).1.status ≡ s.status
unfolding recovery_candidate_ready
recover-status stable s source now none = refl
recover-status stable s source now (some d) = ground arith

decide-status :
    (stable : ℕ) (s : Session) (f : Facts) (source : Option String) (now : ℕ)
    → (decide stable s f source now).1.status ≡ s.status
unfolding decide
decide-status stable s f source now =
    ground (arith, recover-status stable s source now (recovery_decision f))

pub recover-decision :
    (stable : ℕ) (s : Session) (source : Option String) (now : ℕ) (o : Option Decision)
    (d : Decision)
    → (recover stable s source now o).0 ≡ some d
    → o ≡ some d
unfolding recovery_candidate_ready
recover-decision stable s source now none d h = cc
recover-decision stable s source now (some e) d h = ground arith

decide-IsEdge :
    (stable : ℕ) (s : Session) (f : Facts) (source : Option String) (now : ℕ) (d : Decision)
    → (decide stable s f source now).0 ≡ some d
    → IsEdge s.status d.target
unfolding decide
decide-IsEdge stable s f source now d h = elim (Bool-cases (s.status =st Status.holding)) [
  | inl holding ↦
      subst (λ (a : Status). IsEdge a d.target) (sym (=st_eq s.status Status.holding holding))
        (recovery_decision-IsEdge f d
          (recover-decision stable s source now (recovery_decision f) d (ground arith)))
  | inr other ↦ lifecycle_decision-IsEdge s.status f d (ground arith)
]

enact-status :
    (node : String) (o : Observation) (a : Status) (now : ℕ) (d : Option Decision) (s : Session)
    → s.status ≡ a
    → ((e : Decision) → d ≡ some e → IsEdge a e.target)
    → IsEdge a (enact node o a now d s).status
unfolding enact append_event_locked
enact-status node o a now none s e h = inl (ground arith)
enact-status node o a now (some d) s e h = elim (Bool-cases (d.target =st a)) [
  | inl same ↦ inl (ground arith)
  | inr other ↦ subst (IsEdge a) {x = d.target} (ground arith) (h d refl)
]

-- One report of the Node moves a Session at most one edge.
pub observe-IsEdge :
    (stable : ℕ) (node : String) (ts : List String) (o : Observation) (now : ℕ) (s : Session)
    → IsEdge s.status (observe stable node ts o now s).status
unfolding observe
observe-IsEdge stable node ts o now s =
    let s' : Session = append_ingest_events node o now ts s in
    let same : s'.status ≡ s.status = append_ingest_events-status node o now ts s in
    enact-status node o s.status now _ _
      (decide-status stable s' (facts_of o) o.source_id now ∙ same)
      (λ d e. subst (λ (a : Status). IsEdge a d.target) same (decide-IsEdge stable s' _ _ now d e))
