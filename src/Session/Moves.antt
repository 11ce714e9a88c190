-- ===== src/Session/Moves.antt =====
-- The transactions of apps/control-api/session_store.py that write a Session, by the edges of the
-- transition table.
use irlight.Base.{
  ℕ, ◌≡◌, refl, sym, ◌∙◌, subst, inl, inr, Bool, true, false, not, Option, none, some, List, [],
  ◌∷◌, String, arith, Bool-cases,
}
use irlight.Base.Dict.{lookup}
use irlight.Session.Status.{Status, is_in, transitions, parse_status, terminal_states, is_in_single}
use irlight.Session.Value.{Result, ok, Raw, ◌>>=◌}
use irlight.Session.Record.{Session, State, Change, Expected, apply_changes}
use irlight.Session.Disk.{Step}
use irlight.Session.Events.{Entry, append_event, append_event_locked}
use irlight.Session.Leases.{Readings}
use irlight.Session.Provision.{
  AuditEvent, update, claim_provisioning, provisionable, provisioning_checkpoint, unless_cancelled,
  request_stop, stoppable, request_stop_if_current, update_if_current, transition,
  transition_if_current, may_move, moved, still_current, if_current, append_audit,
}
use irlight.Session.Outcome.{
  or_raise-ok, Saves, keeps, saves, bind-Saves, found-Saves, guard-Saves, if-Saves,
}
use irlight.Session.Edges.{IsEdge, Follows, put-Follows, apply_changes-status}

abbrev pub Leads : {A : Type 0} → State → Result (Step A) → Type 0
Leads {A} st = Saves (λ _ st'. Follows st st')

pub update-Follows :
    (id : String) (cs : List Change) (clock : Raw) (st : State) → Leads st (update id cs clock st)
unfolding update
update-Follows id cs clock st = bind-Saves _ _ λ _ _. found-Saves _ _ _ λ s found.
    bind-Saves _ _
      λ now _. saves _ _ (put-Follows st id s _ found (inl (sym (apply_changes-status cs s))))

pub append_event-Follows :
    (id : String) (e : Entry) (clock : Raw) (at : Option Raw) (st : State)
    → Leads st (append_event id e clock at st)
unfolding append_event append_event_locked
append_event-Follows id e clock at st =
    bind-Saves _ _
      λ now _. found-Saves _ _ _ λ s found. saves _ _ (put-Follows st id s _ found (inl refl))

claim-IsEdge : (a : Status) → not (is_in a provisionable) ≡ false → IsEdge a Status.provisioning
claim-IsEdge Status.stopped h = ground arith
claim-IsEdge _ h = ground arith

pub claim_provisioning-Follows :
    (id op : String) (started : Raw) (r : Readings) (st : State)
    → Leads st (claim_provisioning id op started r st)
unfolding claim_provisioning
claim_provisioning-Follows id op started r st = bind-Saves _ _ λ t _. bind-Saves _ _ λ _ _.
    found-Saves _ _ _ λ s found. guard-Saves _ _ _ λ allowed. guard-Saves _ _ _ λ _.
      bind-Saves _ _
        λ now _. saves _ _ (put-Follows st id s _ found (claim-IsEdge s.status allowed))

unless_cancelled-IsEdge :
    (next : Option Status) (complete : Bool) (s t : Session)
    → unless_cancelled next complete s ≡ ok t
    → IsEdge s.status t.status
unfolding ◌>>=◌
unless_cancelled-IsEdge none true s t h = ground arith
unless_cancelled-IsEdge none false s t h = ground arith
unless_cancelled-IsEdge (some n) true s t h = ground arith
unless_cancelled-IsEdge (some n) false s t h = ground arith

pub provisioning_checkpoint-Follows :
    (id op : String) (next : Option Status) (complete : Bool) (cs : List Change) (clock : Raw)
    (st : State)
    → Leads st (provisioning_checkpoint id op next complete cs clock st)
unfolding provisioning_checkpoint
provisioning_checkpoint-Follows id op next complete cs clock st = bind-Saves _ _ λ _ _.
    found-Saves _ _ _ λ s found. guard-Saves _ _ _ λ _. bind-Saves _ _ λ now _.
      bind-Saves _ _ λ t e. saves _ _ (
        put-Follows st id s _ found (
          subst (λ (a : Status). IsEdge a t.status) (apply_changes-status cs s)
            (unless_cancelled-IsEdge next complete (apply_changes cs s) t e)))

stop-IsEdge : (a : Status) → is_in a stoppable ≡ true → IsEdge a Status.stopping
stop-IsEdge Status.stopped h = ground arith
stop-IsEdge _ h = ground arith

pub negation_false : (b : Bool) → not b ≡ false → b ≡ true
negation_false true h = refl
negation_false false h = cc

pub request_stop-Follows :
    (id : String) (clock : Raw) (st : State) → Leads st (request_stop id clock st)
unfolding request_stop
request_stop-Follows id clock st = found-Saves _ _ _ λ s found.
    if-Saves (is_in s.status terminal_states) _ _ (λ _. keeps s)
      (λ _. guard-Saves _ _ _ λ bad. bind-Saves _ _ λ now _.
        saves _ _ (put-Follows st id s _ found (stop-IsEdge s.status (negation_false _ bad))))

pub if_current-Leads :
    (st : State) (id : String) (allowed : List Status) (expected : List Expected)
    (f : Session → Result (Step (Option Session)))
    → ((s : Session)
        → lookup id st.sessions ≡ some s
        → is_in s.status allowed ≡ true
        → Leads st (f s))
    → (o : Option Session) → lookup id st.sessions ≡ o
    → Leads st (if_current o (still_current allowed expected o) f)
if_current-Leads st id allowed expected f h none e = keeps none
if_current-Leads st id allowed expected f h (some s) e =
    elim (Bool-cases (still_current allowed expected (some s))) [
      | inl current ↦ rw current (h s e (ground arith))
      | inr stale ↦ rw stale (keeps none)
    ]

-- `request_stop_if_current` for a state that may stop.
pub request_stop_if_current-Follows :
    (id : String) (a : Status) (expected : List Expected) (clock : Raw) (st : State)
    → is_in a stoppable ≡ true
    → Leads st (request_stop_if_current id a expected clock st)
unfolding request_stop_if_current
request_stop_if_current-Follows id a expected clock st ha =
    if_current-Leads st id (a ∷ []) expected _
      (λ s found at. bind-Saves _ _ λ now _. saves _ _ (
        put-Follows st id s _ found (
          stop-IsEdge s.status (
            subst (λ (b : Status). is_in b stoppable ≡ true) (sym (is_in_single s.status a at))
              ha))))
      (lookup id st.sessions) refl

append_audit-status :
    (e : Option AuditEvent) (at : ℕ) (s : Session) → (append_audit s e at).status ≡ s.status
unfolding append_event_locked
append_audit-status none at s = refl
append_audit-status (some e) at s = refl

pub update_if_current-Follows :
    (id : String) (a : Status) (expected : List Expected) (e : Option AuditEvent) (cs : List Change)
    (clock : Raw) (st : State)
    → Leads st (update_if_current id a expected e cs clock st)
unfolding update_if_current
update_if_current-Follows id a expected e cs clock st = bind-Saves _ _ λ _ _.
    if_current-Leads st id (a ∷ []) expected _
      (λ s found _. bind-Saves _ _ λ now _. bind-Saves _ _ λ at _. saves _ _ (
        put-Follows st id s _ found
          (inl (sym (append_audit-status e at (apply_changes cs s) ∙ apply_changes-status cs s)))))
      (lookup id st.sessions) refl

-- Where `allow_from` is given, each of its states has the edge.
abbrev pub AllowsEdges : Option (List Status) → Status → Type 0
AllowsEdges none target = Unit
AllowsEdges (some allow_from) target =
    (a : Status) → is_in a allow_from ≡ true → is_in target (transitions a) ≡ true

move-IsEdge :
    (allow : Option (List Status)) (a target : Status)
    → AllowsEdges allow target
    → not (may_move allow a target) ≡ false
    → IsEdge a target
move-IsEdge none a target edges h = inr (inl (negation_false _ h))
move-IsEdge (some allow_from) a target edges h = inr (inl (edges a (negation_false _ h)))

moved-status :
    (target : Status) (cs : List Change) (now : ℕ) (s : Session)
    → (moved target cs now s).status ≡ target
moved-status Status.stopped cs now s = refl
moved-status _ cs now s = refl

-- `transition`, where the given `allow_from` agrees with the table.
pub transition-Follows :
    (id name : String) (allow : Option (List Status)) (cs : List Change) (clock : Raw) (st : State)
    → ((target : Status) → parse_status name ≡ some target → AllowsEdges allow target)
    → Leads st (transition id name allow cs clock st)
unfolding transition
transition-Follows id name allow cs clock st edges = bind-Saves _ _ λ target e.
    bind-Saves _ _ λ _ _. found-Saves _ _ _ λ s found. guard-Saves _ _ _ λ may.
      bind-Saves _ _ λ now _. saves _ _ (
        put-Follows st id s _ found (
          subst (IsEdge s.status) (sym (moved-status target cs now s))
            (move-IsEdge allow s.status target (edges target (or_raise-ok _ _ e)) may)))

pub transition_if_current-Follows :
    (id name : String) (allow_from : List Status) (expected : List Expected) (cs : List Change)
    (clock : Raw) (st : State)
    → ((target : Status) → parse_status name ≡ some target → AllowsEdges (some allow_from) target)
    → Leads st (transition_if_current id name allow_from expected cs clock st)
unfolding transition_if_current
transition_if_current-Follows id name allow_from expected cs clock st edges =
    bind-Saves _ _ λ target e. bind-Saves _ _ λ _ _.
      if_current-Leads st id allow_from expected _
        (λ s found at. bind-Saves _ _ λ now _. saves _ _ (
          put-Follows st id s _ found (
            subst (IsEdge s.status) (sym (moved-status target cs now s))
              (inr (inl (edges target (or_raise-ok _ _ e) s.status at))))))
        (lookup id st.sessions) refl
