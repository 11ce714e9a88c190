-- ===== src/Session/Reach.antt =====
-- The states that a Session of apps/control-api/session_store.py can reach over any history of calls.
use irlight.Base.{
  ℕ, ◌≡◌, refl, sym, ◌∙◌, ap, subst, ◌⊎◌, inl, inr, Bool, true, false, Option, none, some, List, [],
  ◌∷◌, String, arith, All, Bool-cases,
}
use irlight.Base.Dict.{Dict, lookup}
use irlight.Session.Status.{Status, is_in, parse_status, terminal_states}
use irlight.Session.Value.{Raw, Result, ok, err, Error}
use irlight.Session.Record.{Session, State, Scope, Lease}
use irlight.Session.Disk.{
  Disk, Content, Op, Step, load, persist, locked, finish, mark_initialized, valid_payload,
  payload_of,
}
use irlight.Session.Leases.{
  Readings, claim_orphan_cleanup, claim_session_cleanup, release_orphan_cleanup,
  release_session_cleanup, grant, grant_unless, status_in, or_default, release_if,
}
use irlight.Session.Provision.{stoppable}
use irlight.Session.Outcome.{keeps, saves, fails, bind-Saves, if-Saves}
use irlight.Session.Edges.{IsEdge, Follows-refl}
use irlight.Session.Moves.{
  Leads, AllowsEdges, update-Follows, append_event-Follows, claim_provisioning-Follows,
  provisioning_checkpoint-Follows, request_stop-Follows, request_stop_if_current-Follows,
  update_if_current-Follows, transition-Follows, transition_if_current-Follows,
}
use irlight.Session.NodeMoves.{
  bind_node-Follows, record_node_heartbeat-Follows, apply_ingest_observation-Follows,
  apply_relay_client_observation-Follows, set_audio_desired-Follows, create-Follows,
  reserve_prepare_slot-Follows, begin_prepare-Follows,
}
use irlight.Session.History.{Call, perform, forget, run, stored, stored_in}

forget-Leads : {A : Type 0} (st : State) {r : Result (Step A)} → Leads st r → Leads st (forget r)
forget-Leads st (fails e) = fails e
forget-Leads st (keeps a) = keeps tt
forget-Leads st (saves a t p) = saves tt t p

-- What the callers of the store keep to: a state that is expected to stop may stop, and a given
-- `allow_from` agrees with the table.
abbrev pub IsSanctioned : Call → Type 0
IsSanctioned (Call.stops_if_current id a es clock) = is_in a stoppable ≡ true
IsSanctioned (Call.moves id name allow cs clock) =
    (target : Status) → parse_status name ≡ some target → AllowsEdges allow target
IsSanctioned (Call.moves_if_current id name allow es cs clock) =
    (target : Status) → parse_status name ≡ some target → AllowsEdges (some allow) target
IsSanctioned _ = Unit

grant-Leads :
    (st : State) (id : String) (scope : Scope) (r : Readings) (secs : Raw) (o : Option Lease)
    → Leads st (grant_unless o (grant st id scope r secs))
grant-Leads st id scope r secs none =
    bind-Saves _ _ λ _ _. bind-Saves _ _ λ _ _. bind-Saves _ _ λ _ _. saves _ _ (Follows-refl st)
grant-Leads st id scope r secs (some l) = keeps none

claim_orphan-Follows :
    (id res kind : String) (secs : Raw) (r : Readings) (st : State)
    → Leads st (claim_orphan_cleanup id res kind secs r st)
unfolding claim_orphan_cleanup
claim_orphan-Follows id res kind secs r st =
    if-Saves (status_in (lookup id st.sessions) terminal_states true) _ _
      (λ _. bind-Saves _ _ λ l _. grant-Leads st id (Scope.orphan res kind) r secs l)
      (λ _. keeps none)

claim_session-Follows :
    (id : String) (states : List Status) (secs : Raw) (r : Readings) (st : State)
    → Leads st (claim_session_cleanup id states secs r st)
unfolding claim_session_cleanup
claim_session-Follows id states secs r st =
    if-Saves (status_in (lookup id st.sessions) (or_default states) false) _ _
      (λ _. bind-Saves _ _ λ l _. grant-Leads st id (Scope.session (or_default states)) r secs l)
      (λ _. keeps none)

release-Leads : (st : State) (id : String) (b : Bool) → Leads st (ok (release_if b id st))
release-Leads st id true = saves tt _ (Follows-refl st)
release-Leads st id false = keeps tt

perform-Follows :
    (stable : ℕ) (c : Call) (st : State) → IsSanctioned c → Leads st (perform stable c st)
unfolding perform release_orphan_cleanup release_session_cleanup
perform-Follows stable (Call.creates id user env egress hours r) st h =
    forget-Leads st (create-Follows _ _ _ _ _ _ st)
perform-Follows stable (Call.reserves id a r) st h =
    forget-Leads st (reserve_prepare_slot-Follows _ _ _ st)
perform-Follows stable (Call.begins id a r) st h = forget-Leads st (begin_prepare-Follows _ _ _ st)
perform-Follows stable (Call.updates id cs clock) st h = forget-Leads st (update-Follows _ _ _ st)
perform-Follows stable (Call.claims_provisioning id op t r) st h =
    forget-Leads st (claim_provisioning-Follows _ _ _ _ st)
perform-Follows stable (Call.checkpoints id op n c cs clock) st h =
    forget-Leads st (provisioning_checkpoint-Follows _ _ _ _ _ _ st)
perform-Follows stable (Call.stops id clock) st h = forget-Leads st (request_stop-Follows _ _ st)
perform-Follows stable (Call.stops_if_current id a es clock) st h =
    forget-Leads st (request_stop_if_current-Follows _ _ _ _ st h)
perform-Follows stable (Call.appends id e clock at) st h =
    forget-Leads st (append_event-Follows _ _ _ _ st)
perform-Follows stable (Call.sets_audio id m v k o c clock at) st h =
    forget-Leads st (set_audio_desired-Follows _ _ _ _ _ _ _ _ st)
perform-Follows stable (Call.binds id n b s clock at) st h =
    forget-Leads st (bind_node-Follows _ _ _ _ _ _ st)
perform-Follows stable (Call.beats id n b at ready) st h =
    forget-Leads st (record_node_heartbeat-Follows _ _ _ _ _ st)
perform-Follows stable (Call.updates_if_current id a es e cs clock) st h =
    forget-Leads st (update_if_current-Follows _ _ _ _ _ _ st)
perform-Follows stable (Call.observes id n ts o clock at) st h =
    forget-Leads st (apply_ingest_observation-Follows _ _ _ _ _ _ _ st)
perform-Follows stable (Call.relays id n ts o clock) st h =
    forget-Leads st (apply_relay_client_observation-Follows _ _ _ _ _ st)
perform-Follows stable (Call.moves id name allow cs clock) st h =
    forget-Leads st (transition-Follows _ _ _ _ _ st h)
perform-Follows stable (Call.moves_if_current id name allow es cs clock) st h =
    forget-Leads st (transition_if_current-Follows _ _ _ _ _ _ st h)
perform-Follows stable (Call.claims_orphan id res kind secs r) st h =
    forget-Leads st (claim_orphan-Follows _ _ _ _ _ st)
perform-Follows stable (Call.claims_session id states secs r) st h =
    forget-Leads st (claim_session-Follows _ _ _ _ st)
perform-Follows stable (Call.releases_orphan id lease) st h =
    forget-Leads st (release-Leads st id _)
perform-Follows stable (Call.releases_session id lease) st h =
    forget-Leads st (release-Leads st id _)

-- Any number of edges.
data Reaches (a : Status) : Status → Type 0 where
  here : Reaches a a
  edge : {b c : Status} → Reaches a b → IsEdge b c → Reaches a c

-- The Sessions of the file after a transaction, against those before it.
abbrev After : Dict Session → Dict Session → Type 0
After old new =
    (key : String) (s : Session)
    → lookup key old ≡ some s
    → (s' : Session) × (lookup key new ≡ some s') × IsEdge s.status s'.status

After-refl : (d : Dict Session) → After d d
After-refl d key s found = (s, found, inl refl)

finish-After :
    (st : State) (d : Disk) (r : Result (Step (Unit {0})))
    → Leads st r
    → stored d ≡ st.sessions
    → After st.sessions (stored (finish d r).1)
unfolding persist
finish-After st d r (fails e) same = subst (After st.sessions) (sym same) (After-refl st.sessions)
finish-After st d r (keeps a) same = subst (After st.sessions) (sym same) (After-refl st.sessions)
finish-After st d r (saves a st' p) same = elim (Bool-cases (valid_payload (payload_of st'))) [
  | inl fine ↦ rw fine p
  | inr bad ↦ rw bad (subst (After st.sessions) (sym same) (After-refl st.sessions))
]

enter-After :
    (op : Op (Unit {0})) (d : Disk)
    → ((st : State) → Leads st (op st))
    → (file : Option Content) → d.file ≡ file
    → After (stored_in file) (stored (locked op d).1)
unfolding locked load
enter-After op d h none e = λ key s found. cc
enter-After op d h (some Content.broken) e = λ key s found. cc
enter-After op d h (some (Content.payload p)) e = elim (Bool-cases (valid_payload p)) [
  | inl fine ↦
      let st : State = record { sessions = p.sessions; leases = p.leases; authoritative = true } in
      let entered : locked op d ≡ finish (mark_initialized d) (op st) = ground arith in
      rw entered (finish-After st (mark_initialized d) (op st) (h st) (ap stored_in e))
  | inr bad ↦
      let refused : locked op d ≡ (err Error.state_error, d) = ground arith in
      rw (refused, e) (After-refl p.sessions)
]

-- Every Session that the file held it still holds, one edge on at most.
locked-After :
    (op : Op (Unit {0})) (d : Disk)
    → ((st : State) → Leads st (op st))
    → After (stored d) (stored (locked op d).1)
locked-After op d h = enter-After op d h d.file refl

Reaches-edge : {a b c : Status} → IsEdge a b → Reaches b c → Reaches a c
Reaches-edge e here = edge here e
Reaches-edge e (edge r f) = edge (Reaches-edge e r) f

-- The Session under a key through a history: after every call it is in the file, and its state is the one
-- before that call or one edge on.
unfoldable pub Walks : ℕ → String → List Call → Disk → Session → Type 0
Walks stable key [] d s = Unit
Walks stable key (c ∷ cs) d s =
    let d' = (locked (perform stable c) d).1 in
    (s' : Session) × (lookup key (stored d') ≡ some s')
    × IsEdge s.status s'.status
    × Walks stable key cs d' s'

-- Over any history of sanctioned calls, a Session that the file holds is there after every call, in
-- the state that it had before that call or one edge on: a move of the transition table, or the
-- retry that takes a bootstrapping Session back to PROVISIONING.
pub run-Walks :
    (stable : ℕ) (cs : List Call) (d : Disk)
    → All IsSanctioned cs
    → (key : String) (s : Session) → lookup key (stored d) ≡ some s
    → Walks stable key cs d s
unfolding Walks
run-Walks stable [] d all key s found = tt
run-Walks stable (c ∷ cs) d all key s found =
    let (t, found', e) =
      locked-After (perform stable c) d (λ st. perform-Follows stable c st all.0) key s found in
    (t, found', e, run-Walks stable cs (locked (perform stable c) d).1 all.1 key t found')

-- The whole walk, from the first state to the last.
walk-Reaches :
    (stable : ℕ) (cs : List Call) (d : Disk) (key : String) (s : Session)
    → lookup key (stored d) ≡ some s
    → Walks stable key cs d s
    → (s' : Session) × (lookup key (stored (run stable cs d)) ≡ some s')
      × Reaches s.status s'.status
unfolding run Walks
walk-Reaches stable [] d key s found w = (s, found, here)
walk-Reaches stable (c ∷ cs) d key s found (t, found', e, w) =
    let (u, last, r) = walk-Reaches stable cs (locked (perform stable c) d).1 key t found' w in
    (u, last, Reaches-edge e r)

abbrev IsOver : Status → Type 0
IsOver a = (a ≡ Status.finished) ⊎ (a ≡ Status.failed)

over_edge : (a b : Status) → IsOver a → IsEdge a b → a ≡ b
over_edge Status.stopped b o e = ground arith
over_edge _ b o e = ground arith

over_Reaches : {a b : Status} → IsOver a → Reaches a b → a ≡ b
over_Reaches o here = refl
over_Reaches {a} o (edge {b = b} {c = c} r e) =
    let same : a ≡ b = over_Reaches o r in same ∙ over_edge b c (subst IsOver same o) e

-- A Session that is FINISHED or FAILED keeps that state over any history of sanctioned calls.
pub run_over :
    (stable : ℕ) (cs : List Call) (d : Disk)
    → All IsSanctioned cs
    → (key : String) (s : Session) → lookup key (stored d) ≡ some s
    → (s.status ≡ Status.finished) ⊎ (s.status ≡ Status.failed)
    → (s' : Session) × (lookup key (stored (run stable cs d)) ≡ some s') × (s'.status ≡ s.status)
run_over stable cs d all key s found o =
    let (t, last, r) =
      walk-Reaches stable cs d key s found (run-Walks stable cs d all key s found) in
    (t, last, sym (over_Reaches o r))
