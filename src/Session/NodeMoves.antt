-- ===== src/Session/NodeMoves.antt =====
-- The transactions of apps/control-api/session_store.py that Nodes, operators and prepare requests cause, by
-- the edges of the transition table.
use irlight.Base.{
  ℕ, ◌≡◌, refl, sym, inl, Bool, true, false, not, Option, none, some, List, [], ◌∷◌, String, arith,
  if◌then◌else◌, ◌==◌,
}
use irlight.Base.Dict.{lookup}
use irlight.Base.Int.{ℤ}
use irlight.Base.Text.{◌=?◌, ◌=s◌}
use irlight.Session.Status.{Status, is_in, active_states, =st_eq}
use irlight.Session.Value.{Raw, ok, DesiredMode}
use irlight.Session.Record.{Session, State, TextField}
use irlight.Session.Disk.{Step}
use irlight.Session.Events.{put_session, append_event_locked}
use irlight.Session.Leases.{Readings}
use irlight.Session.Prepare.{
  PrepareArgs, create, stored_or, reserve_prepare_slot, reserve_slot, reserve_new, or_new,
  begin_prepare, begin_slot, begin_new, replay_or, occupies, is_finished, same_request,
  configured_request, request_of,
}
use irlight.Session.Ingest.{Observation, apply_ingest_observation}
use irlight.Session.Media.{set_audio_desired, command_audio, audio_or_default, same_mode}
use irlight.Session.Node.{
  bind_node, record_node_heartbeat, beat, beaten, RelayObservation, apply_relay_client_observation,
  append_relay_events,
}
use irlight.Session.Outcome.{
  Saves, keeps, saves, fails, bind-Saves, found-Saves, guard-Saves, if-Saves,
}
use irlight.Session.Edges.{IsEdge, Follows, put-Follows, put_new-Follows}
use irlight.Session.Moves.{Leads}
use irlight.Session.Lifecycle.{observe-IsEdge}

pub bind_node-Follows :
    (id node boot server : String) (clock : Raw) (at : Option Raw) (st : State)
    → Leads st (bind_node id node boot server clock at st)
unfolding bind_node
bind_node-Follows id node boot server clock at st = bind-Saves _ _ λ now _.
    found-Saves _ _ _ λ s found.
      guard-Saves _ _ _
        λ _. guard-Saves _ _ _ λ _. saves _ _ (put-Follows st id s _ found (inl refl))

beaten-IsEdge : (now : ℕ) (ready : Bool) (s : Session) → IsEdge s.status (beaten now ready s).status
beaten-IsEdge now ready s = ground (arith, =st_eq s.status Status.bootstrapping)

beat-Follows :
    (st : State) (id : String) (now : ℕ) (ready accepted : Bool) (o : Option Session)
    → lookup id st.sessions ≡ o
    → Leads st (beat st id o accepted now ready)
beat-Follows st id now ready true (some s) e =
    saves true _ (put-Follows st id s _ e (beaten-IsEdge now ready s))
beat-Follows st id now ready true none e = keeps false
beat-Follows st id now ready false (some s) e = keeps false
beat-Follows st id now ready false none e = keeps false

pub record_node_heartbeat-Follows :
    (id node boot : String) (at : Raw) (ready : Bool) (st : State)
    → Leads st (record_node_heartbeat id node boot at ready st)
unfolding record_node_heartbeat
record_node_heartbeat-Follows id node boot at ready st =
    bind-Saves _ _ λ now _. beat-Follows st id now ready _ (lookup id st.sessions) refl

pub save_if-Saves :
    {P : Session → State → Type 0} (b : Bool) (new old : Session) (st : State)
    → P new st
    → Saves P (ok (if b then Step.save new st else Step.keep old))
save_if-Saves true new old st p = saves new st p
save_if-Saves false new old st p = keeps old

pub apply_ingest_observation-Follows :
    (stable : ℕ) (id node : String) (ts : List String) (o : Observation) (clock : Raw)
    (at : Option Raw) (st : State)
    → Leads st (apply_ingest_observation stable id node ts o clock at st)
unfolding apply_ingest_observation
apply_ingest_observation-Follows stable id node ts o clock at st = bind-Saves _ _ λ now _.
    found-Saves _ _ _ λ s found. guard-Saves _ _ _ λ _.
      save_if-Saves (is_in s.status active_states) _ _ _
        (put-Follows st id s _ found (observe-IsEdge stable node ts o now s))

append_relay_events-status :
    (node : String) (o : RelayObservation) (at : Option ℕ) (now : ℕ) (ts : List String)
    (s : Session)
    → (append_relay_events node o at now ts s).status ≡ s.status
unfolding append_relay_events append_event_locked
append_relay_events-status node o at now [] s = refl
append_relay_events-status node o at now (t ∷ ts) s = append_relay_events-status node o at now ts _

pub apply_relay_client_observation-Follows :
    (id node : String) (ts : List String) (o : RelayObservation) (clock : Raw) (st : State)
    → Leads st (apply_relay_client_observation id node ts o clock st)
unfolding apply_relay_client_observation
apply_relay_client_observation-Follows id node ts o clock st = bind-Saves _ _ λ now _.
    bind-Saves _ _ λ at _. found-Saves _ _ _ λ s found. guard-Saves _ _ _ λ _.
      save_if-Saves (is_in s.status active_states) _ _ _
        (put-Follows st id s _ found (inl (sym (append_relay_events-status node o at now ts s))))

command-Follows :
    (id : String) (m : DesiredMode) (v : ℕ) (key operator command : String) (now : ℕ) (s : Session)
    (st : State)
    → lookup id st.sessions ≡ some s
    → Leads st (command_audio id m v key operator command now s st)
unfolding command_audio append_event_locked
command-Follows id m v key operator command now s st found =
    let a = audio_or_default s.media_control now in
    if-Saves (a.idempotency_key =? some key) _ _
      (λ _. if-Saves (same_mode a.desired_mode m) _ _ (λ _. keeps _) (λ _. fails _))
      (λ _.
        if-Saves (not (v == a.version)) _ _ (λ _. fails _)
          (λ _. saves _ _ (put-Follows st id s _ found (inl refl))))

pub set_audio_desired-Follows :
    (id mode : String) (version : ℤ) (key operator command : String) (clock : Raw) (at : Option Raw)
    (st : State)
    → Leads st (set_audio_desired id mode version key operator command clock at st)
unfolding set_audio_desired
set_audio_desired-Follows id mode version key operator command clock at st = bind-Saves _ _ λ m _.
    bind-Saves _ _ λ v _. guard-Saves _ _ _ λ _. bind-Saves _ _ λ now _.
      found-Saves _ _ _
        λ s found. guard-Saves _ _ _ λ _. command-Follows id m v key operator command now s st found

stored_or-Follows :
    (st : State) (id : String) (new : Session) (o : Option Session)
    → lookup id st.sessions ≡ o
    → Leads st (ok (stored_or o id new st))
stored_or-Follows st id new none e = saves new _ (put_new-Follows st id new e)
stored_or-Follows st id new (some s) e = keeps s

pub create-Follows :
    (id user env egress : String) (hours : Raw) (r : Readings) (st : State)
    → Leads st (create id user env egress hours r st)
unfolding create
create-Follows id user env egress hours r st =
    bind-Saves _ _
      λ s _. bind-Saves _ _ λ _ _. stored_or-Follows st id _ (lookup id st.sessions) refl

anew-Follows :
    (id env egress : String) (a : PrepareArgs) (r : Readings) (o : Option Session) (st : State)
    (s : Session)
    → lookup id st.sessions ≡ o
    → or_new o id a.user_id env egress r ≡ ok s
    → (new : Session) → new.status ≡ s.status
    → Follows st (put_session st id new)
anew-Follows id env egress a r none st s free e new same = put_new-Follows st id new free
anew-Follows id env egress a r (some old) st s found e new same =
    put-Follows st id old new found (inl (ground arith))

reserve_new-Follows :
    (id : String) (a : PrepareArgs) (r : Readings) (o : Option Session) (st : State)
    → lookup id st.sessions ≡ o
    → Leads st (reserve_new id a r o st)
reserve_new-Follows id a r o st e = guard-Saves _ _ _ λ _. bind-Saves _ _ λ s drawn.
    bind-Saves _ _
      λ now _. saves _ _ (anew-Follows id a.environment "DIRECT_PUSH" a r o st s e drawn _ refl)

begin_new-Follows :
    (id : String) (a : PrepareArgs) (r : Readings) (o : Option Session) (st : State)
    → lookup id st.sessions ≡ o
    → Leads st (begin_new id a r o st)
begin_new-Follows id a r o st e = guard-Saves _ _ _ λ _. bind-Saves _ _ λ s drawn.
    bind-Saves _ _
      λ now _. saves _ _ (anew-Follows id a.environment a.egress_mode a r o st s e drawn _ refl)

reserve_slot-Follows :
    (id : String) (a : PrepareArgs) (r : Readings) (o : Option Session) (st : State)
    → lookup id st.sessions ≡ o
    → Leads st (reserve_slot id a r o st)
reserve_slot-Follows id a r none st e = reserve_new-Follows id a r none st e
reserve_slot-Follows id a r (some s) st e =
    if-Saves (not (s.user_id =s a.user_id)) _ _ (λ _. fails _)
      (λ _.
        if-Saves (is_finished s.status) _ _ (λ _. keeps _)
          (λ _.
            if-Saves (occupies s) _ _
              (λ _. bind-Saves _ _ λ now _. saves _ _ (put-Follows st id s _ e (inl refl)))
              (λ _. reserve_new-Follows id a r (some s) st e)))

begin_slot-Follows :
    (id : String) (a : PrepareArgs) (r : Readings) (o : Option Session) (st : State)
    → lookup id st.sessions ≡ o
    → Leads st (begin_slot id a r o st)
begin_slot-Follows id a r none st e = begin_new-Follows id a r none st e
begin_slot-Follows id a r (some s) st e =
    if-Saves (not (s.user_id =s a.user_id)) _ _ (λ _. fails _)
      (λ _.
        if-Saves (is_finished s.status) _ _ (λ _. fails _)
          (λ _. replay_or-Follows (s.texts TextField.idempotency_key)))
  where
    replay_or-Follows :
        (key : Option String) → Leads st (replay_or a s key (begin_new id a r (some s) st))
    replay_or-Follows none = begin_new-Follows id a r (some s) st e
    replay_or-Follows (some key) =
        if-Saves (not (same_request (configured_request s) (request_of a))) _ _ (λ _. fails _)
          (λ _. if-Saves (not (key =s a.idempotency_key)) _ _ (λ _. fails _) (λ _. keeps _))

pub reserve_prepare_slot-Follows :
    (id : String) (a : PrepareArgs) (r : Readings) (st : State)
    → Leads st (reserve_prepare_slot id a r st)
unfolding reserve_prepare_slot
reserve_prepare_slot-Follows id a r st =
    guard-Saves _ _ _
      λ _. bind-Saves _ _ λ _ _. reserve_slot-Follows id a r (lookup id st.sessions) st refl

pub begin_prepare-Follows :
    (id : String) (a : PrepareArgs) (r : Readings) (st : State) → Leads st (begin_prepare id a r st)
unfolding begin_prepare
begin_prepare-Follows id a r st =
    guard-Saves _ _ _
      λ _. bind-Saves _ _ λ _ _. begin_slot-Follows id a r (lookup id st.sessions) st refl
