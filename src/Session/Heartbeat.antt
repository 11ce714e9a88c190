-- ===== src/Session/Heartbeat.antt =====
-- Heartbeats of apps/control-api/session_store.py against older ones, older boots and the reaper.
use irlight.Base.{
  ℕ, ◌<◌, ◌≡◌, refl, Bool, true, false, not, ◌&&◌, Option, none, some, List, [], ◌∷◌, ◌++◌, String,
  arith, lt→ltb,
}
use irlight.Base.Dict.{lookup, lookup-insert_self}
use irlight.Base.Int.{pos}
use irlight.Base.Text.{◌=s◌, ◌=?◌}
use irlight.Session.Status.{Status, is_in, parse_status, active_states}
use irlight.Session.Value.{Raw, ok, ◌>>=◌, validated_timestamp}
use irlight.Session.Record.{
  Session, State, Stamp, TextField, Change, Expected, ◌=n?◌, matches_fields, validate_changes,
}
use irlight.Session.Disk.{Step}
use irlight.Session.Node.{
  bind_node, record_node_heartbeat, accepts_heartbeat, is_later, beat, beaten,
}
use irlight.Session.Provision.{transition_if_current, request_stop_if_current, still_current}
use irlight.Session.Outcome.{Saves, keeps, saves, bind-Saves, found-Saves, guard-Saves, Saves-elim}

-- The Session that an accepted heartbeat stores.
abbrev Beats : String → ℕ → Bool → State → Type 0
Beats id t answer st' =
    (s : Session) × (lookup id st'.sessions ≡ some s)
    × (s.stamps Stamp.node_last_heartbeat_at ≡ some t)

beaten-stamp :
    (t : ℕ) (ready : Bool) (s : Session)
    → (beaten t ready s).stamps Stamp.node_last_heartbeat_at ≡ some t
beaten-stamp t ready s = ground arith

beat-Beats :
    (id : String) (t : ℕ) (ready : Bool) (st : State) (o : Option Session) (accepted : Bool)
    → Saves (Beats id t) (beat st id o accepted t ready)
beat-Beats id t ready st none accepted = keeps false
beat-Beats id t ready st (some s) false = keeps false
beat-Beats id t ready st (some s) true =
    saves _ _ (_, lookup-insert_self id _ st.sessions, beaten-stamp t ready s)

heartbeat-Beats :
    (id node boot : String) (t : ℕ) (ready : Bool) (st : State)
    → Saves (Beats id t) (record_node_heartbeat id node boot (Raw.number (pos t)) ready st)
unfolding record_node_heartbeat validated_timestamp ◌>>=◌
heartbeat-Beats id node boot t ready st = beat-Beats id t ready st _ _

beat_refused :
    (id : String) (t : ℕ) (ready : Bool) (st : State) (o : Option Session)
    → beat st id o false t ready ≡ ok (Step.keep false)
beat_refused id t ready st none = refl
beat_refused id t ready st (some s) = refl

-- A heartbeat that the stored Session does not accept writes nothing.
refused_by :
    (id node boot : String) (u : ℕ) (ready : Bool) (st : State) (s : Session)
    → lookup id st.sessions ≡ some s
    → accepts_heartbeat (some s) node boot u ≡ false
    → record_node_heartbeat id node boot (Raw.number (pos u)) ready st ≡ ok (Step.keep false)
unfolding record_node_heartbeat validated_timestamp ◌>>=◌
refused_by id node boot u ready st s there shut = rw (there, shut)

shut_and_next : (a b c : Bool) → (a && b && false && c) ≡ false
shut_and_next a b c = ground arith

shut_and : (a b c : Bool) → (a && b && c && false) ≡ false
shut_and a b c = ground arith

too_old :
    (node boot : String) (t u : ℕ) (s : Session)
    → s.stamps Stamp.node_last_heartbeat_at ≡ some t
    → (u < t)
    → accepts_heartbeat (some s) node boot u ≡ false
too_old node boot t u s beaten_at earlier =
    rw (beaten_at, lt→ltb u t earlier)
      (shut_and (is_in s.status active_states) (s.texts TextField.node_id =? some node)
        (s.texts TextField.node_boot_id =? some boot))

-- After an accepted heartbeat an earlier one, of any Node and boot, is refused and writes nothing.
pub record_node_heartbeat-monotone :
    (id node boot other again : String) (t u : ℕ) (ready late : Bool) (st st' : State)
    → record_node_heartbeat id node boot (Raw.number (pos t)) ready st ≡ ok (Step.save true st')
    → (u < t)
    → record_node_heartbeat id other again (Raw.number (pos u)) late st' ≡ ok (Step.keep false)
record_node_heartbeat-monotone id node boot other again t u ready late st st' h earlier =
    let (s, there, beaten_at) = Saves-elim true st' (heartbeat-Beats id node boot t ready st) h in
    refused_by id other again u late st' s there (too_old other again t u s beaten_at earlier)

bind_node-Binds :
    (id node boot server : String) (clock : Raw) (at : Option Raw) (st : State)
    → Saves
        (λ s st'. (lookup id st'.sessions ≡ some s) × (s.texts TextField.node_boot_id ≡ some boot))
        (bind_node id node boot server clock at st)
unfolding bind_node
bind_node-Binds id node boot server clock at st = bind-Saves _ _ λ now _.
    found-Saves _ _ _ λ s found.
      guard-Saves _ _ _
        λ _. guard-Saves _ _ _ λ _. saves _ _ (lookup-insert_self id _ st.sessions, refl)

other_boot :
    (from boot other : String) (u : ℕ) (s : Session)
    → s.texts TextField.node_boot_id ≡ some boot
    → (boot =s other) ≡ false
    → accepts_heartbeat (some s) from other u ≡ false
other_boot from boot other u s named differs =
    rw (named, differs)
      (shut_and_next (is_in s.status active_states) (s.texts TextField.node_id =? some from)
        (not (is_later (s.stamps Stamp.node_last_heartbeat_at) u)))

-- After a registration, heartbeats of another boot, at any checked time, are refused and write
-- nothing.
pub bind_node-fences :
    (id node boot server other from : String) (clock : Raw) (at : Option Raw) (u : ℕ) (ready : Bool)
    (st st' : State) (s : Session)
    → bind_node id node boot server clock at st ≡ ok (Step.save s st')
    → (boot =s other) ≡ false
    → record_node_heartbeat id from other (Raw.number (pos u)) ready st' ≡ ok (Step.keep false)
bind_node-fences id node boot server other from clock at u ready st st' s h differs =
    let (there, named) = Saves-elim s st' (bind_node-Binds id node boot server clock at st) h in
    refused_by id from other u ready st' s there (other_boot from boot other u s named differs)

-- The fields of a Session as the reaper read them, the last heartbeat among them.
abbrev pub snapshot : List Expected → Option ℕ → List Expected → List Expected
snapshot before old after = before ++ Expected.stamp Stamp.node_last_heartbeat_at old ∷ after

shut_last : (a : Bool) → (a && false) ≡ false
shut_last a = ground arith

mismatch :
    (before : List Expected) (old : Option ℕ) (after : List Expected) (t : ℕ) (s : Session)
    → s.stamps Stamp.node_last_heartbeat_at ≡ some t
    → (some t =n? old) ≡ false
    → matches_fields s (snapshot before old after) ≡ false
unfolding matches_fields
mismatch [] old after t s beaten_at differs = rw (beaten_at, differs)
mismatch (e ∷ es) old after t s beaten_at differs =
    rw (mismatch es old after t s beaten_at differs) (shut_last _)

outdated :
    (before : List Expected) (old : Option ℕ) (after : List Expected) (t : ℕ)
    (allowed : List Status) (s : Session)
    → s.stamps Stamp.node_last_heartbeat_at ≡ some t
    → (some t =n? old) ≡ false
    → still_current allowed (snapshot before old after) (some s) ≡ false
outdated before old after t allowed s beaten_at differs =
    rw (mismatch before old after t s beaten_at differs) (shut_last (is_in s.status allowed))

-- After an accepted heartbeat, the reaper's conditional stop and transition do nothing, where they
-- expect another time of the last heartbeat than the one that it stored, the target state exists
-- and the changes are checked.
pub record_node_heartbeat-overtakes :
    (id node boot name : String) (t : ℕ) (ready : Bool) (st st' : State) (before : List Expected)
    (old : Option ℕ) (after : List Expected) (expected target : Status) (allowed : List Status)
    (cs : List Change) (clock : Raw)
    → record_node_heartbeat id node boot (Raw.number (pos t)) ready st ≡ ok (Step.save true st')
    → (some t =n? old) ≡ false
    → parse_status name ≡ some target
    → validate_changes cs ≡ ok tt
    → (request_stop_if_current id expected (snapshot before old after) clock st'
        ≡ ok (Step.keep none))
      × (transition_if_current id name allowed (snapshot before old after) cs clock st'
          ≡ ok (Step.keep none))
unfolding request_stop_if_current transition_if_current ◌>>=◌
record_node_heartbeat-overtakes id node boot name t ready st st' before old after expected target
      allowed cs clock h differs named fine =
    let (s, there, beaten_at) = Saves-elim true st' (heartbeat-Beats id node boot t ready st) h in
    (
      rw (there, outdated before old after t (expected ∷ []) s beaten_at differs),
      rw (named, fine, there, outdated before old after t allowed s beaten_at differs),
    )
