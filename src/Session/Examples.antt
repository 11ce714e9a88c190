-- ===== src/Session/Examples.antt =====
-- The theorems on apps/control-api/session_store.py at concrete Sessions.
use irlight.Base.{
  ℕ, ◌+◌, ◌*◌, ◌≤◌, ◌≡◌, refl, inl, ◌⊎◌, true, false, none, some, [], ◌∷◌, String, arith,
}
use irlight.Base.Dict.{lookup}
use irlight.Base.Int.{pos}
use irlight.Session.Status.{Status}
use irlight.Session.Value.{
  Raw, ok, err, Error, ◌>>=◌, validated_timestamp, derived_timestamp, absolute_deadline,
  lease_offset, second,
}
use irlight.Session.Record.{
  Session, State, Lease, Scope, Change, apply_changes, validate_changes, TextField, new_session,
  blank_session,
}
use irlight.Session.Disk.{Step, empty_state}
use irlight.Session.Leases.{
  Readings, active_cleanup_lease, reject_active_cleanup_lease, claim_session_cleanup,
  claim_orphan_cleanup, session_cleanup_still_owned, lease_until, cleanup_states,
}
use irlight.Session.Prepare.{
  occupies, reserve, reserve_prepare_slot, PrepareArgs, bind_request, begin_prepare,
  get_prepare_replay,
}
use irlight.Session.Provision.{
  claim_provisioning, provisioning_checkpoint, claimed, stopping, request_stop,
}
use irlight.Session.Bound.{begin_prepare-replay, begin_prepare-conflict}
use irlight.Session.Exclusion.{claim_session_cleanup-lasts, claim_session_cleanup-excludes}
use irlight.Session.Ownership.{claim_provisioning-excludes, checkpoint-request_stop}
use irlight.Session.Slots.{slots, begin_prepare-slots, reserve_prepare_slot-slots}
use irlight.Session.Takeover.{claim_session_cleanup-passes}

abbrev at : ℕ → Raw
at n = Raw.number (pos n)

abbrev readings : ℕ → String → Readings
readings n fresh = record { lease_clock = at n; new_clock = at n; clock = at n; fresh_id = fresh }

abbrev request : PrepareArgs
request = record {
  user_id = "alice";
  environment = "prod";
  entitlement_id = "ent-1";
  max_concurrent_sessions = pos 1;
  destination_id = some "dest-1";
  egress_mode = "DIRECT_PUSH";
  idempotency_key = "key-1";
}

abbrev stopped_session : Session
stopped_session = blank_session "s-1" "alice" "prod" "DIRECT_PUSH" 0 none

abbrev bound : Session
bound =
    bind_request request 5
      (blank_session "s-1" "alice" "prod" "DIRECT_PUSH" 5 (some 43_200_000_005))

abbrev bound_state : State
bound_state = record empty_state { sessions = ("s-1", bound) ∷ [] }

prepared_lem :
    begin_prepare "s-1" request (readings 5 "u-1") empty_state
    ≡ ok (Step.save (bound, false) bound_state)
unfolding begin_prepare reject_active_cleanup_lease active_cleanup_lease new_session
    validated_timestamp absolute_deadline derived_timestamp ◌>>=◌
prepared_lem = refl

no_lease :
    (id : String) (clock : Raw) (st : State)
    → lookup id st.leases ≡ none
    → reject_active_cleanup_lease st id clock ≡ ok tt
unfolding reject_active_cleanup_lease active_cleanup_lease ◌>>=◌
no_lease id clock st h = rw h

no_changes : validate_changes [] ≡ ok tt
unfolding validate_changes
no_changes = refl

begin_prepare-slots_example : slots "alice" bound_state.sessions ≤ 1
begin_prepare-slots_example =
    begin_prepare-slots "s-1" request (readings 5 "u-1") empty_state tt (bound, false) bound_state
      prepared_lem

begin_prepare-replay_example :
    (false ≡ false)
    × (get_prepare_replay "s-1" request bound_state ≡ ok (Step.keep (some bound)))
    × (begin_prepare "s-1" request (readings 9 "u-2") bound_state ≡ ok (Step.keep (bound, true)))
begin_prepare-replay_example =
    begin_prepare-replay "s-1" request (readings 5 "u-1") empty_state bound false bound_state
      (readings 9 "u-2") prepared_lem refl (no_lease "s-1" (at 9) bound_state refl)

abbrev other_request : PrepareArgs
other_request = record request { egress_mode = "RELAY" }

begin_prepare-conflict_example :
    begin_prepare "s-1" other_request (readings 9 "u-2") bound_state ≡ err Error.invalid_transition
begin_prepare-conflict_example =
    begin_prepare-conflict "s-1" request (readings 5 "u-1") empty_state other_request bound false
      bound_state (readings 9 "u-2") prepared_lem refl refl (no_lease "s-1" (at 9) bound_state refl)
      (inl refl)

-- A Session in STOPPING, and the lease that a cleanup of it takes.
abbrev stopping_state : State
stopping_state = record empty_state {
  sessions = ("s-1", record bound { status = Status.stopping }) ∷ [];
}

abbrev taken : Lease
taken = lease_until "l-1" (Scope.session cleanup_states) 10 (10 + 60 * second)

abbrev leased_state : State
leased_state = record stopping_state { leases = ("s-1", taken) ∷ [] }

leased_lem :
    claim_session_cleanup "s-1" [] (at (60 * second)) (readings 10 "l-1") stopping_state
    ≡ ok (Step.save (some "l-1") leased_state)
unfolding claim_session_cleanup active_cleanup_lease validated_timestamp derived_timestamp
    lease_offset ◌>>=◌
leased_lem = refl

claim_session_cleanup-lasts_example :
    (l : Lease) × (lookup "s-1" leased_state.leases ≡ some l)
    × (l.lease_id ≡ "l-1")
    × (l.created_at + second ≤ l.expires_at)
claim_session_cleanup-lasts_example =
    claim_session_cleanup-lasts "s-1" [] (at (60 * second)) (readings 10 "l-1") stopping_state
      leased_state "l-1" leased_lem

claim_session_cleanup-excludes_example :
    (session_cleanup_still_owned "s-1" "l-1" (at 20) leased_state ≡ ok (Step.keep true))
    × (claim_session_cleanup "s-1" [] (at second) (readings 20 "l-2") leased_state
        ≡ ok (Step.keep none))
    × (claim_orphan_cleanup "s-1" "vm-1" "server" (at second) (readings 20 "l-2") leased_state
        ≡ ok (Step.keep none))
    × (claim_provisioning "s-1" "op-1" (at 20) (readings 20 "l-2") leased_state
        ≡ err Error.orphan_cleanup_in_progress)
    × (begin_prepare "s-1" request (readings 20 "l-2") leased_state
        ≡ err Error.orphan_cleanup_in_progress)
claim_session_cleanup-excludes_example =
    claim_session_cleanup-excludes "s-1" [] (at (60 * second)) (readings 10 "l-1") stopping_state
      leased_state "l-1" taken (readings 20 "l-2") 20 [] (at second) "vm-1" "server" "op-1" 20
      request leased_lem refl refl (omega arith) refl

abbrev stopped_state : State
stopped_state = record empty_state { sessions = ("s-1", stopped_session) ∷ [] }

abbrev provisioning_session : Session
provisioning_session = claimed "op-1" 20 20 stopped_session

abbrev provisioning_state : State
provisioning_state = record empty_state { sessions = ("s-1", provisioning_session) ∷ [] }

claimed_lem :
    claim_provisioning "s-1" "op-1" (at 20) (readings 20 "l-2") stopped_state
    ≡ ok (Step.save provisioning_session provisioning_state)
unfolding claim_provisioning reject_active_cleanup_lease active_cleanup_lease validated_timestamp
    ◌>>=◌
claimed_lem = refl

claim_provisioning-excludes_example :
    (claim_provisioning "s-1" "op-2" (at 30) (readings 30 "l-3") provisioning_state
      ≡ err Error.provisioning_in_progress)
    × (provisioning_checkpoint "s-1" "op-2"
          (some Status.bootstrapping)
          false
          []
          (at 30)
          provisioning_state
        ≡ err Error.provisioning_in_progress)
claim_provisioning-excludes_example =
    claim_provisioning-excludes "s-1" "op-1" "op-2" (at 20) (readings 20 "l-2") stopped_state
      provisioning_state provisioning_session 30 (readings 30 "l-3") (some Status.bootstrapping)
      false [] (at 30) claimed_lem refl refl (no_lease "s-1" (at 30) provisioning_state refl)
      no_changes

abbrev cancelled_session : Session
cancelled_session = stopping 40 provisioning_session

abbrev cancelled_state : State
cancelled_state = record empty_state { sessions = ("s-1", cancelled_session) ∷ [] }

abbrev volume : Change
volume = Change.text TextField.provider_volume_id (some "vol-1")

abbrev reported_session : Session
reported_session = record (apply_changes (volume ∷ []) cancelled_session) { updated_at = 50 }

abbrev reported_state : State
reported_state = record empty_state { sessions = ("s-1", reported_session) ∷ [] }

cancelled_lem :
    request_stop "s-1" (at 40) provisioning_state ≡ ok (Step.save cancelled_session cancelled_state)
unfolding request_stop validated_timestamp ◌>>=◌
cancelled_lem = refl

reported_lem :
    provisioning_checkpoint "s-1" "op-1"
      (some Status.bootstrapping)
      true
      (volume ∷ [])
      (at 50)
      cancelled_state
    ≡ ok (Step.save reported_session reported_state)
unfolding provisioning_checkpoint validate_changes validated_timestamp ◌>>=◌
reported_lem = refl

checkpoint-request_stop_example :
    (lookup "s-1" reported_state.sessions ≡ some reported_session)
    × (reported_session.status ≡ Status.stopping)
checkpoint-request_stop_example =
    checkpoint-request_stop "s-1" "op-1" (at 40) (at 50) provisioning_state cancelled_state
      reported_state cancelled_session reported_session (some Status.bootstrapping) true
      (volume ∷ []) cancelled_lem reported_lem

-- The lease ran out, and another worker claims the cleanup.
claim_session_cleanup-passes_example :
    (st'' : State) × (claim_session_cleanup "s-1" []
        (at (60 * second))
        (readings (100 * second) "l-2")
        leased_state
      ≡ ok (Step.save (some "l-2") st''))
    × (session_cleanup_still_owned "s-1" "l-2" (at (100 * second)) st'' ≡ ok (Step.keep true))
    × (session_cleanup_still_owned "s-1" "l-1" (at (100 * second)) st'' ≡ ok (Step.keep false))
claim_session_cleanup-passes_example =
    claim_session_cleanup-passes "s-1" [] (at (60 * second)) (readings 10 "l-1") stopping_state
      leased_state "l-1" taken (readings (100 * second) "l-2") (100 * second) (100 * second)
      (pos (60 * second)) leased_lem refl refl (omega arith) refl refl

abbrev kept : Session
kept = reserve "ent-1" 9 bound

abbrev kept_state : State
kept_state = record empty_state { sessions = ("s-1", kept) ∷ [] }

kept_lem :
    reserve_prepare_slot "s-1" request (readings 9 "u-2") bound_state
    ≡ ok (Step.save kept kept_state)
unfolding reserve_prepare_slot reject_active_cleanup_lease active_cleanup_lease validated_timestamp
    ◌>>=◌
kept_lem = refl

reserve_prepare_slot-slots_example :
    (slots "alice" kept_state.sessions ≤ 1)
    ⊎ ((old : Session) × (lookup "s-1" bound_state.sessions ≡ some old)
        × (occupies old ≡ true)
        × (slots "alice" kept_state.sessions ≡ slots "alice" bound_state.sessions))
reserve_prepare_slot-slots_example =
    reserve_prepare_slot-slots "s-1" request (readings 9 "u-2") bound_state (refl, tt) kept
      kept_state kept_lem
