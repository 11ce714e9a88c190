-- ===== src/AuthGuard/Calls.antt =====
-- The calls of `IngestAuthGuard` in apps/control-api/ingest_auth_guard.py that read and change its buckets
-- and events under the file lock.
use irlight.Base.{
  ℕ, ◌+◌, Bool, true, false, not, ◌&&◌, Option, none, some, List, [], ◌∷◌, ◌++◌, String, leb,
  take_last, if◌then◌else◌,
}
use irlight.Base.Dict.{Dict, lookup, insert, erase}
use irlight.AuthGuard.Bucket.{
  IngestAuthGuardConfig, Bucket, new_bucket, is_locked, fail_bucket, locks_bucket,
}
use irlight.AuthGuard.Guard.{
  Scope, Spec, AuthGuardDecision, is_blocked, EventType, Guard, compact_buckets, decision,
}

-- `_append_event`.
unfoldable pub append_event :
    IngestAuthGuardConfig → EventType → ℕ → Dict (Option String) → AuthGuardDecision → Guard → Guard
append_event config type now client d g = record g {
  events = take_last config.event_limit (
      g.events
      ++ (record {
        sequence = g.next_sequence;
        type = type;
        occurred_at = now;
        client = client;
        decision = d;
      })
        ∷ []);
  next_sequence = g.next_sequence + 1;
}

abbrev found_or_new : ℕ → Option Bucket → Bucket
found_or_new now none = new_bucket now
found_or_new now (some b) = b

-- The loop of `record_failure`: the buckets, and the newly locked scopes, sorted, as `scope_specs` has
-- the address first.
unfoldable pub fail_each :
    IngestAuthGuardConfig → List Spec → ℕ → Dict Bucket → Dict Bucket × List Scope
unfolding fail_bucket locks_bucket
fail_each config [] now buckets = (buckets, [])
fail_each config (s ∷ specs) now buckets =
    let b = found_or_new now (lookup s.key buckets) in
    let rest =
      fail_each config specs now (insert s.key (fail_bucket config s.limit now b) buckets) in
    (rest.0, if locks_bucket config s.limit now b then rest.1 ++ s.scope ∷ [] else rest.1)

unfoldable pub append_locked :
    IngestAuthGuardConfig
    → List Scope
    → ℕ
    → Dict (Option String)
    → AuthGuardDecision
    → Guard
    → Guard
unfolding append_event
append_locked config [] now client d g = g
append_locked config (s ∷ ss) now client d g =
    append_event config (EventType.auth_locked (s ∷ ss)) now client d g

abbrev pub no_decision : AuthGuardDecision
no_decision = record { locked_scopes = []; retry_after_seconds = 0 }

-- `check`.
unfoldable pub check : IngestAuthGuardConfig → List Spec → ℕ → Guard → AuthGuardDecision
unfolding compact_buckets decision
check config specs now g =
    if config.enabled
    then decision specs now (compact_buckets config now g.buckets)
    else no_decision

-- What a call returns, with the guard that it persists, if it does.
abbrev pub Call : Type 0
Call = AuthGuardDecision × Option Guard

unfoldable pub failed_call :
    IngestAuthGuardConfig → ℕ → Dict (Option String) → Guard → AuthGuardDecision → List Scope → Call
unfolding append_event append_locked
failed_call config now client g d newly = (
  d,
  some (
      append_locked config newly now client d
        (append_event config EventType.auth_failed now client d g)),
)

-- `record_failure`.
unfoldable pub record_failure :
    IngestAuthGuardConfig → List Spec → ℕ → Dict (Option String) → Guard → Call
unfolding compact_buckets decision fail_each failed_call
record_failure config specs now client g =
    let failed = fail_each config specs now (compact_buckets config now g.buckets) in
    let buckets = compact_buckets config now failed.0 in
    if config.enabled
    then failed_call config now client (record g { buckets = buckets }) (decision specs now buckets)
        failed.1
    else (no_decision, none)

abbrev number_or_zero : Option ℕ → ℕ
number_or_zero none = 0
number_or_zero (some n) = n

-- A locked bucket that had no event of a blocked attempt for the interval.
abbrev is_due : IngestAuthGuardConfig → ℕ → Bucket → Bool
is_due config now b =
    is_locked now b
    && leb (number_or_zero b.last_blocked_event_at + config.blocked_event_interval) now

abbrev pub mark_due :
    IngestAuthGuardConfig → ℕ → String → Option Bucket → Dict Bucket × Bool → Dict Bucket × Bool
mark_due config now key none marked = marked
mark_due config now key (some b) marked =
    if is_due config now b
    then (insert key (record b { last_blocked_event_at = some now }) marked.0, true)
    else marked

-- The buckets of the specs that are due, marked, and whether there are any.
unfoldable pub mark_each : IngestAuthGuardConfig → List Spec → ℕ → Dict Bucket → Dict Bucket × Bool
mark_each config [] now buckets = (buckets, false)
mark_each config (s ∷ specs) now buckets =
    mark_due config now s.key (lookup s.key buckets) (mark_each config specs now buckets)

-- `record_blocked`.
unfoldable pub record_blocked :
    IngestAuthGuardConfig → List Spec → ℕ → Dict (Option String) → Guard → Call
unfolding compact_buckets decision mark_each append_event
record_blocked config specs now client g =
    let buckets = compact_buckets config now g.buckets in
    let d = decision specs now buckets in
    let marked = mark_each config specs now buckets in
    if not config.enabled
    then (no_decision, none)
    else if is_blocked d && marked.1
    then (
      d,
      some (
          append_event config EventType.auth_blocked now client d
            (record g { buckets = marked.0 })),
    )
    else (d, none)

abbrev pub is_some : Option Bucket → Bool
is_some none = false
is_some (some b) = true

-- `record_success` for the bucket of a credential: the guard that is persisted, if one is.
unfoldable pub record_success : IngestAuthGuardConfig → String → ℕ → Guard → Option Guard
unfolding compact_buckets
record_success config key now g =
    if config.enabled && is_some (lookup key g.buckets)
    then some (record g { buckets = compact_buckets config now (erase key g.buckets) })
    else none
