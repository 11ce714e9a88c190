-- ===== src/AuthGuard/Guard.antt =====
-- `IngestAuthGuard` of apps/control-api/ingest_auth_guard.py: its buckets and events, how the buckets are
-- compacted, and what they decide.
use irlight.Base.{
  ℕ, suc, zero, ◌+◌, ◌-◌, ◌/◌, max, Bool, not, ◌&&◌, Option, none, some, List, [], ◌∷◌, ◌++◌,
  String, ltb, length, if◌then◌else◌,
}
use irlight.Base.Dict.{Dict, lookup, erase}
use irlight.AuthGuard.Bucket.{IngestAuthGuardConfig, Bucket, prune_bucket, is_locked}

pub data Scope : Type 0 where
  ip credential : Scope

-- A scope with the key of its bucket, and its limit of failures.
pub record Spec : Type 0 where
  pub scope : Scope
  pub key : String
  pub limit : ℕ

pub record AuthGuardDecision : Type 0 where
  pub locked_scopes : List Scope
  pub retry_after_seconds : ℕ

-- `blocked`.
abbrev pub is_blocked : AuthGuardDecision → Bool
is_blocked d = ltb 0 (length d.locked_scopes)

pub data EventType : Type 0 where
  auth_failed auth_blocked : EventType
  -- with `newly_locked_scopes`
  auth_locked : List Scope → EventType

-- An event; `client` stands for what the payload says of the client.
pub record Event : Type 0 where
  pub sequence : ℕ
  pub type : EventType
  pub occurred_at : ℕ
  pub client : Dict (Option String)
  pub decision : AuthGuardDecision

pub record Guard : Type 0 where
  pub buckets : Dict Bucket
  pub events : List Event
  pub next_sequence : ℕ

abbrev spec_of : (Scope → String → String) → Scope → ℕ → Option String → List Spec
spec_of bucket_key scope limit none = []
spec_of bucket_key scope limit (some value) =
    record { scope = scope; key = bucket_key scope value; limit = limit } ∷ []

-- `_scope_specs`, for an address and a name that were normalized. `bucket_key` is the scope with the
-- SHA-256 digest of the value.
unfoldable pub scope_specs :
    (Scope → String → String) → IngestAuthGuardConfig → Option String → Option String → List Spec
scope_specs bucket_key config address username =
    spec_of bucket_key Scope.ip config.max_failures_per_ip address
    ++ spec_of bucket_key Scope.credential config.max_failures_per_credential username

abbrev is_stale : Bucket → Bool
is_stale b = not (ltb 0 (length b.failures)) && not (ltb 0 b.locked_until)

-- The buckets that still count, pruned.
unfoldable pub live_buckets : IngestAuthGuardConfig → ℕ → Dict Bucket → Dict Bucket
unfolding prune_bucket
live_buckets config now [] = []
live_buckets config now ((k, b) ∷ rest) =
    let pruned = prune_bucket config now b in
    let others = live_buckets config now rest in
    if is_stale pruned then others else (k, pruned) ∷ others

abbrev pub older : String × Bucket → String × Bucket → String × Bucket
older (j, b) (k, c) = if ltb c.last_seen_at b.last_seen_at then (k, c) else (j, b)

-- The key that was seen least recently, the first of several.
unfoldable pub oldest : String × Bucket → Dict Bucket → String × Bucket
oldest first [] = first
oldest first (next ∷ rest) = oldest (older first next) rest

unfoldable pub without_oldest : Dict Bucket → Dict Bucket
unfolding oldest
without_oldest [] = []
without_oldest (first ∷ rest) = erase (oldest first rest).0 (first ∷ rest)

unfoldable pub drop_oldest : ℕ → Dict Bucket → Dict Bucket
unfolding without_oldest
drop_oldest zero buckets = buckets
drop_oldest (suc n) buckets = drop_oldest n (without_oldest buckets)

-- `_compact_buckets`.
unfoldable pub compact_buckets : IngestAuthGuardConfig → ℕ → Dict Bucket → Dict Bucket
unfolding live_buckets drop_oldest
compact_buckets config now buckets =
    let live = live_buckets config now buckets in
    drop_oldest (length live - config.bucket_limit) live

-- `max(1, math.ceil(locked_until - now))`.
abbrev pub seconds_left : ℕ → Bucket → ℕ
seconds_left now b = max 1 ((b.locked_until - now + 999_999) / 1_000_000)

abbrev add_scope : ℕ → Scope → Option Bucket → AuthGuardDecision → AuthGuardDecision
add_scope now scope none d = d
add_scope now scope (some b) d =
    if is_locked now b
    then record {
      locked_scopes = scope ∷ d.locked_scopes;
      retry_after_seconds = max (seconds_left now b) d.retry_after_seconds;
    }
    else d

-- `_decision`; its callers have pruned the buckets at the same time.
unfoldable pub decision : List Spec → ℕ → Dict Bucket → AuthGuardDecision
decision [] now buckets = record { locked_scopes = []; retry_after_seconds = 0 }
decision (s ∷ specs) now buckets =
    add_scope now s.scope (lookup s.key buckets) (decision specs now buckets)
