-- ===== src/AuthGuard/Bucket.antt =====
-- One bucket of apps/control-api/ingest_auth_guard.py: the failures of an address or of a credential, and
-- its lockout. Seconds are millionths, as in the Session store.
use irlight.Base.{
  ℕ, ◌+◌, max, min, Bool, not, ◌&&◌, Option, none, some, List, [], ◌∷◌, ◌++◌, ltb, leb, length,
  if◌then◌else◌,
}
use irlight.Session.Value.{Raw, second}
use irlight.Base.Int.{pos}

pub record IngestAuthGuardConfig : Type 0 where
  pub enabled : Bool
  pub failure_window : ℕ
  pub max_failures_per_ip : ℕ
  pub max_failures_per_credential : ℕ
  pub lockout : ℕ
  pub event_limit : ℕ
  pub bucket_limit : ℕ
  pub blocked_event_interval : ℕ

-- `_env_int` and `_env_float` on what the variable reads as, which is the default where it does not.
abbrev pub clamped : ℕ → ℕ → ℕ → ℕ
clamped low high value = min high (max low value)

-- `last_blocked_event_at` may be missing.
pub record Bucket : Type 0 where
  pub failures : List ℕ
  pub locked_until : ℕ
  pub last_seen_at : ℕ
  pub last_blocked_event_at : Option ℕ

-- `_runtime_timestamp`; an error is `none`.
abbrev pub runtime_timestamp : Raw → Option ℕ
runtime_timestamp (Raw.number (pos n)) = some n
runtime_timestamp _ = none

abbrev pub new_bucket : ℕ → Bucket
new_bucket now = record {
  failures = [];
  locked_until = 0;
  last_seen_at = now;
  last_blocked_event_at = none;
}

-- `cutoff <= timestamp <= now + 1.0`.
abbrev pub counts_at : ℕ → ℕ → ℕ → Bool
counts_at window now t = leb now (t + window) && leb t (now + second)

abbrev pub keep : (ℕ → Bool) → List ℕ → List ℕ
keep p [] = []
keep p (t ∷ ts) = let rest = keep p ts in if p t then t ∷ rest else rest

abbrev pub lock_expired : ℕ → Bucket → Bool
lock_expired now b = ltb 0 b.locked_until && leb b.locked_until now

-- `_prune_bucket`.
unfoldable pub prune_bucket : IngestAuthGuardConfig → ℕ → Bucket → Bucket
prune_bucket config now b =
    if lock_expired now b
    then record b { failures = []; locked_until = 0 }
    else record b { failures = keep (λ t. counts_at config.failure_window now t) b.failures }

-- `locked_until > now`.
abbrev pub is_locked : ℕ → Bucket → Bool
is_locked now b = ltb now b.locked_until

abbrev pub with_failure : IngestAuthGuardConfig → ℕ → ℕ → Bucket → Bucket
with_failure config limit now b =
    let failures = b.failures ++ now ∷ [] in
    record b {
      failures = failures;
      last_seen_at = now;
      locked_until =
          if not (is_locked now b) && leb limit (length failures)
          then now + config.lockout
          else b.locked_until;
    }

-- What `record_failure` does to a bucket.
unfoldable pub fail_bucket : IngestAuthGuardConfig → ℕ → ℕ → Bucket → Bucket
unfolding prune_bucket
fail_bucket config limit now b = with_failure config limit now (prune_bucket config now b)

-- Whether it locked the bucket.
unfoldable pub locks_bucket : IngestAuthGuardConfig → ℕ → ℕ → Bucket → Bool
unfolding prune_bucket
locks_bucket config limit now b =
    let pruned = prune_bucket config now b in
    not (is_locked now pruned) && leb limit (length (pruned.failures ++ now ∷ []))
