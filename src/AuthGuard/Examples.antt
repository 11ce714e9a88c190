-- ===== src/AuthGuard/Examples.antt =====
-- The theorem on apps/control-api/ingest_auth_guard.py for a credential that fails three times, and runs
-- of its calls.
use irlight.Base.{◌+◌, ◌*◌, ◌≡◌, refl, true, ℕ, List, [], ◌∷◌, ltb, arith}
use irlight.Session.Value.{second}
use irlight.AuthGuard.Bucket.{
  IngestAuthGuardConfig, new_bucket, prune_bucket, is_locked, fail_bucket, locks_bucket,
}
use irlight.AuthGuard.Guard.{
  Scope, Spec, Guard, compact_buckets, live_buckets, drop_oldest, decision,
}
use irlight.AuthGuard.Calls.{record_failure, fail_each, append_event}
use irlight.AuthGuard.Bounded.{IsGuard, Write, write_all, write_all-IsGuard}
use irlight.AuthGuard.Lockout.{fail_all, fail_all-locked}

abbrev config : IngestAuthGuardConfig
config = record {
  enabled = true;
  failure_window = 60 * second;
  max_failures_per_ip = 20;
  max_failures_per_credential = 3;
  lockout = 120 * second;
  event_limit = 200;
  bucket_limit = 4096;
  blocked_event_interval = 5 * second;
}

fail_all-locked_example :
    is_locked (100 * second) (
      prune_bucket config
        (100 * second)
        (fail_all config 3 (1 * second ∷ 2 * second ∷ 9 * second ∷ []) (new_bucket (1 * second))))
    ≡ ltb (100 * second) (9 * second + 120 * second)
fail_all-locked_example =
    fail_all-locked config 3 (1 * second) (2 * second ∷ 9 * second ∷ []) (100 * second)
      (omega arith) (omega arith, (omega arith, omega arith)) (omega arith)

abbrev spec : Spec
spec = record { scope = Scope.credential; key = "credential:00"; limit = 1 }

abbrev empty : Guard
empty = record { buckets = []; events = []; next_sequence = 1 }

-- One failure with a limit of one locks the credential.
one_failure_lem :
    (record_failure config (spec ∷ []) (1 * second) [] empty).0
    ≡ record { locked_scopes = Scope.credential ∷ []; retry_after_seconds = 120 }
unfolding record_failure compact_buckets live_buckets drop_oldest decision fail_each fail_bucket
    locks_bucket prune_bucket append_event
one_failure_lem = refl

abbrev calls : List (ℕ × Write)
calls =
    (1 * second, Write.failure (spec ∷ []) [])
    ∷ (2 * second, Write.blocked (spec ∷ []) [])
    ∷ (3 * second, Write.success "credential:00")
    ∷ []

write_all-IsGuard_example : IsGuard config (write_all config empty calls)
write_all-IsGuard_example = write_all-IsGuard config calls empty (omega arith, omega arith, tt)
