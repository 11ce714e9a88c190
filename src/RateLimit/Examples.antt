-- ===== src/RateLimit/Examples.antt =====
-- The theorems on apps/control-api/auth_rate_limit.py for a key that used up its burst window.
use irlight.Base.{◌-◌, ◌*◌, ◌≤◌, refl, [], ◌∷◌, arith}
use irlight.Session.Value.{second}
use irlight.RateLimit.Config.{Window, AuthRateLimitConfig, by_window}
use irlight.RateLimit.Attempt.{Windows, Table}
use irlight.RateLimit.Quota.{admissions, admissions-quota}

abbrev config : AuthRateLimitConfig
config = record {
  limit = by_window 2 30;
  span = by_window (60 * second) (600 * second);
  shard_count = 16;
  max_tracked_keys = 4096;
}

abbrev used : Windows
used =
    by_window (record { reset_at = 60 * second; count = 2 })
      (record { reset_at = 600 * second; count = 2 })

abbrev table : Table
table = ("k", used) ∷ []

admissions-quota_example :
    admissions config "k" (("k", 1 * second) ∷ ("j", 2 * second) ∷ ("k", 3 * second) ∷ []) table
    ≤ 2 - 2
admissions-quota_example =
    admissions-quota config "k" Window.burst
      (("k", 1 * second) ∷ ("j", 2 * second) ∷ ("k", 3 * second) ∷ []) table used refl
      (omega arith, (omega arith, (omega arith, tt)))
