-- ===== src/RateLimit/Config.antt =====
-- `AuthRateLimitConfig` of apps/control-api/auth_rate_limit.py. Seconds are millionths, as in the Session
-- store.
use irlight.Base.{ℕ, ◌*◌, ◌≤◌, ◌||◌, Option, none, some, ltb, if◌then◌else◌}
use irlight.Base.Int.{pos}
use irlight.Session.Value.{Raw, second}

-- The two fixed windows of a key.
pub data Window : Type 0 where
  burst sustained : Window

-- `windows` gives the limit and the length of each.
pub record AuthRateLimitConfig : Type 0 where
  pub limit : Window → ℕ
  pub span : Window → ℕ
  pub shard_count : ℕ
  pub max_tracked_keys : ℕ

abbrev pub between : ℕ → ℕ → Raw → Option ℕ
between low high (Raw.number (pos n)) = if ltb n low || ltb high n then none else some n
between low high _ = none

-- The bounds that `__post_init__` checks, in their units: attempts, windows, shards, keys.
abbrev pub validated_limit : Raw → Option ℕ
validated_limit r = between 1 10_000 r

abbrev pub validated_window : Raw → Option ℕ
validated_window r = between second (86_400 * second) r

abbrev pub by_window {ℓ} : {A : Type ℓ} → A → A → Window → A
by_window x y Window.burst = x
by_window x y Window.sustained = y

infixl 5 ◌>>=◌
abbrev ◌>>=◌ : {A B : Type 0} → Option A → (A → Option B) → Option B
none >>= k = none
some a >>= k = k a

-- `AuthRateLimitConfig(...)`; a ValueError is `none`. Counts are given as whole numbers, windows as
-- millionths of a second.
unfoldable pub auth_rate_limit_config :
    Raw → Raw → Raw → Raw → Raw → Raw → Option AuthRateLimitConfig
auth_rate_limit_config burst_limit sustained_limit burst_window sustained_window shards tracked = do
  a ← validated_limit burst_limit
  b ← validated_limit sustained_limit
  c ← validated_window burst_window
  d ← validated_window sustained_window
  e ← between 1 256 shards
  f ← between 1 65_536 tracked
  some (record {
    limit = by_window a b;
    span = by_window c d;
    shard_count = e;
    max_tracked_keys = f;
  })

-- What the checks leave.
pub record IsValid (config : AuthRateLimitConfig) : Type 0 where
  pub limits : (v : Window) → 1 ≤ config.limit v
  pub tracks : 1 ≤ config.max_tracked_keys
