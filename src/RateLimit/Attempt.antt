-- ===== src/RateLimit/Attempt.antt =====
-- `_register_attempt` of apps/control-api/auth_rate_limit.py, with what it calls.
use irlight.Base.{
  ℕ, ◌+◌, ◌-◌, ◌/◌, max, min, Bool, true, false, not, ◌&&◌, ◌||◌, Option, none, some, [], ◌∷◌,
  String, length, ◌==◌, leb, if◌then◌else◌,
}
use irlight.Base.Dict.{Dict, lookup, insert}
use irlight.RateLimit.Config.{Window, AuthRateLimitConfig}

-- A record of a window.
pub record Count : Type 0 where
  pub reset_at : ℕ
  pub count : ℕ

-- The list of the two records of a key.
abbrev pub Windows : Type 0
Windows = Window → Count

abbrev pub Table : Type 0
Table = Dict Windows

abbrev pub is_over : ℕ → Count → Bool
is_over now c = leb c.reset_at now

-- `all(record["reset_at"] <= now for record in keys[stored_key])`.
abbrev pub is_expired : ℕ → Windows → Bool
is_expired now ws = is_over now (ws Window.burst) && is_over now (ws Window.sustained)

-- `_purge_expired`.
unfoldable pub purge_expired : Table → ℕ → Table
purge_expired [] now = []
purge_expired ((k, ws) ∷ keys) now =
    let rest = purge_expired keys now in if is_expired now ws then rest else (k, ws) ∷ rest

-- `max(1, math.ceil(until - now))` in whole seconds.
unfoldable pub delay : ℕ → ℕ → ℕ
delay until now = max 1 ((until - now + 999_999) / 1_000_000)

abbrev pub last_reset : Windows → ℕ
last_reset ws = max (ws Window.burst).reset_at (ws Window.sustained).reset_at

abbrev pub smaller : ℕ → Option ℕ → ℕ
smaller n none = n
smaller n (some m) = min n m

-- `min(...)` over the keys; `none` is the ValueError of `min` without arguments.
unfoldable pub earliest : Table → Option ℕ
earliest [] = none
earliest ((k, ws) ∷ keys) = some (smaller (last_reset ws) (earliest keys))

-- Whether the attempt is admitted, or after how many seconds it may be tried again.
pub data Answer : Type 0 where
  admitted : Answer
  denied : ℕ → Answer
  crashed : Answer

-- `_earliest_release`.
unfoldable pub earliest_release : Option ℕ → ℕ → Answer
unfolding delay
earliest_release none now = crashed
earliest_release (some until) now = denied (delay until now)

pub record Outcome : Type 0 where
  pub keys : Table
  pub answer : Answer
  pub changed : Bool

-- A window that is over starts anew.
abbrev pub refreshed : ℕ → ℕ → Count → Count
refreshed now span c = if is_over now c then record { reset_at = now + span; count = 0 } else c

abbrev pub refresh : AuthRateLimitConfig → ℕ → Windows → Windows
refresh config now ws v = refreshed now (config.span v) (ws v)

abbrev pub is_full : AuthRateLimitConfig → Windows → Window → Bool
is_full config ws v = leb (config.limit v) (ws v).count

-- `blocked_until`.
abbrev pub reset_of : Bool → Count → ℕ
reset_of true c = c.reset_at
reset_of false c = 0

abbrev pub blocked_until : AuthRateLimitConfig → Windows → ℕ
blocked_until config ws =
    max (reset_of (is_full config ws Window.burst) (ws Window.burst))
      (reset_of (is_full config ws Window.sustained) (ws Window.sustained))

abbrev pub counted : Windows → Windows
counted ws v = record { reset_at = (ws v).reset_at; count = (ws v).count + 1 }

-- The end of `_register_attempt`, for windows that were refreshed: denied where one is full.
unfoldable pub settle : AuthRateLimitConfig → Table → String → ℕ → Bool → Windows → Bool → Outcome
unfolding delay
settle config keys key now changed ws true = record {
  keys = insert key ws keys;
  answer = denied (delay (blocked_until config ws) now);
  changed = changed;
}
settle config keys key now changed ws false = record {
  keys = insert key (counted ws) keys;
  answer = admitted;
  changed = true;
}

abbrev pub is_blocked : AuthRateLimitConfig → Windows → Bool
is_blocked config ws = is_full config ws Window.burst || is_full config ws Window.sustained

unfoldable pub charge : AuthRateLimitConfig → Table → String → ℕ → Bool → Windows → Outcome
unfolding settle
charge config keys key now changed ws =
    let anew = is_over now (ws Window.burst) || is_over now (ws Window.sustained) in
    let ready = refresh config now ws in
    settle config keys key now (changed || anew) ready (is_blocked config ready)

abbrev pub fresh : ℕ → Windows
fresh now v = record { reset_at = now; count = 0 }

unfoldable pub charge_found :
    AuthRateLimitConfig → Table → String → ℕ → Bool → Option Windows → Outcome
unfolding earliest earliest_release charge
charge_found config keys key now changed (some ws) = charge config keys key now changed ws
charge_found config keys key now changed none =
    if leb config.max_tracked_keys (length keys)
    then record { keys = keys; answer = earliest_release (earliest keys) now; changed = changed }
    else charge config keys key now true (fresh now)

-- `_register_attempt`.
unfoldable pub register_attempt : AuthRateLimitConfig → String → ℕ → Table → Outcome
unfolding purge_expired charge_found
register_attempt config key now keys =
    let kept = purge_expired keys now in
    charge_found config kept key now (not (length kept == length keys)) (lookup key kept)
