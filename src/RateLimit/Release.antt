-- ===== src/RateLimit/Release.antt =====
-- A denied attempt of apps/control-api/auth_rate_limit.py, and the delay that it was told.
use irlight.Base.{
  ℕ, ◌+◌, ◌*◌, ◌≤◌, ◌≡◌, refl, sym, subst, Bool, true, false, Option, none, some, String, arith,
  length, leb, if◌then◌else◌,
}
use irlight.Base.Dict.{lookup, insert, IsDict, insert-IsDict}
use irlight.RateLimit.Config.{AuthRateLimitConfig}
use irlight.RateLimit.Attempt.{
  Windows, Table, Answer, denied, Outcome, purge_expired, settle, counted, charge, charge_found,
  register_attempt,
}
use irlight.RateLimit.Table.{length-purge_le, purge-IsDict, length-insert_known, length-insert_le}

-- A dict of at most the number of keys that is configured.
abbrev pub IsTable : AuthRateLimitConfig → Table → Type 0
IsTable config keys = IsDict keys × (length keys ≤ config.max_tracked_keys)

settle-keys :
    (config : AuthRateLimitConfig) (keys : Table) (key : String) (now : ℕ) (changed : Bool)
    (ws : Windows) (blocked : Bool)
    → (vs : Windows) × ((settle config keys key now changed ws blocked).keys ≡ insert key vs keys)
unfolding settle
settle-keys config keys key now changed ws true = (ws, refl)
settle-keys config keys key now changed ws false = (counted ws, refl)

if_IsTable :
    (config : AuthRateLimitConfig) (b : Bool) (x y : Outcome)
    → IsTable config x.keys
    → (b ≡ false → IsTable config y.keys)
    → IsTable config (if b then x else y).keys
if_IsTable config true x y hx hy = hx
if_IsTable config false x y hx hy = hy refl

settle-IsTable :
    (config : AuthRateLimitConfig) (keys : Table) (key : String) (now : ℕ) (changed : Bool)
    (ws : Windows) (blocked : Bool)
    → IsDict keys
    → ((vs : Windows) → length (insert key vs keys) ≤ config.max_tracked_keys)
    → IsTable config (settle config keys key now changed ws blocked).keys
settle-IsTable config keys key now changed ws blocked d bound =
    let (vs, same) = settle-keys config keys key now changed ws blocked in
    subst (IsTable config) (sym same) (insert-IsDict key vs keys d, bound vs)

-- A table stays one: a key that is new finds room.
found-IsTable :
    (config : AuthRateLimitConfig) (keys : Table) (key : String) (now : ℕ) (changed : Bool)
    (o : Option Windows)
    → lookup key keys ≡ o
    → IsTable config keys
    → IsTable config (charge_found config keys key now changed o).keys
unfolding charge_found charge
found-IsTable config keys key now changed (some ws) there (d, bound) =
    settle-IsTable config keys key now _ _ _ d
      (λ vs. ground (arith, length-insert_known key vs ws keys there))
found-IsTable config keys key now changed none there (d, bound) =
    if_IsTable config (leb config.max_tracked_keys (length keys)) _ _ (d, bound)
      (λ room.
        settle-IsTable config keys key now _ _ _ d
          (λ vs. ground (arith, length-insert_le key vs keys)))

purge-IsTable :
    (config : AuthRateLimitConfig) (keys : Table) (now : ℕ)
    → IsTable config keys
    → IsTable config (purge_expired keys now)
purge-IsTable config keys now (d, bound) =
    (purge-IsDict keys now d, omega (arith, length-purge_le keys now))

-- An attempt keeps the table a dict of at most the configured number of keys.
pub register_attempt-IsTable :
    (config : AuthRateLimitConfig) (key : String) (now : ℕ) (keys : Table)
    → IsTable config keys
    → IsTable config (register_attempt config key now keys).keys
unfolding register_attempt
register_attempt-IsTable config key now keys table =
    found-IsTable config (purge_expired keys now) key now _ _ refl
      (purge-IsTable config keys now table)

-- What the theorem says of one outcome.
abbrev Releases : AuthRateLimitConfig → String → ℕ → Outcome → Type 0
Releases config key now o =
    (seconds later : ℕ)
    → o.answer ≡ denied seconds
    → now + seconds * 1_000_000 ≤ later
    → (register_attempt config key later o.keys).answer ≡ Answer.admitted
