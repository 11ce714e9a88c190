-- ===== src/RateLimit/Quota.antt =====
-- How many attempts of a key apps/control-api/auth_rate_limit.py admits while a window of it runs.
use irlight.Base.{
  ℕ, ◌+◌, ◌-◌, ◌≤◌, ◌<◌, ◌≡◌, refl, ◌≢◌, sym, subst, ◌∙◌, length, Bool, true, false, not, ◌==◌,
  ◌&&◌, Option, none, some, List, [], ◌∷◌, String, arith, All, leb, if◌then◌else◌,
}
use irlight.Base.Dict.{lookup, lookup-insert_self, lookup-insert_ne}
use irlight.Base.Text.{◌=s◌, =s_iff}
use irlight.RateLimit.Config.{Window, AuthRateLimitConfig}
use irlight.RateLimit.Attempt.{
  Windows, Table, Answer, Outcome, is_expired, purge_expired, refresh, settle, counted, is_blocked,
  charge, charge_found, register_attempt,
}
use irlight.RateLimit.Table.{lookup-purge_live}

abbrev pub is_admitted : Answer → Bool
is_admitted Answer.admitted = true
is_admitted _ = false

abbrev pub one_if : Bool → ℕ
one_if true = 1
one_if false = 0

-- How many attempts of a key are admitted in a row of attempts, each a key with its time.
unfoldable pub admissions : AuthRateLimitConfig → String → List (String × ℕ) → Table → ℕ
admissions config key [] keys = 0
admissions config key ((other, now) ∷ rest) keys =
    let o = register_attempt config other now keys in
    let later = admissions config key rest o.keys in
    one_if ((other =s key) && is_admitted o.answer) + later

-- One attempt, as a window of a key sees it: its reset stays, and an admission is counted and was within
-- the limit.
abbrev Counts : AuthRateLimitConfig → String → Window → Windows → Bool → Outcome → Type 0
Counts config key v ws own o =
    (vs : Windows) × (lookup key o.keys ≡ some vs)
    × ((vs v).reset_at ≡ (ws v).reset_at)
    × ((vs v).count ≡ (ws v).count + one_if (own && is_admitted o.answer))
    × ((own && is_admitted o.answer) ≡ true → (ws v).count < config.limit v)

settle-Counts :
    (config : AuthRateLimitConfig) (key : String) (v : Window) (now : ℕ) (changed : Bool)
    (keys : Table) (ws : Windows) (blocked : Bool)
    → (blocked ≡ false → (ws v).count < config.limit v)
    → Counts config key v ws true (settle config keys key now changed ws blocked)
unfolding settle
settle-Counts config key v now changed keys ws true room =
    (ws, lookup-insert_self key ws keys, refl, omega arith, λ h. ground arith)
settle-Counts config key v now changed keys ws false room =
    (counted ws, lookup-insert_self key (counted ws) keys, refl, omega arith, λ h. room refl)

-- A window that still runs is not refreshed.
unblocked :
    (config : AuthRateLimitConfig) (v : Window) (now : ℕ) (ws : Windows)
    → is_blocked config ws ≡ false
    → (ws v).count < config.limit v
unblocked config Window.burst now ws h = ground arith
unblocked config Window.sustained now ws h = ground arith

refresh_running :
    (config : AuthRateLimitConfig) (v : Window) (now : ℕ) (ws : Windows)
    → now < (ws v).reset_at
    → refresh config now ws v ≡ ws v
refresh_running config v now ws running = ground arith

charge-Counts :
    (config : AuthRateLimitConfig) (key : String) (v : Window) (now : ℕ) (changed : Bool)
    (keys : Table) (ws : Windows)
    → now < (ws v).reset_at
    → Counts config key v ws true (charge config keys key now changed ws)
unfolding charge
charge-Counts config key v now changed keys ws running =
    let (vs, there, reset, count, room) =
      settle-Counts config key v now _ keys (refresh config now ws)
        (is_blocked config (refresh config now ws))
        (unblocked config v now (refresh config now ws)) in
    let same = refresh_running config v now ws running in
    (vs, there, rw same at reset, rw same at count, rw same at room)

running_live :
    (v : Window) (now : ℕ) (ws : Windows) → now < (ws v).reset_at → is_expired now ws ≡ false
running_live Window.burst now ws h = ground arith
running_live Window.sustained now ws h = ground arith

-- The attempt of another key.
settle_other :
    (config : AuthRateLimitConfig) (key other : String) (now : ℕ) (changed : Bool) (keys : Table)
    (ws : Windows) (blocked : Bool)
    → other ≢ key
    → lookup key (settle config keys other now changed ws blocked).keys ≡ lookup key keys
unfolding settle
settle_other config key other now changed keys ws true differs =
    lookup-insert_ne other key ws keys differs
settle_other config key other now changed keys ws false differs =
    lookup-insert_ne other key (counted ws) keys differs

if_keys :
    (b : Bool) (x y : Outcome) (key : String) (found : Option Windows)
    → lookup key x.keys ≡ found
    → lookup key y.keys ≡ found
    → lookup key (if b then x else y).keys ≡ found
if_keys true x y key found hx hy = hx
if_keys false x y key found hx hy = hy

charge_found_other :
    (config : AuthRateLimitConfig) (key other : String) (now : ℕ) (changed : Bool) (keys : Table)
    (o : Option Windows)
    → other ≢ key
    → lookup key (charge_found config keys other now changed o).keys ≡ lookup key keys
unfolding charge_found charge
charge_found_other config key other now changed keys (some ws) differs =
    settle_other config key other now _ keys _ _ differs
charge_found_other config key other now changed keys none differs =
    if_keys (leb config.max_tracked_keys (length keys)) _ _ key _ refl
      (settle_other config key other now _ keys _ _ differs)

register_attempt-Counts :
    (config : AuthRateLimitConfig) (key other : String) (v : Window) (now : ℕ) (keys : Table)
    (ws : Windows) (same : Bool)
    → (other =s key) ≡ same
    → lookup key keys ≡ some ws
    → now < (ws v).reset_at
    → Counts config key v ws same (register_attempt config other now keys)
unfolding register_attempt charge_found
register_attempt-Counts config key other v now keys ws true e there running =
    let kept = lookup-purge_live key keys now ws there (running_live v now ws running) in
    let same = (=s_iff other key).0 e in
    let found : lookup other (purge_expired keys now) ≡ some ws =
      subst (λ k. lookup k (purge_expired keys now) ≡ some ws) (sym same) kept in
    subst (λ k. Counts config k v ws true (register_attempt config other now keys)) same
      (subst
        (λ (o : Option Windows). Counts config other v ws true (
          charge_found config (purge_expired keys now) other now
            (not (length (purge_expired keys now) == length keys)) o))
        (sym found) (charge-Counts config other v now _ (purge_expired keys now) ws running))
register_attempt-Counts config key other v now keys ws false e there running =
    let kept = lookup-purge_live key keys now ws there (running_live v now ws running) in
    (
      ws,
      charge_found_other config key other now _ (purge_expired keys now) _
            (λ same. ground (arith, =s_iff other key))
          ∙ kept,
      refl,
      omega arith,
      λ h. ground arith,
    )

one_more_le :
    (b : Bool) (limit before after later : ℕ)
    → after ≡ before + one_if b
    → (b ≡ true → before < limit)
    → later ≤ limit - after
    → one_if b + later ≤ limit - before
one_more_le true limit before after later count room h = omega (arith, room refl)
one_more_le false limit before after later count room h = omega arith

-- While a window of a key runs, the attempts of that key that are admitted are at most what the
-- window has left, whatever else is attempted.
pub admissions-quota :
    (config : AuthRateLimitConfig) (key : String) (v : Window) (attempts : List (String × ℕ))
    (keys : Table) (ws : Windows)
    → lookup key keys ≡ some ws
    → All (λ a. a.1 < (ws v).reset_at) attempts
    → admissions config key attempts keys ≤ config.limit v - (ws v).count
unfolding admissions
admissions-quota config key v [] keys ws there running = omega arith
admissions-quota config key v ((other, now) ∷ rest) keys ws there running =
    let (vs, there', reset, count, room) =
      register_attempt-Counts config key other v now keys ws (other =s key) refl there running.0 in
    let later =
      admissions-quota config key v rest (register_attempt config other now keys).keys vs there'
        (subst (λ r. All (λ a. a.1 < r) rest) (sym reset) running.1) in
    one_more_le _ _ _ _ _ count room later
