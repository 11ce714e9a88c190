-- ===== src/Session/Value.antt =====
-- Outcomes and clock values of apps/control-api/session_store.py. A float of seconds is a whole
-- number of millionths (`ticks`); what Python's `object` may hold besides is a constructor of `Raw`.
use irlight.Base.{
  ℕ, ◌+◌, ◌*◌, ◌==◌, ◌≡◌, refl, Bool, true, false, Option, none, some, String, if◌then◌else◌,
}
use irlight.Base.Text.{is_empty}
use irlight.Base.Int.{ℤ, pos, negsuc, ◌+ℤ◌, ◌*ℕ◌, max_ℤ}

-- `media_control.audio` desired modes, `MEDIA_CONTROL_AUDIO_DESIRED_MODES`.
pub data DesiredMode : Type 0 where
  live muted : DesiredMode

-- `MEDIA_CONTROL_AUDIO_ACTUAL_MODES`.
pub data ActualMode : Type 0 where
  live muted silent_fallback applying failed : ActualMode

-- The response of `set_audio_desired`, which a version conflict carries too.
pub record AudioResponse : Type 0 where
  pub desired_mode : DesiredMode
  pub actual_mode : ActualMode
  pub version : ℕ
  pub command_id : Option String

-- The exception classes; their messages are not kept.
pub data Error : Type 0 where
  state_error invalid_transition entitlement_exceeded key_error runtime_error value_error : Error
  idempotency_conflict not_running provisioning_in_progress orphan_cleanup_in_progress : Error
  version_conflict : AudioResponse → Error

-- What a method returns, or the exception that it raises.
pub data Result {ℓ} (A : Type ℓ) : Type ℓ where
  ok : A → Result A
  err : Error → Result A

infixl 5 ◌>>=◌ ◌>>◌
unfoldable pub ◌>>=◌ {ℓ κ} : {A : Type ℓ} {B : Type κ} → Result A → (A → Result B) → Result B
err why >>= continue = err why
ok answer >>= continue = continue answer

abbrev pub ◌>>◌ {ℓ} : {B : Type ℓ} → Result (Unit {0}) → Result B → Result B
check >> rest = check >>= λ _. rest

-- `if b: raise e`.
abbrev pub raise_if : Bool → Error → Result (Unit {0})
raise_if true e = err e
raise_if false e = ok tt

-- `if o is None: raise e`.
abbrev pub or_raise {ℓ} : {A : Type ℓ} → Option A → Error → Result A
or_raise none e = err e
or_raise (some a) e = ok a

-- Where a chain returns, its first part does, and so does the rest on that answer.
pub >>=-ok {ℓ κ} :
    {X : Type ℓ} {Y : Type κ} (first : Result X) (rest : X → Result Y) {y : Y}
    → (first >>= rest) ≡ ok y
    → (x : X) × (first ≡ ok x) × (rest x ≡ ok y)
unfolding ◌>>=◌
>>=-ok (err why) rest returns = cc
>>=-ok (ok x) rest returns = (x, refl, returns)

-- A value that was not checked yet. `huge_pos` and `huge_neg` are integers too large for a float.
pub data Raw : Type 0 where
  null nan inf neg_inf huge_pos huge_neg : Raw
  boolean : Bool → Raw
  number : ℤ → Raw
  text : String → Raw

-- Ticks in a second.
abbrev pub second : ℕ
second = 1_000_000

-- `_validated_timestamp`: a finite number of at least zero, and no bool.
unfoldable pub validated_timestamp : Raw → Result ℕ
validated_timestamp (Raw.number (pos n)) = ok n
validated_timestamp _ = err Error.state_error

-- `base + offset`. A bool counts as a number; a string raises TypeError, a huge int OverflowError.
abbrev pub add_offset : ℕ → Raw → Raw
add_offset base (Raw.number z) = Raw.number (pos base +ℤ z)
add_offset base (Raw.boolean b) = Raw.number (pos (if b then base + second else base))
add_offset base r = r

-- `_validated_derived_timestamp`.
unfoldable pub derived_timestamp : ℕ → Raw → Result ℕ
unfolding validated_timestamp
derived_timestamp base offset = validated_timestamp (add_offset base offset)

-- `max(1.0, lease_seconds)`. Python keeps the first argument unless the second is greater, so a NaN
-- gives 1.0.
unfoldable pub lease_offset : Raw → Result Raw
lease_offset Raw.null = err Error.state_error
lease_offset (Raw.text s) = err Error.state_error
lease_offset Raw.inf = ok Raw.inf
lease_offset Raw.huge_pos = ok Raw.huge_pos
lease_offset (Raw.number z) = ok (Raw.number (max_ℤ (pos second) z))
lease_offset _ = ok (Raw.number (pos second))

-- Python's truth value.
abbrev truthy : Raw → Bool
truthy Raw.null = false
truthy (Raw.boolean b) = b
truthy (Raw.number (pos n)) = if n == 0 then false else true
truthy (Raw.text s) = if is_empty s then false else true
truthy _ = true

-- `hours * 3600`; a bool counts as 0 or 1, and what is not a finite number stays what it is, up to
-- the sum with a float that refuses it.
abbrev hours_offset : Raw → Raw
hours_offset (Raw.number z) = Raw.number (z *ℕ 3600)
hours_offset (Raw.boolean b) = Raw.number (pos (if b then 3600 * second else 0))
hours_offset r = r

-- The deadline that `new_session` computes from `absolute_deadline_hours`.
unfoldable pub absolute_deadline : ℕ → Raw → Result (Option ℕ)
unfolding derived_timestamp
absolute_deadline now hours =
    let offset = derived_timestamp now (hours_offset hours) in
    if truthy hours then (do t ← offset; ok (some t)) else ok none

-- A checked timestamp is the number that was given.
pub validated_timestamp_ok :
    (r : Raw) (n : ℕ) → validated_timestamp r ≡ ok n → r ≡ Raw.number (pos n)
unfolding validated_timestamp
validated_timestamp_ok (Raw.number (pos m)) n h = cc
validated_timestamp_ok (Raw.number (negsuc m)) n h = cc
validated_timestamp_ok Raw.null n h = cc
validated_timestamp_ok _ n h = cc
