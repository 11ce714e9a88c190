-- ===== src/Base/Text.antt =====
-- Python strings: the native `String`, whose own list of characters is one of code points.
use Prim.Native.Nat.{ℕ, zero, suc, ◌≤◌}
use Prim.Native.String.{String}
use mathlib.Core.Path.{◌≡◌, refl}
use mathlib.Core.Bool.{Bool, true, false}
use mathlib.Core.Option.{Option, none, some}
use mathlib.Core.Logic.{◌↔◌}
use text.Mathlib.Text.{◌==◌}
use text.Mathlib.TextEquality.{eq_iff}
use text.Mathlib.TextPositions.{eq_refl}
use native.Mathlib.Omega.{arith}

infix 50 ◌=s◌
abbrev pub ◌=s◌ : String → String → Bool
a =s b = a == b

pub =s_iff : (a b : String) → ((a =s b) ≡ true) ↔ (a ≡ b)
=s_iff a b = eq_iff a b

pub =s_refl : (a : String) → (a =s a) ≡ true
=s_refl a = eq_refl a

-- `len(s)`: the number of code points.
abbrev pub length : String → ℕ
length String.[] = 0
length (String.◌∷◌ c s) = suc (length s)

-- `s[:n]`.
abbrev pub take : ℕ → String → String
take zero s = String.[]
take (suc n) String.[] = String.[]
take (suc n) (String.◌∷◌ c s) = String.◌∷◌ c (take n s)

-- `not s`.
abbrev pub is_empty : String → Bool
is_empty String.[] = true
is_empty (String.◌∷◌ c s) = false

pub length-take_le : (n : ℕ) (s : String) → length (take n s) ≤ n
length-take_le zero s = omega arith
length-take_le (suc n) String.[] = omega arith
length-take_le (suc n) (String.◌∷◌ c s) = omega (arith, length-take_le n s)

pub is_empty-take : (n : ℕ) (s : String) → is_empty (take (suc n) s) ≡ is_empty s
is_empty-take n String.[] = refl
is_empty-take n (String.◌∷◌ c s) = refl

-- Two optional strings, as `==` compares `None` and `str` values.
infix 50 ◌=?◌
abbrev pub ◌=?◌ : Option String → Option String → Bool
◌=?◌ none none = true
◌=?◌ (some a) (some b) = a =s b
◌=?◌ _ _ = false

pub =?_iff : (a b : Option String) → ((a =? b) ≡ true) ↔ (a ≡ b)
=?_iff none none = ground arith
=?_iff none (some b) = ground arith
=?_iff (some a) none = ground arith
=?_iff (some a) (some b) = ground (arith, eq_iff a b)

pub =?_refl : (a : Option String) → (a =? a) ≡ true
=?_refl none = refl
=?_refl (some a) = eq_refl a
