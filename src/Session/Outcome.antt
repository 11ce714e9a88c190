-- ===== src/Session/Outcome.antt =====
-- Reasoning about the body of a transaction: what holds of the state that it writes, if it writes.
use irlight.Base.{◌≡◌, refl, subst, Bool, true, false, Option, none, some, arith, if◌then◌else◌}
use irlight.Session.Value.{Result, ok, err, Error, ◌>>=◌, ◌>>◌, or_raise, raise_if}
use irlight.Session.Record.{Session, State}
use irlight.Session.Disk.{Step}

-- If the body writes, `P` holds of what it returns and writes.
pub data Saves {A : Type 0} (P : A → State → Type 0) : Result (Step A) → Type 0 where
  fails : (e : Error) → Saves P (err e)
  keeps : (a : A) → Saves P (ok (Step.keep a))
  saves : (a : A) (st : State) → P a st → Saves P (ok (Step.save a st))

pub or_raise-ok : {A : Type 0} {a : A} (o : Option A) (e : Error) → or_raise o e ≡ ok a → o ≡ some a
or_raise-ok none e h = cc
or_raise-ok (some b) e h = ground arith

raise_if-ok : {u : Unit {0}} (b : Bool) (e : Error) → raise_if b e ≡ ok u → b ≡ false
raise_if-ok true e h = cc
raise_if-ok false e h = refl

module _ {A : Type 0} {P : A → State → Type 0} where
  pub bind-Saves :
      {B : Type 0} (m : Result B) (f : B → Result (Step A))
      → ((b : B) → m ≡ ok b → Saves P (f b))
      → Saves P (m >>= f)
  unfolding ◌>>=◌
  bind-Saves (ok b) f h = h b refl
  bind-Saves (err e) f h = fails e

  pub found-Saves :
      (o : Option Session) (e : Error) (f : Session → Result (Step A))
      → ((s : Session) → o ≡ some s → Saves P (f s))
      → Saves P (or_raise o e >>= f)
  found-Saves o e f h = bind-Saves (or_raise o e) f λ s eq. h s (or_raise-ok o e eq)

  pub guard-Saves :
      (b : Bool) (e : Error) (k : Result (Step A))
      → (b ≡ false → Saves P k)
      → Saves P (raise_if b e >> k)
  guard-Saves b e k h = bind-Saves (raise_if b e) (λ _. k) λ _ eq. h (raise_if-ok b e eq)

  pub if-Saves :
      (b : Bool) (x y : Result (Step A))
      → (b ≡ true → Saves P x)
      → (b ≡ false → Saves P y)
      → Saves P (if b then x else y)
  if-Saves true x y h k = h refl
  if-Saves false x y h k = k refl

  pub Saves-weaken :
      {Q : A → State → Type 0} {r : Result (Step A)}
      → ((a : A) (st : State) → P a st → Q a st)
      → Saves P r
      → Saves Q r
  Saves-weaken w (fails e) = fails e
  Saves-weaken w (keeps a) = keeps a
  Saves-weaken w (saves a st p) = saves a st (w a st p)

-- What a body that writes has written.
pub Saves-elim :
    {A : Type 0} {P : A → State → Type 0} {r : Result (Step A)} (a : A) (st : State)
    → Saves P r
    → r ≡ ok (Step.save a st)
    → P a st
Saves-elim a st (fails e) h = cc
Saves-elim a st (keeps b) h = cc
Saves-elim {P = P} a st (saves b t p) h =
    let e : b ≡ a = cc in
    let e' : t ≡ st = cc in subst (λ (x : State). P a x) e' (subst (λ x. P x t) e p)
