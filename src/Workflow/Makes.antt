-- ===== src/Workflow/Makes.antt =====
-- Parts of apps/control-api/session_workflow.py and reaper.py by the list of calls that they add, whatever
-- its order: a property of such lists that holds of none and of one list after another.
use irlight.Base.{
  ◌≡◌, refl, sym, ◌∙◌, ap, Bool, true, false, List, [], ◌++◌, if◌then◌else◌, append_assoc,
  append_nil,
}
use irlight.Session.Value.{Result, ok, err}
use irlight.Workflow.World.{Effect, World, Act, pass, ◌>>=◌, finally}
use irlight.Workflow.Emits.{IsSilent, finish_silent}

-- What the lists of a part are, and how they are put together.
pub record Kept (P : List Effect → Type 0) : Type 0 where
  pub none_made : P []
  pub joined : (es fs : List Effect) → P es → P fs → P (es ++ fs)

-- The calls that a run adds.
pub record Adds (P : List Effect → Type 0) (before after : List Effect) : Type 0 where
  pub added : List Effect
  pub grown : after ≡ before ++ added
  pub good : P added

chained :
    {P : List Effect → Type 0} (kept : Kept P) {before after last : List Effect}
    → Adds P before after
    → Adds P after last
    → Adds P before last
chained kept {before} first next = record {
  added = first.added ++ next.added;
  grown =
      next.grown
      ∙ ap (λ cs. cs ++ next.added) first.grown
      ∙ append_assoc before first.added next.added;
  good = kept.joined _ _ first.good next.good;
}

module _ {W : Type 0} where
  pub record Makes {A : Type 0} (P : List Effect → Type 0) (m : Act W A) : Type 0 where
    pub adds : (w : World W) → Adds P w.calls (m w).1.calls

  module _ {P : List Effect → Type 0} (kept : Kept P) where
    pub silent-Makes : {A : Type 0} (m : Act W A) → IsSilent m → Makes P m
    silent-Makes m quiet = record {
      adds = λ w. record {
        added = [];
        grown = quiet w ∙ sym (append_nil w.calls);
        good = kept.none_made;
      };
    }

    pass-Makes :
        {A B : Type 0} (before : List Effect) (r : Result A × World W) (f : A → Act W B)
        → Adds P before r.1.calls
        → ((a : A) → Makes P (f a))
        → Adds P before (pass r f).1.calls
    pass-Makes before (ok a, w) f first rest = chained kept first ((rest a).adds w)
    pass-Makes before (err e, w) f first rest = first

    pub bind-Makes :
        {A B : Type 0} (m : Act W A) (f : A → Act W B)
        → Makes P m
        → ((a : A) → Makes P (f a))
        → Makes P (m >>= f)
    unfolding ◌>>=◌
    bind-Makes m f first rest = record {
      adds = λ w. pass-Makes w.calls (m w) f (first.adds w) rest;
    }

    -- A silent last step adds nothing.
    pub finally-Makes :
        {A : Type 0} (m : Act W A) (last : Act W (Unit {0}))
        → Makes P m
        → IsSilent last
        → Makes P (finally m last)
    unfolding finally
    finally-Makes m last first quiet = record {
      adds = λ w.
          let a = first.adds w in
          record {
            added = a.added;
            grown = finish_silent (m w).0 (last (m w).1) ∙ quiet (m w).1 ∙ a.grown;
            good = a.good;
          };
    }

    pub if-Makes :
        {A : Type 0} (b : Bool) (x y : Act W A)
        → Makes P x
        → Makes P y
        → Makes P (if b then x else y)
    if-Makes true x y mx my = mx
    if-Makes false x y mx my = my

-- One list and then another.
abbrev pub Then : (P Q : List Effect → Type 0) → List Effect → Type 0
Then P Q es = (fs : List Effect) × (gs : List Effect) × (es ≡ fs ++ gs) × P fs × Q gs

module _ {W : Type 0} where
  pass-Then :
      {A B : Type 0} {P Q : List Effect → Type 0} (before : List Effect) (r : Result A × World W)
      (f : A → Act W B)
      → Q []
      → Adds P before r.1.calls
      → ((a : A) → Makes Q (f a))
      → Adds (Then P Q) before (pass r f).1.calls
  pass-Then before (ok a, w) f nil first rest =
      let next = (rest a).adds w in
      record {
        added = first.added ++ next.added;
        grown =
            next.grown
            ∙ ap (λ cs. cs ++ next.added) first.grown
            ∙ append_assoc before first.added next.added;
        good = (first.added, next.added, refl, first.good, next.good);
      }
  pass-Then before (err e, w) f nil first rest = record {
    added = first.added;
    grown = first.grown;
    good = (first.added, [], sym (append_nil first.added), first.good, nil);
  }

  pub bind-Then :
      {A B : Type 0} {P Q : List Effect → Type 0} (m : Act W A) (f : A → Act W B)
      → Q []
      → Makes P m
      → ((a : A) → Makes Q (f a))
      → Makes (Then P Q) (m >>= f)
  unfolding ◌>>=◌
  bind-Then m f nil first rest = record {
    adds = λ w. pass-Then w.calls (m w) f nil (first.adds w) rest;
  }

  pub quiet-Makes :
      {A : Type 0} {Q : List Effect → Type 0} (m : Act W A) → Q [] → IsSilent m → Makes Q m
  quiet-Makes m nil quiet = record {
    adds = λ w. record { added = []; grown = quiet w ∙ sym (append_nil w.calls); good = nil };
  }

  pass-silent :
      {A B : Type 0} {Q : List Effect → Type 0} (before : List Effect) (r : Result A × World W)
      (f : A → Act W B)
      → Q []
      → r.1.calls ≡ before
      → ((a : A) → Makes Q (f a))
      → Adds Q before (pass r f).1.calls
  pass-silent before (ok a, w) f nil same rest =
      let next = (rest a).adds w in
      record {
        added = next.added;
        grown = next.grown ∙ ap (λ cs. cs ++ next.added) same;
        good = next.good;
      }
  pass-silent before (err e, w) f nil same rest = record {
    added = [];
    grown = same ∙ sym (append_nil before);
    good = nil;
  }

  -- A silent first part leaves the calls to the rest.
  pub after_silent-Makes :
      {A B : Type 0} {Q : List Effect → Type 0} (m : Act W A) (f : A → Act W B)
      → Q []
      → IsSilent m
      → ((a : A) → Makes Q (f a))
      → Makes Q (m >>= f)
  unfolding ◌>>=◌
  after_silent-Makes m f nil quiet rest = record {
    adds = λ w. pass-silent w.calls (m w) f nil (quiet w) rest;
  }

  pub choose-Makes :
      {A : Type 0} {Q : List Effect → Type 0} (b : Bool) (x y : Act W A)
      → Makes Q x
      → Makes Q y
      → Makes Q (if b then x else y)
  choose-Makes true x y mx my = mx
  choose-Makes false x y mx my = my
