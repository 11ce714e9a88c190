-- ===== src/Workflow/Emits.antt =====
-- The order in which apps/control-api/session_workflow.py calls the provider and the credential store.
use irlight.Base.{
  ◌≡◌, refl, sym, ◌∙◌, ap, subst, Bool, true, false, Option, none, some, List, [], ◌∷◌, ◌++◌,
  if◌then◌else◌, append_assoc, append_nil,
}
use irlight.Session.Value.{Result, ok, err, Error}
use irlight.Workflow.World.{
  Kind, Effect, World, Act, pass, after_release, ◌>>=◌, finally, revoked, deleted,
}

-- What a run has done so far: nothing; revoked the credentials; failed to; deleted servers, of which
-- one failed; deleted volumes; deleted volumes, of which one failed.
pub data Phase : Type 0 where
  start servers refused broken volumes spoiled : Phase

-- The calls that a phase allows: the credentials are revoked first, then servers are deleted, and
-- volumes only where no server's deletion failed.
unfoldable pub advance : Phase → Effect → Option Phase
advance Phase.start (revoked id true) = some Phase.servers
advance Phase.start (revoked id false) = some Phase.refused
advance Phase.servers (deleted Kind.server id true) = some Phase.servers
advance Phase.servers (deleted Kind.server id false) = some Phase.broken
advance Phase.broken (deleted Kind.server id b) = some Phase.broken
advance Phase.servers (deleted Kind.volume id true) = some Phase.volumes
advance Phase.servers (deleted Kind.volume id false) = some Phase.spoiled
advance Phase.volumes (deleted Kind.volume id true) = some Phase.volumes
advance Phase.volumes (deleted Kind.volume id false) = some Phase.spoiled
advance Phase.spoiled (deleted Kind.volume id b) = some Phase.spoiled
advance _ _ = none

abbrev pub step : Option Phase → Effect → Option Phase
step none e = none
step (some p) e = advance p e

unfoldable pub phase_after : Option Phase → List Effect → Option Phase
phase_after p [] = p
phase_after p (e ∷ es) = phase_after (step p e) es

phase_after-append :
    (p : Option Phase) (es fs : List Effect)
    → phase_after p (es ++ fs) ≡ phase_after (phase_after p es) fs
unfolding phase_after
phase_after-append p [] fs = refl
phase_after-append p (e ∷ es) fs = phase_after-append (step p e) es fs

module _ {W : Type 0} where
  -- From any world, `m` adds calls that lead from one phase to another, and `P` relates the result to
  -- the phase that it ends in.
  pub record From {A : Type 0} (p : Phase) (P : Result A → Phase → Type 0) (m : Act W A)
      : Type 0 where
    pub runs :
        (w : World W)
        → (es : List Effect) × (q : Phase) × ((m w).1.calls ≡ w.calls ++ es)
          × (phase_after (some p) es ≡ some q)
          × P (m w).0 q

  -- A part that makes no such call.
  abbrev pub IsSilent : {A : Type 0} → Act W A → Type 0
  IsSilent m = (w : World W) → (m w).1.calls ≡ w.calls

  pub silent :
      {A : Type 0} (p : Phase) {P : Result A → Phase → Type 0} (m : Act W A)
      → IsSilent m
      → ((w : World W) → P (m w).0 p)
      → From p P m
  unfolding phase_after
  silent p m quiet fine = record {
    runs = λ w. ([], p, quiet w ∙ sym (append_nil w.calls), refl, fine w);
  }

  chained :
      {A B : Type 0} {Q : Result B → Phase → Type 0} (w : World W) (p q : Phase) (es : List Effect)
      (r : Result A × World W) (f : Act W B)
      → r.1.calls ≡ w.calls ++ es
      → phase_after (some p) es ≡ some q
      → From q Q f
      → (fs : List Effect) × (q' : Phase) × ((f r.1).1.calls ≡ w.calls ++ fs)
        × (phase_after (some p) fs ≡ some q')
        × Q (f r.1).0 q'
  chained w p q es r f called there rest =
      let (fs, q', called', there', good) = rest.runs r.1 in
      (
        es ++ fs,
        q',
        called' ∙ ap (λ cs. cs ++ fs) called ∙ append_assoc w.calls es fs,
        phase_after-append (some p) es fs ∙ ap (λ o. phase_after o fs) there ∙ there',
        good,
      )

  pass-From :
      {A B : Type 0} (P : Result A → Phase → Type 0) {Q : Result B → Phase → Type 0} (w : World W)
      (p q : Phase) (es : List Effect) (r : Result A × World W) (f : A → Act W B)
      → r.1.calls ≡ w.calls ++ es
      → phase_after (some p) es ≡ some q
      → P r.0 q
      → ((a : A) (q : Phase) → P (ok a) q → From q Q (f a))
      → ((e : Error) (q : Phase) → P (err e) q → Q (err e) q)
      → (fs : List Effect) × (q' : Phase) × ((pass r f).1.calls ≡ w.calls ++ fs)
        × (phase_after (some p) fs ≡ some q')
        × Q (pass r f).0 q'
  pass-From P w p q es (ok a, w') f called there good rest fail =
      chained w p q es (ok a, w') (f a) called there (rest a q good)
  pass-From P w p q es (err e, w') f called there good rest fail =
      (es, q, called, there, fail e q good)

  pub bind-From :
      {A B : Type 0} {P : Result A → Phase → Type 0} {Q : Result B → Phase → Type 0} (p : Phase)
      (m : Act W A) (f : A → Act W B)
      → From p P m
      → ((a : A) (q : Phase) → P (ok a) q → From q Q (f a))
      → ((e : Error) (q : Phase) → P (err e) q → Q (err e) q)
      → From p Q (m >>= f)
  unfolding ◌>>=◌
  bind-From {P} p m f first rest fail = record {
    runs = λ w.
        let (es, q, called, there, good) = first.runs w in
        pass-From P w p q es (m w) f called there good rest fail;
  }

  pass-IsSilent :
      {A B : Type 0} (w : World W) (r : Result A × World W) (f : A → Act W B)
      → r.1.calls ≡ w.calls
      → ((a : A) → IsSilent (f a))
      → (pass r f).1.calls ≡ w.calls
  pass-IsSilent w (ok a, w') f quiet rest = rest a w' ∙ quiet
  pass-IsSilent w (err e, w') f quiet rest = quiet

  pub bind-IsSilent :
      {A B : Type 0} (m : Act W A) (f : A → Act W B)
      → IsSilent m
      → ((a : A) → IsSilent (f a))
      → IsSilent (m >>= f)
  unfolding ◌>>=◌
  bind-IsSilent m f quiet rest w = pass-IsSilent w (m w) f (quiet w) rest

  pub if-IsSilent :
      {A : Type 0} (b : Bool) (x y : Act W A)
      → IsSilent x
      → IsSilent y
      → IsSilent (if b then x else y)
  if-IsSilent true x y quiet quiet' = quiet
  if-IsSilent false x y quiet quiet' = quiet'

  pub if-From :
      {A : Type 0} {P : Result A → Phase → Type 0} (p : Phase) (b : Bool) (x y : Act W A)
      → From p P x
      → From p P y
      → From p P (if b then x else y)
  if-From p true x y fx fy = fx
  if-From p false x y fx fy = fy

  pub finish_silent :
      {A : Type 0} (r : Result A) (u : Result (Unit {0}) × World W)
      → (after_release r u).1.calls ≡ u.1.calls
  finish_silent r (ok u, w) = refl
  finish_silent r (err e, w) = refl

  -- A silent last step changes nothing about the order.
  pub finally-From :
      {A : Type 0} (p : Phase) (m : Act W A) (last : Act W (Unit {0}))
      → From p (λ _ _. Unit {0}) m
      → IsSilent last
      → From p (λ _ _. Unit {0}) (finally m last)
  unfolding finally
  finally-From p m last first quiet = record {
    runs = λ w.
        let (es, q, called, there, good) = first.runs w in
        (es, q, finish_silent (m w).0 (last (m w).1) ∙ quiet (m w).1 ∙ called, there, tt);
  }

  -- A silent first part leaves the phase to the rest.
  pub after_silent :
      {A B : Type 0} {Q : Result B → Phase → Type 0} (p : Phase) (m : Act W A) (f : A → Act W B)
      → IsSilent m
      → ((a : A) → From p Q (f a))
      → ((e : Error) → Q (err e) p)
      → From p Q (m >>= f)
  after_silent {Q} p m f quiet rest fail =
      bind-From {P = λ _ q. q ≡ p} p m f (silent p m quiet (λ w. refl))
        (λ a q e. subst (λ (x : Phase). From x Q (f a)) (sym e) (rest a))
        (λ e q same. subst (λ (x : Phase). Q (err e) x) (sym same) (fail e))
