-- ===== src/Workflow/Order.antt =====
-- The deletions of `_cleanup_resources` in apps/control-api/session_workflow.py, by the phases that they
-- go through.
use irlight.Base.{
  ◌≡◌, refl, sym, ap, subst, ◌⊎◌, inl, inr, Bool, true, false, ◌&&◌, some, List, [], ◌∷◌, String,
  if◌then◌else◌,
}
use irlight.Base.Text.{◌=s◌, ◌=?◌}
use irlight.Session.Value.{Result, ok, err}
use irlight.Session.Disk.{Op}
use irlight.Session.Leases.{Readings}
use irlight.Workflow.World.{
  Kind, Resource, Services, Act, call, deleted, managed_resources, all_candidates, try_delete,
  delete_by,
}
use irlight.Workflow.Cleanup.{resource_environment, owned_among, owned_resources, delete_each}
use irlight.Workflow.Emits.{
  Phase, phase_after, advance, From, IsSilent, silent, bind-From, bind-IsSilent, if-IsSilent,
  if-From,
}

-- How far a loop over servers came, with its answer so far.
abbrev pub Serving : Bool → Phase → Type 0
Serving fine p = (p ≡ Phase.servers) ⊎ ((p ≡ Phase.broken) × (fine ≡ false))

-- The same for volumes.
abbrev pub Clearing : Bool → Phase → Type 0
Clearing fine p =
    (p ≡ Phase.servers) ⊎ ((p ≡ Phase.volumes) ⊎ ((p ≡ Phase.spoiled) × (fine ≡ false)))

-- A relation of an answer and a phase; an exception may come in any phase.
abbrev pub Answers : (Bool → Phase → Type 0) → Result Bool → Phase → Type 0
Answers R (ok b) q = R b q
Answers R (err e) q = Unit

and_false : (b : Bool) → (b && false) ≡ false
and_false true = refl
and_false false = refl

and_true : (b : Bool) → (b && true) ≡ b
and_true true = refl
and_true false = refl

module _ {W : Type 0} (services : Services W) where
  pub call-IsSilent : {A : Type 0} (op : Readings → Op A) → IsSilent (call services op)
  unfolding call
  call-IsSilent op w = refl

  pub listing-IsSilent : IsSilent (managed_resources services)
  unfolding managed_resources
  listing-IsSilent w = refl

  environment-IsSilent :
      (r : Resource) (env : String) → IsSilent (resource_environment services r env)
  unfolding resource_environment all_candidates
  environment-IsSilent r env =
      if-IsSilent _ _ _ (λ w. refl) (bind-IsSilent _ _ (λ w. refl) (λ cs w. refl))

  owned_among-IsSilent :
      (id user env : String) (rs : List Resource) → IsSilent (owned_among services id user env rs)
  unfolding owned_among
  owned_among-IsSilent id user env [] = λ w. refl
  owned_among-IsSilent id user env (r ∷ rs) =
      bind-IsSilent _ _
        (if-IsSilent ((r.session_id =? some id) && (r.user_id =s user)) _ _
          (environment-IsSilent r env) (λ w. refl))
        (λ mine. bind-IsSilent _ _ (owned_among-IsSilent id user env rs) (λ rest w. refl))

  pub owned-IsSilent : (id user env : String) → IsSilent (owned_resources services id user env)
  unfolding owned_resources managed_resources
  owned-IsSilent id user env =
      bind-IsSilent _ _ (λ w. refl) (λ rs. owned_among-IsSilent id user env rs)

  -- A silent part leaves the phase.
  stay : {A : Type 0} (p : Phase) (m : Act W A) → IsSilent m → From p (λ _ q. q ≡ p) m
  stay p m quiet = silent p m quiet (λ w. refl)

  -- One deletion, from the two phases that it leads to.
  tried :
      (p : Phase) (kind : Kind) (id : String) (R : Bool → Phase → Type 0) (after failed : Phase)
      → phase_after (some p) (deleted kind id true ∷ []) ≡ some after
      → R true after
      → phase_after (some p) (deleted kind id false ∷ []) ≡ some failed
      → R false failed
      → From p (Answers R) (try_delete services kind id)
  unfolding try_delete
  tried p kind id R after failed there good there' bad = record {
    runs = λ w.
        let b : Bool = (delete_by services kind id w.outside).0 in
        (deleted kind id b ∷ [], if b then after else failed, refl, leads b, relates b);
  }
    where
      leads :
          (b : Bool)
          → phase_after (some p) (deleted kind id b ∷ []) ≡ some (if b then after else failed)
      leads true = there
      leads false = there'

      relates : (b : Bool) → R b (if b then after else failed)
      relates true = good
      relates false = bad

  pub try_server-From :
      (id : String) (p : Phase) (fine : Bool)
      → Serving fine p
      → From p (Answers (λ b. Serving (fine && b))) (try_delete services Kind.server id)
  unfolding phase_after advance
  try_server-From id p fine (inl e) =
      subst
        (λ (x : Phase).
          From x (Answers (λ b. Serving (fine && b))) (try_delete services Kind.server id))
        (sym e)
        (tried Phase.servers Kind.server id (λ b. Serving (fine && b)) Phase.servers Phase.broken
          refl (inl refl) refl (inr (refl, and_false fine)))
  try_server-From id p fine (inr (e, broken)) =
      subst
        (λ (x : Phase).
          From x (Answers (λ b. Serving (fine && b))) (try_delete services Kind.server id))
        (sym e)
        (tried Phase.broken Kind.server id (λ b. Serving (fine && b)) Phase.broken Phase.broken refl
          (inr (refl, ap (λ x. x && true) broken)) refl (inr (refl, and_false fine)))

  pub try_volume-From :
      (id : String) (p : Phase) (fine : Bool)
      → Clearing fine p
      → From p (Answers (λ b. Clearing (fine && b))) (try_delete services Kind.volume id)
  unfolding phase_after advance
  try_volume-From id p fine (inl e) =
      subst
        (λ (x : Phase).
          From x (Answers (λ b. Clearing (fine && b))) (try_delete services Kind.volume id))
        (sym e)
        (tried Phase.servers Kind.volume id (λ b. Clearing (fine && b)) Phase.volumes Phase.spoiled
          refl (inr (inl refl)) refl (inr (inr (refl, and_false fine))))
  try_volume-From id p fine (inr (inl e)) =
      subst
        (λ (x : Phase).
          From x (Answers (λ b. Clearing (fine && b))) (try_delete services Kind.volume id))
        (sym e)
        (tried Phase.volumes Kind.volume id (λ b. Clearing (fine && b)) Phase.volumes Phase.spoiled
          refl (inr (inl refl)) refl (inr (inr (refl, and_false fine))))
  try_volume-From id p fine (inr (inr (e, spoiled))) =
      subst
        (λ (x : Phase).
          From x (Answers (λ b. Clearing (fine && b))) (try_delete services Kind.volume id))
        (sym e)
        (tried Phase.spoiled Kind.volume id (λ b. Clearing (fine && b)) Phase.spoiled Phase.spoiled
          refl (inr (inr (refl, ap (λ x. x && true) spoiled))) refl
          (inr (inr (refl, and_false fine))))

  -- A loop keeps a relation that each deletion keeps and that False keeps.
  pub delete_each-From :
      (kind : Kind) (R : Bool → Phase → Type 0) (id lease : String) (rs : List Resource)
      (fine : Bool) (p : Phase)
      → ((b : Bool) (q : Phase) → R b q → R false q)
      → ((r : String) (q : Phase) (b : Bool)
          → R b q
          → From q (Answers (λ c. R (b && c))) (try_delete services kind r))
      → R fine p
      → From p (Answers R) (delete_each services kind id lease rs fine)
  unfolding delete_each
  delete_each-From kind R id lease [] fine p weak one holds = silent p _ (λ w. refl) (λ w. holds)
  delete_each-From kind R id lease (r ∷ rs) fine p weak one holds =
      bind-From p _ _ (stay p _ (call-IsSilent _))
        (λ owned q e.
          let here : R fine q = subst (R fine) (sym e) holds in
          if-From q owned _ _
            (bind-From q _ _ (one r.provider_id q fine here)
              (λ gone q' h. delete_each-From kind R id lease rs (fine && gone) q' weak one h)
              (λ e q' h. tt))
            (silent q _ (λ w. refl) (λ w. weak fine q here)))
        (λ e q h. tt)

  pub Serving-weak : (b : Bool) (q : Phase) → Serving b q → Serving false q
  Serving-weak b q (inl e) = inl e
  Serving-weak b q (inr (e, h)) = inr (e, refl)

  pub Clearing-weak : (b : Bool) (q : Phase) → Clearing b q → Clearing false q
  Clearing-weak b q (inl e) = inl e
  Clearing-weak b q (inr (inl e)) = inr (inl e)
  Clearing-weak b q (inr (inr (e, h))) = inr (inr (e, refl))
