-- ===== src/Reaper/Unowned.antt =====
-- What `_cleanup_orphans` of apps/control-api/reaper.py deletes, against its snapshot and its listing.
use irlight.Base.{
  ◌≡◌, refl, sym, subst, ap, append_assoc, append_nil, ◌∙◌, ◌⊎◌, inl, inr, ℕ, Bool, true, false,
  ◌&&◌, Option, none, some, List, [], ◌∷◌, ◌++◌, String, if◌then◌else◌, All, any, arith,
}
use irlight.Base.Dict.{Dict}
use irlight.Session.Value.{Result, ok, err, Error}
use irlight.Session.Record.{Session}
use irlight.Session.Node.{authoritative_snapshot}
use irlight.Workflow.World.{
  Kind, Resource, Effect, Services, World, Act, pass, listed, ◌>>=◌, return, deleted, call,
  managed_resources, try_delete,
}
use irlight.Workflow.Cleanup.{is_kind}
use irlight.Workflow.Emits.{IsSilent, if-IsSilent}
use irlight.Workflow.Makes.{Kept, Adds, Makes, silent-Makes, bind-Makes, if-Makes, finally-Makes}
use irlight.Workflow.Order.{call-IsSilent, listing-IsSilent}
use irlight.Workflow.World.{caught, or_answer}
use irlight.Reaper.Config.{ReaperConfig, caught_state, or_state_answer}
use irlight.Reaper.Orphans.{
  known_from, orphan_delete_allowed, owner_name, is_same, is_attached, delete_owned, delete_orphan,
  release_orphan, leased_orphan, cleanup_orphan_resource, orphans_of, one_more, orphans_among,
  cleanup_orphans,
}

abbrev pub Within : Resource → List Resource → Type 0
Within r [] = ⊥
Within r (x ∷ rs) = (r ≡ x) ⊎ Within r rs

-- A deletion of a row of the kind that the snapshot allows to delete.
abbrev pub IsAllowed : ReaperConfig → Dict Session → ℕ → List Resource → Kind → Effect → Type 0
IsAllowed config known now resources kind e =
    (r : Resource) × (b : Bool) × (e ≡ deleted r.kind r.provider_id b)
    × (r.kind ≡ kind)
    × Within r resources
    × (orphan_delete_allowed config r known now ≡ true)

module _ (P : Effect → Type 0) where
  All-append : (es fs : List Effect) → All P es → All P fs → All P (es ++ fs)
  All-append [] fs here there = there
  All-append (e ∷ es) fs here there = (here.0, All-append es fs here.1 there)

  abbrev kept : Kept (All P)
  kept = record { none_made = tt; joined = All-append }

module _ {W : Type 0} where
  answer-calls :
      {A : Type 0} (a : A) (r : Result A × World W) → (or_state_answer a r).1.calls ≡ r.1.calls
  answer-calls a (ok b, w) = refl
  answer-calls a (err Error.state_error, w) = refl
  answer-calls a (err e, w) = refl

  caught_state-IsSilent :
      {A : Type 0} (a : A) (m : Act W A) → IsSilent m → IsSilent (caught_state a m)
  unfolding caught_state
  caught_state-IsSilent a m quiet w = answer-calls a (m w) ∙ quiet w

  caught-Makes :
      {A : Type 0} {P : List Effect → Type 0} (a : A) (m : Act W A)
      → Makes P m
      → Makes P (caught a m)
  unfolding caught
  caught-Makes {P} a m makes = record {
    adds = λ w. subst (Adds P w.calls) (sym (caught-calls a (m w))) (makes.adds w);
  }
    where
      caught-calls :
          {A : Type 0} (a : A) (r : Result A × World W) → (or_answer a r).1.calls ≡ r.1.calls
      caught-calls a (ok b, w) = refl
      caught-calls a (err e, w) = refl

kind_of : (kind : Kind) (r : Resource) → is_kind kind r ≡ true → r.kind ≡ kind
kind_of Kind.server r h = ground arith
kind_of Kind.volume r h = ground arith

module _ {W : Type 0} (services : Services W) (config : ReaperConfig) (known : Dict Session)
    (now : ℕ) (resources : List Resource) (kind : Kind) where
  abbrev P : Effect → Type 0
  P = IsAllowed config known now resources kind

  abbrev MayGo : Resource → Type 0
  MayGo r = (r.kind ≡ kind) × Within r resources × (orphan_delete_allowed config r known now ≡ true)

  try_delete-Makes :
      (r : Resource) → MayGo r → Makes (All P) (try_delete services r.kind r.provider_id)
  unfolding try_delete
  try_delete-Makes r h = record {
    adds = λ w. record {
      added = deleted r.kind r.provider_id _ ∷ [];
      grown = refl;
      good = ((r, _, refl, h.0, h.1, h.2), tt);
    };
  }

  delete_owned-Makes :
      (r : Resource) (latest : List Resource) (owned : Bool)
      → MayGo r
      → Makes (All P) (delete_owned services r latest owned)
  unfolding delete_owned
  delete_owned-Makes r latest false h = silent-Makes (kept P) _ (λ w. refl)
  delete_owned-Makes r latest true h =
      if-Makes (kept P) (any (is_attached r.kind (owner_name r)) latest) _ _
        (silent-Makes (kept P) _ (λ w. refl)) (try_delete-Makes r h)

  delete_orphan-Makes :
      (r : Resource) (lease : String) → MayGo r → Makes (All P) (delete_orphan services r lease)
  unfolding delete_orphan
  delete_orphan-Makes r lease h =
      bind-Makes (kept P) _ _ (silent-Makes (kept P) _ (listing-IsSilent services)) λ latest.
        bind-Makes (kept P) _ _
          (silent-Makes (kept P) _
            (if-IsSilent (any (is_same r) latest) _ _ (call-IsSilent services _) (λ w. refl)))
          λ owned. delete_owned-Makes r latest owned h

  leased_orphan-Makes :
      (r : Resource) (o : Option String) → MayGo r → Makes (All P) (leased_orphan services r o)
  unfolding leased_orphan release_orphan
  leased_orphan-Makes r none h = silent-Makes (kept P) _ (λ w. refl)
  leased_orphan-Makes r (some lease) h =
      finally-Makes (kept P) _ _ (caught-Makes false _ (delete_orphan-Makes r lease h))
        (caught_state-IsSilent tt _ (call-IsSilent services _))

  cleanup_orphan-Makes :
      (r : Resource) → MayGo r → Makes (All P) (cleanup_orphan_resource services r)
  unfolding cleanup_orphan_resource
  cleanup_orphan-Makes r h =
      bind-Makes (kept P) _ _
        (silent-Makes (kept P) _ (caught_state-IsSilent none _ (call-IsSilent services _)))
        (λ o. leased_orphan-Makes r o h)

  chosen-Makes :
      (r : Resource) (rs : List Resource) (n : ℕ) (a b : Bool)
      → (a ≡ true → b ≡ true → MayGo r)
      → ((n : ℕ) → Makes (All P) (orphans_of services config now kind known rs n))
      → Makes (All P) (
          if a && b
          then (cleanup_orphan_resource services r >>= λ done.
              orphans_of services config now kind known rs (one_more services config now done n))
          else orphans_of services config now kind known rs n)
  chosen-Makes r rs n true true may rest =
      bind-Makes (kept P) _ _ (cleanup_orphan-Makes r (may refl refl)) (λ done. rest _)
  chosen-Makes r rs n true false may rest = rest n
  chosen-Makes r rs n false b may rest = rest n

  orphans_of-Makes :
      (rs : List Resource) (n : ℕ)
      → ((r : Resource) → Within r rs → Within r resources)
      → Makes (All P) (orphans_of services config now kind known rs n)
  unfolding orphans_of
  orphans_of-Makes [] n inside = silent-Makes (kept P) _ (λ w. refl)
  orphans_of-Makes (r ∷ rs) n inside =
      chosen-Makes r rs n (is_kind kind r) (orphan_delete_allowed config r known now)
        (λ h allowed. (kind_of kind r h, inside r (inl refl), allowed))
        (λ n. orphans_of-Makes rs n (λ x h. inside x (inr h)))

-- Two parts, each with a property of its own calls.
Both : (P Q : List Effect → Type 0) → List Effect → List Effect → Type 0
Both P Q before after =
    (es : List Effect) × (fs : List Effect) × (after ≡ before ++ (es ++ fs)) × P es × Q fs

pass-Both :
    {W : Type 0} {A B : Type 0} {P Q : List Effect → Type 0} (before : List Effect)
    (r : Result A × World W) (f : A → Act W B)
    → Q []
    → Adds P before r.1.calls
    → ((a : A) → Makes Q (f a))
    → Both P Q before (pass r f).1.calls
unfolding Both
pass-Both before (ok a, w) f nil first rest =
    let next = (rest a).adds w in
    (
      first.added,
      next.added,
      next.grown
          ∙ ap (λ cs. cs ++ next.added) first.grown
          ∙ append_assoc before first.added next.added,
      first.good,
      next.good,
    )
pass-Both before (err e, w) f nil first rest = (
  first.added,
  [],
  first.grown ∙ ap (λ cs. before ++ cs) (sym (append_nil first.added)),
  first.good,
  nil,
)

module _ {W : Type 0} (services : Services W) (config : ReaperConfig) (now : ℕ) where
  -- What the sweep adds: nothing, or deletions that the snapshot and the listing after it allow, those of
  -- servers first.
  abbrev pub Sweeps : Result (List Session) × World W → List Effect → List Effect → Type 0
  Sweeps snapshot before after =
      (after ≡ before)
      ⊎ ((sessions : List Session) × (resources : List Resource) × (servers : List Effect)
          × (volumes : List Effect) × (snapshot.0 ≡ ok sessions)
          × (services.list_managed_resources snapshot.1.outside ≡ some resources)
          × (after ≡ before ++ (servers ++ volumes))
          × All (IsAllowed config (known_from [] sessions) now resources Kind.server) servers
          × All (IsAllowed config (known_from [] sessions) now resources Kind.volume) volumes)

  from_listing :
      (sessions : List Session) (w : World W) (o : Option (List Resource))
      → services.list_managed_resources w.outside ≡ o
      → Sweeps
          (ok sessions, w)
          w.calls
          (pass
            (listed services o, w)
            (λ rs. orphans_of services config now Kind.server (known_from [] sessions) rs 0 >>= λ n.
              orphans_of services config now Kind.volume (known_from [] sessions) rs n)).1.calls
  unfolding ◌>>=◌ Both
  from_listing sessions w none e = inl refl
  from_listing sessions w (some rs) e =
      let (servers, volumes, grown, first, next) =
        pass-Both w.calls
          (orphans_of services config now Kind.server (known_from [] sessions) rs 0 w) _ tt
          ((orphans_of-Makes services config (known_from [] sessions) now rs Kind.server rs 0
              (λ r h. h)).adds
            w)
          (λ n.
            orphans_of-Makes services config (known_from [] sessions) now rs Kind.volume rs n
              (λ r h. h)) in
      inr (sessions, rs, servers, volumes, refl, e, grown, first, next)

  from_snapshot :
      (before : List Effect) (r : Result (List Session) × World W)
      → r.1.calls ≡ before
      → Sweeps r before
          (pass
            (or_state_answer none (pass r (λ ss. return (some ss))))
            (orphans_among services config now)).1.calls
  unfolding orphans_among managed_resources ◌>>=◌
  from_snapshot before (ok ss, w) e =
      subst
        (λ (b : List Effect).
          Sweeps (ok ss, w) b
            (pass (listed services (services.list_managed_resources w.outside), w)
              (λ rs. orphans_of services config now Kind.server (known_from [] ss) rs 0 >>= λ n.
                orphans_of services config now Kind.volume (known_from [] ss) rs n)).1.calls)
        e (from_listing ss w _ refl)
  from_snapshot before (err Error.state_error, w) e = inl e
  from_snapshot before (err e, w) same = inl same

-- Whatever others do meanwhile and whatever fails, the orphan sweep deletes nothing, or only rows
-- of the listing that it read after its snapshot, each one allowed by `_orphan_delete_allowed` with
-- that snapshot, all servers before the volumes.
pub cleanup_orphans-allowed :
    {W : Type 0} (services : Services W) (config : ReaperConfig) (now : ℕ) (w : World W)
    → Sweeps services config now
        (call services (λ c. authoritative_snapshot) w)
        w.calls
        (cleanup_orphans services config now w).1.calls
unfolding cleanup_orphans caught_state ◌>>=◌
cleanup_orphans-allowed services config now w =
    from_snapshot services config now w.calls (call services (λ c. authoritative_snapshot) w)
      (call-IsSilent services _ w)
