-- ===== src/Workflow/Safety.antt =====
-- The deletions and the answer of `_cleanup_resources` in apps/control-api/session_workflow.py.
use irlight.Base.{
  ◌≡◌, refl, sym, ap, subst, ◌⊎◌, inl, inr, Bool, true, false, ◌&&◌, Option-cases, arith, none,
  some, List, [], ◌∷◌, ◌++◌, String, if◌then◌else◌, any,
}
use irlight.Session.Value.{Result, ok, err}
use irlight.Workflow.World.{
  Kind, Resource, Effect, Services, World, Act, ◌>>=◌, return, revoked, deleted, created, revoke,
  returned,
}
use irlight.Workflow.Cleanup.{owned_resources, delete_volumes, cleanup_resources, is_kind}
use irlight.Workflow.Emits.{
  Phase, phase_after, advance, From, IsSilent, silent, bind-From, if-From, after_silent,
}
use irlight.Workflow.Order.{
  Serving, Clearing, Answers, delete_each-From, Serving-weak, Clearing-weak, try_server-From,
  try_volume-From, call-IsSilent, owned-IsSilent,
}

-- A cleanup that answers True saw no deletion fail.
abbrev pub Cleaned : Bool → Phase → Type 0
Cleaned b q = (b ≡ false) ⊎ ((q ≡ Phase.servers) ⊎ (q ≡ Phase.volumes))

pub Clearing→Cleaned : (r : Result Bool) (q : Phase) → Answers Clearing r q → Answers Cleaned r q
Clearing→Cleaned (ok b) q (inl e) = inr (inl e)
Clearing→Cleaned (ok b) q (inr (inl e)) = inr (inr e)
Clearing→Cleaned (ok b) q (inr (inr (e, h))) = inl h
Clearing→Cleaned (err e) q u = tt

-- Revoked credentials, or an exception.
abbrev pub Revoked : Result (Unit {0}) → Phase → Type 0
Revoked (ok u) q = q ≡ Phase.servers
Revoked (err e) q = Unit

abbrev pub Any : {A : Type 0} → Result A → Phase → Type 0
Any r q = Unit

module _ {W : Type 0} where
  pub weaken :
      {A : Type 0} {P Q : Result A → Phase → Type 0} (p : Phase) (m : Act W A)
      → ((r : Result A) (q : Phase) → P r q → Q r q)
      → From p P m
      → From p Q m
  weaken p m imp first = record {
    runs = λ w.
        let (es, q, called, there, good) = first.runs w in (es, q, called, there, imp _ q good);
  }

  pub quietly : {A : Type 0} (p : Phase) (m : Act W A) → IsSilent m → From p Any m
  quietly p m quiet = silent p m quiet (λ w. tt)

module _ {W : Type 0} (services : Services W) where
  delete_volumes-From :
      (id lease : String) (rs : List Resource)
      → From Phase.servers (Answers Clearing) (delete_volumes services id lease rs)
  unfolding delete_volumes
  delete_volumes-From id lease rs =
      if-From _ (any (is_kind Kind.server) rs) _ _ (silent _ _ (λ w. refl) (λ w. inl refl)) (
        delete_each-From services Kind.volume Clearing id lease _ true _ (Clearing-weak services)
          (λ r q b h. try_volume-From services r q b h) (inl refl))

  after_servers :
      (id lease user env : String) (fine : Bool) (q : Phase)
      → Serving fine q
      → From q (Answers Cleaned) (
          if fine
          then (owned_resources services id user env >>= delete_volumes services id lease)
          else return false)
  after_servers id lease user env false q h = silent q _ (λ w. refl) (λ w. inl refl)
  after_servers id lease user env true q (inr (e, h)) = absurd (cc)
  after_servers id lease user env true q (inl e) =
      subst
        (λ (x : Phase).
          From x (Answers Cleaned)
            (owned_resources services id user env >>= delete_volumes services id lease))
        (sym e)
        (after_silent _ _ _ (owned-IsSilent services id user env)
          (λ rs. weaken _ _ Clearing→Cleaned (delete_volumes-From id lease rs)) (λ e. tt))

  pub cleanup-From :
      (id lease : String)
      → From Phase.servers (Answers Cleaned) (cleanup_resources services id lease)
  unfolding cleanup_resources
  cleanup-From id lease =
      after_silent _ _ _ (call-IsSilent services _)
        (λ current.
          after_silent _ _ _ (owned-IsSilent services id _ _)
            (λ rs.
              bind-From _ _ _
                (delete_each-From services Kind.server Serving id lease _ true _
                  (Serving-weak services) (λ r q b h. try_server-From services r q b h) (inl refl))
                (λ fine q h. after_servers id lease _ _ fine q h) (λ e q h. tt))
            (λ e. tt))
        (λ e. tt)

  pub revoke-From : (id : String) → From Phase.start Revoked (revoke services id)
  unfolding revoke phase_after advance
  revoke-From id = record {
    runs = λ w.
        let b : Bool = (services.revoke_session id w.outside).0 in
        (revoked id b ∷ [], if b then Phase.servers else Phase.refused, refl, leads b, relates b);
  }
    where
      leads :
          (b : Bool)
          → phase_after (some Phase.start) (revoked id b ∷ [])
            ≡ some (if b then Phase.servers else Phase.refused)
      leads true = refl
      leads false = refl

      relates :
          (b : Bool) → Revoked (returned services b) (if b then Phase.servers else Phase.refused)
      relates true = refl
      relates false = tt

abbrev has_returned : Effect → Bool
has_returned (revoked id b) = b
has_returned (deleted kind id b) = b
has_returned (created kind b) = b

-- Every call returned.
unfoldable pub all_returned : List Effect → Bool
all_returned [] = true
all_returned (e ∷ es) = has_returned e && all_returned es

-- The phases without a failure.
unfoldable is_clean : Phase → Bool
is_clean Phase.start = true
is_clean Phase.servers = true
is_clean Phase.volumes = true
is_clean _ = false

advance-is_clean :
    (p q : Phase) (e : Effect)
    → advance p e ≡ some q
    → is_clean q ≡ true
    → (is_clean p ≡ true) × (has_returned e ≡ true)
unfolding advance is_clean
advance-is_clean Phase.start q (revoked id true) h clean = (refl, refl)
advance-is_clean Phase.start q (revoked id false) h clean = ground arith
advance-is_clean Phase.servers q (deleted Kind.server id true) h clean = (refl, refl)
advance-is_clean Phase.servers q (deleted Kind.server id false) h clean = ground arith
advance-is_clean Phase.servers q (deleted Kind.volume id true) h clean = (refl, refl)
advance-is_clean Phase.servers q (deleted Kind.volume id false) h clean = ground arith
advance-is_clean Phase.volumes q (deleted Kind.volume id true) h clean = (refl, refl)
advance-is_clean Phase.volumes q (deleted Kind.volume id false) h clean = ground arith
advance-is_clean _ q _ h clean = ground arith

no_phase : (es : List Effect) → phase_after none es ≡ none
unfolding phase_after
no_phase [] = refl
no_phase (e ∷ es) = no_phase es

phase_after-is_clean :
    (p q : Phase) (es : List Effect)
    → phase_after (some p) es ≡ some q
    → is_clean q ≡ true
    → (is_clean p ≡ true) × (all_returned es ≡ true)
unfolding phase_after all_returned
phase_after-is_clean p q [] h clean =
    (subst (λ (x : Phase). is_clean x ≡ true) {x = q} {y = p} (cc h) clean, refl)
phase_after-is_clean p q (e ∷ es) h clean = elim (Option-cases (advance p e)) [
  | inl stuck ↦ absurd (never (rw stuck at h))
  | inr (r, next) ↦
      let (clean', rest) = phase_after-is_clean r q es (rw next at h) clean in
      let (clean'', here) = advance-is_clean p r e next clean' in (clean'', rw (here, rest))
]
  where
    never : phase_after none es ≡ some q → ⊥
    never k = absurd (cc (no_phase es, k))

clean_answer : (q : Phase) → Cleaned true q → is_clean q ≡ true
unfolding is_clean
clean_answer q (inl e) = cc
clean_answer q (inr (inl e)) = ap (λ x. is_clean x) e
clean_answer q (inr (inr e)) = ap (λ x. is_clean x) e

-- Where `_cleanup_resources` answers True, every deletion that it made returned, in the order that
-- the phases allow: all servers before the volumes.
pub cleanup_resources-true :
    {W : Type 0} (services : Services W) (id lease : String) (w : World W)
    → (cleanup_resources services id lease w).0 ≡ ok true
    → (es : List Effect) × (q : Phase) × ((cleanup_resources services id lease w).1.calls
        ≡ w.calls ++ es)
      × (phase_after (some Phase.servers) es ≡ some q)
      × (all_returned es ≡ true)
cleanup_resources-true services id lease w h =
    let (es, q, called, there, good) = (cleanup-From services id lease).runs w in
    let clean : is_clean q ≡ true =
      clean_answer q (subst (λ (r : Result Bool). Answers Cleaned r q) h good) in
    (es, q, called, there, (phase_after-is_clean Phase.servers q es there clean).1)
