-- ===== src/Reaper/Order.antt =====
-- The order in which the reaper of apps/control-api/reaper.py revokes and deletes for one Session.
use irlight.Base.{
  ◌≡◌, refl, sym, ◌∙◌, subst, ℕ, inl, inr, Bool, true, false, Option, List, String, if◌then◌else◌,
  any,
}
use irlight.Session.Value.{Result, ok, err}
use irlight.Session.Json.{Fields}
use irlight.Workflow.World.{
  Kind, Resource, Effect, Services, World, Act, ◌>>=◌, return, revoked, revoke, returned,
}
use irlight.Workflow.Emits.{
  Phase, From, IsSilent, silent, bind-From, bind-IsSilent, if-From, after_silent,
}
use irlight.Workflow.Order.{
  Serving, Clearing, Answers, delete_each-From, Serving-weak, Clearing-weak, try_server-From,
  try_volume-From, call-IsSilent, listing-IsSilent,
}
use irlight.Workflow.Safety.{Cleaned, Clearing→Cleaned, weaken, revoke-From}
use irlight.Workflow.World
use irlight.Workflow.World.{or_answer, caught}
use irlight.Reaper.Config.{audit, try_revoke}
use irlight.Reaper.Cleanup.{is_of, clear_volumes, cleanup_resources}

module _ {W : Type 0} where
  answer-calls : {A : Type 0} (a : A) (r : Result A × World W) → (or_answer a r).1.calls ≡ r.1.calls
  answer-calls a (ok b, w) = refl
  answer-calls a (err e, w) = refl

  -- What is caught made the same calls.
  pub caught-IsSilent : {A : Type 0} (a : A) (m : Act W A) → IsSilent m → IsSilent (caught a m)
  unfolding caught
  caught-IsSilent a m quiet w = answer-calls a (m w) ∙ quiet w

module _ {W : Type 0} (services : Services W) where
  pub audit-IsSilent :
      (id type : String) (code : Option String) (payload : Fields) (now : ℕ)
      → IsSilent (audit services id type code payload now)
  unfolding audit
  audit-IsSilent id type code payload now =
      bind-IsSilent _ _ (call-IsSilent services _) (λ e w. refl)

  -- Whether the credentials were revoked.
  abbrev pub Tried : Result Bool → Phase → Type 0
  Tried (ok true) q = q ≡ Phase.servers
  Tried _ q = Unit

  caught-From : (p : Phase) (m : Act W Bool) → From p Tried m → From p Tried (caught false m)
  unfolding caught
  caught-From p m first = record {
    runs = λ w.
        let (es, q, called, there, good) = first.runs w in
        (es, q, answer-calls false (m w) ∙ called, there, kept (m w) q good);
  }
    where
      kept : (r : Result Bool × World W) (q : Phase) → Tried r.0 q → Tried (or_answer false r).0 q
      kept (ok true, w) q h = h
      kept (ok false, w) q h = tt
      kept (err e, w) q h = tt

  pub try_revoke-From : (id : String) → From Phase.start Tried (try_revoke services id)
  unfolding try_revoke
  try_revoke-From id = caught-From _ _ (
      bind-From _ _ _ (revoke-From services id) (λ u q e. silent q _ (λ w. refl) (λ w. e))
        (λ e q h. tt))

  clear_volumes-From :
      (id lease : String) (rs : List Resource)
      → From Phase.servers (Answers Clearing) (clear_volumes services id lease rs)
  unfolding clear_volumes
  clear_volumes-From id lease rs =
      if-From _ (any (is_of id Kind.server) rs) _ _ (silent _ _ (λ w. refl) (λ w. inl refl)) (
        delete_each-From services Kind.volume Clearing id lease _ true _ (Clearing-weak services)
          (λ r q b h. try_volume-From services r q b h) (inl refl))

  after_servers :
      (id lease : String) (fine : Bool) (q : Phase)
      → Serving fine q
      → From q (Answers Cleaned) (
          if fine
          then (World.managed_resources services >>= clear_volumes services id lease)
          else return false)
  after_servers id lease false q h = silent q _ (λ w. refl) (λ w. inl refl)
  after_servers id lease true q (inr (e, h)) = absurd (cc)
  after_servers id lease true q (inl e) =
      subst
        (λ (x : Phase).
          From x (Answers Cleaned)
            (World.managed_resources services >>= clear_volumes services id lease))
        (sym e)
        (after_silent _ _ _ (listing-IsSilent services)
          (λ rs. weaken _ _ Clearing→Cleaned (clear_volumes-From id lease rs)) (λ e. tt))

  -- From revoked credentials on, servers are deleted before volumes.
  pub cleanup-From :
      (id lease : String)
      → From Phase.servers (Answers Cleaned) (cleanup_resources services id lease)
  unfolding cleanup_resources
  cleanup-From id lease =
      after_silent _ _ _ (listing-IsSilent services)
        (λ rs.
          bind-From _ _ _
            (delete_each-From services Kind.server Serving id lease _ true _ (Serving-weak services)
              (λ r q b h. try_server-From services r q b h) (inl refl))
            (λ fine q h. after_servers id lease fine q h) (λ e q h. tt))
        (λ e. tt)
