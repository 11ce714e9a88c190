-- ===== src/Reaper/Orphans.antt =====
-- `_cleanup_orphans` of apps/control-api/reaper.py: provider resources that belong to no Session, or to one
-- that has ended.
use irlight.Base.{
  ℕ, ◌+◌, Bool, true, false, ◌&&◌, Option, none, some, List, [], ◌∷◌, String, leb, any,
  if◌then◌else◌,
}
use irlight.Base.Text.{◌=s◌}
use irlight.Base.Dict.{Dict, lookup, insert}
use irlight.Base.Int.{pos, negsuc}
use irlight.Session.Status.{is_in, terminal_states}
use irlight.Session.Record.{Session}
use irlight.Session.Leases.{
  claim_orphan_cleanup, orphan_cleanup_still_owned, release_orphan_cleanup,
}
use irlight.Session.Node.{authoritative_snapshot}
use irlight.Workflow.World.{
  Kind, Moment, Resource, Services, Act, ◌>>=◌, return, finally, call, managed_resources,
  try_delete,
}
use irlight.Workflow.Cleanup.{is_kind, lease_seconds}
use irlight.Workflow.World.{caught}
use irlight.Reaper.Config.{ReaperConfig, caught_state}

-- `known`, where the last Session with an id counts.
abbrev pub known_from : Dict Session → List Session → Dict Session
known_from known [] = known
known_from known (s ∷ ss) = known_from (insert s.session_id s known) ss

-- `now >= moment`.
abbrev is_past : ℕ → Moment → Bool
is_past now (Moment.at (pos n)) = leb n now
is_past now (Moment.at (negsuc n)) = true
is_past now Moment.always = true
is_past now _ = false

-- `now - moment >= grace`.
abbrev is_old : ℕ → ℕ → Moment → Bool
is_old now grace (Moment.at (pos n)) = leb (n + grace) now
is_old now grace (Moment.at (negsuc n)) = leb grace (now + n + 1)
is_old now grace Moment.always = true
is_old now grace _ = false

-- The two tests of a resource's age.
abbrev is_aged : ℕ → ℕ → Option Moment → Moment → Bool
is_aged now grace none created_at = is_old now grace created_at
is_aged now grace (some Moment.unreadable) created_at = false
is_aged now grace (some moment) created_at =
    if is_past now moment then true else is_old now grace created_at

abbrev pub is_ended : Option Session → Bool
is_ended none = true
is_ended (some s) = is_in s.status terminal_states

-- `_orphan_delete_allowed`.
unfoldable pub orphan_delete_allowed : ReaperConfig → Resource → Dict Session → ℕ → Bool
orphan_delete_allowed config r known now = elim r.session_id [
  | none ↦ false
  | some id ↦
      is_ended (lookup id known) && is_aged now config.orphan_grace r.delete_after r.created_at
]

-- `str(resource.session_id)`.
abbrev pub owner_name : Resource → String
owner_name r = elim r.session_id [ none ↦ "None" | some id ↦ id ]

-- The same row in a newer listing.
abbrev pub is_same : Resource → Resource → Bool
is_same r candidate =
    (candidate.provider_id =s r.provider_id)
    && is_kind r.kind candidate
    && (owner_name candidate =s owner_name r)

abbrev pub kind_name : Kind → String
kind_name Kind.server = "server"
kind_name Kind.volume = "volume"

-- A server of the same Session that a volume may be attached to.
abbrev pub is_attached : Kind → String → Resource → Bool
is_attached Kind.server id candidate = false
is_attached Kind.volume id candidate = (owner_name candidate =s id) && is_kind Kind.server candidate

module _ {W : Type 0} (services : Services W) where
  unfoldable pub delete_owned : Resource → List Resource → Bool → Act W Bool
  delete_owned r latest false = return false
  delete_owned r latest true =
      if any (is_attached r.kind (owner_name r)) latest
      then return false
      else try_delete services r.kind r.provider_id

  -- The part of `try` after the lease was granted.
  unfoldable pub delete_orphan : Resource → String → Act W Bool
  delete_orphan r lease = do
    latest ← managed_resources services
    owned ←
        (if any (is_same r) latest
          then call services (λ c. orphan_cleanup_still_owned (owner_name r) lease c.lease_clock)
          else return false)
    delete_owned r latest owned

  unfoldable pub release_orphan : String → String → Act W (Unit {0})
  release_orphan id lease = caught_state tt (call services λ c. release_orphan_cleanup id lease)

  unfoldable pub leased_orphan : Resource → Option String → Act W Bool
  leased_orphan r none = return false
  leased_orphan r (some lease) =
      finally (caught false (delete_orphan r lease)) (release_orphan (owner_name r) lease)

  -- `_cleanup_orphan_resource`.
  unfoldable pub cleanup_orphan_resource : Resource → Act W Bool
  cleanup_orphan_resource r =
      caught_state none (
        call services
          λ c. claim_orphan_cleanup (owner_name r) r.provider_id (kind_name r.kind) lease_seconds c)
      >>= leased_orphan r

module _ {W : Type 0} (services : Services W) (config : ReaperConfig) (now : ℕ) where
  abbrev pub one_more : Bool → ℕ → ℕ
  one_more true n = n + 1
  one_more false n = n

  -- One of the two loops of `_cleanup_orphans`.
  unfoldable pub orphans_of : Kind → Dict Session → List Resource → ℕ → Act W ℕ
  orphans_of kind known [] n = return n
  orphans_of kind known (r ∷ rs) n =
      if is_kind kind r && orphan_delete_allowed config r known now
      then (cleanup_orphan_resource services r >>= λ done.
          orphans_of kind known rs (one_more done n))
      else orphans_of kind known rs n

  -- What follows the snapshot; servers come before volumes.
  unfoldable pub orphans_among : Option (List Session) → Act W ℕ
  orphans_among none = return 0
  orphans_among (some sessions) = do
    resources ← managed_resources services
    servers ← orphans_of Kind.server (known_from [] sessions) resources 0
    orphans_of Kind.volume (known_from [] sessions) resources servers

  -- `_cleanup_orphans`.
  unfoldable pub cleanup_orphans : Act W ℕ
  cleanup_orphans =
      caught_state none
        (call services (λ c. authoritative_snapshot) >>= λ sessions. return (some sessions))
      >>= orphans_among
