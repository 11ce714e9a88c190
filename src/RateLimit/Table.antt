-- ===== src/RateLimit/Table.antt =====
-- The table of counts of apps/control-api/auth_rate_limit.py: what purging and charging leave in it.
use irlight.Base.{
  ℕ, suc, ◌≤◌, ◌<◌, ◌≡◌, refl, ◌⊎◌, inl, inr, true, false, Option, none, some, [], ◌∷◌, String,
  arith, length,
}
use irlight.Base.Dict.{lookup, insert, IsDict}
use irlight.Base.Text.{=s_iff}
use irlight.RateLimit.Attempt.{
  Windows, Table, is_expired, purge_expired, last_reset, smaller, earliest,
}

le_total : (a b : ℕ) → (a ≤ b) ⊎ (b ≤ a)
le_total a b = ground arith

pub length-purge_le : (keys : Table) (now : ℕ) → length (purge_expired keys now) ≤ length keys
unfolding purge_expired
length-purge_le [] now = omega arith
length-purge_le ((k, ws) ∷ keys) now = ground (arith, length-purge_le keys now)

pub lookup-purge_none :
    (k : String) (keys : Table) (now : ℕ)
    → lookup k keys ≡ none
    → lookup k (purge_expired keys now) ≡ none
unfolding purge_expired
lookup-purge_none k [] now h = refl
lookup-purge_none k ((j, ws) ∷ keys) now h = ground (arith, lookup-purge_none k keys now)

-- A key with a window that still runs stays.
pub lookup-purge_live :
    (k : String) (keys : Table) (now : ℕ) (ws : Windows)
    → lookup k keys ≡ some ws
    → is_expired now ws ≡ false
    → lookup k (purge_expired keys now) ≡ some ws
unfolding purge_expired
lookup-purge_live k [] now ws h live = ground arith
lookup-purge_live k ((j, vs) ∷ keys) now ws h live = ground (arith, lookup-purge_live k keys now ws)

-- A key whose windows are over makes room.
pub lookup-purge_expired :
    (k : String) (keys : Table) (now : ℕ) (ws : Windows)
    → IsDict keys
    → lookup k keys ≡ some ws
    → is_expired now ws ≡ true
    → (lookup k (purge_expired keys now) ≡ none) × (length (purge_expired keys now) < length keys)
unfolding purge_expired
lookup-purge_expired k [] now ws d h over = ground arith
lookup-purge_expired k ((j, vs) ∷ keys) now ws d h over = ground (
  arith,
  lookup-purge_expired k keys now ws d.1,
  lookup-purge_none k keys now,
  length-purge_le keys now,
  =s_iff j k,
)

pub purge-IsDict : (keys : Table) (now : ℕ) → IsDict keys → IsDict (purge_expired keys now)
unfolding purge_expired
purge-IsDict [] now d = d
purge-IsDict ((j, ws) ∷ keys) now d =
    ground (arith, purge-IsDict keys now d.1, lookup-purge_none j keys now d.0)

pub length-insert_known :
    (k : String) (ws vs : Windows) (keys : Table)
    → lookup k keys ≡ some vs
    → length (insert k ws keys) ≡ length keys
length-insert_known k ws vs [] h = ground arith
length-insert_known k ws vs ((j, us) ∷ keys) h = ground (arith, length-insert_known k ws vs keys)

pub length-insert_le :
    (k : String) (ws : Windows) (keys : Table) → length (insert k ws keys) ≤ suc (length keys)
length-insert_le k ws [] = omega arith
length-insert_le k ws ((j, us) ∷ keys) = ground (arith, length-insert_le k ws keys)

-- Either the first key is the one that is released, or one of the others.
sooner :
    (ws : Windows) (o : Option ℕ) (later short all : ℕ)
    → smaller (last_reset ws) o ≤ later
    → ((m : ℕ) → o ≡ some m → m ≤ later → short < all)
    → (is_expired later ws ≡ true) ⊎ (short < all)
sooner ws none later short all come rest = inl (ground arith)
sooner ws (some m) later short all come rest = elim (le_total (last_reset ws) m) [
  | inl le ↦ inl (ground arith)
  | inr le ↦ inr (rest m refl (ground arith))
]

-- When the earliest release has come, some key is purged.
pub earliest-purge :
    (keys : Table) (until later : ℕ)
    → earliest keys ≡ some until
    → until ≤ later
    → length (purge_expired keys later) < length keys
unfolding purge_expired earliest
earliest-purge [] until later h come = ground arith
earliest-purge ((k, ws) ∷ keys) until later h come =
    elim (sooner ws (earliest keys) later (length (purge_expired keys later)) (length keys)
      (ground arith) (λ m e. earliest-purge keys m later e)) [
        | inl over ↦ ground (arith, length-purge_le keys later)
        | inr fewer ↦ ground arith
      ]
