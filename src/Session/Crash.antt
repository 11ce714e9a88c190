-- ===== src/Session/Crash.antt =====
-- What a reader of sessions.json sees after a transaction, a refused one, and a crash inside one:
-- `_load` and `_persist` of apps/control-api/session_store.py.
use irlight.Base.{
  ℕ, zero, suc, ◌≡◌, refl, ◌⊎◌, inl, inr, true, false, none, some, Option-cases, arith,
}
use irlight.Session.Value.{Result, ok, err, Error}
use irlight.Session.Record.{State}
use irlight.Session.Disk.{
  Disk, Content, Payload, Op, load, persist, locked, valid_payload, payload_of, writes, run_writes,
  empty_state,
}

-- sessions.json is absent and was never written, or holds a payload that passes the checks.
abbrev pub IsSound : Disk → Type 0
IsSound d =
    ((d.file ≡ none) × (d.initialized ≡ false))
    ⊎ ((p : Payload) × (d.file ≡ some (Content.payload p)) × (valid_payload p ≡ true))

-- A sound disk is loaded without an error.
load-IsSound : (d : Disk) → IsSound d → (st : State) × ((load d).0 ≡ ok st) × IsSound (load d).1
unfolding load
load-IsSound d (inl (absent, fresh)) = (empty_state, ground arith, inl (ground arith, ground arith))
load-IsSound d (inr (p, there, fine)) = (
  record { sessions = p.sessions; leases = p.leases; authoritative = true },
  ground arith,
  inr (p, ground arith, fine),
)

-- What a reader should see where a crash let `n` of the writes of a persist happen.
unfoldable pub seen_after : ℕ → State → Disk → Result State
seen_after zero st d = (load d).0
seen_after (suc zero) st d = elim d.file [
  | none ↦ err Error.state_error
  | some content ↦ (load d).0
]
seen_after (suc (suc n)) st d = ok (record st { authoritative = true })

-- After a crash inside a persist of an acceptable state, the next load sees the old state before
-- the second write and the new one from then on; but between the two writes of a first persist,
-- where there was no file before, it is an error, never an empty store.
pub load-crash :
    (n : ℕ) (st : State) (d : Disk)
    → valid_payload (payload_of st) ≡ true
    → (load (run_writes n (writes st) d)).0 ≡ seen_after n st d
unfolding load seen_after
load-crash zero st d h = refl
load-crash (suc zero) st d h = elim (Option-cases d.file) [
  | inl absent ↦ ground arith
  | inr (content, there) ↦ ground arith
]
load-crash (suc (suc zero)) st d h = ground arith
load-crash (suc (suc (suc n))) st d h = ground arith

module _ {ℓ} {A : Type ℓ} where
  -- A transaction that starts on a sound disk leaves a sound disk, whatever its body does.
  pub locked-IsSound : (op : Op A) (d : Disk) → IsSound d → IsSound (locked op d).1
  unfolding locked load persist
  locked-IsSound op d s = ground arith
