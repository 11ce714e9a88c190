-- ===== src/AuthGuard/Lockout.antt =====
-- When apps/control-api/ingest_auth_guard.py locks a bucket, and until when.
use irlight.Base.{
  ℕ, suc, ◌+◌, ◌≤◌, ◌≡◌, refl, ap, ◌∙◌, subst, sym, List, [], ◌∷◌, ◌++◌, arith, All, length,
  length-append, leb, ltb, if◌then◌else◌,
}
use irlight.AuthGuard.Bucket.{
  IngestAuthGuardConfig, Bucket, new_bucket, counts_at, keep, prune_bucket, is_locked, fail_bucket,
}

-- Failures at some times, the first of them first.
unfoldable pub fail_all : IngestAuthGuardConfig → ℕ → List ℕ → Bucket → Bucket
fail_all config limit [] b = b
fail_all config limit (t ∷ ts) b = fail_all config limit ts (fail_bucket config limit t b)

-- Times that come in order, from `after` on, and not past `last`.
abbrev pub IsRising : ℕ → ℕ → List ℕ → Type 0
IsRising after last [] = after ≤ last
IsRising after last (t ∷ ts) = (after ≤ t) × IsRising t last ts

abbrev pub last_of : ℕ → List ℕ → ℕ
last_of t [] = t
last_of t (u ∷ us) = last_of u us

-- Times between two.
abbrev Between : ℕ → ℕ → List ℕ → Type 0
Between start now ts = All (λ t. (start ≤ t) × (t ≤ now)) ts

keep_all :
    (window start now : ℕ) (ts : List ℕ)
    → now ≤ start + window
    → Between start now ts
    → keep (λ t. counts_at window now t) ts ≡ ts
keep_all window start now [] h inside = refl
keep_all window start now (t ∷ ts) h inside =
    ground (arith, keep_all window start now ts h inside.1)

IsRising-last : (after last : ℕ) (ts : List ℕ) → IsRising after last ts → after ≤ last
IsRising-last after last [] h = h
IsRising-last after last (t ∷ ts) h = omega (arith, IsRising-last t last ts h.1)

Between-later :
    (start now later : ℕ) (ts : List ℕ)
    → now ≤ later
    → Between start now ts
    → Between start later ts
Between-later start now later [] h inside = tt
Between-later start now later (t ∷ ts) h inside =
    ((inside.0.0, omega arith), Between-later start now later ts h inside.1)

Between-append :
    (start now : ℕ) (ts : List ℕ) (t : ℕ)
    → Between start now ts
    → start ≤ t
    → t ≤ now
    → Between start now (ts ++ t ∷ [])
Between-append start now [] t inside low high = ((low, high), tt)
Between-append start now (u ∷ ts) t inside low high =
    (inside.0, Between-append start now ts t inside.1 low high)

-- One more failure of an unlocked bucket whose failures all count.
fail_one :
    (config : IngestAuthGuardConfig) (limit start t : ℕ) (b : Bucket)
    → b.locked_until ≡ 0
    → t ≤ start + config.failure_window
    → Between start t b.failures
    → ((fail_bucket config limit t b).failures ≡ b.failures ++ t ∷ [])
      × ((fail_bucket config limit t b).locked_until
          ≡ (if leb limit (suc (length b.failures)) then t + config.lockout else 0))
unfolding fail_bucket prune_bucket
fail_one config limit start t b free near inside =
    let all = keep_all config.failure_window start t b.failures near inside in
    rw (free, all) (refl, ground (arith, length-append b.failures (t ∷ [])))

-- The failures that are left to the limit lock the bucket at the last one.
fail_all_locks :
    (config : IngestAuthGuardConfig) (limit start after t : ℕ) (ts : List ℕ) (b : Bucket)
    → b.locked_until ≡ 0
    → start ≤ after
    → last_of t ts ≤ start + config.failure_window
    → Between start after b.failures
    → IsRising after (last_of t ts) (t ∷ ts)
    → length b.failures + suc (length ts) ≡ limit
    → (fail_all config limit (t ∷ ts) b).locked_until ≡ last_of t ts + config.lockout
unfolding fail_all
fail_all_locks config limit start after t [] b free low near inside rising full =
    let one =
      fail_one config limit start t b free near
        (Between-later start after t b.failures rising.0 inside) in
    ground (arith, one.1)
fail_all_locks config limit start after t (u ∷ us) b free low near inside rising full =
    let early = IsRising-last t (last_of u us) (u ∷ us) rising.1 in
    let seen = Between-later start after t b.failures rising.0 inside in
    let one = fail_one config limit start t b free (omega arith) seen in
    let b' = fail_bucket config limit t b in
    let many : length b'.failures ≡ suc (length b.failures) =
      ap length one.0 ∙ ground (arith, length-append b.failures (t ∷ [])) in
    fail_all_locks config limit start t u us b' (ground (arith, one.1)) (omega arith) near
      (subst (Between start t) (sym one.0)
        (Between-append start t b.failures t seen (omega arith) (omega arith)))
      rising.1 (omega arith)

-- A pruned bucket is locked up to its time.
pruned_locked :
    (config : IngestAuthGuardConfig) (now : ℕ) (b : Bucket)
    → is_locked now (prune_bucket config now b) ≡ ltb now b.locked_until
unfolding prune_bucket
pruned_locked config now b = ground arith

-- When as many failures as the limit come in a row in a new bucket, in order and within the failure
-- window of the first, the bucket is locked from the last of them on for the lockout time and no
-- longer.
pub fail_all-locked :
    (config : IngestAuthGuardConfig) (limit t : ℕ) (ts : List ℕ) (now : ℕ)
    → suc (length ts) ≡ limit
    → IsRising t (last_of t ts) ts
    → last_of t ts ≤ t + config.failure_window
    → is_locked now (prune_bucket config now (fail_all config limit (t ∷ ts) (new_bucket t)))
      ≡ ltb now (last_of t ts + config.lockout)
fail_all-locked config limit t ts now full rising near =
    pruned_locked config now (fail_all config limit (t ∷ ts) (new_bucket t))
    ∙ ap (ltb now) (
        fail_all_locks config limit t t t ts (new_bucket t) refl (omega arith) near tt
          (omega arith, rising) (omega (arith, full)))
