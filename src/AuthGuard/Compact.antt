-- ===== src/AuthGuard/Compact.antt =====
-- How many buckets `_compact_buckets` and `record_blocked` of apps/control-api/ingest_auth_guard.py leave.
use irlight.Base.{
  ℕ, zero, suc, ◌-◌, ◌≤◌, ◌≡◌, refl, Bool, true, false, ◌∙◌, Option, none, some, List, [], ◌∷◌,
  String, arith, ltb, length, if◌then◌else◌,
}
use irlight.Base.Text.{=s_iff}
use irlight.Base.Dict.{Dict, lookup, insert, erase}
use irlight.AuthGuard.Bucket.{IngestAuthGuardConfig, Bucket}
use irlight.AuthGuard.Guard.{
  Spec, older, oldest, without_oldest, drop_oldest, live_buckets, compact_buckets,
}
use irlight.AuthGuard.Calls.{is_some, mark_due, mark_each}

-- A key of the dict.
abbrev pub has : String → Dict Bucket → Bool
has k d = is_some (lookup k d)

erase-length : (k : String) (d : Dict Bucket) → has k d ≡ true → suc (length (erase k d)) ≡ length d
erase-length k [] h = absurd (ground arith)
erase-length k ((j, b) ∷ d) h = ground (arith, erase-length k d)

insert-length :
    (k : String) (b : Bucket) (d : Dict Bucket) → has k d ≡ true → length (insert k b d) ≡ length d
insert-length k b [] h = absurd (ground arith)
insert-length k b ((j, c) ∷ d) h = ground (arith, insert-length k b d)

insert-has :
    (k j : String) (b : Bucket) (d : Dict Bucket) → has j d ≡ true → has j (insert k b d) ≡ true
insert-has k j b [] h = absurd (ground arith)
insert-has k j b ((i, c) ∷ d) h = ground (arith, insert-has k j b d)

-- The older of two entries is one of them.
has-older :
    (k : String) (a b : String × Bucket) (d : Dict Bucket)
    → has k (older a b ∷ d) ≡ true
    → has k (a ∷ b ∷ d) ≡ true
has-older k (i, a) (j, b) d = has_either (ltb b.last_seen_at a.last_seen_at)
  where
    has_either :
        (c : Bool)
        → has k ((if c then (j, b) else (i, a)) ∷ d) ≡ true
        → has k ((i, a) ∷ (j, b) ∷ d) ≡ true
    has_either true h = ground arith
    has_either false h = ground arith

oldest-has :
    (first : String × Bucket) (rest : Dict Bucket) → has (oldest first rest).0 (first ∷ rest) ≡ true
unfolding oldest
oldest-has (j, b) [] = ground (arith, =s_iff j j)
oldest-has (j, b) (next ∷ rest) =
    has-older (oldest (older (j, b) next) rest).0 (j, b) next rest
      (oldest-has (older (j, b) next) rest)

without_oldest-length : (d : Dict Bucket) → length (without_oldest d) ≡ length d - 1
unfolding without_oldest
without_oldest-length [] = omega arith
without_oldest-length (first ∷ rest) =
    omega (arith, erase-length (oldest first rest).0 (first ∷ rest) (oldest-has first rest))

drop_oldest-length : (n : ℕ) (d : Dict Bucket) → length (drop_oldest n d) ≡ length d - n
unfolding drop_oldest
drop_oldest-length zero d = omega arith
drop_oldest-length (suc n) d =
    omega (arith, drop_oldest-length n (without_oldest d), without_oldest-length d)

pub compact_buckets-length :
    (config : IngestAuthGuardConfig) (now : ℕ) (d : Dict Bucket)
    → length (compact_buckets config now d) ≤ config.bucket_limit
unfolding compact_buckets
compact_buckets-length config now d =
    let live = live_buckets config now d in
    omega (arith, drop_oldest-length (length live - config.bucket_limit) live)

mark_due-has :
    (config : IngestAuthGuardConfig) (now : ℕ) (key k : String) (o : Option Bucket)
    (marked : Dict Bucket × Bool)
    → has k marked.0 ≡ true
    → has k (mark_due config now key o marked).0 ≡ true
mark_due-has config now key k none marked h = h
mark_due-has config now key k (some b) marked h =
    ground (arith, insert-has key k (record b { last_blocked_event_at = some now }) marked.0 h)

mark_each-has :
    (config : IngestAuthGuardConfig) (specs : List Spec) (now : ℕ) (d : Dict Bucket) (k : String)
    → has k d ≡ true
    → has k (mark_each config specs now d).0 ≡ true
unfolding mark_each
mark_each-has config [] now d k h = h
mark_each-has config (s ∷ specs) now d k h =
    mark_due-has config now s.key k (lookup s.key d) (mark_each config specs now d)
      (mark_each-has config specs now d k h)

mark_due-length :
    (config : IngestAuthGuardConfig) (now : ℕ) (key : String) (o : Option Bucket)
    (marked : Dict Bucket × Bool)
    → (is_some o ≡ true → has key marked.0 ≡ true)
    → length (mark_due config now key o marked).0 ≡ length marked.0
mark_due-length config now key none marked h = refl
mark_due-length config now key (some b) marked h =
    ground
      (arith, insert-length key (record b { last_blocked_event_at = some now }) marked.0 (h refl))

pub mark_each-length :
    (config : IngestAuthGuardConfig) (specs : List Spec) (now : ℕ) (d : Dict Bucket)
    → length (mark_each config specs now d).0 ≡ length d
unfolding mark_each
mark_each-length config [] now d = refl
mark_each-length config (s ∷ specs) now d =
    mark_due-length config now s.key (lookup s.key d) (mark_each config specs now d)
      (mark_each-has config specs now d s.key)
    ∙ mark_each-length config specs now d
