-- ===== src/AuthGuard/Bounded.antt =====
-- The limits on the buckets and events of apps/control-api/ingest_auth_guard.py, and the numbers of the
-- events.
use irlight.Base.{
  ℕ, zero, suc, ◌+◌, ◌-◌, ◌≤◌, ◌≡◌, refl, Bool, true, false, not, ◌&&◌, Option, none, some, List,
  [], ◌∷◌, ◌++◌, String, arith, length, drop, length-append, length-take_last_le, if◌then◌else◌,
}
use irlight.Base.Dict.{Dict, erase}
use irlight.AuthGuard.Bucket.{IngestAuthGuardConfig}
use irlight.AuthGuard.Guard.{
  Scope, Spec, AuthGuardDecision, Event, EventType, Guard, compact_buckets, decision, is_blocked,
}
use irlight.AuthGuard.Calls.{
  Call, append_event, append_locked, record_failure, failed_call, mark_each, record_blocked,
  record_success, fail_each, no_decision,
}
use irlight.AuthGuard.Compact.{has, compact_buckets-length, mark_each-length}

-- The events are numbered one after another, up to `next`.
abbrev IsNumbered : ℕ → List Event → Type 0
IsNumbered next [] = Unit
IsNumbered next (e ∷ es) = (e.sequence + suc (length es) ≡ next) × IsNumbered next es

IsNumbered-append :
    (next : ℕ) (es : List Event) (e : Event)
    → e.sequence ≡ next
    → IsNumbered next es
    → IsNumbered (next + 1) (es ++ e ∷ [])
IsNumbered-append next [] e h numbered = (omega arith, tt)
IsNumbered-append next (x ∷ es) e h numbered =
    (omega (arith, length-append es (e ∷ []), numbered.0), IsNumbered-append next es e h numbered.1)

IsNumbered-drop : (n next : ℕ) (es : List Event) → IsNumbered next es → IsNumbered next (drop n es)
IsNumbered-drop zero next es h = h
IsNumbered-drop (suc n) next [] h = tt
IsNumbered-drop (suc n) next (x ∷ es) h = IsNumbered-drop n next es h.1

-- No more buckets and events than the limits, and the events numbered up to the next one's number.
abbrev pub IsGuard : IngestAuthGuardConfig → Guard → Type 0
IsGuard config g =
    (length g.buckets ≤ config.bucket_limit)
    × (length g.events ≤ config.event_limit)
    × IsNumbered g.next_sequence g.events

append_event-IsGuard :
    (config : IngestAuthGuardConfig) (type : EventType) (now : ℕ) (client : Dict (Option String))
    (d : AuthGuardDecision) (g : Guard)
    → IsGuard config g
    → IsGuard config (append_event config type now client d g)
unfolding append_event
append_event-IsGuard config type now client d g (few, recent, numbered) =
    let e : Event = record {
      sequence = g.next_sequence;
      type = type;
      occurred_at = now;
      client = client;
      decision = d;
    } in
    let es = g.events ++ e ∷ [] in
    (
      few,
      length-take_last_le config.event_limit es,
      IsNumbered-drop (length es - config.event_limit) (g.next_sequence + 1) es
          (IsNumbered-append g.next_sequence g.events e refl numbered),
    )

append_locked-IsGuard :
    (config : IngestAuthGuardConfig) (newly : List Scope) (now : ℕ) (client : Dict (Option String))
    (d : AuthGuardDecision) (g : Guard)
    → IsGuard config g
    → IsGuard config (append_locked config newly now client d g)
unfolding append_locked
append_locked-IsGuard config [] now client d g h = h
append_locked-IsGuard config (s ∷ ss) now client d g h =
    append_event-IsGuard config (EventType.auth_locked (s ∷ ss)) now client d g h

-- A call that may write the file.
pub data Write : Type 0 where
  failure blocked : List Spec → Dict (Option String) → Write
  success : String → Write

-- What the file holds after a call.
abbrev after : Guard → Option Guard → Guard
after g none = g
after g (some g') = g'

-- The file after calls at some times.
unfoldable pub write_all : IngestAuthGuardConfig → Guard → List (ℕ × Write) → Guard
unfolding record_failure record_blocked record_success
write_all config g [] = g
write_all config g ((now, Write.failure specs client) ∷ calls) =
    write_all config (after g (record_failure config specs now client g).1) calls
write_all config g ((now, Write.blocked specs client) ∷ calls) =
    write_all config (after g (record_blocked config specs now client g).1) calls
write_all config g ((now, Write.success key) ∷ calls) =
    write_all config (after g (record_success config key now g)) calls

-- Of two answers, neither spoils the guard.
either-IsGuard :
    (config : IngestAuthGuardConfig) (g : Guard) (c : Bool) (x y : Call)
    → IsGuard config (after g x.1)
    → IsGuard config (after g y.1)
    → IsGuard config (after g (if c then x else y).1)
either-IsGuard config g true x y h k = h
either-IsGuard config g false x y h k = k

record_failure-IsGuard :
    (config : IngestAuthGuardConfig) (specs : List Spec) (now : ℕ) (client : Dict (Option String))
    (g : Guard)
    → IsGuard config g
    → IsGuard config (after g (record_failure config specs now client g).1)
unfolding record_failure failed_call
record_failure-IsGuard config specs now client g h =
    let failed = fail_each config specs now (compact_buckets config now g.buckets) in
    let buckets = compact_buckets config now failed.0 in
    let d = decision specs now buckets in
    let compacted = record g { buckets = buckets } in
    either-IsGuard config g config.enabled (failed_call config now client compacted d failed.1)
      (no_decision, none)
      (append_locked-IsGuard config failed.1 now client d
        (append_event config EventType.auth_failed now client d compacted)
        (append_event-IsGuard config EventType.auth_failed now client d compacted
          (compact_buckets-length config now failed.0, h.1, h.2)))
      h

record_blocked-IsGuard :
    (config : IngestAuthGuardConfig) (specs : List Spec) (now : ℕ) (client : Dict (Option String))
    (g : Guard)
    → IsGuard config g
    → IsGuard config (after g (record_blocked config specs now client g).1)
unfolding record_blocked
record_blocked-IsGuard config specs now client g h =
    let buckets = compact_buckets config now g.buckets in
    let d = decision specs now buckets in
    let marked = mark_each config specs now buckets in
    let g' = record g { buckets = marked.0 } in
    let few : length marked.0 ≤ config.bucket_limit = omega (
      arith,
      mark_each-length config specs now buckets,
      compact_buckets-length config now g.buckets,
    ) in
    let said : Call = (d, some (append_event config EventType.auth_blocked now client d g')) in
    either-IsGuard config g (not config.enabled) (no_decision, none)
      (if is_blocked d && marked.1 then said else (d, none)) h
      (either-IsGuard config g (is_blocked d && marked.1) said (d, none)
        (append_event-IsGuard config EventType.auth_blocked now client d g' (few, h.1, h.2)) h)

record_success-IsGuard :
    (config : IngestAuthGuardConfig) (key : String) (now : ℕ) (g : Guard)
    → IsGuard config g
    → IsGuard config (after g (record_success config key now g))
unfolding record_success
record_success-IsGuard config key now g h =
    let kept = compact_buckets config now (erase key g.buckets) in
    after_if config g (record g { buckets = kept }) (config.enabled && has key g.buckets) h
      (compact_buckets-length config now (erase key g.buckets), h.1, h.2)
  where
    after_if :
        (config : IngestAuthGuardConfig) (g g' : Guard) (c : Bool)
        → IsGuard config g
        → IsGuard config g'
        → IsGuard config (after g (if c then some g' else none))
    after_if config g g' true h k = k
    after_if config g g' false h k = h

-- Over any recorded failures, blocked attempts and successes, a file with no more buckets and
-- events than the limits keeps within them, and its events stay numbered one after another up to
-- the next number.
pub write_all-IsGuard :
    (config : IngestAuthGuardConfig) (calls : List (ℕ × Write)) (g : Guard)
    → IsGuard config g
    → IsGuard config (write_all config g calls)
unfolding write_all
write_all-IsGuard config [] g h = h
write_all-IsGuard config ((now, Write.failure specs client) ∷ calls) g h =
    write_all-IsGuard config calls (after g (record_failure config specs now client g).1)
      (record_failure-IsGuard config specs now client g h)
write_all-IsGuard config ((now, Write.blocked specs client) ∷ calls) g h =
    write_all-IsGuard config calls (after g (record_blocked config specs now client g).1)
      (record_blocked-IsGuard config specs now client g h)
write_all-IsGuard config ((now, Write.success key) ∷ calls) g h =
    write_all-IsGuard config calls (after g (record_success config key now g))
      (record_success-IsGuard config key now g h)
