-- ===== src/Session/Log.antt =====
-- The event log of a Session (apps/control-api/session_store.py): its numbering and its bound, as
-- `_persist` checks them.
use irlight.Base.{
  ℕ, zero, suc, ◌+◌, ◌-◌, ◌≤◌, ◌<◌, max, ◌≡◌, refl, true, false, not, ◌&&◌, Option, none, some,
  List, [], ◌∷◌, ◌++◌, String, arith, length, drop, take_last, length-append, length-take_last_le,
}
use irlight.Base.Text.{is_empty, ◌=s◌, is_empty-take}
use irlight.Session.Record.{Session, Event}
use irlight.Session.Disk.{
  valid_event, valid_events, last_sequence, valid_next, valid_session, valid_audio,
}
use irlight.Session.Events.{
  Entry, event_of, max_sequence, next_from, next_event_sequence, append_event_locked,
  session_event_limit,
}

valid_events-append :
    (p : ℕ) (es : List Event) (e : Event)
    → valid_events p es ≡ true
    → valid_event (last_sequence p es) e ≡ true
    → valid_events p (es ++ e ∷ []) ≡ true
valid_events-append p [] e h k = ground arith
valid_events-append p (x ∷ es) e h k = ground (arith, valid_events-append x.sequence es e)

-- A lower bound serves as well.
valid_events-lower :
    (p q : ℕ) (es : List Event) → q ≤ p → valid_events p es ≡ true → valid_events q es ≡ true
valid_events-lower p q [] h k = refl
valid_events-lower p q (x ∷ es) h k = ground arith

valid_events-drop :
    (n p : ℕ) (es : List Event) → valid_events p es ≡ true → valid_events 0 (drop n es) ≡ true
valid_events-drop zero p es h = valid_events-lower p 0 es (omega arith) h
valid_events-drop (suc n) p [] h = refl
valid_events-drop (suc n) p (x ∷ es) h = valid_events-drop n x.sequence es (ground arith)

last_sequence-append :
    (p : ℕ) (es : List Event) (e : Event) → last_sequence p (es ++ e ∷ []) ≡ e.sequence
last_sequence-append p [] e = refl
last_sequence-append p (x ∷ es) e = last_sequence-append x.sequence es e

last_sequence-drop :
    (n p : ℕ) (es : List Event) (e : Event)
    → n ≤ length es
    → last_sequence p (drop n (es ++ e ∷ [])) ≡ e.sequence
last_sequence-drop zero p es e h = last_sequence-append p es e
last_sequence-drop (suc n) p [] e h = absurd (omega arith)
last_sequence-drop (suc n) p (x ∷ es) e h = last_sequence-drop n p es e (omega arith)

last_sequence-le : (p : ℕ) (es : List Event) → last_sequence p es ≤ max p (max_sequence es)
last_sequence-le p [] = omega arith
last_sequence-le p (x ∷ es) = omega (arith, last_sequence-le x.sequence es)

-- The number of the next event lies beyond the last one.
next_from-lt :
    (next : Option ℕ) (es : List Event)
    → valid_next next (last_sequence 0 es) ≡ true
    → last_sequence 0 es < next_from next es
next_from-lt none es h = omega (arith, last_sequence-le 0 es)
next_from-lt (some n) es h = ground arith

still_valid :
    (key : String) (s : Session) (e : Event) (entry : Entry) (at : ℕ)
    → valid_session key s ≡ true
    → let es = take_last session_event_limit (s.events ++ event_of s entry at ∷ []) in
      valid_events 0 es ≡ true
      → last_sequence 0 es ≡ next_event_sequence s
      → valid_session key (append_event_locked s entry at) ≡ true
unfolding valid_session append_event_locked
still_valid key s e entry at h events last = rw (events, last) (next_valid key s h)
  where
    next_valid :
        (key : String) (s : Session)
        → valid_session key s ≡ true
        → (not (is_empty key)
            && not (is_empty s.session_id)
            && not (is_empty s.user_id)
            && (s.session_id =s key)
            && true
            && valid_next (some (next_event_sequence s + 1)) (next_event_sequence s)
            && valid_audio s.media_control)
          ≡ true
    next_valid key s h = ground arith

-- Appending an event with a type and an origin keeps a record acceptable, numbers the new event
-- above all the others, and keeps the newest thousand at most.
pub append_event-valid :
    (key : String) (s : Session) (entry : Entry) (at : ℕ)
    → valid_session key s ≡ true
    → is_empty entry.type ≡ false
    → is_empty entry.origin ≡ false
    → (valid_session key (append_event_locked s entry at) ≡ true)
      × (last_sequence 0 s.events < (event_of s entry at).sequence)
      × (last_sequence 0 (append_event_locked s entry at).events ≡ (event_of s entry at).sequence)
      × (length (append_event_locked s entry at).events ≤ session_event_limit)
unfolding valid_session append_event_locked
append_event-valid key s entry at h type origin =
    let e : Event = event_of s entry at in
    let n : ℕ = length (s.events ++ e ∷ []) - session_event_limit in
    let events : valid_events 0 s.events ≡ true = ground arith in
    let next : valid_next s.next_event_seq (last_sequence 0 s.events) ≡ true = ground arith in
    let higher : last_sequence 0 s.events < next_event_sequence s =
      next_from-lt s.next_event_seq s.events next in
    let fine : valid_event (last_sequence 0 s.events) e ≡ true =
      ground (arith, is_empty-take 99 entry.type, is_empty-take 49 entry.origin) in
    let kept : valid_events 0 (drop n (s.events ++ e ∷ [])) ≡ true =
      valid_events-drop n 0 _ (valid_events-append 0 s.events e events fine) in
    let last : last_sequence 0 (drop n (s.events ++ e ∷ [])) ≡ next_event_sequence s =
      last_sequence-drop n 0 s.events e (omega (arith, length-append s.events (e ∷ []))) in
    (
      still_valid key s e entry at h kept last,
      higher,
      last,
      length-take_last_le session_event_limit (s.events ++ e ∷ []),
    )
