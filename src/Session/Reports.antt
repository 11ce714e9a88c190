-- ===== src/Session/Reports.antt =====
-- What a Node's report to apps/control-api/session_store.py leaves for the checks of `_persist`.
use irlight.Base.{
  ℕ, ◌≡◌, refl, Bool, true, false, not, ◌&&◌, Option, none, some, List, [], ◌∷◌, String, arith, All,
  Bool-cases, inl, inr, if◌then◌else◌, ◌∙◌, ap,
}
use irlight.Base.Text.{is_empty, ◌=s◌}
use irlight.Session.Status.{Status, ◌=st◌, is_in}
use irlight.Session.Record.{Session, Event, Audio, clear_recovery_candidate}
use irlight.Session.Disk.{valid_session, valid_events, valid_next, valid_audio, last_sequence}
use irlight.Session.Ingest.{
  Observation, Facts, Decision, append_ingest_events, recovery_decision, recovery_candidate_ready,
  lifecycle_decision, degraded_decision, decision, decide, recover, enact, observe, facts_of,
  settle, stamp_move, is_accepted, is_some,
}
use irlight.Session.Lifecycle.{recover-decision}
use irlight.Session.Log.{append_event-valid}

-- What the checks read of a record.
abbrev core : Session → (((String × String) × List Event) × Option ℕ) × Option Audio
core s = ((((s.session_id, s.user_id), s.events), s.next_event_seq), s.media_control)

unfoldable valid_core : String → (((String × String) × List Event) × Option ℕ) × Option Audio → Bool
unfolding valid_session
valid_core key c =
    not (is_empty key)
    && not (is_empty c.0.0.0.0)
    && not (is_empty c.0.0.0.1)
    && (c.0.0.0.0 =s key)
    && valid_events 0 c.0.0.1
    && valid_next c.0.1 (last_sequence 0 c.0.0.1)
    && valid_audio c.1

core-valid :
    (key : String) (s t : Session)
    → core t ≡ core s
    → valid_session key s ≡ true
    → valid_session key t ≡ true
unfolding valid_session valid_core
core-valid key s t same h = ap (valid_core key) same ∙ h

events-valid :
    (key node : String) (o : Observation) (now : ℕ) (ts : List String) (s : Session)
    → All (λ t. is_empty t ≡ false) ts
    → valid_session key s ≡ true
    → valid_session key (append_ingest_events node o now ts s) ≡ true
unfolding append_ingest_events
events-valid key node o now [] s named h = h
events-valid key node o now (t ∷ ts) s named h =
    events-valid key node o now ts _ named.1 (append_event-valid key s _ now h named.0 refl).0

recover-core :
    (stable : ℕ) (s : Session) (source : Option String) (now : ℕ) (d : Option Decision)
    → core (recover stable s source now d).1 ≡ core s
unfolding recovery_candidate_ready
recover-core stable s source now none = refl
recover-core stable s source now (some d) = ground arith

decide-core :
    (stable : ℕ) (s : Session) (f : Facts) (source : Option String) (now : ℕ)
    → core (decide stable s f source now).1 ≡ core s
unfolding decide
decide-core stable s f source now =
    ground (arith, recover-core stable s source now (recovery_decision f))

-- A decision has an event.
Named : Option Decision → Type 0
Named d = (e : Decision) → d ≡ some e → is_empty e.event ≡ false

some-Named : (d : Decision) → is_empty d.event ≡ false → Named (some d)
unfolding Named
some-Named d h e same = ground (arith, h)

none-Named : Named none
unfolding Named
none-Named e same = cc

if-Named : (b : Bool) (x y : Option Decision) → Named x → Named y → Named (if b then x else y)
if-Named true x y nx ny = nx
if-Named false x y nx ny = ny

live-Named :
    (b : Bool)
    → Named (decision Status.live (if b then "session.live" else "session.recovered") none)
live-Named true = some-Named _ refl
live-Named false = some-Named _ refl

recovery-Named : (f : Facts) → Named (recovery_decision f)
unfolding recovery_decision
recovery-Named f = if-Named (f.online && is_accepted f.status) _ _ (some-Named _ refl) (
    if-Named (f.online && (f.status =s "DEGRADED") && not (is_some f.unusable_reason)) _ _
      (some-Named _ refl) none-Named)

degraded-Named : (a : Status) (f : Facts) → Named (degraded_decision a f)
degraded-Named a f =
    if-Named (is_some f.unusable_reason && is_in a (Status.live ∷ Status.degraded ∷ [])) _ _
      (some-Named _ refl)
      (if-Named (not (is_some f.unusable_reason)) _ _ (some-Named _ refl) none-Named)

lifecycle-Named : (a : Status) (f : Facts) → Named (lifecycle_decision a f)
unfolding lifecycle_decision
lifecycle-Named a f =
    let playing : List Status = Status.live ∷ Status.degraded ∷ [] in
    let fresh = Status.ready_wait_ingest in
    if-Named (f.online && (f.status =s "DEGRADED") && is_in a (fresh ∷ playing)) _ _
      (degraded-Named a f)
      (if-Named (f.online && (f.status =s "REJECTED") && is_in a playing) _ _ (some-Named _ refl) (
        if-Named (f.online && is_accepted f.status && is_in a (fresh ∷ Status.degraded ∷ [])) _ _
          (live-Named (a =st fresh))
          (if-Named (not f.online && is_in a playing) _ _ (some-Named _ refl) none-Named)))

decide-named :
    (stable : ℕ) (s : Session) (f : Facts) (source : Option String) (now : ℕ) (d : Decision)
    → (decide stable s f source now).0 ≡ some d
    → is_empty d.event ≡ false
unfolding decide Named
decide-named stable s f source now d h = elim (Bool-cases (s.status =st Status.holding)) [
  | inl holding ↦
      recovery-Named f d
        (recover-decision stable s source now (recovery_decision f) d (ground arith))
  | inr other ↦ lifecycle-Named s.status f d (ground arith)
]

abbrev moved_by : Observation → ℕ → Decision → Session → Session
moved_by o now d s =
    stamp_move d.target o.online now (clear_recovery_candidate (record s { status = d.target }))

settle-core : (a : Status) (s : Session) → core (settle a s) ≡ core s
settle-core a s = elim (Bool-cases (a =st Status.holding)) [
  | inl held ↦ simp held
  | inr other ↦ simp other
]

stamp_move-core :
    (t : Status) (online : Bool) (now : ℕ) (u : Status) (s : Session)
    → core (stamp_move t online now (clear_recovery_candidate (record s { status = u }))) ≡ core s
stamp_move-core t true now u s = elim (Bool-cases (t =st Status.holding)) [
  | inl held ↦ simp held
  | inr other ↦ simp other
]
stamp_move-core t false now u s = elim (Bool-cases (t =st Status.holding)) [
  | inl held ↦ simp held
  | inr other ↦ simp other
]

enact-valid :
    (key node : String) (o : Observation) (a : Status) (now : ℕ) (d : Option Decision) (s : Session)
    → valid_session key s ≡ true
    → ((e : Decision) → d ≡ some e → is_empty e.event ≡ false)
    → valid_session key (enact node o a now d s) ≡ true
unfolding enact
enact-valid key node o a now none s h named = core-valid key s (settle a s) (settle-core a s) h
enact-valid key node o a now (some d) s h named = elim (Bool-cases (d.target =st a)) [
  | inl same ↦ rw same (core-valid key s (settle a s) (settle-core a s) h)
  | inr other ↦
      rw other
        (append_event-valid key (moved_by o now d s) _ now
          (core-valid key s (moved_by o now d s) (stamp_move-core d.target o.online now d.target s)
            h)
          (named d refl) refl).0
]

-- A report whose event types are not empty keeps a record acceptable.
pub observe-valid :
    (stable : ℕ) (key node : String) (ts : List String) (o : Observation) (now : ℕ) (s : Session)
    → All (λ t. is_empty t ≡ false) ts
    → valid_session key s ≡ true
    → valid_session key (observe stable node ts o now s) ≡ true
unfolding observe
observe-valid stable key node ts o now s named h =
    let s' : Session = append_ingest_events node o now ts s in
    let d = decide stable s' (facts_of o) o.source_id now in
    core-valid key (enact node o s.status now d.0 d.1) _ refl (
      enact-valid key node o s.status now d.0 d.1
        (core-valid key s' d.1 (decide-core stable s' (facts_of o) o.source_id now)
          (events-valid key node o now ts s named h))
        (λ e is_e. decide-named stable s' (facts_of o) o.source_id now e is_e))
