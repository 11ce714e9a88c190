-- ===== src/Session/Command.antt =====
-- `set_audio_desired` (apps/control-api/session_store.py) after a command that was accepted: its key and its
-- version.
use irlight.Base.{
  ℕ, ◌+◌, ◌≡◌, refl, sym, ◌∙◌, ap, true, false, not, Option, some, String, arith, ◌==◌,
}
use irlight.Base.Dict.{lookup, lookup-insert_self}
use irlight.Base.Int.{pos}
use irlight.Base.Text.{◌=s◌, ◌=?◌, =s_refl}
use irlight.Session.Status.{is_in, terminal_states}
use irlight.Session.Value.{Raw, ok, err, Error, ◌>>=◌, AudioResponse, DesiredMode}
use irlight.Session.Record.{Session, State, Audio}
use irlight.Session.Disk.{Step}
use irlight.Session.Events.{append_event_locked, now_or}
use irlight.Session.Media.{
  set_audio_desired, command_audio, parse_mode, same_mode, is_bad_key, audio_or_default,
  response_of, accept,
}
use irlight.Session.Outcome.{
  Saves, keeps, saves, fails, bind-Saves, found-Saves, guard-Saves, if-Saves, Saves-elim,
  or_raise-ok,
}

-- What an accepted command leaves in the store.
abbrev Accepted : String → DesiredMode → ℕ → String → AudioResponse → State → Type 0
Accepted id mode version key response st' =
    (s : Session) × (a : Audio) × (lookup id st'.sessions ≡ some s)
    × (s.media_control ≡ some a)
    × (response_of a ≡ response)
    × (a.desired_mode ≡ mode)
    × (a.version ≡ version + 1)
    × (a.idempotency_key ≡ some key)
    × (is_in s.status terminal_states ≡ false)

same_mode_refl : (m : DesiredMode) → same_mode m m ≡ true
same_mode_refl DesiredMode.live = refl
same_mode_refl DesiredMode.muted = refl

consumed : (v w : ℕ) → not (v == w) ≡ false → w + 1 ≡ v + 1
consumed v w h = ground arith

not_next : (v : ℕ) → (v == v + 1) ≡ false
not_next v = ground arith

command-Accepted :
    (id : String) (m : DesiredMode) (v : ℕ) (key operator command : String) (now : ℕ) (s : Session)
    (st : State)
    → is_in s.status terminal_states ≡ false
    → Saves (Accepted id m v key) (command_audio id m v key operator command now s st)
unfolding command_audio append_event_locked
command-Accepted id m v key operator command now s st running =
    let a = audio_or_default s.media_control now in
    if-Saves (a.idempotency_key =? some key) _ _
      (λ _. if-Saves (same_mode a.desired_mode m) _ _ (λ _. keeps _) (λ _. fails _))
      (λ _.
        if-Saves (not (v == a.version)) _ _ (λ _. fails _)
          (λ current. saves _ _ (
            _,
            accept m key command now a,
            lookup-insert_self id _ st.sessions,
            refl,
            refl,
            refl,
            consumed v _ current,
            refl,
            running,
          )))

set_audio-Accepted :
    (id mode : String) (v : ℕ) (key operator command : String) (clock : Raw) (at : Option Raw)
    (st : State) (m : DesiredMode)
    → parse_mode mode ≡ some m
    → Saves
        (Accepted id m v key)
        (set_audio_desired id mode (pos v) key operator command clock at st)
unfolding set_audio_desired
set_audio-Accepted id mode v key operator command clock at st m e = bind-Saves _ _ λ m' e'.
    bind-Saves _ _ λ v' e''. guard-Saves _ _ _ λ _. bind-Saves _ _ λ now _.
      found-Saves _ _ _ λ s found. guard-Saves _ _ _ λ running.
        let mode_is : m' ≡ m =
          ground (arith, e, or_raise-ok (parse_mode mode) Error.value_error e') in
        let version_is : v' ≡ v = ground (arith, e'') in
        rw (mode_is, version_is) (command-Accepted id m v key operator command now s st running)

-- All that an accepted command brings about for the next one.
accepted_effects :
    (id mode : String) (v : ℕ) (key operator command : String) (clock : Raw) (at : Option Raw)
    (st st' : State) (m : DesiredMode) (response : AudioResponse)
    → parse_mode mode ≡ some m
    → is_bad_key key ≡ false
    → set_audio_desired id mode (pos v) key operator command clock at st
      ≡ ok (Step.save response st')
    → (response.version ≡ v + 1)
      × ((w n : ℕ) (op c : String) (clock' : Raw) (at' : Option Raw)
          → now_or clock' at' ≡ ok n
          → set_audio_desired id mode (pos w) key op c clock' at' st' ≡ ok (Step.keep response))
      × ((w n : ℕ) (other op c : String) (clock' : Raw) (at' : Option Raw) (m' : DesiredMode)
          → now_or clock' at' ≡ ok n
          → parse_mode other ≡ some m'
          → same_mode m m' ≡ false
          → set_audio_desired id other (pos w) key op c clock' at' st'
            ≡ err Error.idempotency_conflict)
      × ((n : ℕ) (other fresh op c : String) (clock' : Raw) (at' : Option Raw) (m' : DesiredMode)
          → now_or clock' at' ≡ ok n
          → parse_mode other ≡ some m'
          → is_bad_key fresh ≡ false
          → (key =s fresh) ≡ false
          → set_audio_desired id other (pos v) fresh op c clock' at' st'
            ≡ err (Error.version_conflict response))
unfolding set_audio_desired command_audio ◌>>=◌
accepted_effects id mode v key operator command clock at st st' m response e good h =
    let (s, a, there, audio, answer, mode_is, version_is, key_is, running) =
      Saves-elim response st' (set_audio-Accepted id mode v key operator command clock at st m e)
        h in
    (
      ap (λ (x : AudioResponse). x.version) (sym answer) ∙ version_is,
      λ w n op c clock' at' timed.
          rw (timed, e, good, there, running, audio, key_is, =s_refl key, mode_is, same_mode_refl m)
            (ground arith),
      λ w n other op c clock' at' m' timed e' differs.
          rw (timed, e', good, there, running, audio, key_is, =s_refl key, mode_is, differs),
      λ n other fresh op c clock' at' m' timed e' good' differs.
          rw (timed, e', good', there, running, audio, key_is, differs, version_is, not_next v)
            (ground arith),
    )

-- After an accepted command the version is one up, and the same key and mode, with any version of
-- at least zero and at a checked time, given or read from the clock, are answered with the recorded
-- response, which writes nothing.
pub set_audio-replay :
    (id mode : String) (v : ℕ) (key operator command : String) (clock : Raw) (at : Option Raw)
    (st st' : State) (m : DesiredMode) (response : AudioResponse) (w n : ℕ) (op c : String)
    (clock' : Raw) (at' : Option Raw)
    → parse_mode mode ≡ some m
    → is_bad_key key ≡ false
    → set_audio_desired id mode (pos v) key operator command clock at st
      ≡ ok (Step.save response st')
    → now_or clock' at' ≡ ok n
    → (response.version ≡ v + 1)
      × (set_audio_desired id mode (pos w) key op c clock' at' st' ≡ ok (Step.keep response))
set_audio-replay id mode v key operator command clock at st st' m response w n op c clock' at' e
      good h timed =
    let (up, again, conflict, stale) =
      accepted_effects id mode v key operator command clock at st st' m response e good h in
    (up, again w n op c clock' at' timed)

-- After an accepted command its key with the other mode is an idempotency conflict, with any
-- version of at least zero and at a checked time, given or read from the clock.
pub set_audio-conflict :
    (id mode : String) (v : ℕ) (key operator command : String) (clock : Raw) (at : Option Raw)
    (st st' : State) (m : DesiredMode) (response : AudioResponse) (w n : ℕ) (other op c : String)
    (clock' : Raw) (at' : Option Raw) (m' : DesiredMode)
    → parse_mode mode ≡ some m
    → is_bad_key key ≡ false
    → set_audio_desired id mode (pos v) key operator command clock at st
      ≡ ok (Step.save response st')
    → parse_mode other ≡ some m'
    → same_mode m m' ≡ false
    → now_or clock' at' ≡ ok n
    → set_audio_desired id other (pos w) key op c clock' at' st' ≡ err Error.idempotency_conflict
set_audio-conflict id mode v key operator command clock at st st' m response w n other op c clock'
      at' m' e good h e' differs timed =
    let (up, again, conflict, stale) =
      accepted_effects id mode v key operator command clock at st st' m response e good h in
    conflict w n other op c clock' at' m' timed e' differs

-- After an accepted command another good key with the version that was just consumed, at a checked
-- time, given or read from the clock, is a version conflict, which carries the accepted response.
pub set_audio-stale :
    (id mode : String) (v : ℕ) (key operator command : String) (clock : Raw) (at : Option Raw)
    (st st' : State) (m : DesiredMode) (response : AudioResponse) (n : ℕ)
    (other fresh op c : String) (clock' : Raw) (at' : Option Raw) (m' : DesiredMode)
    → parse_mode mode ≡ some m
    → is_bad_key key ≡ false
    → set_audio_desired id mode (pos v) key operator command clock at st
      ≡ ok (Step.save response st')
    → parse_mode other ≡ some m'
    → is_bad_key fresh ≡ false
    → (key =s fresh) ≡ false
    → now_or clock' at' ≡ ok n
    → set_audio_desired id other (pos v) fresh op c clock' at' st'
      ≡ err (Error.version_conflict response)
set_audio-stale id mode v key operator command clock at st st' m response n other fresh op c clock'
      at' m' e good h e' fine new timed =
    let (up, again, conflict, stale) =
      accepted_effects id mode v key operator command clock at st st' m response e good h in
    stale n other fresh op c clock' at' m' timed e' fine new
