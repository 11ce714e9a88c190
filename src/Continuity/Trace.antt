-- ===== src/Continuity/Trace.antt =====
-- The decisions of apps/continuity/state.py as a function of what was observed, without the state that the
-- code keeps.
use irlight.Base.{
  ℕ, ◌+◌, ◌≤◌, ◌<◌, ◌≡◌, refl, ◌⊎◌, inl, inr, Bool, true, false, Option, none, some, List, [], ◌∷◌,
  arith, leb, ltb, Bool-cases, if◌then◌else◌,
}
use irlight.Continuity.State.{
  AudioMode, VideoSource, SessionStatus, Decision, Continuity, initial, set_audio_mode, is_recent,
  observe_video, observe_audio, is_stable, video_of, status_of, audio_of, decide,
}

-- What happens to a state: a buffer of either kind, a periodic decision, a command.
pub data Event : Type 0 where
  video audio decided : ℕ → Event
  mode : AudioMode → Event

unfoldable pub step : Event → Continuity → Continuity
unfolding observe_video observe_audio decide
step (video now) c = observe_video now c
step (audio now) c = observe_audio now c
step (decided now) c = (decide now c).1
step (mode m) c = set_audio_mode m c

-- The state after events, of which the newest comes first.
unfoldable pub state_after : ℕ → ℕ → List Event → Continuity
unfolding step
state_after timeout window [] = initial timeout window
state_after timeout window (e ∷ older) = step e (state_after timeout window older)

-- The clock does not go back: the events, from the newest on, are at `now` or before.
abbrev pub IsOrdered : ℕ → List Event → Type 0
IsOrdered now [] = Unit
IsOrdered now (video t ∷ older) = (t ≤ now) × IsOrdered t older
IsOrdered now (audio t ∷ older) = (t ≤ now) × IsOrdered t older
IsOrdered now (decided t ∷ older) = (t ≤ now) × IsOrdered t older
IsOrdered now (mode m ∷ older) = IsOrdered now older

-- The times of the video buffers, the newest first.
unfoldable pub videos : List Event → List ℕ
videos [] = []
videos (video t ∷ older) = t ∷ videos older
videos (_ ∷ older) = videos older

unfoldable pub last_audio : List Event → Option ℕ
last_audio [] = none
last_audio (audio t ∷ older) = some t
last_audio (_ ∷ older) = last_audio older

unfoldable pub last_mode : List Event → AudioMode
last_mode [] = AudioMode.live
last_mode (mode m ∷ older) = m
last_mode (_ ∷ older) = last_mode older

abbrev pub newest : List ℕ → Option ℕ
newest [] = none
newest (t ∷ ts) = some t

-- Where the buffers up to `t` began to come without a gap longer than the timeout.
unfoldable pub run_start : ℕ → ℕ → List ℕ → ℕ
run_start timeout t [] = t
run_start timeout t (u ∷ us) =
    let start = run_start timeout u us in if ltb (u + timeout) t then t else start

-- The status that a trace calls for.
unfoldable pub expected_status : ℕ → ℕ → ℕ → List ℕ → SessionStatus
unfolding run_start
expected_status timeout window now [] = SessionStatus.holding
expected_status timeout window now (t ∷ ts) =
    if ltb (t + timeout) now
    then SessionStatus.holding
    else if leb (run_start timeout t ts + window) now
    then SessionStatus.live
    else SessionStatus.stabilizing

abbrev pub source_of : SessionStatus → VideoSource
source_of SessionStatus.live = VideoSource.live
source_of _ = VideoSource.standby

-- The whole decision.
abbrev pub expected : ℕ → ℕ → ℕ → List Event → Decision
expected timeout window now events =
    let status = expected_status timeout window now (videos events) in
    let heard = is_recent timeout now (last_audio events) in
    record {
      session_status = status;
      video_source = source_of status;
      actual_audio = audio_of (last_mode events) (source_of status) heard;
      video_recent = is_recent timeout now (newest (videos events));
      audio_recent = heard;
    }

-- The start that the state keeps: that of the run, or none where a decision after its end dropped it.
abbrev Since : ℕ → ℕ → List ℕ → Option ℕ → Type 0
Since timeout clock [] since = since ≡ none
Since timeout clock (t ∷ ts) since =
    (since ≡ some (run_start timeout t ts)) ⊎ ((since ≡ none) × (t + timeout < clock))

-- What the state knows of the events before `clock`.
record Follows (timeout window clock : ℕ) (events : List Event) (c : Continuity) : Type 0 where
  timeout_kept : c.input_timeout ≡ timeout
  window_kept : c.stable_window ≡ window
  mode_kept : c.desired_audio ≡ last_mode events
  video_kept : c.last_video_at ≡ newest (videos events)
  audio_kept : c.last_audio_at ≡ last_audio events
  since_kept : Since timeout clock (videos events) c.video_stable_since

Since-later :
    (timeout clock now : ℕ) (vs : List ℕ) (since : Option ℕ)
    → clock ≤ now
    → Since timeout clock vs since
    → Since timeout now vs since
Since-later timeout clock now [] since h s = s
Since-later timeout clock now (t ∷ ts) since h (inl e) = inl e
Since-later timeout clock now (t ∷ ts) since h (inr (e, gap)) = inr (e, omega arith)

Since-video :
    (timeout clock now : ℕ) (vs : List ℕ) (since : Option ℕ)
    → clock ≤ now
    → Since timeout clock vs since
    → Since timeout now (now ∷ vs) (if is_recent timeout now (newest vs) then since else some now)
unfolding run_start
Since-video timeout clock now [] since h s = inl refl
Since-video timeout clock now (t ∷ ts) since h (inl e) = inl (ground arith)
Since-video timeout clock now (t ∷ ts) since h (inr (e, gap)) = inl (ground arith)

Since-decided :
    (timeout clock now : ℕ) (vs : List ℕ) (since : Option ℕ)
    → clock ≤ now
    → Since timeout clock vs since
    → Since timeout now vs (if is_recent timeout now (newest vs) then since else none)
Since-decided timeout clock now [] since h s = refl
Since-decided timeout clock now (t ∷ ts) since h s = elim (Bool-cases (leb now (t + timeout))) [
  | inl fresh ↦ rw fresh (Since-later timeout clock now (t ∷ ts) since h s)
  | inr stale ↦ rw stale (inr (refl, ground arith))
]

follows :
    (timeout window now : ℕ) (events : List Event)
    → IsOrdered now events
    → Follows timeout window now events (state_after timeout window events)
unfolding state_after step observe_video observe_audio decide videos last_audio last_mode
follows timeout window now [] ordered = record {
  timeout_kept = refl;
  window_kept = refl;
  mode_kept = refl;
  video_kept = refl;
  audio_kept = refl;
  since_kept = refl;
}
follows timeout window now (video t ∷ older) (before, ordered) =
    let f = follows timeout window t older ordered in
    record {
      timeout_kept = f.timeout_kept;
      window_kept = f.window_kept;
      mode_kept = f.mode_kept;
      video_kept = refl;
      audio_kept = f.audio_kept;
      since_kept =
          rw (f.timeout_kept, f.video_kept)
            (Since-later timeout t now (t ∷ videos older) _ before
              (Since-video timeout t t (videos older) _ (omega arith) f.since_kept));
    }
follows timeout window now (audio t ∷ older) (before, ordered) =
    let f = follows timeout window t older ordered in
    record {
      timeout_kept = f.timeout_kept;
      window_kept = f.window_kept;
      mode_kept = f.mode_kept;
      video_kept = f.video_kept;
      audio_kept = refl;
      since_kept = Since-later timeout t now (videos older) _ before f.since_kept;
    }
follows timeout window now (decided t ∷ older) (before, ordered) =
    let f = follows timeout window t older ordered in
    record {
      timeout_kept = f.timeout_kept;
      window_kept = f.window_kept;
      mode_kept = f.mode_kept;
      video_kept = f.video_kept;
      audio_kept = f.audio_kept;
      since_kept =
          rw (f.timeout_kept, f.video_kept)
            (Since-later timeout t now (videos older) _ before
              (Since-decided timeout t t (videos older) _ (omega arith) f.since_kept));
    }
follows timeout window now (mode m ∷ older) ordered =
    let f = follows timeout window now older ordered in
    record {
      timeout_kept = f.timeout_kept;
      window_kept = f.window_kept;
      mode_kept = refl;
      video_kept = f.video_kept;
      audio_kept = f.audio_kept;
      since_kept = f.since_kept;
    }

status_agrees :
    (timeout window now : ℕ) (vs : List ℕ) (since : Option ℕ)
    → Since timeout now vs since
    → status_of (is_recent timeout now (newest vs)) (is_stable window now since)
      ≡ expected_status timeout window now vs
unfolding expected_status
status_agrees timeout window now [] since h = refl
status_agrees timeout window now (t ∷ ts) since (inl e) = ground arith
status_agrees timeout window now (t ∷ ts) since (inr (e, gap)) = ground arith

source_agrees :
    (recent stable : Bool) → video_of recent stable ≡ source_of (status_of recent stable)
source_agrees false stable = refl
source_agrees true true = refl
source_agrees true false = refl

-- While the clock does not go back, a decision is what the trace calls for: HOLDING after a gap in
-- the video, LIVE once the buffers have come without a gap for the stable window, and the audio
-- that the last command and the last audio buffer allow.
pub decide-refines :
    (timeout window now : ℕ) (events : List Event)
    → IsOrdered now events
    → (decide now (state_after timeout window events)).0 ≡ expected timeout window now events
unfolding decide
decide-refines timeout window now events ordered =
    let f = follows timeout window now events ordered in
    let since = (state_after timeout window events).video_stable_since in
    rw (
      f.timeout_kept,
      f.window_kept,
      f.mode_kept,
      f.video_kept,
      f.audio_kept,
      source_agrees (is_recent timeout now (newest (videos events))) (is_stable window now since),
      status_agrees timeout window now (videos events) since f.since_kept,
    )
