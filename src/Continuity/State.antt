-- ===== src/Continuity/State.antt =====
-- `ContinuityState` of apps/continuity/state.py. Monotonic times are whole units; `math.isfinite` has been
-- asked of the settings.
use irlight.Base.{ℕ, ◌+◌, ◌==◌, Bool, true, false, Option, none, some, leb, if◌then◌else◌}
use irlight.Session.Value.{Raw}
use irlight.Base.Int.{pos}

pub data AudioMode : Type 0 where
  live muted : AudioMode

pub data VideoSource : Type 0 where
  live standby : VideoSource

pub data ActualAudio : Type 0 where
  live muted silent_fallback : ActualAudio

pub data SessionStatus : Type 0 where
  holding stabilizing live : SessionStatus

pub record Decision : Type 0 where
  pub session_status : SessionStatus
  pub video_source : VideoSource
  pub actual_audio : ActualAudio
  pub video_recent : Bool
  pub audio_recent : Bool

pub record Continuity : Type 0 where
  pub input_timeout : ℕ
  pub stable_window : ℕ
  pub desired_audio : AudioMode
  pub last_video_at : Option ℕ
  pub last_audio_at : Option ℕ
  pub video_stable_since : Option ℕ

abbrev pub initial : ℕ → ℕ → Continuity
initial timeout window = record {
  input_timeout = timeout;
  stable_window = window;
  desired_audio = AudioMode.live;
  last_video_at = none;
  last_audio_at = none;
  video_stable_since = none;
}

-- `__init__`; a ValueError is `none`.
abbrev pub continuity_state : Raw → Raw → Option Continuity
continuity_state (Raw.number (pos timeout)) (Raw.number (pos window)) =
    if timeout == 0 then none else some (initial timeout window)
continuity_state _ _ = none

-- `set_audio_mode` with a mode that exists.
abbrev pub set_audio_mode : AudioMode → Continuity → Continuity
set_audio_mode mode c = record c { desired_audio = mode }

-- `now - last <= input_timeout`, with no last one as False.
abbrev pub is_recent : ℕ → ℕ → Option ℕ → Bool
is_recent timeout now none = false
is_recent timeout now (some last) = leb now (last + timeout)

-- `observe_video`.
unfoldable pub observe_video : ℕ → Continuity → Continuity
observe_video now c =
    let since =
      if is_recent c.input_timeout now c.last_video_at then c.video_stable_since else some now in
    record c { video_stable_since = since; last_video_at = some now }

-- `observe_audio`.
unfoldable pub observe_audio : ℕ → Continuity → Continuity
observe_audio now c = record c { last_audio_at = some now }

-- `stable`.
abbrev pub is_stable : ℕ → ℕ → Option ℕ → Bool
is_stable window now none = false
is_stable window now (some since) = leb (since + window) now

abbrev pub video_of : Bool → Bool → VideoSource
video_of true true = VideoSource.live
video_of _ _ = VideoSource.standby

abbrev pub status_of : Bool → Bool → SessionStatus
status_of false stable = SessionStatus.holding
status_of true true = SessionStatus.live
status_of true false = SessionStatus.stabilizing

abbrev pub audio_of : AudioMode → VideoSource → Bool → ActualAudio
audio_of AudioMode.muted video recent = ActualAudio.muted
audio_of AudioMode.live VideoSource.live true = ActualAudio.live
audio_of AudioMode.live _ _ = ActualAudio.silent_fallback

-- `decide`: the decision, and the state, in which a lost video starts over.
unfoldable pub decide : ℕ → Continuity → Decision × Continuity
decide now c =
    let video = is_recent c.input_timeout now c.last_video_at in
    let audio = is_recent c.input_timeout now c.last_audio_at in
    let stable = is_stable c.stable_window now c.video_stable_since in
    (
      record {
        session_status = status_of video stable;
        video_source = video_of video stable;
        actual_audio = audio_of c.desired_audio (video_of video stable) audio;
        video_recent = video;
        audio_recent = audio;
      },
      record c { video_stable_since = if video then c.video_stable_since else none },
    )
