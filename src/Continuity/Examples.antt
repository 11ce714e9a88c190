-- ===== src/Continuity/Examples.antt =====
-- The theorems on apps/continuity at a short trace and at a reader that loses its file.
use irlight.Base.{none, some, ◌≡◌, true, none, List, [], ◌∷◌, ◌++◌, arith}
use irlight.Base.Int.{pos}
use irlight.Continuity.State.{AudioMode, decide}
use irlight.Continuity.Trace.{
  Event, video, audio, decided, mode, state_after, expected, decide-refines,
}
use irlight.Continuity.Control.{
  File, Value, object, missing, read, read_all, newest_valid, read-newest,
}

-- Two buffers, a command, a gap with a decision in it, and a new run.
abbrev events : List Event
events =
    decided 34
    ∷ video 33
    ∷ video 30
    ∷ decided 20
    ∷ audio 6
    ∷ mode AudioMode.muted
    ∷ video 5
    ∷ video 1
    ∷ []

decide-refines_example : (decide 36 (state_after 5 3 events)).0 ≡ expected 5 3 36 events
decide-refines_example = decide-refines 5 3 36 events (
  omega arith,
  (omega arith, (omega arith, (omega arith, (omega arith, (omega arith, (omega arith, tt)))))),
)

abbrev valid_file : File
valid_file = object (
    ("audio_mode", Value.text "LIVE")
    ∷ ("version", Value.whole (pos 3))
    ∷ ("updated_at", Value.whole (pos 7))
    ∷ [])

read-newest_example :
    (read (λ s. true) missing (read_all (λ s. true) (valid_file ∷ []) none)).command
    ≡ elim (newest_valid (λ s. true) ((valid_file ∷ []) ++ missing ∷ [])) [
      | none ↦ record { audio_mode = "MUTED"; version = 0; command_id = none }
      | some newest ↦ newest
    ]
read-newest_example = read-newest (λ s. true) (valid_file ∷ []) missing
