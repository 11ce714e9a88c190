-- ===== src/Continuity/Control.antt =====
-- `ControlStateReader` of apps/continuity/control_state.py, which keeps the last valid command.
use irlight.Base.{
  ℕ, ◌≡◌, refl, sym, ap, ◌∙◌, Bool, true, false, not, ◌&&◌, ◌||◌, Option, none, some, List, [], ◌∷◌,
  ◌++◌, String, ltb, if◌then◌else◌,
}
use irlight.Base.Text.{◌=s◌, length, is_empty}
use irlight.Base.Dict.{Dict, lookup}
use irlight.Base.Int.{ℤ, pos}
use irlight.Session.Value.{Raw}

pub record ControlCommandState : Type 0 where
  pub audio_mode : String
  pub version : ℕ
  pub command_id : Option String

-- A value in the file: null, a string, a number with whether it is an integer, or any other.
pub data Value : Type 0 where
  null other : Value
  text : String → Value
  whole : ℤ → Value
  fraction : Raw → Value

-- What the file is when it is opened: missing, not readable as JSON of distinct keys and finite numbers,
-- no object, or an object.
pub data File : Type 0 where
  missing broken no_object : File
  object : Dict Value → File

-- `value.get(key)`.
abbrev pub get : String → Dict Value → Value
get key d = elim (lookup key d) [ none ↦ null | some v ↦ v ]

abbrev valid_mode : Value → Option String
valid_mode (text m) = if (m =s "LIVE") || (m =s "MUTED") then some m else none
valid_mode _ = none

abbrev valid_version : Value → Option ℕ
valid_version (whole (pos n)) = some n
valid_version _ = none

-- An id that may be missing; `is_uuid` is whether `uuid.UUID` reads it.
abbrev valid_id : (String → Bool) → Value → Option (Option String)
valid_id is_uuid null = some none
valid_id is_uuid (text id) = if is_uuid id then some (some id) else none
valid_id is_uuid _ = none

abbrev valid_key : Value → Bool
valid_key null = true
valid_key (text k) = not (is_empty k) && not (ltb 200 (length k))
valid_key _ = false

-- A finite number of at least zero; an integer too large for a float is `fraction Raw.huge_pos`.
abbrev valid_time : Value → Bool
valid_time (whole (pos n)) = true
valid_time (fraction (Raw.number (pos n))) = true
valid_time _ = false

abbrev build : Option String → Option ℕ → Option (Option String) → Bool → Option ControlCommandState
build (some mode) (some version) (some id) true =
    some (record { audio_mode = mode; version = version; command_id = id })
build _ _ _ _ = none

-- `_validate`; a ValueError is `none`.
unfoldable pub validate : (String → Bool) → File → Option ControlCommandState
validate is_uuid (object d) =
    build (valid_mode (get "audio_mode" d)) (valid_version (get "version" d))
      (valid_id is_uuid (get "command_id" d))
      (valid_key (get "idempotency_key" d) && valid_time (get "updated_at" d))
validate is_uuid _ = none

-- The reader's memory, `_last_valid`.
abbrev pub Memory : Type 0
Memory = Option ControlCommandState

-- `_fallback`.
abbrev pub fallback : Memory → ControlCommandState
fallback (some last) = last
fallback none = record { audio_mode = "MUTED"; version = 0; command_id = none }

-- What `read` returns with the new memory.
pub record Reading : Type 0 where
  pub command : ControlCommandState
  pub problem : Option String
  pub memory : Memory

abbrev pub read_with : Option ControlCommandState → Memory → Reading
read_with (some current) last = record { command = current; problem = none; memory = some current }
read_with none last = record {
  command = fallback last;
  problem = some "CONTROL_STATE_INVALID";
  memory = last;
}

-- `read`.
unfoldable pub read : (String → Bool) → File → Memory → Reading
unfolding validate
read is_uuid missing last = record {
  command = fallback last;
  problem = some "CONTROL_STATE_UNAVAILABLE";
  memory = last;
}
read is_uuid file last = read_with (validate is_uuid file) last

-- What a row of reads leaves in memory, the newest last.
unfoldable pub read_all : (String → Bool) → List File → Memory → Memory
read_all is_uuid [] last = last
read_all is_uuid (f ∷ fs) last = read_all is_uuid fs (read is_uuid f last).memory

abbrev or_last : Memory → Memory → Memory
or_last none last = last
or_last (some c) last = some c

-- The newest valid command of a row of files, if there is one.
unfoldable pub newest_valid : (String → Bool) → List File → Memory
newest_valid is_uuid [] = none
newest_valid is_uuid (f ∷ fs) = or_last (newest_valid is_uuid fs) (validate is_uuid f)

read-memory :
    (is_uuid : String → Bool) (f : File) (last : Memory)
    → ((read is_uuid f last).memory ≡ or_last (validate is_uuid f) last)
      × ((read is_uuid f last).command ≡ fallback (or_last (validate is_uuid f) last))
unfolding read validate
read-memory is_uuid missing last = (refl, refl)
read-memory is_uuid broken last = (refl, refl)
read-memory is_uuid no_object last = (refl, refl)
read-memory is_uuid (object d) last = kept (validate is_uuid (object d))
  where
    kept :
        (o : Option ControlCommandState)
        → ((read_with o last).memory ≡ or_last o last)
          × ((read_with o last).command ≡ fallback (or_last o last))
    kept none = (refl, refl)
    kept (some c) = (refl, refl)

or_last_assoc : (a b c : Memory) → or_last a (or_last b c) ≡ or_last (or_last a b) c
or_last_assoc none b c = refl
or_last_assoc (some x) b c = refl

read_all-newest :
    (is_uuid : String → Bool) (files : List File) (last : Memory)
    → read_all is_uuid files last ≡ or_last (newest_valid is_uuid files) last
unfolding read_all newest_valid
read_all-newest is_uuid [] last = refl
read_all-newest is_uuid (f ∷ fs) last =
    read_all-newest is_uuid fs _
    ∙ ap (or_last (newest_valid is_uuid fs)) (read-memory is_uuid f last).0
    ∙ or_last_assoc (newest_valid is_uuid fs) (validate is_uuid f) last

or_last-none : (o : Memory) → or_last o none ≡ o
or_last-none none = refl
or_last-none (some c) = refl

newest-append :
    (is_uuid : String → Bool) (files : List File) (file : File)
    → or_last (validate is_uuid file) (or_last (newest_valid is_uuid files) none)
      ≡ newest_valid is_uuid (files ++ file ∷ [])
unfolding newest_valid
newest-append is_uuid [] file = or_last-none _
newest-append is_uuid (f ∷ fs) file =
    let v = validate is_uuid file in
    let rest = newest_valid is_uuid fs in
    ap (or_last v) (or_last-none (or_last rest (validate is_uuid f)))
    ∙ or_last_assoc v rest (validate is_uuid f)
    ∙ ap (λ x. or_last x (validate is_uuid f))
        (ap (or_last v) (sym (or_last-none rest)) ∙ newest-append is_uuid fs file)

-- A reader that read some files and then one more returns the newest valid command among them all,
-- and MUTED at version 0 without a command id where none was valid.
pub read-newest :
    (is_uuid : String → Bool) (files : List File) (file : File)
    → (read is_uuid file (read_all is_uuid files none)).command
      ≡ elim (newest_valid is_uuid (files ++ file ∷ [])) [
        | none ↦ record { audio_mode = "MUTED"; version = 0; command_id = none }
        | some newest ↦ newest
      ]
read-newest is_uuid files file =
    (read-memory is_uuid file (read_all is_uuid files none)).1
    ∙ ap fallback (
        ap (or_last (validate is_uuid file)) (read_all-newest is_uuid files none)
        ∙ newest-append is_uuid files file)
    ∙ silent (newest_valid is_uuid (files ++ file ∷ []))
  where
    silent :
        (o : Memory)
        → fallback o ≡ elim o [
          | none ↦ record { audio_mode = "MUTED"; version = 0; command_id = none }
          | some newest ↦ newest
        ]
    silent none = refl
    silent (some newest) = refl
