-- ===== src/RateLimit/Shard.antt =====
-- A shard file of apps/control-api/auth_rate_limit.py: what is read from it and written to it around one
-- attempt.
use irlight.Base.{ℕ, ◌||◌, Option, none, some, List, [], ◌∷◌, String, ltb, if◌then◌else◌}
use irlight.Base.Text.{length, is_empty}
use irlight.Base.Dict.{Dict}
use irlight.Base.Int.{ℤ, pos}
use irlight.Session.Value.{Raw}
use irlight.RateLimit.Config.{AuthRateLimitConfig, Window, by_window}
use irlight.RateLimit.Attempt.{Count, Windows, Table, Answer, Outcome, register_attempt}

-- An entry of a list of windows: `reset_at`, and `count` where it is a whole number; or no dict.
pub data StoredWindow : Type 0 where
  stored : Raw → Option ℤ → StoredWindow
  no_dict : StoredWindow

-- What a shard holds: `keys`, whose values are lists or not; or nothing that can be read so.
pub data Content : Type 0 where
  unreadable : Content
  keys : Dict (Option (List StoredWindow)) → Content

-- `_validated_window_record`.
unfoldable pub validated_window_record : StoredWindow → Option Count
validated_window_record (stored (Raw.number (pos n)) (some (pos c))) =
    some (record { reset_at = n; count = c })
validated_window_record _ = none

abbrev both : Option Count → Option Count → Option Windows
both (some b) (some s) = some (by_window b s)
both _ _ = none

-- The windows of a key: exactly two good records.
unfoldable pub validated_windows : Option (List StoredWindow) → Option Windows
unfolding validated_window_record
validated_windows (some (b ∷ s ∷ [])) = both (validated_window_record b) (validated_window_record s)
validated_windows _ = none

abbrev put : String → Option Windows → Option Table → Option Table
put key (some ws) (some table) = some ((key, ws) ∷ table)
put key _ _ = none

-- The loop over `keys`; `none` where one entry is damaged.
unfoldable pub validated_keys : Dict (Option (List StoredWindow)) → Option Table
unfolding validated_windows
validated_keys [] = some []
validated_keys ((key, windows) ∷ rest) =
    let later = validated_keys rest in
    if is_empty key || ltb 32 (length key) then none else put key (validated_windows windows) later

abbrev or_empty : Option Table → Table
or_empty none = []
or_empty (some table) = table

-- `_validated_state`: damaged content counts as an empty shard.
unfoldable pub validated_state : Content → Table
unfolding validated_keys
validated_state unreadable = []
validated_state (keys entries) = or_empty (validated_keys entries)

abbrev stored_count : Count → StoredWindow
stored_count c = stored (Raw.number (pos c.reset_at)) (some (pos c.count))

-- What `_write_shard` dumps.
unfoldable pub dumped : Table → Dict (Option (List StoredWindow))
dumped [] = []
dumped ((key, ws) ∷ rest) =
    (key, some (stored_count (ws Window.burst) ∷ stored_count (ws Window.sustained) ∷ []))
    ∷ dumped rest

abbrev pub after : Outcome → Content → Content
unfolding dumped
after o content = if o.changed then keys (dumped o.keys) else content

-- The locked part of `_enforce_rate_limit`.
unfoldable pub enforce : AuthRateLimitConfig → String → ℕ → Content → Answer × Content
unfolding validated_state register_attempt
enforce config key now content =
    let o = register_attempt config key now (validated_state content) in (o.answer, after o content)
