-- ===== src/Session/Status.antt =====
-- The Session states and the transition table of apps/control-api/session_store.py.
use irlight.Base.{
  ℕ, zero, suc, ◌≡◌, refl, sym, ap, ◌∙◌, Bool, true, Option, none, some, List, [], ◌∷◌, String,
  ◌==◌, if◌then◌else◌, any, ==_iff, arith,
}
use irlight.Base.Text.{◌=s◌}

-- `SESSION_STATES`.
pub data Status : Type 0 where
  stopped provisioning bootstrapping ready_wait_ingest live degraded holding : Status
  stopping finished failed_cleanup failed : Status

-- The string that stands for a state in sessions.json.
unfoldable pub show_status : Status → String
show_status Status.stopped = "STOPPED"
show_status Status.provisioning = "PROVISIONING"
show_status Status.bootstrapping = "BOOTSTRAPPING"
show_status Status.ready_wait_ingest = "READY_WAIT_INGEST"
show_status Status.live = "LIVE"
show_status Status.degraded = "DEGRADED"
show_status Status.holding = "HOLDING"
show_status Status.stopping = "STOPPING"
show_status Status.finished = "FINISHED"
show_status Status.failed_cleanup = "FAILED_CLEANUP"
show_status Status.failed = "FAILED"

abbrev pub session_states : List Status
session_states =
    Status.stopped ∷ Status.provisioning ∷ Status.bootstrapping ∷ Status.ready_wait_ingest
    ∷ Status.live ∷ Status.degraded ∷ Status.holding ∷ Status.stopping ∷ Status.finished
    ∷ Status.failed_cleanup ∷ Status.failed ∷ []

find_status : String → List Status → Option Status
unfolding show_status
find_status name [] = none
find_status name (t ∷ ts) = if show_status t =s name then some t else find_status name ts

-- `new_state not in SESSION_STATES` is the answer `none`.
unfoldable pub parse_status : String → Option Status
unfolding find_status
parse_status name = find_status name session_states

-- Python compares the strings; the position in the set stands for the string.
abbrev pub status_index : Status → ℕ
status_index Status.stopped = 0
status_index Status.provisioning = 1
status_index Status.bootstrapping = 2
status_index Status.ready_wait_ingest = 3
status_index Status.live = 4
status_index Status.degraded = 5
status_index Status.holding = 6
status_index Status.stopping = 7
status_index Status.finished = 8
status_index Status.failed_cleanup = 9
status_index Status.failed = 10

infix 50 ◌=st◌
abbrev pub ◌=st◌ : Status → Status → Bool
a =st b = status_index a == status_index b

-- `status in states`.
abbrev pub is_in : Status → List Status → Bool
is_in t states = any (λ u. t =st u) states

-- `ACTIVE_STATES`.
abbrev pub active_states : List Status
active_states =
    Status.provisioning ∷ Status.bootstrapping ∷ Status.ready_wait_ingest ∷ Status.live
    ∷ Status.degraded ∷ Status.holding ∷ []

-- `TERMINAL_STATES`.
abbrev pub terminal_states : List Status
terminal_states = Status.stopped ∷ Status.finished ∷ Status.failed ∷ []

-- `CAPACITY_STATES`.
abbrev pub capacity_states : List Status
capacity_states =
    Status.stopping ∷ Status.failed_cleanup ∷ Status.provisioning ∷ Status.bootstrapping
    ∷ Status.ready_wait_ingest ∷ Status.live ∷ Status.degraded ∷ Status.holding ∷ []

-- `TRANSITIONS`.
abbrev pub transitions : Status → List Status
transitions Status.stopped = Status.provisioning ∷ []
transitions Status.provisioning =
    Status.bootstrapping ∷ Status.stopping ∷ Status.failed_cleanup ∷ []
transitions Status.bootstrapping =
    Status.ready_wait_ingest ∷ Status.stopping ∷ Status.failed_cleanup ∷ []
transitions Status.ready_wait_ingest =
    Status.live ∷ Status.degraded ∷ Status.stopping ∷ Status.failed_cleanup ∷ []
transitions Status.live =
    Status.degraded ∷ Status.holding ∷ Status.stopping ∷ Status.failed_cleanup ∷ []
transitions Status.degraded =
    Status.live ∷ Status.holding ∷ Status.stopping ∷ Status.failed_cleanup ∷ []
transitions Status.holding =
    Status.live ∷ Status.degraded ∷ Status.stopping ∷ Status.failed_cleanup ∷ []
transitions Status.stopping = Status.finished ∷ Status.failed_cleanup ∷ []
transitions Status.failed_cleanup = Status.failed ∷ Status.stopping ∷ []
transitions Status.finished = []
transitions Status.failed = []

status_at : ℕ → List Status → Status
status_at n [] = Status.stopped
status_at zero (t ∷ ts) = t
status_at (suc n) (t ∷ ts) = status_at n ts

status_at-index : (t : Status) → status_at (status_index t) session_states ≡ t
unfolding status_at
status_at-index Status.stopped = refl
status_at-index _ = refl

-- Comparing the positions decides equality of the states.
pub =st_eq : (a b : Status) → (a =st b) ≡ true → a ≡ b
=st_eq a b h =
    sym (status_at-index a)
    ∙ ap (λ n. status_at n session_states) ((==_iff _ _).0 h)
    ∙ status_at-index b

pub is_in_single : (a b : Status) → is_in a (b ∷ []) ≡ true → a ≡ b
is_in_single a b h = =st_eq a b (ground arith)
