-- ===== src/Reaper/Config.antt =====
-- `ReaperConfig` of apps/control-api/reaper.py, and the pieces that its passes share: exceptions that are
-- caught, and audit events.
use irlight.Base.{ℕ, Bool, true, false, Option, some, String}
use irlight.Base.Int.{pos}
use irlight.Session.Value.{Result, ok, err, ◌>>=◌, Error, Raw}
use irlight.Session.Json.{Fields}
use irlight.Session.Events.{append_event}
use irlight.Workflow.World.{caught, World, Services, Act, call, revoke, return}
use irlight.Workflow.World

-- `_validated_reaper_number`; its ValueError is `value_error`.
unfoldable pub validated_reaper_number : Raw → Result ℕ
validated_reaper_number (Raw.number (pos n)) = ok n
validated_reaper_number _ = err Error.value_error

pub record ReaperConfig : Type 0 where
  pub provisioning_timeout : ℕ
  pub no_ingest_timeout : ℕ
  pub hold_timeout : ℕ
  pub heartbeat_grace : ℕ
  pub orphan_grace : ℕ

-- `ReaperConfig.__post_init__`.
unfoldable pub reaper_config : Raw → Raw → Raw → Raw → Raw → Result ReaperConfig
unfolding validated_reaper_number
reaper_config provisioning no_ingest hold heartbeat orphan = do
  a ← validated_reaper_number provisioning
  b ← validated_reaper_number no_ingest
  c ← validated_reaper_number hold
  d ← validated_reaper_number heartbeat
  e ← validated_reaper_number orphan
  ok (record {
    provisioning_timeout = a;
    no_ingest_timeout = b;
    hold_timeout = c;
    heartbeat_grace = d;
    orphan_grace = e;
  })

module _ {W : Type 0} where
  abbrev pub or_state_answer {ℓ} : {A : Type ℓ} → A → Result A × World W → Result A × World W
  or_state_answer a (err Error.state_error, w) = (ok a, w)
  or_state_answer a r = r

  -- `try: m except SessionStateError: a`.
  unfoldable pub caught_state {ℓ} : {A : Type ℓ} → A → Act W A → Act W A
  caught_state a m w = or_state_answer a (m w)

module _ {W : Type 0} (services : Services W) where
  -- `append_event` with the reaper's origin.
  unfoldable pub audit : String → String → Option String → Fields → ℕ → Act W (Unit {0})
  audit session_id type reason_code payload now =
      World.◌>>=◌
        (call services (λ c.
          append_event session_id
            (record {
              type = type;
              reason_code = reason_code;
              payload = payload;
              origin = "reaper";
            })
            c.clock (some (Raw.number (pos now)))))
        (λ e. return tt)

  -- `revoke_session` under `try`: whether it returned.
  unfoldable pub try_revoke : String → Act W Bool
  try_revoke session_id = caught false (World.◌>>=◌ (revoke services session_id) (λ u. return true))
