-- ===== src/Reaper/Passes.antt =====
-- The passes of the reaper in apps/control-api/reaper.py, as rounds of calls for one Session each.
use irlight.Base.{
  ◌≡◌, refl, sym, subst, ℕ, ◌-◌, Option, none, some, List, [], ◌∷◌, ◌++◌, String, ltb, leb,
  append_assoc, append_nil,
}
use irlight.Base.Dict.{Dict}
use irlight.Session.Status.{Status}
use irlight.Session.Record.{Session, Stamp}
use irlight.Workflow.World.{Effect, Services, World, Act, ◌>>=◌, return}
use irlight.Workflow.Emits.{Phase, phase_after, From}
use irlight.Workflow.Makes.{Kept, Makes, silent-Makes, bind-Makes, if-Makes}
use irlight.Workflow.Order.{call-IsSilent}
use irlight.Workflow.Safety.{Any}
use irlight.Reaper.Config.{ReaperConfig}
use irlight.Reaper.Revoked.{heartbeat-From, fail-From, stop-From, retry-From}
use irlight.Reaper.Stop.{Condition, stop_and_cleanup}
use irlight.Reaper.Sweep.{
  Counts, NodeRow, for_each, over, check_provisioning, check_deadline, check_deadline_at,
  check_hold_at, check_heartbeat, check_ingest, check_hold, recovered_then, recover_hold,
  check_holding, check_stopping, check_failed_cleanup, heartbeat_pass, passes, heartbeat_baseline,
  is_overdue, or_default,
}

-- Calls for one Session after another; each round is in order from the start.
pub data Rounds : List Effect → Type 0 where
  done : Rounds []
  round :
      (es fs : List Effect) (q : Phase)
      → phase_after (some Phase.start) es ≡ some q
      → Rounds fs
      → Rounds (es ++ fs)

Rounds-append : (es fs : List Effect) → Rounds es → Rounds fs → Rounds (es ++ fs)
Rounds-append es fs done later = later
Rounds-append es fs (round first rest q there more) later =
    subst Rounds (sym (append_assoc first rest fs))
      (round first (rest ++ fs) q there (Rounds-append rest fs more later))

abbrev kept : Kept Rounds
kept = record { none_made = done; joined = Rounds-append }

module _ {W : Type 0} where
  From→Makes : {A : Type 0} (m : Act W A) → From Phase.start Any m → Makes Rounds m
  From→Makes m first = record {
    adds = λ w.
        let (es, q, called, there, u) = first.runs w in
        record {
          added = es;
          grown = called;
          good = subst Rounds (append_nil es) (round es [] q there done);
        };
  }

module _ {W : Type 0} (services : Services W) (config : ReaperConfig) (now : ℕ) where
  counted :
      {A : Type 0} (m : Act W A) (f : A → Counts)
      → Makes Rounds m
      → Makes Rounds (m >>= λ a. return (f a))
  counted m f makes = bind-Makes kept m _ makes (λ a. silent-Makes kept _ (λ w. refl))

  idle : (n : Counts) → Makes Rounds (return {W = W} n)
  idle n = silent-Makes kept _ (λ w. refl)

  stop-Makes :
      (id code : String) (condition : Condition)
      → Makes Rounds (stop_and_cleanup services config id code condition now)
  stop-Makes id code condition = From→Makes _ (stop-From services config id code condition now)

  check_provisioning-Makes :
      (s : Session) (n : Counts) → Makes Rounds (check_provisioning services config now s n)
  unfolding check_provisioning
  check_provisioning-Makes s n =
      if-Makes kept
        (ltb config.provisioning_timeout
          (now - or_default (s.stamps Stamp.provisioning_started_at) s.created_at))
        _ _ (counted _ _ (From→Makes _ (fail-From services config _ _ _ _ now))) (idle n)

  check_deadline_at-Makes :
      (o : Option ℕ) (s : Session) (n : Counts)
      → Makes Rounds (check_deadline_at services config now o s n)
  unfolding check_deadline_at
  check_deadline_at-Makes none s n = idle n
  check_deadline_at-Makes (some deadline) s n =
      if-Makes kept (leb deadline now) _ _ (counted _ _ (stop-Makes _ _ _)) (idle n)

  check_deadline-Makes :
      (s : Session) (n : Counts) → Makes Rounds (check_deadline services config now s n)
  unfolding check_deadline
  check_deadline-Makes s n = check_deadline_at-Makes (s.stamps Stamp.absolute_deadline_at) s n

  check_heartbeat-Makes :
      (nodes : Dict NodeRow) (s : Session) (n : Counts)
      → Makes Rounds (check_heartbeat services config now nodes s n)
  unfolding check_heartbeat
  check_heartbeat-Makes nodes s n =
      if-Makes kept (is_overdue (heartbeat_baseline s nodes).0 now config.heartbeat_grace) _ _
        (counted _ _ (From→Makes _ (heartbeat-From services config s _ now))) (idle n)

  check_ingest-Makes :
      (s : Session) (n : Counts) → Makes Rounds (check_ingest services config now s n)
  unfolding check_ingest
  check_ingest-Makes s n =
      if-Makes kept (ltb config.no_ingest_timeout (now - or_default (s.stamps Stamp.ready_at) now))
        _ _ (counted _ _ (stop-Makes _ _ _)) (idle n)

  check_hold-Makes :
      (deadline : ℕ) (s : Session) (n : Counts)
      → Makes Rounds (check_hold services config now deadline s n)
  unfolding check_hold
  check_hold-Makes deadline s n =
      if-Makes kept (ltb deadline now) _ _ (counted _ _ (stop-Makes _ _ _)) (idle n)

  recovered-Makes :
      (deadline : ℕ) (n : Counts) (o : Option Session)
      → Makes Rounds (recovered_then services config now deadline n o)
  unfolding recovered_then
  recovered-Makes deadline n none = idle n
  recovered-Makes deadline n (some s) = check_hold-Makes deadline s _

  check_hold_at-Makes :
      (o : Option ℕ) (s : Session) (n : Counts)
      → Makes Rounds (check_hold_at services config now o s n)
  unfolding check_hold_at recover_hold
  check_hold_at-Makes none s n =
      bind-Makes kept _ _ (silent-Makes kept _ (call-IsSilent services _)) (recovered-Makes _ n)
  check_hold_at-Makes (some deadline) s n = check_hold-Makes deadline s n

  check_holding-Makes :
      (s : Session) (n : Counts) → Makes Rounds (check_holding services config now s n)
  unfolding check_holding
  check_holding-Makes s n = check_hold_at-Makes (s.stamps Stamp.hold_deadline_at) s n

  check_stopping-Makes :
      (s : Session) (n : Counts) → Makes Rounds (check_stopping services config now s n)
  unfolding check_stopping
  check_stopping-Makes s n = counted _ (λ done. n) (stop-Makes _ _ _)

  check_failed_cleanup-Makes :
      (s : Session) (n : Counts) → Makes Rounds (check_failed_cleanup services config now s n)
  unfolding check_failed_cleanup
  check_failed_cleanup-Makes s n = counted _ _ (From→Makes _ (retry-From services config now s))

  for_each-Makes :
      (body : Session → Counts → Act W Counts) (ss : List Session) (n : Counts)
      → ((s : Session) (n : Counts) → Makes Rounds (body s n))
      → Makes Rounds (for_each body ss n)
  unfolding for_each
  for_each-Makes body [] n each = idle n
  for_each-Makes body (s ∷ ss) n each =
      bind-Makes kept _ _ (each s n) (λ m. for_each-Makes body ss m each)

  over-Makes :
      (states : List Status) (body : Session → Counts → Act W Counts) (n : Counts)
      → ((s : Session) (n : Counts) → Makes Rounds (body s n))
      → Makes Rounds (over services config now states body n)
  unfolding over
  over-Makes states body n each =
      bind-Makes kept _ _ (silent-Makes kept _ (call-IsSilent services _))
        (λ ss. for_each-Makes body ss n each)

  heartbeat_pass-Makes :
      (nodes : Option (Dict NodeRow)) (n : Counts)
      → Makes Rounds (heartbeat_pass services config now nodes n)
  unfolding heartbeat_pass
  heartbeat_pass-Makes none n = idle n
  heartbeat_pass-Makes (some nodes) n = over-Makes _ _ n (check_heartbeat-Makes nodes)

  passes-Makes : (nodes : Option (Dict NodeRow)) → Makes Rounds (passes services config now nodes)
  unfolding passes
  passes-Makes nodes = bind-Makes kept _ _ (over-Makes _ _ _ check_provisioning-Makes) λ a.
      bind-Makes kept _ _ (over-Makes _ _ a check_deadline-Makes) λ b.
        bind-Makes kept _ _ (heartbeat_pass-Makes nodes b) λ c.
          bind-Makes kept _ _ (over-Makes _ _ c check_ingest-Makes) λ d.
            bind-Makes kept _ _ (over-Makes _ _ d check_holding-Makes) λ e.
              bind-Makes kept _ _ (over-Makes _ _ e check_stopping-Makes)
                λ f. over-Makes _ _ f check_failed_cleanup-Makes

-- Whatever others do meanwhile and whatever fails, the calls that the passes over the Sessions make
-- outside are rounds: each revokes credentials before it deletes anything, and deletes volumes only
-- where no server's deletion of the round failed.
pub passes-Rounds :
    {W : Type 0} (services : Services W) (config : ReaperConfig) (now : ℕ)
    (nodes : Option (Dict NodeRow)) (w : World W)
    → (es : List Effect) × ((passes services config now nodes w).1.calls ≡ w.calls ++ es)
      × Rounds es
passes-Rounds services config now nodes w =
    let a = (passes-Makes services config now nodes).adds w in (a.added, a.grown, a.good)
