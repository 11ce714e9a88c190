-- ===== src/Session/Ownership.antt =====
-- The provisioning lease of apps/control-api/session_store.py, against other operations and against stop
-- requests.
use irlight.Base.{ℕ, ◌≡◌, refl, ◌∙◌, ap, subst, Bool, true, false, ◌||◌, Option, some, List, String}
use irlight.Base.Dict.{lookup, lookup-insert_self}
use irlight.Base.Int.{pos}
use irlight.Base.Text.{◌=s◌, is_empty}
use irlight.Session.Status.{Status, is_in, terminal_states}
use irlight.Session.Value.{Raw, ok, err, Error, ◌>>=◌, validated_timestamp}
use irlight.Session.Record.{Session, State, TextField, Change, apply_changes, validate_changes}
use irlight.Session.Disk.{Step}
use irlight.Session.Leases.{Readings, reject_active_cleanup_lease}
use irlight.Session.Provision.{
  claim_provisioning, provisioning_checkpoint, unless_cancelled, request_stop, is_cancelled,
}
use irlight.Session.Outcome.{
  Saves, keeps, saves, bind-Saves, found-Saves, guard-Saves, if-Saves, Saves-elim,
}
use irlight.Session.Edges.{apply_changes-status}

-- The Session that a claim stores.
abbrev Holds : String → String → Session → State → Type 0
Holds id op s st' =
    (lookup id st'.sessions ≡ some s)
    × (s.texts TextField.provisioning_operation_id ≡ some op)
    × (s.status ≡ Status.provisioning)

claim-Holds :
    (id op : String) (t : Raw) (r : Readings) (st : State)
    → Saves (Holds id op) (claim_provisioning id op t r st)
unfolding claim_provisioning
claim-Holds id op t r st = bind-Saves _ _ λ n _. bind-Saves _ _ λ _ _. found-Saves _ _ _ λ s found.
    guard-Saves _ _ _ λ _.
      guard-Saves _ _ _
        λ _. bind-Saves _ _ λ now _. saves _ _ (lookup-insert_self id _ st.sessions, refl, refl)

-- After a claim with a named operation, another operation can neither claim the Session, at a
-- checked time and while no cleanup lease is active, nor report a checkpoint with checked fields
-- for it.
pub claim_provisioning-excludes :
    (id op other : String) (t : Raw) (r : Readings) (st st' : State) (s : Session) (n : ℕ)
    (again : Readings) (next : Option Status) (complete : Bool) (cs : List Change) (clock : Raw)
    → claim_provisioning id op t r st ≡ ok (Step.save s st')
    → is_empty op ≡ false
    → (op =s other) ≡ false
    → reject_active_cleanup_lease st' id again.lease_clock ≡ ok tt
    → validate_changes cs ≡ ok tt
    → (claim_provisioning id other (Raw.number (pos n)) again st'
        ≡ err Error.provisioning_in_progress)
      × (provisioning_checkpoint id other next complete cs clock st'
          ≡ err Error.provisioning_in_progress)
unfolding claim_provisioning provisioning_checkpoint validated_timestamp ◌>>=◌
claim_provisioning-excludes id op other t r st st' s n again next complete cs clock h named differs
      free fine =
    let (there, owner, status) = Saves-elim s st' (claim-Holds id op t r st) h in
    (rw (free, there, status, owner, named, differs), rw (fine, there, owner, differs))

request_stop-written :
    (id : String) (clock : Raw) (st : State)
    → Saves
        (λ s st'. (lookup id st'.sessions ≡ some s) × (s.status ≡ Status.stopping))
        (request_stop id clock st)
unfolding request_stop
request_stop-written id clock st = found-Saves _ _ _ λ s found.
    if-Saves (is_in s.status terminal_states) _ _ (λ _. keeps s)
      (λ _.
        guard-Saves _ _ _
          λ _. bind-Saves _ _ λ now _. saves _ _ (lookup-insert_self id _ st.sessions, refl))

flag_or_true : (b : Bool) → (b || true) ≡ true
flag_or_true true = refl
flag_or_true false = refl

unless_cancelled-stopping :
    (next : Option Status) (complete : Bool) (s t : Session)
    → s.status ≡ Status.stopping
    → unless_cancelled next complete s ≡ ok t
    → t ≡ s
unless_cancelled-stopping next complete s t status h =
    let cancelled : is_cancelled s ≡ true = rw status (flag_or_true _) in
    let kept : ok s ≡ ok t = rw cancelled at h in cc

checkpoint-stopping :
    (id op : String) (next : Option Status) (complete : Bool) (cs : List Change) (clock : Raw)
    (st : State) (s : Session)
    → lookup id st.sessions ≡ some s
    → s.status ≡ Status.stopping
    → Saves
        (λ t st'. (lookup id st'.sessions ≡ some t) × (t.status ≡ Status.stopping))
        (provisioning_checkpoint id op next complete cs clock st)
unfolding provisioning_checkpoint
checkpoint-stopping id op next complete cs clock st s there status = bind-Saves _ _ λ _ _.
    found-Saves _ _ _ λ u found. guard-Saves _ _ _ λ _. bind-Saves _ _ λ now _.
      bind-Saves _ _ λ t e. saves _ _ (lookup-insert_self id _ st.sessions, still u t found e)
  where
    still :
        (u t : Session)
        → lookup id st.sessions ≡ some u
        → unless_cancelled next complete (apply_changes cs u) ≡ ok t
        → t.status ≡ Status.stopping
    still u t found e =
        let same : s ≡ u = cc (there, found) in
        let stopped : (apply_changes cs u).status ≡ Status.stopping =
          apply_changes-status cs u
          ∙ subst (λ (x : Session). x.status ≡ Status.stopping) same status in
        let kept : t ≡ apply_changes cs u =
          unless_cancelled-stopping next complete (apply_changes cs u) t stopped e in
        ap (λ (x : Session). x.status) kept ∙ stopped

-- A provisioning worker that reports after a stop request cannot take the Session out of STOPPING,
-- whatever state or completion it reports and whatever fields it writes.
pub checkpoint-request_stop :
    (id op : String) (clock clock' : Raw) (st st' st'' : State) (s t : Session)
    (next : Option Status) (complete : Bool) (cs : List Change)
    → request_stop id clock st ≡ ok (Step.save s st')
    → provisioning_checkpoint id op next complete cs clock' st' ≡ ok (Step.save t st'')
    → (lookup id st''.sessions ≡ some t) × (t.status ≡ Status.stopping)
checkpoint-request_stop id op clock clock' st st' st'' s t next complete cs h k =
    let (there, status) = Saves-elim s st' (request_stop-written id clock st) h in
    Saves-elim t st'' (checkpoint-stopping id op next complete cs clock' st' s there status) k
