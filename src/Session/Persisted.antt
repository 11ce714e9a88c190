-- ===== src/Session/Persisted.antt =====
-- A Node's report as a whole transaction of apps/control-api/session_store.py: load, body, persist.
use irlight.Base.{
  ℕ, ◌≡◌, refl, sym, ap, ◌∙◌, Bool, true, false, Option, none, some, List, [], ◌∷◌, String, arith,
  All, all, subst, Bool-cases, inl, inr,
}
use irlight.Base.Dict.{Dict, lookup, insert}
use irlight.Base.Text.{is_empty, =s_iff}
use irlight.Session.Status.{is_in, active_states}
use irlight.Session.Value.{Raw, Result, ok, err, Error}
use irlight.Session.Record.{Session, State}
use irlight.Session.Disk.{
  Disk, Content, Op, Step, load, persist, locked, enter, finish, valid_payload, valid_session,
  payload_of, mark_initialized, empty_state,
}
use irlight.Session.Events.{put_session}
use irlight.Session.Ingest.{Observation, apply_ingest_observation}
use irlight.Session.Outcome.{Saves, keeps, saves, fails, bind-Saves, found-Saves, guard-Saves}
use irlight.Session.NodeMoves.{save_if-Saves}
use irlight.Session.Reports.{observe-valid}

abbrev fine : String × Session → Bool
fine item = valid_session item.0 item.1

fine-lookup :
    (id : String) (s : Session) (d : Dict Session)
    → all fine d ≡ true
    → lookup id d ≡ some s
    → valid_session id s ≡ true
fine-lookup id s [] h found = cc
fine-lookup id s ((key, t) ∷ d) h found = ground (arith, =s_iff key id, fine-lookup id s d)

fine-insert :
    (id : String) (s : Session) (d : Dict Session)
    → all fine d ≡ true
    → valid_session id s ≡ true
    → all fine (insert id s d) ≡ true
fine-insert id s [] h good = ground arith
fine-insert id s ((key, t) ∷ d) h good = ground (arith, =s_iff key id, fine-insert id s d)

-- What passes the checks of `_persist`.
abbrev Fine : State → Type 0
Fine st = valid_payload (payload_of st) ≡ true

put-Fine :
    (st : State) (id : String) (s t : Session)
    → Fine st
    → lookup id st.sessions ≡ some s
    → (valid_session id s ≡ true → valid_session id t ≡ true)
    → Fine (put_session st id t)
unfolding valid_payload
put-Fine st id s t h found good =
    let stored : all fine st.sessions ≡ true = ground arith in
    ground (
      arith,
      fine-insert id t st.sessions stored (good (fine-lookup id s st.sessions stored found)),
    )

apply-Fine :
    (stable : ℕ) (id node : String) (ts : List String) (o : Observation) (clock : Raw)
    (at : Option Raw) (st : State)
    → All (λ t. is_empty t ≡ false) ts
    → Fine st
    → Saves (λ _ st'. Fine st') (apply_ingest_observation stable id node ts o clock at st)
unfolding apply_ingest_observation
apply-Fine stable id node ts o clock at st named h = bind-Saves _ _ λ now _.
    found-Saves _ _ _ λ s found. guard-Saves _ _ _ λ _.
      save_if-Saves (is_in s.status active_states) _ _ _
        (put-Fine st id s _ h found (observe-valid stable id node ts o now s named))

module _ {A : Type 0} where
  -- What a body answers, and what the file holds after it, where no persist is refused.
  abbrev pub answer : Result (Step A) → Result A
  answer (err e) = err e
  answer (ok (Step.keep a)) = ok a
  answer (ok (Step.save a st)) = ok a

  abbrev pub file_after : Option Content → Result (Step A) → Option Content
  file_after file (ok (Step.save a st)) = some (Content.payload (payload_of st))
  file_after file _ = file

  finish-Fine :
      (d : Disk) {r : Result (Step A)}
      → Saves (λ _ st'. Fine st') r
      → ((finish d r).0 ≡ answer r) × ((finish d r).1.file ≡ file_after d.file r)
  unfolding persist
  finish-Fine d (fails e) = (refl, refl)
  finish-Fine d (keeps a) = (refl, refl)
  finish-Fine d (saves a st h) = (rw h, rw h)

empty-Fine : Fine empty_state
unfolding valid_payload
empty-Fine = refl

ok-Fine : (s t : State) → ok s ≡ ok t → Fine s → Fine t
ok-Fine s t h fit = let same : s ≡ t = cc in subst (λ (x : State). Fine x) same fit

-- What is loaded passes the checks, and the file is left alone.
load-Fine :
    (d : Disk) (st : State) (file : Option Content)
    → d.file ≡ file
    → (load d).0 ≡ ok st
    → Fine st × ((load d).1.file ≡ d.file)
unfolding load
load-Fine d st none e h = elim (Bool-cases d.initialized) [
  | inl written ↦
      let loaded : load d ≡ (err Error.state_error, d) = ground arith in absurd (cc (h, loaded))
  | inr fresh ↦
      let loaded : load d ≡ (ok empty_state, d) = ground arith in
      (
        ok-Fine empty_state st (sym (ap (λ x. x.0) loaded) ∙ h) empty-Fine,
        ap (λ x. x.1.file) loaded,
      )
]
load-Fine d st (some Content.broken) e h =
    let loaded : load d ≡ (err Error.state_error, d) = ground arith in absurd cc
load-Fine d st (some (Content.payload p)) e h = elim (Bool-cases (valid_payload p)) [
  | inl fit ↦
      let st' : State = record { sessions = p.sessions; leases = p.leases; authoritative = true } in
      let loaded : load d ≡ (ok st', mark_initialized d) = ground arith in
      (ok-Fine st' st (sym (ap (λ x. x.0) loaded) ∙ h) fit, ap (λ x. x.1.file) loaded)
  | inr bad ↦
      let loaded : load d ≡ (err Error.state_error, d) = ground arith in absurd (cc (h, loaded))
]

enter-ok :
    {A : Type 0} (op : Op A) (x : Result State × Disk) (st : State)
    → x.0 ≡ ok st
    → enter op x ≡ finish x.1 (op st)
enter-ok op (ok a, d) st h = ap (λ t. finish d (op t)) cc
enter-ok op (err e, d) st h = absurd cc

-- A Node's report whose event types are not empty, in a transaction whose load returns a state, is
-- answered as its body answers, and the file holds what the body saves, or what it held where the
-- body saves nothing: `_persist` never refuses it.
pub apply_ingest_observation-persists :
    (stable : ℕ) (id node : String) (ts : List String) (o : Observation) (clock : Raw)
    (at : Option Raw) (d : Disk) (st : State)
    → (load d).0 ≡ ok st
    → All (λ t. is_empty t ≡ false) ts
    → ((locked (apply_ingest_observation stable id node ts o clock at) d).0
        ≡ answer (apply_ingest_observation stable id node ts o clock at st))
      × ((locked (apply_ingest_observation stable id node ts o clock at) d).1.file
          ≡ file_after d.file (apply_ingest_observation stable id node ts o clock at st))
unfolding locked
apply_ingest_observation-persists stable id node ts o clock at d st h named =
    let op : Op Session = apply_ingest_observation stable id node ts o clock at in
    let (fit, same) = load-Fine d st d.file refl h in
    let entered = enter-ok op (load d) st h in
    let done = finish-Fine (load d).1 (apply-Fine stable id node ts o clock at st named fit) in
    (
      ap (λ x. x.0) entered ∙ done.0,
      ap (λ x. x.1.file) entered ∙ done.1 ∙ ap (λ file. file_after file (op st)) same,
    )
