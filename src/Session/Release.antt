-- ===== src/Session/Release.antt =====
-- The slot of a Session of apps/control-api/session_store.py that finishes or fails.
use irlight.Base.{ℕ, ◌≡◌, refl, true, false, Option, some, List, String, sym, subst, ◌∙◌}
use irlight.Base.Dict.{lookup, lookup-insert_self}
use irlight.Session.Status.{Status, parse_status}
use irlight.Session.Value.{Raw, ok, Error, or_raise}
use irlight.Session.Record.{Session, State, Change}
use irlight.Session.Disk.{Step}
use irlight.Session.Prepare.{occupies, is_finished}
use irlight.Session.Provision.{transition, moved}
use irlight.Session.Outcome.{
  or_raise-ok, Saves, saves, bind-Saves, found-Saves, guard-Saves, Saves-elim,
}

moved-occupies :
    (t : Status) (cs : List Change) (now : ℕ) (s : Session)
    → is_finished t ≡ true
    → occupies (moved t cs now s) ≡ false
moved-occupies Status.finished cs now s h = refl
moved-occupies Status.failed cs now s h = refl
moved-occupies Status.stopped cs now s h = cc
moved-occupies _ cs now s h = cc

transition-Frees :
    (id name : String) (allow : Option (List Status)) (cs : List Change) (clock : Raw) (st : State)
    (target : Status)
    → parse_status name ≡ some target
    → is_finished target ≡ true
    → Saves
        (λ s st'. (lookup id st'.sessions ≡ some s) × (occupies s ≡ false))
        (transition id name allow cs clock st)
unfolding transition
transition-Frees id name allow cs clock st target named final = bind-Saves _ _ λ t e.
    bind-Saves _ _ λ _ _. found-Saves _ _ _ λ s found. guard-Saves _ _ _ λ _.
      bind-Saves _ _ λ now _.
        saves _ _ (lookup-insert_self id _ st.sessions, moved-occupies t cs now s (target_is t e))
  where
    target_is :
        (t : Status)
        → or_raise (parse_status name) Error.invalid_transition ≡ ok t
        → is_finished t ≡ true
    target_is t e =
        let same : some target ≡ some t = sym named ∙ or_raise-ok _ _ e in
        subst (λ (x : Status). is_finished x ≡ true) {x = target} {y = t} (cc same) final

-- A Session that a transition made FINISHED or FAILED is stored, and takes none of its user's
-- slots, whatever fields the transition writes.
pub transition-frees :
    (id name : String) (allow : Option (List Status)) (cs : List Change) (clock : Raw)
    (st st' : State) (target : Status) (s : Session)
    → transition id name allow cs clock st ≡ ok (Step.save s st')
    → parse_status name ≡ some target
    → is_finished target ≡ true
    → (lookup id st'.sessions ≡ some s) × (occupies s ≡ false)
transition-frees id name allow cs clock st st' target s h named final =
    Saves-elim s st' (transition-Frees id name allow cs clock st target named final) h
