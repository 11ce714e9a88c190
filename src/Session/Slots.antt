-- ===== src/Session/Slots.antt =====
-- The slots that a user's Sessions take against the entitlement, and what `begin_prepare` and
-- `reserve_prepare_slot` of apps/control-api/session_store.py do to their number.
use irlight.Base.{
  ℕ, suc, ◌+◌, ◌≤◌, ◌≡◌, refl, Bool, true, false, ◌⊎◌, inl, inr, not, ◌&&◌, Option, none, some, [],
  ◌∷◌, String, arith, leb, if◌then◌else◌,
}
use irlight.Base.Dict.{Dict, IsDict, lookup, insert}
use irlight.Base.Text.{◌=s◌, =s_iff}
use irlight.Base.Int.{pos_part}
use irlight.Session.Value.{ok}
use irlight.Session.Record.{Session, State, TextField}
use irlight.Session.Disk.{Step}
use irlight.Session.Leases.{Readings}
use irlight.Session.Prepare.{
  PrepareArgs, occupies, occupied, begin_prepare, begin_slot, begin_new, replay_or, reserve,
  reserve_new, reserve_slot, reserve_prepare_slot, is_finished, same_request, configured_request,
  request_of,
}
use irlight.Session.Outcome.{
  Saves, keeps, saves, fails, bind-Saves, guard-Saves, if-Saves, Saves-elim,
}

abbrev holds_slot : String → Session → Bool
holds_slot user_id s = (s.user_id =s user_id) && occupies s

-- How many Sessions of a user take a slot.
abbrev pub slots : String → Dict Session → ℕ
slots user_id [] = 0
slots user_id ((key, s) ∷ d) =
    if holds_slot user_id s then suc (slots user_id d) else slots user_id d

-- The count of the others is the whole count where the Session itself is not stored.
occupied-slots :
    (id user : String) (d : Dict Session) → lookup id d ≡ none → occupied id user d ≡ slots user d
occupied-slots id user [] free = refl
occupied-slots id user ((key, s) ∷ d) free = ground (arith, occupied-slots id user d)

-- Storing a Session adds at most one to the others.
slots-insert :
    (id user : String) (s : Session) (d : Dict Session)
    → IsDict d
    → slots user (insert id s d) ≤ occupied id user d + 1
slots-insert id user s [] h = ground arith
slots-insert id user s ((key, t) ∷ d) h =
    ground (arith, slots-insert id user s d h.1, occupied-slots id user d, =s_iff key id)

-- Storing a Session that takes a slot over one that takes a slot of the same user.
slots-insert_same :
    (id user : String) (s t : Session) (d : Dict Session)
    → lookup id d ≡ some s
    → holds_slot user s ≡ true
    → holds_slot user t ≡ true
    → slots user (insert id t d) ≡ slots user d
slots-insert_same id user s t [] found h k = absurd cc
slots-insert_same id user s t ((key, u) ∷ d) found h k =
    ground (arith, slots-insert_same id user s t d)

module _ (id : String) (a : PrepareArgs) (r : Readings) (st : State)
    (keys : IsDict st.sessions) where
  abbrev most : ℕ
  most = pos_part a.max_concurrent_sessions

  put_slots :
      (s : Session)
      → leb most (occupied id a.user_id st.sessions) ≡ false
      → slots a.user_id (insert id s st.sessions) ≤ most
  put_slots s room = ground (arith, slots-insert id a.user_id s st.sessions keys)

  begin_new-slots :
      (o : Option Session)
      → Saves (λ _ st'. slots a.user_id st'.sessions ≤ most) (begin_new id a r o st)
  begin_new-slots o =
      guard-Saves _ _ _
        λ room. bind-Saves _ _ λ s _. bind-Saves _ _ λ now _. saves _ _ (put_slots _ room)

  replay_or-slots :
      (s : Session) (key : Option String)
      → Saves
          (λ _ st'. slots a.user_id st'.sessions ≤ most)
          (replay_or a s key (begin_new id a r (some s) st))
  replay_or-slots s none = begin_new-slots (some s)
  replay_or-slots s (some key) =
      if-Saves (not (same_request (configured_request s) (request_of a))) _ _ (λ _. fails _)
        (λ _. if-Saves (not (key =s a.idempotency_key)) _ _ (λ _. fails _) (λ _. keeps _))

  begin_slot-slots :
      (o : Option Session)
      → Saves (λ _ st'. slots a.user_id st'.sessions ≤ most) (begin_slot id a r o st)
  begin_slot-slots none = begin_new-slots none
  begin_slot-slots (some s) =
      if-Saves (not (s.user_id =s a.user_id)) _ _ (λ _. fails _)
        (λ _.
          if-Saves (is_finished s.status) _ _ (λ _. fails _)
            (λ _. replay_or-slots s (s.texts TextField.idempotency_key)))

  -- Where the keys of the stored Sessions occur once, as in every dict: after a prepare request
  -- that was bound anew, the user holds no more slots than the entitlement gives.
  pub begin_prepare-slots :
      (answer : Session × Bool) (st' : State)
      → begin_prepare id a r st ≡ ok (Step.save answer st')
      → slots a.user_id st'.sessions ≤ most
  unfolding begin_prepare
  begin_prepare-slots answer st' h =
      Saves-elim answer st'
        (guard-Saves {P = λ _ st'. slots a.user_id st'.sessions ≤ most} _ _ _
          λ _. bind-Saves _ _ λ _ _. begin_slot-slots (lookup id st.sessions))
        h

  -- No more slots than the entitlement gives, or as many as before for a Session that took one.
  abbrev IsBounded : Session → State → Type 0
  IsBounded s st' =
      (slots a.user_id st'.sessions ≤ most)
      ⊎ ((old : Session) × (lookup id st.sessions ≡ some old)
          × (occupies old ≡ true)
          × (slots a.user_id st'.sessions ≡ slots a.user_id st.sessions))

  reserve_new-IsBounded : (o : Option Session) → Saves IsBounded (reserve_new id a r o st)
  reserve_new-IsBounded o =
      guard-Saves _ _ _
        λ room. bind-Saves _ _ λ s _. bind-Saves _ _ λ now _. saves _ _ (inl (put_slots _ room))

  reserved_holds :
      (now : ℕ) (s : Session)
      → not (s.user_id =s a.user_id) ≡ false
      → holds_slot a.user_id (reserve a.entitlement_id now s) ≡ true
  reserved_holds now s owner = ground arith

  reserve_slot-IsBounded :
      (o : Option Session) → lookup id st.sessions ≡ o → Saves IsBounded (reserve_slot id a r o st)
  reserve_slot-IsBounded none found = reserve_new-IsBounded none
  reserve_slot-IsBounded (some s) found =
      if-Saves (not (s.user_id =s a.user_id)) _ _ (λ _. fails _)
        (λ owner.
          if-Saves (is_finished s.status) _ _ (λ _. keeps _)
            (λ _.
              if-Saves (occupies s) _ _
                (λ taken. bind-Saves _ _ λ now _. saves _ _ (
                  inr (
                    s,
                    found,
                    taken,
                    slots-insert_same id a.user_id s (reserve a.entitlement_id now s) st.sessions
                        found (ground arith) (reserved_holds now s owner),
                  )))
                (λ _. reserve_new-IsBounded (some s))))

  -- Where the keys of the stored Sessions occur once, as in every dict: after a reservation that
  -- was written, the user holds no more slots than the entitlement gives, or, where the Session
  -- took a slot before, as many as before.
  pub reserve_prepare_slot-slots :
      (s : Session) (st' : State)
      → reserve_prepare_slot id a r st ≡ ok (Step.save s st')
      → (slots a.user_id st'.sessions ≤ most)
        ⊎ ((old : Session) × (lookup id st.sessions ≡ some old)
            × (occupies old ≡ true)
            × (slots a.user_id st'.sessions ≡ slots a.user_id st.sessions))
  unfolding reserve_prepare_slot
  reserve_prepare_slot-slots s st' h =
      Saves-elim s st'
        (guard-Saves {P = IsBounded} _ _ _
          λ _. bind-Saves _ _ λ _ _. reserve_slot-IsBounded (lookup id st.sessions) refl)
        h
