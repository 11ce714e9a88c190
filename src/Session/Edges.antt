-- ===== src/Session/Edges.antt =====
-- How the transactions of apps/control-api/session_store.py move a Session through its states.
use irlight.Base.{
  ℕ, ◌≡◌, refl, ◌∙◌, subst, ◌⊎◌, inl, inr, true, Option, none, some, List, [], ◌∷◌, String, arith,
  Bool-cases,
}
use irlight.Base.Dict.{lookup, insert, lookup-insert_self, lookup-insert_ne}
use irlight.Base.Text.{◌=s◌, =s_iff}
use irlight.Session.Status.{Status, is_in, transitions}
use irlight.Session.Record.{
  Session, State, Change, Stamp, apply_change, apply_changes, set_stamp, raw_ticks,
}
use irlight.Session.Events.{put_session}

-- One move of the table, no move, or the retry that takes a bootstrapping Session back to
-- PROVISIONING.
abbrev pub IsEdge : Status → Status → Type 0
IsEdge a b =
    (a ≡ b)
    ⊎ ((is_in b (transitions a) ≡ true) ⊎ ((a ≡ Status.bootstrapping) × (b ≡ Status.provisioning)))

-- Every Session that was there is there afterwards, at most one edge on.
abbrev pub Follows : State → State → Type 0
Follows st st' =
    (key : String) (s : Session)
    → lookup key st.sessions ≡ some s
    → (s' : Session) × (lookup key st'.sessions ≡ some s') × IsEdge s.status s'.status

pub Follows-refl : (st : State) → Follows st st
Follows-refl st key s h = (s, h, inl refl)

-- Storing a Session one edge on from the one found under its key.
pub put-Follows :
    (st : State) (id : String) (old new : Session)
    → lookup id st.sessions ≡ some old
    → IsEdge old.status new.status
    → Follows st (put_session st id new)
put-Follows st id old new found edge key s h = elim (Bool-cases (id =s key)) [
  | inl same ↦
      let e : id ≡ key = (=s_iff id key).0 same in
      let found' : lookup key st.sessions ≡ some old =
        subst (λ k. lookup k st.sessions ≡ some old) e found in
      let there : lookup key (insert id new st.sessions) ≡ some new =
        subst (λ k. lookup k (insert id new st.sessions) ≡ some new) e
          (lookup-insert_self id new st.sessions) in
      let same_session : old ≡ s = cc (h, found') in
      (new, there, subst (λ (t : Session). IsEdge t.status new.status) same_session edge)
  | inr other ↦
      (s, lookup-insert_ne id key new st.sessions (ground (arith, =s_iff id key)) ∙ h, inl refl)
]

-- Storing a Session under a key that was free.
pub put_new-Follows :
    (st : State) (id : String) (new : Session)
    → lookup id st.sessions ≡ none
    → Follows st (put_session st id new)
put_new-Follows st id new free key s h = elim (Bool-cases (id =s key)) [
  | inl same ↦
      let e : id ≡ key = (=s_iff id key).0 same in
      let free' : lookup key st.sessions ≡ none = subst (λ k. lookup k st.sessions ≡ none) e free in
      absurd (cc (h, free'))
  | inr other ↦
      (s, lookup-insert_ne id key new st.sessions (ground (arith, =s_iff id key)) ∙ h, inl refl)
]

set_stamp-status : (f : Stamp) (v : Option ℕ) (s : Session) → (set_stamp f v s).status ≡ s.status
set_stamp-status Stamp.created_at none s = refl
set_stamp-status Stamp.created_at (some n) s = refl
set_stamp-status Stamp.updated_at none s = refl
set_stamp-status Stamp.updated_at (some n) s = refl
set_stamp-status _ v s = refl

apply_change-status : (c : Change) (s : Session) → (apply_change c s).status ≡ s.status
apply_change-status (Change.flag f b) s = refl
apply_change-status (Change.text f v) s = refl
apply_change-status (Change.stamp f r) s = set_stamp-status f (raw_ticks r) s

-- `session.update(changes)` leaves the status alone.
pub apply_changes-status : (cs : List Change) (s : Session) → (apply_changes cs s).status ≡ s.status
apply_changes-status [] s = refl
apply_changes-status (c ∷ cs) s =
    apply_changes-status cs (apply_change c s) ∙ apply_change-status c s
