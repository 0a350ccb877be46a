-- ===== src/Chat/History.antt =====
-- The bound of the history, and whom muting is about. About src/chat/ChatManager.cpp.
use gip_multiplayer.Base.{
  ℕ, ◌-◌, ◌≤◌, ◌≡◌, refl, inl, inr, Bool, false, List, [], ◌∷◌, ◌++◌, ◌==◌, if◌then◌else◌, length,
  length-drop, arith, Bool-cases,
}
use gip_multiplayer.Chat.{
  ChatEntry, ChatManager, ChatStep, local_line, arrival, mute, frame, leave, append, is_member,
  is_muted_text, unmute, set_muted_text, receive, add_local, grow_older, update_ages, clear, step,
  run, max_history,
}

is_member-unmute :
    (id k : ℕ) (ms : List ℕ)
    → is_member k (unmute id ms) ≡ (if k == id then false else is_member k ms)
unfolding is_member unmute
is_member-unmute id k [] = ground arith
is_member-unmute id k (m ∷ ms) = ground (arith, is_member-unmute id k ms)

-- Muting or unmuting a player decides about that player and about no other.
pub is_muted_text-set :
    {F : Type 0} (id k : ℕ) (flag : Bool) (c : ChatManager F)
    → is_muted_text k (set_muted_text id flag c) ≡ (if k == id then flag else is_muted_text k c)
unfolding is_muted_text set_muted_text is_member
is_muted_text-set id k flag c = ground (arith, is_member-unmute id k c.muted)

module _ {F : Type 0} where
  -- At most a hundred entries.
  abbrev pub Bounded : ChatManager F → Type 0
  Bounded c = length c.history ≤ 100

  append-Bounded : (e : ChatEntry F) (c : ChatManager F) → Bounded (append e c)
  unfolding append
  append-Bounded e c =
      let all : List (ChatEntry F) = c.history ++ (e ∷ []) in
      ground (arith, length-drop (length all - max_history) all)

  length-grow_older :
      (add : F → F) (es : List (ChatEntry F)) → length (grow_older add es) ≡ length es
  unfolding grow_older
  length-grow_older add [] = refl
  length-grow_older add (e ∷ es) = omega (arith, length-grow_older add es)

  step-Bounded :
      (zero : F) (x : ChatStep F) (c : ChatManager F) → Bounded c → Bounded (step zero x c)
  unfolding step add_local receive set_muted_text update_ages clear
  step-Bounded zero (local_line channel text) c b = elim (Bool-cases (length text == 0)) [
    | inl h ↦ rw (step, add_local, h) b
    | inr h ↦ rw (step, add_local, h) (append-Bounded _ c)
  ]
  step-Bounded zero (arrival channel id name text) c b = elim (Bool-cases (is_muted_text id c)) [
    | inl h ↦ rw (step, receive, h) b
    | inr h ↦ rw (step, receive, h) (append-Bounded _ c)
  ]
  step-Bounded zero (mute id flag) c b = ground arith
  step-Bounded zero (frame add) c b = omega (arith, length-grow_older add c.history)
  step-Bounded zero leave c b = omega arith

  -- However long a session of chat is, a history of at most a hundred entries stays so.
  pub run-Bounded :
      (zero : F) (xs : List (ChatStep F)) (c : ChatManager F) → Bounded c → Bounded (run zero xs c)
  unfolding run
  run-Bounded zero [] c b = b
  run-Bounded zero (x ∷ xs) c b = run-Bounded zero xs (step zero x c) (step-Bounded zero x c b)
