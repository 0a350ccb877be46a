-- ===== src/Broker/Table.antt =====
-- Rows that are appended or changed in place keep their addresses and room codes apart, as the handlers
-- of src/master/MasterMain.cpp append and change them.
use gip_multiplayer.Base.{
  ◌≡◌, refl, ◌∙◌, inl, inr, false, List, [], ◌∷◌, ◌++◌, none, arith, Bool-cases,
}
use gip_multiplayer.Base.Text.{Text, text_eq, text_eq_sym}
use gip_multiplayer.Broker.{ServerInfo}
use gip_multiplayer.Broker.Codes.{is_taken}
use gip_multiplayer.Broker.Rooms.{find_server, change_first}

module _ {C F : Type 0} where
  -- No two rows have one address.
  abbrev pub DistinctIps : List (ServerInfo C F) → Type 0
  DistinctIps [] = Unit
  DistinctIps (s ∷ ss) = (find_server s.ip ss ≡ none) × DistinctIps ss

  -- No two rows have one room code.
  abbrev pub DistinctCodes : List (ServerInfo C F) → Type 0
  DistinctCodes [] = Unit
  DistinctCodes (s ∷ ss) = (is_taken s.room_code ss ≡ false) × DistinctCodes ss

  -- A row that is not there is not there after one with another address is appended.
  pub find-append_other :
      (ip : Text) (ss : List (ServerInfo C F)) (s : ServerInfo C F)
      → text_eq s.ip ip ≡ false
      → find_server ip ss ≡ none
      → find_server ip (ss ++ s ∷ []) ≡ none
  unfolding find_server
  find-append_other ip [] s d h = ground arith
  find-append_other ip (x ∷ ss) s d h = ground (arith, find-append_other ip ss s d)

  pub found_ne :
      (ip : Text) (x : ServerInfo C F) (ss : List (ServerInfo C F))
      → find_server ip (x ∷ ss) ≡ none
      → text_eq x.ip ip ≡ false
  unfolding find_server
  found_ne ip x ss h = ground arith

  pub found_rest :
      (ip : Text) (x : ServerInfo C F) (ss : List (ServerInfo C F))
      → find_server ip (x ∷ ss) ≡ none
      → find_server ip ss ≡ none
  unfolding find_server
  found_rest ip x ss h = ground arith

  pub DistinctIps-append :
      (s : ServerInfo C F) (ss : List (ServerInfo C F))
      → find_server s.ip ss ≡ none
      → DistinctIps ss
      → DistinctIps (ss ++ s ∷ [])
  unfolding find_server
  DistinctIps-append s [] h d = (refl, tt)
  DistinctIps-append s (x ∷ ss) h d = (
    find-append_other x.ip ss s (text_eq_sym s.ip x.ip ∙ found_ne s.ip x ss h) d.0,
    DistinctIps-append s ss (found_rest s.ip x ss h) d.1,
  )

  pub taken-append_other :
      (code : Text) (ss : List (ServerInfo C F)) (s : ServerInfo C F)
      → text_eq s.room_code code ≡ false
      → is_taken code ss ≡ false
      → is_taken code (ss ++ s ∷ []) ≡ false
  unfolding is_taken
  taken-append_other code [] s d h = ground arith
  taken-append_other code (x ∷ ss) s d h = ground (arith, taken-append_other code ss s d)

  pub taken_ne :
      (code : Text) (x : ServerInfo C F) (ss : List (ServerInfo C F))
      → is_taken code (x ∷ ss) ≡ false
      → (text_eq x.room_code code ≡ false) × (is_taken code ss ≡ false)
  unfolding is_taken
  taken_ne code x ss h = (ground arith, ground arith)

  pub DistinctCodes-append :
      (s : ServerInfo C F) (ss : List (ServerInfo C F))
      → is_taken s.room_code ss ≡ false
      → DistinctCodes ss
      → DistinctCodes (ss ++ s ∷ [])
  unfolding is_taken
  DistinctCodes-append s [] h d = (refl, tt)
  DistinctCodes-append s (x ∷ ss) h d =
      let ne = taken_ne s.room_code x ss h in
      (
        taken-append_other x.room_code ss s (text_eq_sym s.room_code x.room_code ∙ ne.0) d.0,
        DistinctCodes-append s ss ne.1 d.1,
      )

  -- A change that keeps the address and the code of a row.
  pub find-change_first :
      (ip key : Text) (f : ServerInfo C F → ServerInfo C F)
      → ((s : ServerInfo C F) → (f s).ip ≡ s.ip)
      → (ss : List (ServerInfo C F)) → find_server ip ss ≡ none
      → find_server ip (change_first key f ss) ≡ none
  unfolding find_server change_first
  find-change_first ip key f e [] h = refl
  find-change_first ip key f e (x ∷ ss) h = elim (Bool-cases (text_eq x.ip key)) [
    | inl b ↦ simp (b, e x, found_ne ip x ss h) (found_rest ip x ss h)
    | inr b ↦
        rw b (rw (found_ne ip x ss h) (find-change_first ip key f e ss (found_rest ip x ss h)))
  ]

  pub DistinctIps-change_first :
      (key : Text) (f : ServerInfo C F → ServerInfo C F)
      → ((s : ServerInfo C F) → (f s).ip ≡ s.ip)
      → (ss : List (ServerInfo C F)) → DistinctIps ss
      → DistinctIps (change_first key f ss)
  unfolding change_first
  DistinctIps-change_first key f e [] d = tt
  DistinctIps-change_first key f e (x ∷ ss) d = elim (Bool-cases (text_eq x.ip key)) [
    | inl b ↦ rw b (rw (e x) d.0, d.1)
    | inr b ↦ rw b (find-change_first x.ip key f e ss d.0, DistinctIps-change_first key f e ss d.1)
  ]

  pub taken-change_first :
      (code key : Text) (f : ServerInfo C F → ServerInfo C F)
      → ((s : ServerInfo C F) → (f s).room_code ≡ s.room_code)
      → (ss : List (ServerInfo C F)) → is_taken code (change_first key f ss) ≡ is_taken code ss
  unfolding is_taken change_first
  taken-change_first code key f e [] = refl
  taken-change_first code key f e (x ∷ ss) = elim (Bool-cases (text_eq x.ip key)) [
    | inl b ↦ rw (b, e x) refl
    | inr b ↦ rw (b, taken-change_first code key f e ss) refl
  ]

  pub DistinctCodes-change_first :
      (key : Text) (f : ServerInfo C F → ServerInfo C F)
      → ((s : ServerInfo C F) → (f s).room_code ≡ s.room_code)
      → (ss : List (ServerInfo C F)) → DistinctCodes ss
      → DistinctCodes (change_first key f ss)
  unfolding change_first
  DistinctCodes-change_first key f e [] d = tt
  DistinctCodes-change_first key f e (x ∷ ss) d = elim (Bool-cases (text_eq x.ip key)) [
    | inl b ↦ rw b (rw (e x) d.0, d.1)
    | inr b ↦ rw b (
      rw (taken-change_first x.room_code key f e ss) d.0,
      DistinctCodes-change_first key f e ss d.1,
    )
  ]
