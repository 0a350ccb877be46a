-- ===== src/Broker/View.antt =====
-- The map from addresses to rows that a table of src/master/MasterMain.cpp stands for, and what appending
-- a row, or changing the first one with an address, does to it.
use gip_multiplayer.Base.{
  ◌≡◌, refl, ap, subst, inl, inr, List, [], ◌∷◌, ◌++◌, Option, none, some, if◌then◌else◌, some_inj,
  arith, Bool-cases,
}
use gip_multiplayer.Base.Text.{Text, text_eq_through, text_eq_apart, text_eq, text_eq_sound}
use gip_multiplayer.Broker.{ServerInfo}
use gip_multiplayer.Broker.Rooms.{find_server, change_first}
use gip_multiplayer.Broker.Table.{found_ne, found_rest}

module _ {C F : Type 0} where
  -- The map that a table stands for.
  abbrev pub view : List (ServerInfo C F) → Text → Option (ServerInfo C F)
  view ss ip = find_server ip ss

  -- A map, changed at one address.
  abbrev pub put :
      Text
      → Option (ServerInfo C F)
      → (Text → Option (ServerInfo C F))
      → Text
      → Option (ServerInfo C F)
  put ip row m key = if text_eq ip key then row else m key

  pub find_server_ip :
      (ip : Text) (ss : List (ServerInfo C F)) (s : ServerInfo C F)
      → find_server ip ss ≡ some s
      → s.ip ≡ ip
  unfolding find_server
  find_server_ip ip [] s h = absurd (cc)
  find_server_ip ip (x ∷ ss) s h = elim (Bool-cases (text_eq x.ip ip)) [
    | inl b ↦
        let e : some x ≡ some s = rw b at h in
        subst (λ r. r.ip ≡ ip) (some_inj e) (text_eq_sound x.ip ip b)
    | inr b ↦ find_server_ip ip ss s (rw b at h)
  ]

  pub view-append :
      (ss : List (ServerInfo C F)) (s : ServerInfo C F)
      → find_server s.ip ss ≡ none
      → (key : Text) → find_server key (ss ++ s ∷ []) ≡ put s.ip (some s) (view ss) key
  unfolding find_server
  view-append [] s h key = refl
  view-append (x ∷ ss) s h key =
      let ih = view-append ss s (found_rest s.ip x ss h) key in
      elim (Bool-cases (text_eq x.ip key)) [
        | inl b ↦ rw (b, text_eq_apart x.ip key s.ip b (found_ne s.ip x ss h)) refl
        | inr b ↦ rw b ih
      ]

  pub view-change_first :
      (ip : Text) (f : ServerInfo C F → ServerInfo C F)
      → ((s : ServerInfo C F) → (f s).ip ≡ s.ip)
      → (ss : List (ServerInfo C F)) (s : ServerInfo C F) → find_server ip ss ≡ some s
      → (key : Text) → find_server key (change_first ip f ss) ≡ put ip (some (f s)) (view ss) key
  unfolding find_server change_first
  view-change_first ip f e [] s h key = absurd (cc)
  view-change_first ip f e (x ∷ ss) s h key = elim (Bool-cases (text_eq x.ip ip)) [
    | inl b ↦
        let same : some x ≡ some s = rw b at h in
        simp (b, e x, text_eq_through x.ip ip key b)
          (elim (Bool-cases (text_eq ip key)) [
            | inl k ↦ rw k (ap (λ r. some (f r)) (some_inj same))
            | inr k ↦ rw k refl
          ])
    | inr b ↦
        let ih = view-change_first ip f e ss s (rw b at h) key in
        elim (Bool-cases (text_eq x.ip key)) [
          | inl k ↦ simp (b, k, text_eq_apart x.ip key ip k b) refl
          | inr k ↦ simp (b, k) ih
        ]
  ]

  pub change_first-missing :
      (ip : Text) (f : ServerInfo C F → ServerInfo C F) (ss : List (ServerInfo C F))
      → find_server ip ss ≡ none
      → change_first ip f ss ≡ ss
  unfolding find_server change_first
  change_first-missing ip f [] h = refl
  change_first-missing ip f (x ∷ ss) h = ground (arith, change_first-missing ip f ss)
