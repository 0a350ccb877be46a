-- ===== src/Broker/Punch.antt =====
-- Bringing two peers together: `OnPacket(gMasterPunchRequestPacket)` of src/master/MasterMain.cpp, and
-- the list that a client picks its target from.
use gip_multiplayer.Base.{
  ℕ, ◌≡◌, refl, inl, inr, Bool, true, false, ◌&&◌, ◌||◌, List, [], ◌∷◌, Option, none, some, ltb,
  if◌then◌else◌, length, get_or, All, arith, Bool-cases,
}
use gip_multiplayer.Base.Text.{Text, text_eq, text_eq_refl}
use gip_multiplayer.Broker.{
  ServerInfo, MasterPunchRequestPacket, MasterPunchExecutePacket, MasterGetListPacket, PeerSession,
  Traversal, Age,
}
use gip_multiplayer.Broker.Address.{ℤ, before_colon, split_host_port}
use gip_multiplayer.Broker.Listing.{is_shown, shown_to, listed_to, get_list}
use gip_multiplayer.Broker.Offer.{build_offer}

-- Whether a text is one of the addresses of a row.
unfoldable pub is_address : Text → List Text → Bool
is_address target [] = false
is_address target (c ∷ cs) = text_eq c target || is_address target cs

module _ {C F : Type 0} where
  unfoldable pub is_target : Text → ServerInfo C F → Bool
  is_target target s =
      (text_eq s.room_code target || text_eq s.ip target) || is_address target s.peer_candidates

  -- `targetServer`.
  unfoldable pub find_target : Text → List (ServerInfo C F) → Option (ServerInfo C F)
  find_target target [] = none
  find_target target (s ∷ ss) = if is_target target s then some s else find_target target ss

module _ (t : Traversal) (a : Age) where
  -- `hostPublicIp` and `hostPunchPort`, which stay empty and 0 where the address has no port.
  abbrev host_endpoint : Option (Text × ℕ) → Text × ℕ
  host_endpoint none = ([], 0)
  host_endpoint (some endpoint) = endpoint

  -- What a punch request sends, each packet with the session that it goes to. `relayed` is the
  -- candidate of the relay's allocation, where there is a relay and it allocates one.
  unfoldable pub punch :
      (Text → Option ℤ)
      → (ℕ → Bool)
      → Option t.C
      → PeerSession
      → MasterPunchRequestPacket t.C
      → List (ServerInfo t.C a.F)
      → List (ℕ × MasterPunchExecutePacket t.C)
  punch stoi alive relayed peer p ss = elim (find_target p.target_identifier ss) [
    | none ↦ []
    | some s ↦
        let host = host_endpoint (split_host_port stoi s.ip) in
        let client_ip = before_colon peer.readable in
        let to_host : MasterPunchExecutePacket t.C = record {
          candidates = build_offer t client_ip p.client_game_port p.candidates relayed;
          is_host = true;
        } in
        let to_client : MasterPunchExecutePacket t.C = record {
          candidates = build_offer t host.0 host.1 s.candidates relayed;
          is_host = false;
        } in
        if alive s.host_session
        then (s.host_session, to_host) ∷ (peer.session, to_client) ∷ []
        else []
  ]

second_is_address :
    (d : Text) (cs : List Text) → ltb 1 (length cs) ≡ true → is_address (get_or cs 1 d) cs ≡ true
unfolding is_address
second_is_address d [] h = absurd (ground arith)
second_is_address d (c ∷ []) h = absurd (ground arith)
second_is_address d (c ∷ e ∷ cs) h = ground (arith, text_eq_refl e)

module _ {C F : Type 0} where
  -- Whether a text names a row.
  has_target : Text → List (ServerInfo C F) → Bool
  has_target target [] = false
  has_target target (s ∷ ss) = is_target target s || has_target target ss

  has_target-found :
      (target : Text) (ss : List (ServerInfo C F))
      → has_target target ss ≡ true
      → (s : ServerInfo C F) × (find_target target ss ≡ some s)
  unfolding has_target find_target
  has_target-found target [] h = absurd (cc)
  has_target-found target (s ∷ ss) h = elim (Bool-cases (is_target target s)) [
    | inl b ↦ (s, rw b refl)
    | inr b ↦ rw b (has_target-found target ss (rw b at h))
  ]

  shown_is_target : (client : Text) (s : ServerInfo C F) → is_target (shown_to client s).ip s ≡ true
  unfolding is_target shown_to
  shown_is_target client s =
      elim (Bool-cases (
        s.is_dedicated
        && (text_eq (before_colon s.ip) client && ltb 1 (length s.peer_candidates)))) [
          | inl b ↦ rw b (ground (arith, second_is_address s.ip s.peer_candidates))
          | inr b ↦ rw b (ground (arith, text_eq_refl s.ip))
        ]

  listed_to-has_target :
      (client : Text) (filter : ℕ) (table part : List (ServerInfo C F))
      → ((target : Text) → has_target target part ≡ true → has_target target table ≡ true)
      → All
          (λ s. (r : ServerInfo C F) × (find_target s.ip table ≡ some r))
          (listed_to client filter part)
  unfolding has_target listed_to
  listed_to-has_target client filter table [] inside = tt
  listed_to-has_target client filter table (s ∷ ss) inside =
      let ih =
        listed_to-has_target client filter table ss
          (λ target h. inside target (ground (arith, h))) in
      elim (Bool-cases (is_shown filter s)) [
        | inl b ↦ rw b (
          has_target-found (shown_to client s).ip table
              (inside (shown_to client s).ip (rw (shown_is_target client s) refl)),
          ih,
        )
        | inr b ↦ rw b ih
      ]

  -- Every address that the list shows a client, the substituted ones too, names a room when the
  -- client asks to punch to it while the table is the same.
  pub get_list-find_target :
      (peer : PeerSession) (p : MasterGetListPacket) (ss : List (ServerInfo C F))
      → All (λ s. (r : ServerInfo C F) × (find_target s.ip ss ≡ some r)) (get_list peer p ss)
  unfolding get_list
  get_list-find_target peer p ss =
      listed_to-has_target (before_colon peer.readable) p.match_state_filter ss ss (λ target h. h)
