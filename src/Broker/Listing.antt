-- ===== src/Broker/Listing.antt =====
-- The list that the master sends: the rows that are shown, and the address each is shown at.
-- `OnPacket(gMasterGetListPacket)` of src/master/MasterMain.cpp.
use gip_multiplayer.Base.{
  ℕ, ◌-◌, ◌^◌, ◌≡◌, ◌⊎◌, refl, sym, subst, some_inj, inl, inr, Bool, true, false, not, ◌&&◌, ◌||◌,
  List, [], ◌∷◌, some, ltb, ◌==◌, ==_refl, if◌then◌else◌, length, get_or, All, arith, Bool-cases,
}
use gip_multiplayer.Base.Text.{Text, text_eq}
use gip_multiplayer.Broker.{ServerInfo, MasterGetListPacket, PeerSession}
use gip_multiplayer.Broker.Address.{before_colon}
use gip_multiplayer.Broker.Codes.{is_taken}
use gip_multiplayer.Broker.Rooms.{find_room}

-- `-1`, as the word of an `int`.
abbrev pub any_state : ℕ
any_state = 2 ^ 32 - 1

module _ {C F : Type 0} where
  unfoldable pub is_shown : ℕ → ServerInfo C F → Bool
  is_shown filter s = not s.is_private && (filter == any_state || s.match_state == filter)

  -- The row as it is sent: a client behind the NAT of a dedicated host gets the host's own address.
  unfoldable pub shown_to : Text → ServerInfo C F → ServerInfo C F
  shown_to client s =
      if s.is_dedicated && (text_eq (before_colon s.ip) client && ltb 1 (length s.peer_candidates))
      then record s { ip = get_or s.peer_candidates 1 s.ip }
      else s

  unfoldable pub listed_to : Text → ℕ → List (ServerInfo C F) → List (ServerInfo C F)
  listed_to client filter [] = []
  listed_to client filter (s ∷ ss) =
      let rest = listed_to client filter ss in
      if is_shown filter s then shown_to client s ∷ rest else rest

  unfoldable pub get_list :
      PeerSession → MasterGetListPacket → List (ServerInfo C F) → List (ServerInfo C F)
  get_list peer p ss = listed_to (before_colon peer.readable) p.match_state_filter ss

  -- What a client sees of a row.
  pub record Shown (filter : ℕ) (s : ServerInfo C F) : Type 0 where
    pub public : s.is_private ≡ false
    pub filtered : (filter ≡ any_state) ⊎ (s.match_state ≡ filter)

  is_shown-Shown : (filter : ℕ) (s : ServerInfo C F) → is_shown filter s ≡ true → Shown filter s
  unfolding is_shown
  is_shown-Shown filter s h = record {
    public = ground arith;
    filtered = elim (Bool-cases (filter == any_state)) [
      | inl b ↦ inl (ground arith)
      | inr b ↦ inr (ground arith)
    ];
  }

  moved-Shown :
      (filter : ℕ) (s : ServerInfo C F) (ip : Text)
      → Shown filter s
      → Shown filter (record s { ip = ip })
  moved-Shown filter s ip v = record { public = v.public; filtered = v.filtered }

  shown_to-Shown :
      (client : Text) (filter : ℕ) (s : ServerInfo C F)
      → is_shown filter s ≡ true
      → Shown filter (shown_to client s)
  unfolding shown_to
  shown_to-Shown client filter s h =
      let v = is_shown-Shown filter s h in
      elim (Bool-cases (
        s.is_dedicated
        && (text_eq (before_colon s.ip) client && ltb 1 (length s.peer_candidates)))) [
          | inl b ↦ rw (shown_to, b) (moved-Shown filter s (get_or s.peer_candidates 1 s.ip) v)
          | inr b ↦ rw (shown_to, b) v
        ]

  listed_to-Shown :
      (client : Text) (filter : ℕ) (ss : List (ServerInfo C F))
      → All (Shown filter) (listed_to client filter ss)
  unfolding listed_to
  listed_to-Shown client filter [] = tt
  listed_to-Shown client filter (s ∷ ss) =
      let ih = listed_to-Shown client filter ss in
      elim (Bool-cases (is_shown filter s)) [
        | inl b ↦ rw b (shown_to-Shown client filter s b, ih)
        | inr b ↦ rw b ih
      ]

  shown_code : (client : Text) (s : ServerInfo C F) → (shown_to client s).room_code ≡ s.room_code
  unfolding shown_to
  shown_code client s =
      elim (Bool-cases (
        s.is_dedicated
        && (text_eq (before_colon s.ip) client && ltb 1 (length s.peer_candidates)))) [
          | inl b ↦ rw b refl
          | inr b ↦ rw b refl
        ]

  Shown-is_shown : (filter : ℕ) (s : ServerInfo C F) → Shown filter s → is_shown filter s ≡ true
  unfolding is_shown
  Shown-is_shown filter s v = rw v.public (elim v.filtered [
    | inl e ↦ ground (arith, ==_refl filter)
    | inr e ↦ ground (arith, ==_refl filter)
  ])

  listed_to_complete :
      (client : Text) (filter : ℕ) (code : Text) (ss : List (ServerInfo C F)) (s : ServerInfo C F)
      → find_room code ss ≡ some s
      → Shown filter s
      → is_taken code (listed_to client filter ss) ≡ true
  unfolding listed_to is_taken find_room
  listed_to_complete client filter code [] s h v = absurd (cc)
  listed_to_complete client filter code (x ∷ ss) s h v =
      elim (Bool-cases (text_eq x.room_code code)) [
        | inl k ↦
            let same : some x ≡ some s = rw k at h in
            let shown = Shown-is_shown filter x (subst (Shown filter) (sym (some_inj same)) v) in
            simp (shown, shown_code client x, k) refl
        | inr k ↦
            let ih = listed_to_complete client filter code ss s (rw k at h) v in
            elim (Bool-cases (is_shown filter x)) [
              | inl b ↦ simp (b, shown_code client x, k) ih
              | inr b ↦ rw b ih
            ]
      ]

  -- The list that a client gets has only public rooms, each in a match state that passes the filter.
  pub get_list-Shown :
      (peer : PeerSession) (p : MasterGetListPacket) (ss : List (ServerInfo C F))
      → All (Shown p.match_state_filter) (get_list peer p ss)
  unfolding get_list
  get_list-Shown peer p ss = listed_to-Shown (before_colon peer.readable) p.match_state_filter ss

  -- A room that is public and whose match state passes the filter is in the list under its room code,
  -- where it is the first with that code in the table.
  pub get_list_complete :
      (peer : PeerSession) (p : MasterGetListPacket) (ss : List (ServerInfo C F)) (code : Text)
      (s : ServerInfo C F)
      → find_room code ss ≡ some s
      → Shown p.match_state_filter s
      → is_taken code (get_list peer p ss) ≡ true
  unfolding get_list
  get_list_complete peer p ss code s h v =
      listed_to_complete (before_colon peer.readable) p.match_state_filter code ss s h v
