-- ===== src/Voice/Server/Routing.antt =====
-- Who is sent a voice packet, and that what is sent is worth receiving.
use gip_multiplayer.Base.{
  ℕ, ◌≡◌, ◌≢◌, refl, sym, ap, subst, ◌⊎◌, inl, inr, Bool, true, false, List, [], ◌∷◌, some, ◌==◌,
  if◌then◌else◌, length, All, arith, Bool-cases, Option-cases,
}
use gip_multiplayer.Base.Dict.{lookup, update, AllValues, lookup-AllValues, update-AllValues}
use gip_multiplayer.Voice.Packets.{
  PacketError, UplinkPacket, validate_uplink_packet, validate_downlink_packet,
}
use gip_multiplayer.Voice.Server.{Double, PeerState, Peer, Server, is_valid_peer_state}
use gip_multiplayer.Voice.Server.Relay.{
  Recipient, routed, downlink, consume_rate, may_send, may_hear, recipients, route,
}
use gip_multiplayer.Voice.Server.Invariant.{PeerIsValid, IsRegistered, IsValid}
use gip_multiplayer.Voice.Server.Relaying.{consume_rate-PeerIsValid}

-- Membership, by recursion.
abbrev pub Has : {A : Type 0} → A → List A → Type 0
Has a [] = ⊥
Has a (x ∷ xs) = (a ≡ x) ⊎ Has a xs

Has-unless :
    (same hears : Bool) (r x : Recipient) (rs : List Recipient)
    → Has r rs
    → Has r (if same then rs else if hears then x ∷ rs else rs)
Has-unless true hears r x rs h = h
Has-unless false true r x rs h = inr h
Has-unless false false r x rs h = h

Has-AllValues {κ} :
    {V : Type 0} (P : V → Type κ) (j : ℕ) (p : V) (m : List (ℕ × V))
    → AllValues P m
    → Has (j, p) m
    → P p
Has-AllValues {V} P j p [] v h = absurd h
Has-AllValues {V} P j p ((i, q) ∷ m) v (inl e) = subst P (sym (ap (λ (x : ℕ × V). x.1) e)) v.0
Has-AllValues {V} P j p ((i, q) ∷ m) v (inr h) = Has-AllValues P j p m v.1 h

All-map :
    {A : Type 0} (P Q : A → Type 0) (xs : List A) → ((a : A) → P a → Q a) → All P xs → All Q xs
All-map P Q [] f a = tt
All-map P Q (x ∷ xs) f a = (f x a.0, All-map P Q xs f a.1)

module _ {d : Double} where
  -- Whom a speaker is meant to reach: a registered peer of the same session whose client knows its
  -- state, that may receive, and that is on the speaker's team unless enemies are heard.
  pub record CanHear (hear_enemies : Bool) (speaker : PeerState) (p : Peer d) : Type 0 where
    pub has_state : p.has_state ≡ true
    pub published : p.control_published ≡ true
    pub receives : p.state.can_receive ≡ true
    pub session : p.state.session_id ≡ speaker.session_id
    pub team : (hear_enemies ≡ true) ⊎ (p.state.team_id ≡ speaker.team_id)

  may_hear-CanHear :
      (hear : Bool) (speaker : PeerState) (p : Peer d)
      → speaker.team_id ≢ 0
      → may_hear hear speaker p ≡ true
      → CanHear hear speaker p
  unfolding may_hear is_valid_peer_state
  may_hear-CanHear hear speaker p t h = ground arith

  CanHear-may_hear :
      (hear : Bool) (speaker : PeerState) (p : Peer d)
      → PeerIsValid p
      → CanHear hear speaker p
      → may_hear hear speaker p ≡ true
  unfolding may_hear is_valid_peer_state
  CanHear-may_hear hear speaker p v c = ground arith

  abbrev pub recipient_of : Peer d → Recipient
  recipient_of p = record { send = p.send; generation = p.generation }

  -- An entry of the table that the packet was sent on for.
  abbrev pub Reached : Bool → ℕ → PeerState → List (ℕ × Peer d) → Recipient → Type 0
  Reached hear id speaker peers r =
      (j : ℕ) × (p : Peer d) × Has (j, p) peers
      × (j ≢ id)
      × CanHear hear speaker p
      × (r ≡ recipient_of p)

  Reached-weaken :
      (hear : Bool) (id : ℕ) (speaker : PeerState) (e : ℕ × Peer d) (peers : List (ℕ × Peer d))
      (rs : List Recipient)
      → All (Reached hear id speaker peers) rs
      → All (Reached hear id speaker (e ∷ peers)) rs
  Reached-weaken hear id speaker e peers [] a = tt
  Reached-weaken hear id speaker e peers (r ∷ rs) ((j, p, h, n, c, q), a) =
      ((j, p, inr h, n, c, q), Reached-weaken hear id speaker e peers rs a)

  recipients-Reached :
      (hear : Bool) (id : ℕ) (speaker : PeerState) (peers : List (ℕ × Peer d))
      → speaker.team_id ≢ 0
      → All (Reached hear id speaker peers) (recipients hear id speaker peers)
  unfolding recipients
  recipients-Reached hear id speaker [] t = tt
  recipients-Reached hear id speaker ((j, p) ∷ peers) t =
      let ih =
        Reached-weaken hear id speaker (j, p) peers (recipients hear id speaker peers)
          (recipients-Reached hear id speaker peers t) in
      elim (Bool-cases (j == id)) [
        | inl same ↦ rw same ih
        | inr other ↦ elim (Bool-cases (may_hear hear speaker p)) [
          | inl yes' ↦
              rw (other, yes')
                ((j, p, inl refl, ground arith, may_hear-CanHear hear speaker p t yes', refl), ih)
          | inr no' ↦ rw (other, no') ih
        ]
      ]

  recipients_complete :
      (hear : Bool) (id : ℕ) (speaker : PeerState) (peers : List (ℕ × Peer d)) (j : ℕ) (p : Peer d)
      → AllValues PeerIsValid peers
      → Has (j, p) peers
      → j ≢ id
      → CanHear hear speaker p
      → Has (recipient_of p) (recipients hear id speaker peers)
  unfolding recipients
  recipients_complete hear id speaker [] j p v h n c = absurd h
  recipients_complete hear id speaker ((i, q) ∷ peers) j p v (inl e) n c =
      let ei = ap (λ (x : ℕ × Peer d). x.0) e in
      let ep = ap (λ (x : ℕ × Peer d). x.1) e in
      let other : (i == id) ≡ false = ground arith in
      let hears = CanHear-may_hear hear speaker q v.0 (subst (λ x. CanHear hear speaker x) ep c) in
      rw (other, hears) (inl (ap recipient_of ep))
  recipients_complete hear id speaker ((i, q) ∷ peers) j p v (inr h) n c =
      Has-unless (i == id) (may_hear hear speaker q) _ _ _
        (recipients_complete hear id speaker peers j p v.1 h n c)

  -- What a routed packet comes from.
  pub record FromSender (now id : ℕ) (packet : UplinkPacket) (s s' : Server d) (speaker : PeerState)
      (g : ℕ) (rs : List Recipient) : Type 0 where
    pub peer : Peer d
    pub known : lookup id s.peers ≡ some peer
    pub may : may_send peer packet ≡ true
    pub table :
        s'.peers ≡ update id (consume_rate s.config now (length packet.payload) peer).0 s.peers
    pub state : speaker ≡ peer.state
    pub generation : g ≡ peer.generation
    pub to : rs ≡ recipients s.hear_enemies id peer.state s'.peers

  route-FromSender :
      (now id : ℕ) (packet : UplinkPacket) (s s' : Server d) (speaker : PeerState) (g : ℕ)
      (rs : List Recipient)
      → route now id packet s ≡ routed s' speaker g rs
      → FromSender now id packet s s' speaker g rs
  unfolding route
  route-FromSender now id packet s s' speaker g rs h = elim (Option-cases (lookup id s.peers)) [
    | inl e ↦ absurd (let h' = rw (e, route) at h in ground arith)
    | inr (p, e) ↦
        let h' = rw (e, route) at h in
        record {
          peer = p;
          known = e;
          may = ground arith;
          table = ground arith;
          state = ground arith;
          generation = ground arith;
          to = ground arith;
        }
  ]

  sender-IsRegistered :
      (now id : ℕ) (packet : UplinkPacket) (s s' : Server d) (speaker : PeerState) (g : ℕ)
      (rs : List Recipient)
      → IsValid s
      → FromSender now id packet s s' speaker g rs
      → IsRegistered g speaker
  unfolding may_send
  sender-IsRegistered now id packet s s' speaker g rs v f =
      let w = lookup-AllValues PeerIsValid id s.peers f.peer v.peers f.known in
      let m = f.may in rw (f.generation, f.state) (registered_of f.peer w (ground arith))
    where
      registered_of :
          (p : Peer d) → PeerIsValid p → p.has_state ≡ true → IsRegistered p.generation p.state
      registered_of p w h = elim w.registered [ inl e ↦ absurd (cc) | inr r ↦ r ]

  table-valid :
      (now id : ℕ) (packet : UplinkPacket) (s s' : Server d) (speaker : PeerState) (g : ℕ)
      (rs : List Recipient)
      → IsValid s
      → FromSender now id packet s s' speaker g rs
      → AllValues PeerIsValid s'.peers
  table-valid now id packet s s' speaker g rs v f =
      let w = lookup-AllValues PeerIsValid id s.peers f.peer v.peers f.known in
      rw f.table (
        update-AllValues PeerIsValid id _ s.peers
          (consume_rate-PeerIsValid s.config now (length packet.payload) f.peer w) v.peers)

  route-recipients :
      (now id : ℕ) (packet : UplinkPacket) (s s' : Server d) (speaker : PeerState) (g : ℕ)
      (rs : List Recipient)
      → FromSender now id packet s s' speaker g rs
      → rs ≡ recipients s.hear_enemies id speaker s'.peers
  route-recipients now id packet s s' speaker g rs f = rw f.state f.to

  -- From a valid table, every recipient of a routed packet is another connection's peer that can hear
  -- the speaker.
  pub route-Reached :
      (now id : ℕ) (packet : UplinkPacket) (s s' : Server d) (speaker : PeerState) (g : ℕ)
      (rs : List Recipient)
      → IsValid s
      → route now id packet s ≡ routed s' speaker g rs
      → All (Reached s.hear_enemies id speaker s'.peers) rs
  route-Reached now id packet s s' speaker g rs v e =
      let f = route-FromSender now id packet s s' speaker g rs e in
      rw (route-recipients now id packet s s' speaker g rs f) (
        recipients-Reached s.hear_enemies id speaker s'.peers
          (sender-IsRegistered now id packet s s' speaker g rs v f).team)

  -- From a valid table, every other connection's peer that can hear the speaker of a routed packet is
  -- among its recipients, with its own callback and generation.
  pub route_complete :
      (now id : ℕ) (packet : UplinkPacket) (s s' : Server d) (speaker : PeerState) (g : ℕ)
      (rs : List Recipient) (j : ℕ) (p : Peer d)
      → IsValid s
      → route now id packet s ≡ routed s' speaker g rs
      → Has (j, p) s'.peers
      → j ≢ id
      → CanHear s.hear_enemies speaker p
      → Has (recipient_of p) rs
  route_complete now id packet s s' speaker g rs j p v e h n c =
      let f = route-FromSender now id packet s s' speaker g rs e in
      rw (route-recipients now id packet s s' speaker g rs f) (
        recipients_complete s.hear_enemies id speaker s'.peers j p
          (table-valid now id packet s s' speaker g rs v f) h n c)

  playable_for :
      (packet : UplinkPacket) (speaker : PeerState) (g : ℕ) (p : Peer d)
      → validate_uplink_packet packet ≡ PacketError.none
      → IsRegistered g speaker
      → PeerIsValid p
      → p.has_state ≡ true
      → validate_downlink_packet (downlink packet speaker g (recipient_of p)) ≡ PacketError.none
  unfolding validate_uplink_packet validate_downlink_packet downlink
  playable_for packet speaker g p v r w h = ground arith

  -- From a valid table, and for a valid uplink packet, every packet that is relayed is one that the
  -- client's validator accepts.
  pub route-playable :
      (now id : ℕ) (packet : UplinkPacket) (s s' : Server d) (speaker : PeerState) (g : ℕ)
      (rs : List Recipient)
      → IsValid s
      → validate_uplink_packet packet ≡ PacketError.none
      → route now id packet s ≡ routed s' speaker g rs
      → All (λ r. validate_downlink_packet (downlink packet speaker g r) ≡ PacketError.none) rs
  route-playable now id packet s s' speaker g rs v ok e =
      let f = route-FromSender now id packet s s' speaker g rs e in
      let r = sender-IsRegistered now id packet s s' speaker g rs v f in
      All-map (Reached s.hear_enemies id speaker s'.peers) _ rs
        (λ x (j, p, h, n, c, q).
          let w =
            Has-AllValues PeerIsValid j p s'.peers (table-valid now id packet s s' speaker g rs v f)
              h in
          rw q (playable_for packet speaker g p ok r w c.has_state))
        (route-Reached now id packet s s' speaker g rs v e)
