-- ===== src/Voice/Server/Relaying.antt =====
-- Routing a voice packet keeps the table of peers valid.
use gip_multiplayer.Base.{
  ℕ, inl, inr, Bool, true, false, List, [], ◌∷◌, length, arith, Option-cases, if◌then◌else◌,
}
use gip_multiplayer.Base.Dict.{lookup, lookup-AllValues}
use gip_multiplayer.Voice.Packets.{PacketError, UplinkPacket, validate_uplink_packet}
use gip_multiplayer.Voice.Server.{
  Double, PeerState, Peer, Server, Config, Env, report_malformed_packet, relay, count_send_failure,
}
use gip_multiplayer.Voice.Server.Relay.{
  Routing, rejected, limited, routed, Recipient, consume_rate, route, relay_all,
  handle_voice_packet, count_received, finish_routing, count_relayed, downlink,
}
use gip_multiplayer.Voice.Server.Invariant.{PeerIsValid, IsValid, Keeps, update-IsValid}

module _ {d : Double} where
  pub consume_rate-PeerIsValid :
      (c : Config d) (now bytes : ℕ) (p : Peer d)
      → PeerIsValid p
      → PeerIsValid (consume_rate c now bytes p).0
  unfolding consume_rate
  consume_rate-PeerIsValid c now bytes p w = ground arith

  abbrev pub RoutingIsValid : Routing d → Type 0
  RoutingIsValid (rejected s) = IsValid s
  RoutingIsValid (limited s) = IsValid s
  RoutingIsValid (routed s speaker generation rs) = IsValid s

  route-IsValid :
      (now id : ℕ) (packet : UplinkPacket) (s : Server d)
      → IsValid s
      → RoutingIsValid (route now id packet s)
  unfolding route
  route-IsValid now id packet s v = elim (Option-cases (lookup id s.peers)) [
    | inl e ↦ rw (e, route) (record { peers = v.peers; room = v.room })
    | inr (p, e) ↦
        let w = lookup-AllValues PeerIsValid id s.peers p v.peers e in
        let n = length packet.payload in
        let u =
          update-IsValid s id (consume_rate s.config now n p).0 v
            (consume_rate-PeerIsValid s.config now n p w) in
        rw (e, route) (ground (arith, u))
  ]

  relay_all-IsValid :
      (env : Env d) (packet : UplinkPacket) (speaker : PeerState) (generation : ℕ)
      (rs : List Recipient) (s : Server d)
      → Keeps env
      → IsValid s
      → IsValid (relay_all env packet speaker generation rs s)
  unfolding relay_all
  relay_all-IsValid env packet speaker generation [] s k v = v
  relay_all-IsValid env packet speaker generation (r ∷ rs) s k v =
      let m = relay (downlink packet speaker generation r) in
      let w = k.deliver_keeps r.send m s v in
      relay_all-IsValid env packet speaker generation rs _ k
        (counted (env.deliver r.send m s).1 (env.deliver r.send m s).0 (length packet.payload) w)
    where
      counted :
          (sent : Bool) (t : Server d) (n : ℕ)
          → IsValid t
          → IsValid (if sent then count_relayed n t else count_send_failure t)
      counted true t n w = record { peers = w.peers; room = w.room }
      counted false t n w = record { peers = w.peers; room = w.room }

  -- `handleVoicePacket` keeps the table valid in every environment that does.
  pub handle_voice_packet-IsValid :
      (env : Env d) (now id : ℕ) (packet : UplinkPacket) (s : Server d)
      → Keeps env
      → IsValid s
      → IsValid (handle_voice_packet env now id packet s)
  unfolding handle_voice_packet report_malformed_packet
  handle_voice_packet-IsValid env now id packet s k v =
      go (validate_uplink_packet packet) (route now id packet s1) (
        route-IsValid now id packet s1
          (k.elsewhere_keeps (count_received packet s) (record { peers = v.peers; room = v.room })))
    where
      s1 : Server d
      s1 = env.elsewhere (count_received packet s)

      finish : (r : Routing d) → RoutingIsValid r → IsValid (finish_routing env packet r)
      finish (rejected t) w = w
      finish (limited t) w = w
      finish (routed t speaker generation rs) w =
          relay_all-IsValid env packet speaker generation rs t k w

      go :
          (e : PacketError) (r : Routing d)
          → RoutingIsValid r
          → let t : Server d = elim e [
            | PacketError.none ↦ finish_routing env packet r
            | _ ↦ report_malformed_packet s
          ] in
            IsValid t
      go PacketError.none r w = finish r w
      go _ r w = record { peers = v.peers; room = v.room }
