-- ===== src/Voice/Server/Relay.antt =====
-- Routing a voice packet: `consumeRate` and `handleVoicePacket` of src/voice/gTeamVoiceServer.cpp.
use gip_multiplayer.Base.{
  ℕ, Bool, true, false, not, ◌&&◌, ◌||◌, List, [], ◌∷◌, none, some, ◌==◌, if◌then◌else◌, length,
  add64,
}
use gip_multiplayer.Base.Dict.{lookup, update}
use gip_multiplayer.Voice.Packets.{
  PacketError, UplinkPacket, DownlinkPacket, protocol_version, validate_uplink_packet,
}
use gip_multiplayer.Voice.Server.{
  Double, PeerState, relay, Config, Peer, Server, Env, is_valid_peer_state, report_malformed_packet,
  count_send_failure,
}

pub record Recipient : Type 0 where
  pub send : ℕ
  pub generation : ℕ

-- How the locked region of `handleVoicePacket` ends.
pub data Routing (d : Double) : Type 0 where
  rejected : Server d → Routing d
  limited : Server d → Routing d
  routed : Server d → PeerState → ℕ → List Recipient → Routing d

-- The packet that a recipient is sent.
unfoldable pub downlink : UplinkPacket → PeerState → ℕ → Recipient → DownlinkPacket
downlink p speaker speaker_generation r = record {
  version = protocol_version;
  flags = p.flags;
  session_id = speaker.session_id;
  recipient_generation = r.generation;
  speaker_id = speaker.player_id;
  speaker_generation = speaker_generation;
  stream_generation = p.stream_generation;
  sequence = p.sequence;
  sample_position = p.sample_position;
  payload = p.payload;
}

-- `std::min(a, b)`.
abbrev pub min_double : (d : Double) → d.D → d.D → d.D
min_double d a b = if d.lt b a then b else a

module _ {d : Double} where
  open d use {one, of_size, seconds, add, sub, mul, lt}

  unfoldable pub consume_rate : Config d → ℕ → ℕ → Peer d → Peer d × Bool
  consume_rate c now bytes p =
      let elapsed = seconds p.rate_time now in
      let packets =
        min_double d c.packet_burst (add p.packet_tokens (mul elapsed c.packets_per_second)) in
      let room = min_double d c.byte_burst (add p.byte_tokens (mul elapsed c.bytes_per_second)) in
      if lt packets one || lt room (of_size bytes)
      then (record p { rate_time = now; packet_tokens = packets; byte_tokens = room }, false)
      else (
        record p {
          rate_time = now;
          packet_tokens = sub packets one;
          byte_tokens = sub room (of_size bytes);
        },
        true,
      )

  -- The sender may transmit, and its packet carries its current session and generation.
  unfoldable pub may_send : Peer d → UplinkPacket → Bool
  may_send p packet =
      p.has_state
      && (p.control_published
          && (p.state.can_transmit
              && (is_valid_peer_state p.state
                  && (packet.session_id == p.state.session_id
                      && packet.membership_generation == p.generation))))

  -- The tests of the loop over the peers.
  unfoldable pub may_hear : Bool → PeerState → Peer d → Bool
  may_hear hear_enemies sender p =
      p.has_state
      && (p.control_published
          && (p.state.can_receive
              && (is_valid_peer_state p.state
                  && (p.state.session_id == sender.session_id
                      && (hear_enemies
                          || (p.state.team_id == 0
                              || (sender.team_id == 0 || p.state.team_id == sender.team_id)))))))

  unfoldable pub recipients : Bool → ℕ → PeerState → List (ℕ × Peer d) → List Recipient
  recipients hear id sender [] = []
  recipients hear id sender ((j, p) ∷ peers) =
      let rest = recipients hear id sender peers in
      if j == id
      then rest
      else if may_hear hear sender p
      then record { send = p.send; generation = p.generation } ∷ rest
      else rest

  unfoldable pub route : ℕ → ℕ → UplinkPacket → Server d → Routing d
  route now id packet s =
      let st = s.stats in
      let rejection =
        rejected
          (record s { stats = record st { routing_rejections = add64 st.routing_rejections 1 } }) in
      elim (lookup id s.peers) [
        | none ↦ rejection
        | some p ↦
            if not (may_send p packet)
            then rejection
            else let (q, allowed) = consume_rate s.config now (length packet.payload) p in
              let peers = update id q s.peers in
              if allowed
              then routed (record s { peers = peers }) p.state p.generation
                  (recipients s.hear_enemies id p.state peers)
              else limited (record s {
                peers = peers;
                stats = record st { rate_limited_packets = add64 st.rate_limited_packets 1 };
              })
      ]

  abbrev pub count_relayed : ℕ → Server d → Server d
  count_relayed bytes s =
      let st = s.stats in
      record s {
        stats = record st {
          relayed_packets = add64 st.relayed_packets 1;
          relayed_bytes = add64 st.relayed_bytes bytes;
        };
      }

  -- The sending loop, which holds no lock.
  unfoldable pub relay_all :
      Env d → UplinkPacket → PeerState → ℕ → List Recipient → Server d → Server d
  relay_all env packet speaker generation [] s = s
  relay_all env packet speaker generation (r ∷ rs) s =
      let (s', sent) = env.deliver r.send (relay (downlink packet speaker generation r)) s in
      relay_all env packet speaker generation rs
        (if sent then count_relayed (length packet.payload) s' else count_send_failure s')

  abbrev pub count_received : UplinkPacket → Server d → Server d
  count_received packet s =
      let st = s.stats in
      record s {
        stats = record st {
          received_packets = add64 st.received_packets 1;
          received_bytes = add64 st.received_bytes (length packet.payload);
        };
      }

  abbrev pub finish_routing : Env d → UplinkPacket → Routing d → Server d
  finish_routing env packet (rejected s) = s
  finish_routing env packet (limited s) = s
  finish_routing env packet (routed s speaker generation rs) =
      relay_all env packet speaker generation rs s

  -- A packet that is valid is counted; then, after what happened elsewhere, it is routed.
  unfoldable pub handle_voice_packet : Env d → ℕ → ℕ → UplinkPacket → Server d → Server d
  handle_voice_packet env now id packet s = elim (validate_uplink_packet packet) [
    | PacketError.none ↦
        finish_routing env packet (route now id packet (env.elsewhere (count_received packet s)))
    | _ ↦ report_malformed_packet s
  ]
