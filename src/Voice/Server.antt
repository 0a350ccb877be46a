-- ===== src/Voice/Server.antt =====
-- The team voice router: src/voice/gTeamVoiceServer.h and gTeamVoiceServer.cpp. A function is one
-- locked region, or an operation composed of them; `Env` is what may happen between the regions.
pub mod Control
pub mod Relay
pub mod Invariant
pub mod Relaying
pub mod Rate
pub mod Routing
pub mod Told
pub mod Publish
use gip_multiplayer.Base.{
  ℕ, suc, ◌+◌, ◌%◌, ◌^◌, Bool, true, false, not, ◌&&◌, ◌||◌, List, [], ◌∷◌, Option, none, some, ltb,
  leb, ◌==◌, ◌!=◌, if◌then◌else◌, length, add32, add64,
}
use gip_multiplayer.Base.Dict.{lookup, update, erase}
use gip_multiplayer.Voice.Packets.{
  PacketError, SessionPacket, UplinkPacket, DownlinkPacket, protocol_version,
  validate_uplink_packet,
}

-- `double`, and the seconds between two readings of the clock.
pub record Double : Type 1 where
  pub D : Type 0
  pub zero : D
  pub one : D
  pub of_size : ℕ → D
  pub seconds : ℕ → ℕ → D
  pub add : D → D → D
  pub sub : D → D → D
  pub mul : D → D → D
  pub lt : D → D → Bool

pub record PeerState : Type 0 where
  pub player_id : ℕ
  pub team_id : ℕ
  pub session_id : ℕ
  pub can_transmit : Bool
  pub can_receive : Bool

-- What goes through a peer's send callback.
pub data Message : Type 0 where
  control : SessionPacket → Message
  relay : DownlinkPacket → Message

unfoldable pub is_valid_peer_state : PeerState → Bool
is_valid_peer_state s = s.player_id != 0 && (s.team_id != 0 && s.session_id != 0)

abbrev same : Bool → Bool → Bool
same a b = if a then b else not b

unfoldable pub peer_states_equal : PeerState → PeerState → Bool
peer_states_equal l r =
    l.player_id == r.player_id
    && (l.team_id == r.team_id
        && (l.session_id == r.session_id
            && (same l.can_transmit r.can_transmit && same l.can_receive r.can_receive)))

-- `PeerState{}`.
abbrev pub empty_state : PeerState
empty_state = record {
  player_id = 0;
  team_id = 0;
  session_id = 0;
  can_transmit = false;
  can_receive = false;
}

-- 0 means that a peer never had a state, so the counter skips it when it wraps.
unfoldable pub next_generation : ℕ → ℕ
next_generation current = let next = add32 current 1 in if next == 0 then add32 next 1 else next

pub record Config (d : Double) : Type 0 where
  pub max_connections : ℕ
  pub packets_per_second : d.D
  pub packet_burst : d.D
  pub bytes_per_second : d.D
  pub byte_burst : d.D

-- `identity` tells a peer object from another one that was put in under the same connection id, as
-- comparing the shared pointers does; `send` names its callback.
pub record Peer (d : Double) : Type 0 where
  pub identity : ℕ
  pub send : ℕ
  pub state : PeerState
  pub has_state : Bool
  pub control_published : Bool
  pub generation : ℕ
  pub packet_tokens : d.D
  pub byte_tokens : d.D
  pub rate_time : ℕ

pub record Stats : Type 0 where
  pub received_packets : ℕ
  pub received_bytes : ℕ
  pub relayed_packets : ℕ
  pub relayed_bytes : ℕ
  pub routing_rejections : ℕ
  pub malformed_packets : ℕ
  pub rate_limited_packets : ℕ
  pub send_failures : ℕ

abbrev pub no_stats : Stats
no_stats = record {
  received_packets = 0;
  received_bytes = 0;
  relayed_packets = 0;
  relayed_bytes = 0;
  routing_rejections = 0;
  malformed_packets = 0;
  rate_limited_packets = 0;
  send_failures = 0;
}

pub record Server (d : Double) : Type 0 where
  pub config : Config d
  pub peers : List (ℕ × Peer d)
  pub stats : Stats
  pub hear_enemies : Bool
  pub next_identity : ℕ

-- What the model does not decide: what other threads do to the server while an operation holds no
-- lock, and what calling a peer's callback does to it and answers. A callback may call back in.
pub record Env (d : Double) : Type 0 where
  pub elsewhere : Server d → Server d
  pub deliver : ℕ → Message → Server d → Server d × Bool

module _ {d : Double} where
  unfoldable pub new_server : Config d → Server d
  new_server config = record {
    config = config;
    peers = [];
    stats = no_stats;
    hear_enemies = false;
    next_identity = 0;
  }

  -- A callback that is empty is `none`.
  unfoldable pub add_peer : ℕ → ℕ → Option ℕ → Server d → Server d × Bool
  add_peer now id none s = (s, false)
  add_peer now id (some send) s = if id == 0 then (s, false) else elim (lookup id s.peers) [
    | some p ↦ (s, false)
    | none ↦ if leb s.config.max_connections (length s.peers) then (s, false) else (
      record s {
        peers =
            (
              id,
              record {
                identity = s.next_identity;
                send = send;
                state = empty_state;
                has_state = false;
                control_published = true;
                generation = 0;
                packet_tokens = s.config.packet_burst;
                byte_tokens = s.config.byte_burst;
                rate_time = now;
              },
            )
            ∷ s.peers;
        next_identity = suc s.next_identity;
      },
      true,
    )
  ]

  unfoldable pub remove_peer : ℕ → Server d → Server d
  remove_peer id s = record s { peers = erase id s.peers }

  unfoldable pub reset : Server d → Server d
  reset s = record s { peers = [] }

  unfoldable pub set_hear_enemies_voice : Bool → Server d → Server d
  set_hear_enemies_voice enable s = record s { hear_enemies = enable }

  unfoldable pub report_malformed_packet : Server d → Server d
  report_malformed_packet s =
      let st = s.stats in
      record s { stats = record st { malformed_packets = add64 st.malformed_packets 1 } }

  abbrev pub count_send_failure : Server d → Server d
  count_send_failure s =
      let st = s.stats in
      record s { stats = record st { send_failures = add64 st.send_failures 1 } }

  unfoldable pub get_peer_count : Server d → ℕ
  get_peer_count s = length s.peers
