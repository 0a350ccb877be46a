-- ===== src/Game/Session.antt =====
-- What the host does with a packet that comes in on a connection, before the main thread handles it:
-- `ServerPacketHandler` of src/GameBackendLocal.cpp, but for the voice packets.
use gip_multiplayer.Base.{
  ℕ, ◌*◌, Bool, ◌&&◌, not, List, [], ◌∷◌, ◌++◌, Option, none, some, ◌!=◌, if◌then◌else◌,
}
use gip_multiplayer.Base.Text.{Text, text_eq, to_string}
use gip_multiplayer.Lobby.{ChatMessage}
use gip_multiplayer.Game.{GamePacket, LobbyJoinPacket}

-- What the handler reads of the backend and of the network manager.
pub record HostInfo : Type 0 where
  pub is_private_server : Bool
  pub server_password : Text
  pub server_name : Text
  pub team_size : ℕ
  pub player_count : ℕ
  pub is_dedicated_server : Bool
  pub match_in_progress : Bool

pub data Action (F : Type 0) : Type 0 where
  enqueue : GamePacket F → Action F
  broadcast_others : GamePacket F → Action F
  reply : GamePacket F → Action F
  report_ping : ℕ → ℕ → Action F
  pong_received : ℕ → Action F
  sync_voice : Action F

-- "PASSWORD_REQUIRED".
abbrev pub password_required : Text
password_required =
    80 ∷ 65 ∷ 83 ∷ 83 ∷ 87 ∷ 79 ∷ 82 ∷ 68 ∷ 95 ∷ 82 ∷ 69 ∷ 81 ∷ 85 ∷ 73 ∷ 82 ∷ 69 ∷ 68 ∷ []

-- A chat message is sent by whom the connection is tagged with, if it is tagged.
abbrev pub stamped : Option ℕ → ChatMessage → ChatMessage
stamped none m = m
stamped (some id) m = record m { sender_id = id }

module _ {F : Type 0} where
  -- Into the queue, and on to all the other clients.
  abbrev forward : GamePacket F → List (Action F)
  forward p = enqueue p ∷ broadcast_others p ∷ []

  unfoldable pub query_response : HostInfo → GamePacket F
  query_response h = GamePacket.server_query_res (record {
    lobby_name = h.server_name;
    format = to_string h.team_size ++ (118 ∷ to_string h.team_size);
    size_str = to_string h.player_count ++ (47 ∷ to_string (h.team_size * 2));
    is_dedicated = h.is_dedicated_server;
    match_in_progress = h.match_in_progress;
  })

  unfoldable pub on_join : HostInfo → Option ℕ → LobbyJoinPacket → Option ℕ × List (Action F)
  on_join h tag p =
      if h.is_private_server && not (text_eq h.server_password p.password)
      then (tag, reply (GamePacket.lobby_kick (record { reason = password_required })) ∷ [])
      else (some p.sender_id, enqueue (GamePacket.lobby_join p) ∷ sync_voice ∷ [])

  abbrev on_ping : Option ℕ → ℕ → List (Action F)
  on_ping none ping = []
  on_ping (some id) ping = if id != 0 then report_ping id ping ∷ [] else []

  -- A packet and the tag of its connection, with the tag that it has then. A leave, which the class
  -- lists but has no handler for, is left to the library: `otherwise` says what happens.
  unfoldable pub on_packet :
      (GamePacket F → List (Action F))
      → HostInfo
      → Option ℕ
      → GamePacket F
      → Option ℕ × List (Action F)
  on_packet otherwise h tag (GamePacket.node_state p) =
      (some p.netid, forward (GamePacket.node_state p))
  on_packet otherwise h tag (GamePacket.node_leave p) = (tag, otherwise (GamePacket.node_leave p))
  on_packet otherwise h tag (GamePacket.player_fire p) = (tag, forward (GamePacket.player_fire p))
  on_packet otherwise h tag (GamePacket.player_hit p) = (tag, forward (GamePacket.player_hit p))
  on_packet otherwise h tag (GamePacket.player_killed p) =
      (tag, forward (GamePacket.player_killed p))
  on_packet otherwise h tag GamePacket.server_query_req = (tag, reply (query_response h) ∷ [])
  on_packet otherwise h tag (GamePacket.lobby_join p) = on_join h tag p
  on_packet otherwise h tag (GamePacket.toggle_ready p) =
      (tag, enqueue (GamePacket.toggle_ready p) ∷ [])
  on_packet otherwise h tag (GamePacket.switch_team p) =
      (tag, enqueue (GamePacket.switch_team p) ∷ [])
  on_packet otherwise h tag GamePacket.start_match = (tag, enqueue GamePacket.start_match ∷ [])
  on_packet otherwise h tag GamePacket.keep_alive = (tag, enqueue GamePacket.keep_alive ∷ [])
  on_packet otherwise h tag (GamePacket.ping p) = (
    tag,
    reply (GamePacket.pong (record { timestamp = p.timestamp })) ∷ on_ping tag p.reported_ping,
  )
  on_packet otherwise h tag (GamePacket.pong p) = (tag, pong_received p.timestamp ∷ [])
  on_packet otherwise h tag (GamePacket.chat_message p) =
      (tag, enqueue (GamePacket.chat_message (stamped tag p)) ∷ [])
  on_packet otherwise h tag p = (tag, [])

  -- The packets of one connection, in their order.
  unfoldable pub run_session :
      (GamePacket F → List (Action F)) → HostInfo → Option ℕ → List (GamePacket F) → List (Action F)
  run_session otherwise h tag [] = []
  run_session otherwise h tag (p ∷ ps) =
      let (next, actions) = on_packet otherwise h tag p in
      actions ++ run_session otherwise h next ps
