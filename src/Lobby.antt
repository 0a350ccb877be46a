-- ===== src/Lobby.antt =====
-- The room of a match: who is in it, and what its host and its clients keep of it. The types are
-- those of src/gipMultiplayerTypes.h, src/GamePackets.h and src/GameBackend.h.
pub mod Names
pub mod Timers
pub mod Silence
pub mod Chat
pub mod Handler
pub mod Room
pub mod Invariant
pub mod Balance
pub mod Privacy
pub mod Honest
use gip_multiplayer.Base.{ℕ, Bool, List, Option}
use gip_multiplayer.Base.Text.{Text}

pub record RoomPlayer : Type 0 where
  pub id : ℕ
  pub name : Text
  pub team : ℕ
  pub is_ready : Bool

abbrev pub chat_all : ℕ
chat_all = 0

abbrev pub chat_team : ℕ
chat_team = 1

abbrev pub chat_private : ℕ
chat_private = 2

pub record ChatMessage : Type 0 where
  pub sender_id : ℕ
  pub target_id : ℕ
  pub channel : ℕ
  pub sender_name : Text
  pub text : Text

-- Floats are only moved here, but for the age of a chat stamp: `now - t > 1.0f`.
pub record Floats : Type 1 where
  pub F : Type 0
  pub zero : F
  pub older_than_second : F → F → Bool

pub record NodeState (f : Floats) : Type 0 where
  pub net_id : ℕ
  pub x : f.F
  pub y : f.F
  pub z : f.F
  pub yaw : f.F
  pub team : ℕ
  pub anim_state : ℕ

-- `NetNode`, without the scene node, which the engine draws.
pub record NetNode (f : Floats) : Type 0 where
  pub local : Bool
  pub team : ℕ
  pub target_x : f.F
  pub target_y : f.F
  pub target_z : f.F
  pub target_yaw : f.F
  pub target_anim_state : ℕ
  pub local_yaw : f.F
  pub local_anim_state : ℕ

-- The packets that reach `onPacketReceived`. The parallel vectors of a lobby state and of a ping
-- snapshot, which their deserializers fill row by row, are lists of rows.
pub data Packet (f : Floats) : Type 0 where
  keep_alive : Packet f
  node_leave : ℕ → Packet f
  player_fire : ℕ → ℕ → List f.F → Packet f
  player_hit : ℕ → ℕ → f.F → Packet f
  player_killed : ℕ → ℕ → Packet f
  ping_snapshot : List (ℕ × ℕ) → Packet f
  node_state : NodeState f → Packet f
  chat : ChatMessage → Packet f
  lobby_state : List RoomPlayer → Text → Packet f
  start_match : Packet f
  lobby_kick : Text → Packet f
  lobby_join : ℕ → Text → Packet f
  toggle_ready : ℕ → Packet f
  switch_team : ℕ → ℕ → Packet f
  unknown : Packet f

-- What a handler does outside the backend, in order.
pub data Event (f : Floats) : Type 0 where
  left : ℕ → Event f
  joined : ℕ → Event f
  fired : ℕ → ℕ → List f.F → Event f
  hit : ℕ → ℕ → f.F → Event f
  killed : ℕ → ℕ → Event f
  team_changed : ℕ → ℕ → Event f
  relayed : ChatMessage → Event f
  displayed : ChatMessage → Event f
  broadcast_lobby_state : List RoomPlayer → Event f
  lobby_updated : List RoomPlayer → Event f
  match_started : Event f
  kicked : Text → Event f

pub record Backend (f : Floats) : Type 0 where
  pub is_server : Bool
  pub local_id : ℕ
  pub room_players : List RoomPlayer
  pub player_count : ℕ
  pub chat_rate_stamps : List (ℕ × List f.F)
  pub nodes : List (ℕ × NetNode f)
  pub remote_pings : List (ℕ × ℕ)
  pub match_in_progress : Bool
  pub room_code : Text
  pub time_since_last_keep_alive : f.F
