-- ===== src/Lobby/Handler.antt =====
-- `onPacketReceived` of src/GameBackend.cpp, one function for each kind of packet.
use gip_multiplayer.Base.{
  ℕ, ◌*◌, ◌%◌, ◌^◌, Bool, true, false, ◌&&◌, not, List, [], ◌∷◌, ◌++◌, Option, none, some, leb,
  ◌==◌, ◌!=◌, if◌then◌else◌, length,
}
use gip_multiplayer.Base.Dict.{lookup, insert, update, erase}
use gip_multiplayer.Base.Text.{Text}
use gip_multiplayer.Lobby.{
  RoomPlayer, ChatMessage, Floats, NodeState, NetNode, Packet, keep_alive, node_leave, player_fire,
  player_hit, player_killed, ping_snapshot, node_state, chat, lobby_state, start_match, lobby_kick,
  lobby_join, toggle_ready, switch_team, unknown, Event, left, joined, fired, hit, killed,
  team_changed, relayed, displayed, broadcast_lobby_state, lobby_updated, match_started, kicked,
  Backend, chat_private,
}
use gip_multiplayer.Lobby.Names.{balanced_team, final_name}
use gip_multiplayer.Lobby.Chat.{
  Session, send_to_player, clean_text, find_player, should_display_chat, allow_chat_rate,
}

unfoldable pub remove_player : ℕ → List RoomPlayer → List RoomPlayer
remove_player id [] = []
remove_player id (p ∷ ps) = if p.id == id then ps else p ∷ remove_player id ps

unfoldable pub toggle_player : ℕ → List RoomPlayer → List RoomPlayer
toggle_player id [] = []
toggle_player id (p ∷ ps) =
    if p.id == id then record p { is_ready = not p.is_ready } ∷ ps else p ∷ toggle_player id ps

unfoldable pub set_team : ℕ → ℕ → List RoomPlayer → List RoomPlayer
set_team id team [] = []
set_team id team (p ∷ ps) =
    if p.id == id then record p { team = team } ∷ ps else p ∷ set_team id team ps

unfoldable pub all_ready : List RoomPlayer → List RoomPlayer
all_ready [] = []
all_ready (p ∷ ps) = record p { is_ready = true } ∷ all_ready ps

-- The player that a join adds. `none` would be a name search without end; see Lobby/Names.
abbrev pub new_player : ℕ → Text → List RoomPlayer → Option RoomPlayer
new_player id name ps = elim (final_name name ps) [
  | none ↦ none
  | some n ↦ some (record { id = id; name = n; team = balanced_team ps; is_ready = false })
]

unfoldable pub fill_pings : List (ℕ × ℕ) → List (ℕ × ℕ) → List (ℕ × ℕ)
fill_pings [] m = m
fill_pings ((id, ping) ∷ rows) m = fill_pings rows (insert id ping m)

abbrev pub has_target : ChatMessage → List RoomPlayer → Bool
has_target m ps = elim (find_player m.target_id ps) [ none ↦ false | some _ ↦ true ]

-- The `remove_if` of `kickPlayer`: every entry with the id goes.
unfoldable pub remove_all : ℕ → List RoomPlayer → List RoomPlayer
remove_all id [] = []
remove_all id (p ∷ ps) = let rest = remove_all id ps in if p.id == id then rest else p ∷ rest

module _ {f : Floats} where
  -- `publishPlayerCount`, after the list was set.
  abbrev pub set_players : List RoomPlayer → Backend f → Backend f
  set_players ps s = record s { room_players = ps; player_count = length ps % 2 ^ 32 }

  abbrev announce : Backend f → Backend f × List (Event f)
  announce s = (s, broadcast_lobby_state s.room_players ∷ [])

  unfoldable pub handle_leave : ℕ → Backend f → Backend f × List (Event f)
  handle_leave id s = elim (find_player id s.room_players) [
    | none ↦ (s, left id ∷ [])
    | some p ↦
        let s' : Backend f = record (set_players (remove_player id s.room_players) s) {
          chat_rate_stamps = erase id s.chat_rate_stamps;
        } in
        (s', left id ∷ broadcast_lobby_state s'.room_players ∷ [])
  ]

  -- `teamSize` is the lobby's, which the network manager keeps.
  unfoldable pub handle_join : ℕ → ℕ → Text → Backend f → Backend f × List (Event f)
  handle_join team_size id name s = elim (find_player id s.room_players) [
    | some p ↦ announce s
    | none ↦
        if leb (team_size * 2) (length s.room_players)
        then (s, [])
        else elim (new_player id name s.room_players) [
          | none ↦ (s, [])
          | some p ↦ announce (set_players (s.room_players ++ (p ∷ [])) s)
        ]
  ]

  unfoldable pub handle_start : Backend f → Backend f × List (Event f)
  handle_start s =
      if s.is_server
      then (
        record s { match_in_progress = true; room_players = all_ready s.room_players },
        broadcast_lobby_state (all_ready s.room_players) ∷ match_started ∷ [],
      )
      else (record s { match_in_progress = true }, match_started ∷ [])

  -- `onjoin` is the callback that attaches a node for an id that was not known.
  unfoldable pub handle_node_state :
      (ℕ → Backend f → Backend f) → NodeState f → Backend f → Backend f × List (Event f)
  handle_node_state onjoin n s =
      let known : Bool = elim (lookup n.net_id s.nodes) [ none ↦ false | some _ ↦ true ] in
      let s1 : Backend f = if known then s else onjoin n.net_id s in
      let events : List (Event f) = if known then [] else joined n.net_id ∷ [] in
      elim (lookup n.net_id s1.nodes) [
        | none ↦ (s1, events)
        | some e ↦
            if e.local
            then (s1, events)
            else let e' : NetNode f = record e {
              team = n.team;
              target_x = n.x;
              target_y = n.y;
              target_z = n.z;
              target_yaw = n.yaw;
              target_anim_state = n.anim_state;
            } in
              let s2 : Backend f = record s1 { nodes = update n.net_id e' s1.nodes } in
              if e.team != n.team
              then (s2, events ++ (team_changed n.net_id n.team ∷ []))
              else (s2, events)
      ]

  -- What is left to do with a message once it may be shown.
  abbrev pub display : ChatMessage → Backend f → List (Event f)
  display m s =
      if should_display_chat s.is_server s.local_id s.room_players m then displayed m ∷ [] else []

  unfoldable pub route_chat : f.F → ChatMessage → Backend f → Backend f × List (Event f)
  route_chat now m s = elim (find_player m.sender_id s.room_players) [
    | none ↦ (s, [])
    | some sender ↦
        let (stamps, allowed) = allow_chat_rate f now m.sender_id s.chat_rate_stamps in
        let s' : Backend f = record s { chat_rate_stamps = stamps } in
        if not allowed
        then (s', [])
        else if m.channel == chat_private && not (has_target m s.room_players)
        then (s', [])
        else let m' : ChatMessage = record m { sender_name = sender.name } in
          (s', relayed m' ∷ display m' s')
  ]

  unfoldable pub handle_chat : f.F → ChatMessage → Backend f → Backend f × List (Event f)
  handle_chat now m s =
      let m' : ChatMessage = record m { text = clean_text m.text } in
      if length m'.text == 0
      then (s, [])
      else if s.is_server
      then route_chat now m' s
      else (s, display m' s)

  abbrev dispatch :
      f.F → ℕ → (ℕ → Backend f → Backend f) → Packet f → Backend f → Backend f × List (Event f)
  dispatch now team_size onjoin keep_alive s = (s, [])
  dispatch now team_size onjoin (node_leave id) s = handle_leave id s
  dispatch now team_size onjoin (player_fire shooter gun v) s = (s, fired shooter gun v ∷ [])
  dispatch now team_size onjoin (player_hit a v damage) s = (s, hit a v damage ∷ [])
  dispatch now team_size onjoin (player_killed k v) s = (s, killed k v ∷ [])
  dispatch now team_size onjoin (ping_snapshot rows) s =
      (record s { remote_pings = fill_pings rows [] }, [])
  dispatch now team_size onjoin (node_state n) s = handle_node_state onjoin n s
  dispatch now team_size onjoin (chat m) s = handle_chat now m s
  dispatch now team_size onjoin (lobby_state ps code) s =
      (record (set_players ps s) { room_code = code }, lobby_updated ps ∷ [])
  dispatch now team_size onjoin start_match s = handle_start s
  dispatch now team_size onjoin (lobby_kick reason) s = (s, kicked reason ∷ [])
  dispatch now team_size onjoin (lobby_join id name) s = handle_join team_size id name s
  dispatch now team_size onjoin (toggle_ready id) s =
      announce (record s { room_players = toggle_player id s.room_players })
  dispatch now team_size onjoin (switch_team id team) s =
      announce (record s { room_players = set_team id team s.room_players })
  dispatch now team_size onjoin unknown s = (s, [])

  -- Any packet proves that the peer is alive.
  unfoldable pub on_packet_received :
      f.F → ℕ → (ℕ → Backend f → Backend f) → Packet f → Backend f → Backend f × List (Event f)
  on_packet_received now team_size onjoin p s =
      dispatch now team_size onjoin p (record s { time_since_last_keep_alive = f.zero })

  -- The room part of `kickPlayer` of the host, in src/GameBackendLocal.cpp.
  unfoldable pub kick_player : ℕ → Backend f → Backend f × List (Event f)
  kick_player id s = elim (find_player id s.room_players) [
    | none ↦ (s, [])
    | some p ↦ announce (set_players (remove_all id s.room_players) s)
  ]

  -- `kickPlayer`: the connection that the kick packet goes out on, if any is tagged with the player,
  -- whether or not the player is in the room; then the room.
  unfoldable pub kick : List Session → ℕ → Backend f → List ℕ × (Backend f × List (Event f))
  kick ss id s = (send_to_player id ss, kick_player id s)
