-- ===== src/Lobby/Invariant.antt =====
-- The room that the packets build: nobody is in it twice, no two have one name, it is not over-full,
-- and the published count is its size. About src/GameBackend.cpp and src/GameBackendLocal.cpp.
use gip_multiplayer.Base.{
  ℕ, ◌*◌, ◌%◌, ◌^◌, ◌≤◌, ◌≡◌, refl, inl, inr, Bool, true, false, List, [], ◌∷◌, none, leb, length,
  length-append, arith, Bool-cases, Option-cases,
}
use gip_multiplayer.Base.Text.{Text}
use gip_multiplayer.Lobby.{
  RoomPlayer, Floats, NodeState, Packet, keep_alive, node_leave, player_fire, player_hit,
  player_killed, ping_snapshot, node_state, chat, ChatMessage, lobby_state, start_match, lobby_kick,
  lobby_join, toggle_ready, switch_team, unknown, Backend,
}
use gip_multiplayer.Lobby.Names.{balanced_team, final_name_lem}
use gip_multiplayer.Lobby.Chat.{find_player}
use gip_multiplayer.Lobby.Handler.{
  remove_player, toggle_player, set_team, all_ready, remove_all, handle_leave, handle_join,
  handle_start, handle_node_state, route_chat, handle_chat, on_packet_received, kick_player,
}
use gip_multiplayer.Lobby.Room.{
  Distinct, Distinct-toggle, Distinct-set_team, Distinct-all_ready, Distinct-remove,
  Distinct-remove_all, Distinct-append, length-toggle, length-set_team, length-all_ready,
  length-remove, length-remove_all,
}

-- Packets that a host builds the room from; a lobby state replaces the room of a client.
unfoldable pub is_snapshot : {f : Floats} → Packet f → Bool
is_snapshot (lobby_state ps code) = true
is_snapshot p = false

find_player-remove_all : (id : ℕ) (ps : List RoomPlayer) → find_player id (remove_all id ps) ≡ none
unfolding find_player remove_all
find_player-remove_all id [] = refl
find_player-remove_all id (p ∷ ps) = ground (arith, find_player-remove_all id ps)

module _ {f : Floats} where
  pub record IsValid (team_size : ℕ) (s : Backend f) : Type 0 where
    pub distinct : Distinct s.room_players
    pub bounded : length s.room_players ≤ team_size * 2
    pub counted : s.player_count ≡ length s.room_players % 2 ^ 32

  -- The room part of a state is all that the invariant reads.
  abbrev SameRoom : Backend f → Backend f → Type 0
  SameRoom s t = (t.room_players ≡ s.room_players) × (t.player_count ≡ s.player_count)

  same_room : (n : ℕ) (s t : Backend f) → SameRoom s t → IsValid n s → IsValid n t
  same_room n s t e v = record {
    distinct = rw e.0 v.distinct;
    bounded = rw e.0 v.bounded;
    counted = rw (e.0, e.1) v.counted;
  }

  -- An edit of the list that keeps it distinct and does not lengthen it, once the count is published.
  shrunk :
      (n : ℕ) (ps : List RoomPlayer) (s t : Backend f)
      → t.room_players ≡ ps
      → t.player_count ≡ length ps % 2 ^ 32
      → Distinct ps
      → length ps ≤ length s.room_players
      → IsValid n s
      → IsValid n t
  shrunk n ps s t e c d l v = record {
    distinct = rw e d;
    bounded = rw e (let b = v.bounded in omega arith);
    counted = rw e c;
  }

  leave-IsValid : (n id : ℕ) (s : Backend f) → IsValid n s → IsValid n (handle_leave id s).0
  unfolding handle_leave
  leave-IsValid n id s v = elim (Option-cases (find_player id s.room_players)) [
    | inl h ↦ rw (handle_leave, h) v
    | inr (p, h) ↦
        rw (handle_leave, h)
          (shrunk n (remove_player id s.room_players) s _ refl refl
            (Distinct-remove id s.room_players v.distinct) (length-remove id s.room_players) v)
  ]

  kept :
      (n : ℕ) (ps : List RoomPlayer) (s t : Backend f)
      → t.room_players ≡ ps
      → t.player_count ≡ s.player_count
      → Distinct ps
      → length ps ≡ length s.room_players
      → IsValid n s
      → IsValid n t
  kept n ps s t e c d l v = shrunk n ps s t e (rw (c, l) v.counted) d (omega arith) v

  start-IsValid : (n : ℕ) (s : Backend f) → IsValid n s → IsValid n (handle_start s).0
  unfolding handle_start
  start-IsValid n s v = elim (Bool-cases s.is_server) [
    | inl h ↦ rw h (
        kept n (all_ready s.room_players) s _ refl refl
          (Distinct-all_ready s.room_players v.distinct) (length-all_ready s.room_players) v)
    | inr h ↦ rw h (same_room n s _ (refl, refl) v)
  ]

  join-IsValid :
      (n id : ℕ) (name : Text) (s : Backend f) → IsValid n s → IsValid n (handle_join n id name s).0
  unfolding handle_join
  join-IsValid n id name s v = elim (Option-cases (find_player id s.room_players)) [
    | inr (p, h) ↦ rw (handle_join, h) v
    | inl h ↦ elim (Bool-cases (leb (n * 2) (length s.room_players))) [
      | inl full ↦ rw (handle_join, h, full) v
      | inr room ↦
          let (fresh, r, free) = final_name_lem name s.room_players in
          let p : RoomPlayer = record {
            id = id;
            name = fresh;
            team = balanced_team s.room_players;
            is_ready = false;
          } in
          let d = Distinct-append s.room_players p h free v.distinct in
          rw (handle_join, h, room, r)
            record {
              distinct = d;
              bounded = ground (arith, length-append s.room_players (p ∷ []));
              counted = refl;
            }
    ]
  ]

  node_state-SameRoom :
      (onjoin : ℕ → Backend f → Backend f) (n : NodeState f) (s : Backend f)
      → ((id : ℕ) (t : Backend f) → SameRoom t (onjoin id t))
      → SameRoom s (handle_node_state onjoin n s).0
  unfolding handle_node_state
  node_state-SameRoom onjoin n s h = ground (arith, h n.net_id s)

  chat-SameRoom : (now : f.F) (m : ChatMessage) (s : Backend f) → SameRoom s (handle_chat now m s).0
  unfolding handle_chat route_chat
  chat-SameRoom now m s = ground arith

  -- Whatever packet arrives at a room whose players have different ids and names, that is within
  -- the size of two teams, and whose published count is its size, leaves it so, unless it is
  -- another host's lobby state; a callback for a new node must leave the room alone.
  pub on_packet_received-IsValid :
      (now : f.F) (n : ℕ) (onjoin : ℕ → Backend f → Backend f) (p : Packet f) (s : Backend f)
      → is_snapshot p ≡ false
      → ((id : ℕ) (t : Backend f) → SameRoom t (onjoin id t))
      → IsValid n s
      → IsValid n (on_packet_received now n onjoin p s).0
  unfolding on_packet_received is_snapshot
  on_packet_received-IsValid now n onjoin p s q h v = go p q (same_room n s _ (refl, refl) v)
    where
      alive : Backend f
      alive = record s { time_since_last_keep_alive = f.zero }

      go :
          (p : Packet f)
          → is_snapshot p ≡ false
          → IsValid n alive
          → IsValid n (on_packet_received now n onjoin p s).0
      go keep_alive q v = v
      go (node_leave id) q v = leave-IsValid n id alive v
      go (player_fire a g xs) q v = v
      go (player_hit a b x) q v = v
      go (player_killed a b) q v = v
      go (ping_snapshot rows) q v = same_room n alive _ (refl, refl) v
      go (node_state m) q v = same_room n alive _ (node_state-SameRoom onjoin m alive h) v
      go (chat m) q v = same_room n alive _ (chat-SameRoom now m alive) v
      go (lobby_state ps code) q v = absurd (cc)
      go start_match q v = start-IsValid n alive v
      go (lobby_kick reason) q v = v
      go (lobby_join id name) q v = join-IsValid n id name alive v
      go (toggle_ready id) q v =
          kept n (toggle_player id s.room_players) alive _ refl refl
            (Distinct-toggle id s.room_players v.distinct) (length-toggle id s.room_players) v
      go (switch_team id team) q v =
          kept n (set_team id team s.room_players) alive _ refl refl
            (Distinct-set_team id team s.room_players v.distinct)
            (length-set_team id team s.room_players) v
      go unknown q v = v

  -- Kicking a player keeps the room valid, and nobody with the kicked id is left in it.
  pub kick_player-IsValid :
      (n id : ℕ) (s : Backend f)
      → IsValid n s
      → IsValid n (kick_player id s).0 × (find_player id (kick_player id s).0.room_players ≡ none)
  unfolding kick_player
  kick_player-IsValid n id s v = elim (Option-cases (find_player id s.room_players)) [
    | inl h ↦ rw (kick_player, h) (v, h)
    | inr (p, h) ↦
        rw (kick_player, h)
          (
            shrunk n (remove_all id s.room_players) s _ refl refl
                (Distinct-remove_all id s.room_players v.distinct)
                (length-remove_all id s.room_players) v,
            find_player-remove_all id s.room_players,
          )
  ]
