-- ===== src/Lobby/Chat.antt =====
-- Chat on the way through a backend: what of a text is kept, how often a player may speak, who is
-- sent a message, and whether the host shows it. From src/GameBackend.cpp, and from `relayChat`,
-- `broadcast` and `sendToPlayer` of src/GameBackendLocal.cpp.
use gip_multiplayer.Base.{
  ℕ, Bool, true, false, ◌||◌, not, List, [], ◌∷◌, ◌++◌, Option, none, some, ltb, leb, ◌==◌, ◌!=◌,
  if◌then◌else◌, length, take,
}
use gip_multiplayer.Base.Dict.{lookup, insert}
use gip_multiplayer.Base.Text.{Text}
use gip_multiplayer.Lobby.{RoomPlayer, ChatMessage, Floats, chat_all, chat_team, chat_private}

abbrev pub max_text_length : ℕ
max_text_length = 200

unfoldable pub printable : Text → Text
printable [] = []
printable (c ∷ cs) = let rest = printable cs in if ltb c 32 || ltb 126 c then rest else c ∷ rest

-- The text that goes on to a screen.
unfoldable pub clean_text : Text → Text
clean_text t = take max_text_length (printable t)

unfoldable pub find_player : ℕ → List RoomPlayer → Option RoomPlayer
find_player id [] = none
find_player id (p ∷ ps) = if p.id == id then some p else find_player id ps

-- The loop of `shouldDisplayChat`, which goes on after a match: the last one counts.
unfoldable pub last_team : ℕ → List RoomPlayer → Option ℕ → Option ℕ
last_team id [] found = found
last_team id (p ∷ ps) found = last_team id ps (if p.id == id then some p.team else found)

abbrev same_team : Option ℕ → Option ℕ → Bool
same_team (some a) (some b) = a == b
same_team (some a) none = false
same_team none b = false

unfoldable pub should_display_chat : Bool → ℕ → List RoomPlayer → ChatMessage → Bool
should_display_chat is_server local_id ps m =
    if not is_server
    then true
    else if m.channel == chat_all
    then true
    else if m.channel == chat_team
    then same_team (last_team m.sender_id ps none) (last_team local_id ps none)
    else if m.channel == chat_private
    then m.target_id == local_id || m.sender_id == local_id
    else false

module _ (f : Floats) where
  open f use {F, older_than_second}

  unfoldable pub recent : F → List F → List F
  recent now [] = []
  recent now (t ∷ ts) =
      let rest = recent now ts in if older_than_second now t then rest else t ∷ rest

  abbrev pub stamps_of : ℕ → List (ℕ × List F) → List F
  stamps_of id m = elim (lookup id m) [ none ↦ [] | some ts ↦ ts ]

  -- At most three messages within a second; the stamps that are too old go in any case.
  unfoldable pub allow_chat_rate : F → ℕ → List (ℕ × List F) → List (ℕ × List F) × Bool
  allow_chat_rate now id m =
      let ts = recent now (stamps_of id m) in
      if leb 3 (length ts) then (insert id ts m, false) else (insert id (ts ++ (now ∷ [])) m, true)

-- A connection of the host, tagged with the player that joined over it.
pub record Session : Type 0 where
  pub connection : ℕ
  pub user_id : Option ℕ

unfoldable pub is_tagged : ℕ → Session → Bool
is_tagged id s = elim s.user_id [ none ↦ false | some u ↦ u == id ]

-- `broadcast(packet)`: the connections that it is sent on.
unfoldable pub broadcast : List Session → List ℕ
broadcast [] = []
broadcast (s ∷ ss) = s.connection ∷ broadcast ss

-- `sendToPlayer`: the first connection that carries the id, if any.
unfoldable pub send_to_player : ℕ → List Session → List ℕ
send_to_player id [] = []
send_to_player id (s ∷ ss) = if is_tagged id s then s.connection ∷ [] else send_to_player id ss

unfoldable pub send_to_team : ℕ → List RoomPlayer → List Session → List ℕ
send_to_team team [] ss = []
send_to_team team (p ∷ ps) ss =
    let rest = send_to_team team ps ss in
    if p.team == team then send_to_player p.id ss ++ rest else rest

-- `relayChat` of the host: the connections that a message goes out on.
unfoldable pub relay_chat : List RoomPlayer → List Session → ChatMessage → List ℕ
relay_chat ps ss m =
    if m.channel == chat_all
    then broadcast ss
    else if m.channel == chat_team
    then elim (find_player m.sender_id ps) [
      | none ↦ []
      | some sender ↦ send_to_team sender.team ps ss
    ]
    else if m.channel == chat_private
    then send_to_player m.target_id ss
      ++ (if m.sender_id != m.target_id then send_to_player m.sender_id ss else [])
    else []
