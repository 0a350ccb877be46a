-- ===== src/Chat.antt =====
-- The text chat of a client, `ChatManager` of src/chat/ChatManager.h and .cpp: its history, its mute
-- list, and the path of a message that is sent.
pub mod History
use gip_multiplayer.Base.{
  ℕ, ◌+◌, ◌-◌, ◌<◌, Bool, true, false, ◌&&◌, ◌||◌, not, List, [], ◌∷◌, ◌++◌, Option, none, some,
  ltb, ◌==◌, ◌!=◌, if◌then◌else◌, length, take, drop,
}
use gip_multiplayer.Base.Text.{Text}
use gip_multiplayer.Lobby.{ChatMessage, chat_all, chat_team, chat_private}
use gip_multiplayer.Lobby.Chat.{max_text_length}

abbrev pub max_history : ℕ
max_history = 100

module _ (F : Type 0) where
  pub record ChatEntry : Type 0 where
    pub channel : ℕ
    pub sender_id : ℕ
    pub sender_name : Text
    pub text : Text
    pub age : F

  -- The mute list is a set: a list of ids in any order.
  pub record ChatManager : Type 0 where
    pub history : List ChatEntry
    pub muted : List ℕ

  -- A session of chat, as the steps that the game and the backend make.
  pub data ChatStep : Type 0 where
    local_line : ℕ → Text → ChatStep
    arrival : ℕ → ℕ → Text → Text → ChatStep
    mute : ℕ → Bool → ChatStep
    frame : (F → F) → ChatStep
    leave : ChatStep

-- Where `send` puts a message: into the host's own queue, or on the way to the host.
pub data Sent : Type 0 where
  enqueued : ChatMessage → Sent
  sent : ChatMessage → Sent

-- Nothing is sent on a channel that is only local, without text, or without a backend.
unfoldable pub send : Bool → Bool → ℕ → ℕ → Text → ℕ → Option Sent
send has_backend is_host local_id channel text target =
    if channel != chat_all && (channel != chat_team && channel != chat_private)
    then none
    else if length text == 0
    then none
    else if not has_backend
    then none
    else let m : ChatMessage = record {
      sender_id = local_id;
      target_id = if channel == chat_private then target else 0;
      channel = channel;
      sender_name = [];
      text = take max_text_length text;
    } in
      if is_host then some (enqueued m) else some (sent m)

unfoldable pub is_member : ℕ → List ℕ → Bool
is_member id [] = false
is_member id (m ∷ ms) = m == id || is_member id ms

-- `unordered_set::erase`.
unfoldable pub unmute : ℕ → List ℕ → List ℕ
unmute id [] = []
unmute id (m ∷ ms) = let rest = unmute id ms in if m == id then rest else m ∷ rest

module _ {F : Type 0} where
  -- The oldest entries go once there are more than `max_history`.
  unfoldable pub append : ChatEntry F → ChatManager F → ChatManager F
  append e c =
      let all : List (ChatEntry F) = c.history ++ (e ∷ []) in
      record c {
        history = if ltb max_history (length all) then drop (length all - max_history) all else all;
      }

  unfoldable pub is_muted_text : ℕ → ChatManager F → Bool
  is_muted_text id c = is_member id c.muted

  -- `zero` is the age of a new entry.
  unfoldable pub add_local : F → ℕ → Text → ChatManager F → ChatManager F
  add_local zero channel text c =
      if length text == 0
      then c
      else append
          (record {
            channel = channel;
            sender_id = 0;
            sender_name = [];
            text = take max_text_length text;
            age = zero;
          })
          c

  unfoldable pub receive : F → ℕ → ℕ → Text → Text → ChatManager F → ChatManager F
  receive zero channel sender_id sender_name text c =
      if is_muted_text sender_id c
      then c
      else append
          (record {
            channel = channel;
            sender_id = sender_id;
            sender_name = sender_name;
            text = text;
            age = zero;
          })
          c

  unfoldable pub set_muted_text : ℕ → Bool → ChatManager F → ChatManager F
  set_muted_text id flag c =
      if flag
      then if is_member id c.muted then c else record c { muted = id ∷ c.muted }
      else record c { muted = unmute id c.muted }

  unfoldable pub grow_older : (F → F) → List (ChatEntry F) → List (ChatEntry F)
  grow_older add [] = []
  grow_older add (e ∷ es) = record e { age = add e.age } ∷ grow_older add es

  -- `add` adds the time of a frame.
  unfoldable pub update_ages : (F → F) → ChatManager F → ChatManager F
  update_ages add c = record c { history = grow_older add c.history }

  unfoldable pub clear : ChatManager F → ChatManager F
  clear c = record c { history = [] }

  unfoldable pub step : F → ChatStep F → ChatManager F → ChatManager F
  step zero (local_line channel text) c = add_local zero channel text c
  step zero (arrival channel id name text) c = receive zero channel id name text c
  step zero (mute id flag) c = set_muted_text id flag c
  step zero (frame add) c = update_ages add c
  step zero leave c = clear c

  unfoldable pub run : F → List (ChatStep F) → ChatManager F → ChatManager F
  run zero [] c = c
  run zero (x ∷ xs) c = run zero xs (step zero x c)
