-- ===== src/Lobby/Honest.antt =====
-- What the host passes on of a chat packet, whoever claims to have sent it.
use gip_multiplayer.Base.{
  ◌≤◌, ◌<◌, ◌≡◌, refl, inl, inr, true, false, ◌&&◌, not, List, some, ◌==◌, length, All, arith,
  Bool-cases, Option-cases,
}
use gip_multiplayer.Lobby.{
  RoomPlayer, ChatMessage, Floats, Event, Backend, relayed, displayed, chat_private,
}
use gip_multiplayer.Lobby.Chat.{clean_text, find_player, allow_chat_rate, should_display_chat}
use gip_multiplayer.Lobby.Handler.{has_target, display, route_chat, handle_chat}
use gip_multiplayer.Lobby.Privacy.{Printable, clean_text_lem}

-- The message names its sender as the room does, and shows a short printable text.
pub record IsHonest (ps : List RoomPlayer) (m : ChatMessage) : Type 0 where
  pub sender : RoomPlayer
  pub present : find_player m.sender_id ps ≡ some sender
  pub named : m.sender_name ≡ sender.name
  pub shown : All Printable m.text
  pub bounded : length m.text ≤ 200
  pub spoken : 0 < length m.text
  pub addressed : (m.channel == chat_private && not (has_target m ps)) ≡ false

module _ {f : Floats} where
  -- Only honest messages leave the host, to the others or to its own screen.
  abbrev pub Passes : List RoomPlayer → Event f → Type 0
  Passes ps (relayed m) = IsHonest ps m
  Passes ps (displayed m) = IsHonest ps m
  Passes ps e = ⊥

  display-Passes :
      (m : ChatMessage) (s : Backend f)
      → IsHonest s.room_players m
      → All (Passes s.room_players) (display m s)
  display-Passes m s h =
      elim (Bool-cases (should_display_chat s.is_server s.local_id s.room_players m)) [
        | inl e ↦ rw e (h, tt)
        | inr e ↦ rw e tt
      ]

  route_chat-Passes :
      (now : f.F) (m : ChatMessage) (s : Backend f)
      → All Printable m.text
      → length m.text ≤ 200
      → 0 < length m.text
      → All (Passes s.room_players) (route_chat now m s).1
  unfolding route_chat
  route_chat-Passes now m s shown bounded spoken =
      elim (Option-cases (find_player m.sender_id s.room_players)) [
        | inl h ↦ rw (route_chat, h) tt
        | inr (p, h) ↦ elim (Bool-cases (allow_chat_rate f now m.sender_id s.chat_rate_stamps).1) [
          | inr flood ↦ rw (route_chat, h, flood) tt
          | inl calm ↦
              elim (Bool-cases (m.channel == chat_private && not (has_target m s.room_players))) [
                | inl lost ↦ rw (route_chat, h, calm, lost) tt
                | inr kept ↦
                    let honest : IsHonest s.room_players (record m { sender_name = p.name }) =
                      record {
                        sender = p;
                        present = h;
                        named = refl;
                        shown = shown;
                        bounded = bounded;
                        spoken = spoken;
                        addressed = kept;
                      } in
                    rw (route_chat, h, calm, kept)
                      (
                        honest,
                        display-Passes _
                            (record s {
                              chat_rate_stamps =
                                  (allow_chat_rate f now m.sender_id s.chat_rate_stamps).0;
                            })
                            honest,
                      )
              ]
        ]
      ]

  routes :
      (now : f.F) (m : ChatMessage) (s : Backend f)
      → s.is_server ≡ true
      → (length (clean_text m.text) == 0) ≡ false
      → handle_chat now m s ≡ route_chat now (record m { text = clean_text m.text }) s
  unfolding handle_chat
  routes now m s host spoken = simp (handle_chat, spoken, host)

  -- On the host, whatever chat packet arrives: each message that is relayed or displayed has a
  -- sender who is in the room, carries the name that the room has for that sender, is not empty, has
  -- at most two hundred characters, all printable, and, if private, has a target in the room.
  pub handle_chat-Passes :
      (now : f.F) (m : ChatMessage) (s : Backend f)
      → s.is_server ≡ true
      → All (Passes s.room_players) (handle_chat now m s).1
  unfolding handle_chat
  handle_chat-Passes now m s host =
      let (shown, bounded, _) = clean_text_lem m.text in
      elim (Bool-cases (length (clean_text m.text) == 0)) [
        | inl empty ↦ rw (handle_chat, empty) tt
        | inr spoken ↦ rw (routes now m s host spoken) (
            route_chat-Passes now (record m { text = clean_text m.text }) s shown bounded
              (ground arith))
      ]
