-- ===== src/Tests/Chat.antt =====
-- A short session of chat, with whole seconds for ages, and a login on the wire.
use gip_multiplayer.Base.{ℕ, ◌+◌, ◌≡◌, refl, true, false, List, [], ◌∷◌, some, arith}
use gip_multiplayer.Chat.{ChatManager, ChatStep, local_line, arrival, mute, frame, run}
use gip_multiplayer.Chat.History.{Bounded, run-Bounded}
use gip_multiplayer.Wire.Bytes.{Unread}
use gip_multiplayer.Wire.StreamBytes.{bytes_stream, bytes_stream_laws}
use gip_multiplayer.Master.{MasterPacket, master_packet_id}
use gip_multiplayer.Master.Serial.{put_message, get_message, put_user_login}
use gip_multiplayer.Master.RoundTrip.{get-put_message}

abbrev quiet : ChatManager ℕ
quiet = record { history = []; muted = [] }

abbrev talk : List (ChatStep ℕ)
talk =
    local_line 3 (72 ∷ [])
    ∷ mute 8 true
    ∷ arrival 0 8 (66 ∷ []) (72 ∷ [])
    ∷ arrival 0 7 (65 ∷ []) (72 ∷ [])
    ∷ frame (λ n. n + 1)
    ∷ []

run-Bounded_example : Bounded (run 0 talk quiet)
run-Bounded_example = run-Bounded 0 talk quiet (omega arith)

abbrev unwritten : Unread
unwritten = record { unread = []; bad = false }

abbrev login_message : MasterPacket
login_message = MasterPacket.user_login (record { email = 97 ∷ 64 ∷ 98 ∷ []; password = 120 ∷ [] })

get-put_message_example :
    get_message bytes_stream
      (master_packet_id login_message)
      (put_message bytes_stream login_message unwritten)
    ≡ some login_message
unfolding put_message put_user_login
get-put_message_example =
    get-put_message bytes_stream bytes_stream_laws login_message unwritten
      (omega arith, omega arith) refl refl
