-- ===== src/Game/MessageFields.antt =====
-- The layout of chat messages and of the rows of counted lists, and that reading takes what was written.
use gip_multiplayer.Base.{ℕ, ◌^◌, ◌<◌, ◌≡◌, ◌∙◌, false, List, ◌++◌, append_assoc, length}
use gip_multiplayer.Wire.Chain.{Wrote, Wrote-then, Took}
use gip_multiplayer.Wire.Values.{Stream, StreamLaws}
use gip_multiplayer.Lobby.{ChatMessage}
use gip_multiplayer.Game.{PlayerRow, PingRow}
use gip_multiplayer.Game.Room.{
  put_chat_message, get_chat_message, put_player_row, get_player_row, put_ping_row, get_ping_row,
}

module _ (s : Stream) (ls : StreamLaws s) where
  open s use {io, F}
  open io use {Buf}
  open ls use {
    laws, float_bytes, string_bytes, bool_bytes, write_float-Wrote, write_string-Wrote,
    write_bool-Wrote, read_float-Took, read_string-Took, read_bool-Took,
  }
  open laws use {contents, failed, bytes}

  unfoldable pub encode_chat_message : ChatMessage → List ℕ
  encode_chat_message p =
      bytes 4 p.sender_id
      ++ (bytes 4 p.target_id
          ++ (bytes 1 p.channel ++ (string_bytes p.sender_name ++ (string_bytes p.text))))

  abbrev pub ChatMessageFits : ChatMessage → Type 0
  ChatMessageFits p =
      (p.sender_id < 2 ^ 32)
      × (p.target_id < 2 ^ 32)
      × (p.channel < 2 ^ 8)
      × (length p.sender_name < 2 ^ 32)
      × (length p.text < 2 ^ 32)

  pub put_chat_message-Wrote :
      (p : ChatMessage) (b : Buf) → Wrote io laws b (put_chat_message s p b) (encode_chat_message p)
  unfolding put_chat_message encode_chat_message
  put_chat_message-Wrote p b = Wrote-then io laws _ _ _ _ _ (laws.write_int-Wrote 4 p.sender_id b) (
      Wrote-then io laws _ _ _ _ _ (laws.write_int-Wrote 4 p.target_id _) (
        Wrote-then io laws _ _ _ _ _ (laws.write_int-Wrote 1 p.channel _) (
          Wrote-then io laws _ _ _ _ _ (write_string-Wrote p.sender_name _)
            (write_string-Wrote p.text _))))

  pub get_chat_message-Took :
      (p : ChatMessage) (rest : List ℕ) (b : Buf)
      → ChatMessageFits p
      → failed b ≡ false
      → contents b ≡ encode_chat_message p ++ rest
      → Took io laws (get_chat_message s b) p rest
  unfolding get_chat_message encode_chat_message
  get_chat_message-Took p rest b fits g e =
      let t1 = laws.read_int-Took 4 p.sender_id _ _ fits.0 g (
        e
        ∙ append_assoc (bytes 4 p.sender_id)
            (bytes 4 p.target_id
              ++ (bytes 1 p.channel ++ (string_bytes p.sender_name ++ (string_bytes p.text))))
            rest) in
      let t2 = laws.read_int-Took 4 p.target_id _ _ fits.1 t1.2 (
        t1.1
        ∙ append_assoc (bytes 4 p.target_id)
            (bytes 1 p.channel ++ (string_bytes p.sender_name ++ (string_bytes p.text))) rest) in
      let t3 = laws.read_int-Took 1 p.channel _ _ fits.2 t2.2 (
        t2.1
        ∙ append_assoc (bytes 1 p.channel) (string_bytes p.sender_name ++ (string_bytes p.text))
            rest) in
      let t4 =
        read_string-Took p.sender_name _ _ fits.3 t3.2
          (t3.1 ∙ append_assoc (string_bytes p.sender_name) (string_bytes p.text) rest) in
      let t5 = read_string-Took p.text _ _ fits.4 t4.2 t4.1 in
      (
        λ i. record {
          sender_id = t1.0 i;
          target_id = t2.0 i;
          channel = t3.0 i;
          sender_name = t4.0 i;
          text = t5.0 i;
        },
        t5.1,
        t5.2,
      )

  unfoldable pub encode_player_row : PlayerRow → List ℕ
  encode_player_row p =
      bytes 4 p.id ++ (string_bytes p.name ++ (bytes 1 p.team ++ (bytes 1 p.ready)))

  abbrev pub PlayerRowFits : PlayerRow → Type 0
  PlayerRowFits p =
      (p.id < 2 ^ 32) × (length p.name < 2 ^ 32) × (p.team < 2 ^ 8) × (p.ready < 2 ^ 8)

  pub put_player_row-Wrote :
      (p : PlayerRow) (b : Buf) → Wrote io laws b (put_player_row s p b) (encode_player_row p)
  unfolding put_player_row encode_player_row
  put_player_row-Wrote p b = Wrote-then io laws _ _ _ _ _ (laws.write_int-Wrote 4 p.id b) (
      Wrote-then io laws _ _ _ _ _ (write_string-Wrote p.name _) (
        Wrote-then io laws _ _ _ _ _ (laws.write_int-Wrote 1 p.team _)
          (laws.write_int-Wrote 1 p.ready _)))

  pub get_player_row-Took :
      (p : PlayerRow) (rest : List ℕ) (b : Buf)
      → PlayerRowFits p
      → failed b ≡ false
      → contents b ≡ encode_player_row p ++ rest
      → Took io laws (get_player_row s b) p rest
  unfolding get_player_row encode_player_row
  get_player_row-Took p rest b fits g e =
      let t1 = laws.read_int-Took 4 p.id _ _ fits.0 g (
        e
        ∙ append_assoc (bytes 4 p.id) (string_bytes p.name ++ (bytes 1 p.team ++ (bytes 1 p.ready)))
            rest) in
      let t2 =
        read_string-Took p.name _ _ fits.1 t1.2
          (t1.1 ∙ append_assoc (string_bytes p.name) (bytes 1 p.team ++ (bytes 1 p.ready)) rest) in
      let t3 =
        laws.read_int-Took 1 p.team _ _ fits.2 t2.2
          (t2.1 ∙ append_assoc (bytes 1 p.team) (bytes 1 p.ready) rest) in
      let t4 = laws.read_int-Took 1 p.ready _ _ fits.3 t3.2 t3.1 in
      (λ i. record { id = t1.0 i; name = t2.0 i; team = t3.0 i; ready = t4.0 i }, t4.1, t4.2)

  unfoldable pub encode_ping_row : PingRow → List ℕ
  encode_ping_row p = bytes 4 p.id ++ (bytes 4 p.ping)

  abbrev pub PingRowFits : PingRow → Type 0
  PingRowFits p = (p.id < 2 ^ 32) × (p.ping < 2 ^ 32)

  pub put_ping_row-Wrote :
      (p : PingRow) (b : Buf) → Wrote io laws b (put_ping_row s p b) (encode_ping_row p)
  unfolding put_ping_row encode_ping_row
  put_ping_row-Wrote p b =
      Wrote-then io laws _ _ _ _ _ (laws.write_int-Wrote 4 p.id b) (laws.write_int-Wrote 4 p.ping _)

  pub get_ping_row-Took :
      (p : PingRow) (rest : List ℕ) (b : Buf)
      → PingRowFits p
      → failed b ≡ false
      → contents b ≡ encode_ping_row p ++ rest
      → Took io laws (get_ping_row s b) p rest
  unfolding get_ping_row encode_ping_row
  get_ping_row-Took p rest b fits g e =
      let t1 =
        laws.read_int-Took 4 p.id _ _ fits.0 g
          (e ∙ append_assoc (bytes 4 p.id) (bytes 4 p.ping) rest) in
      let t2 = laws.read_int-Took 4 p.ping _ _ fits.1 t1.2 t1.1 in
      (λ i. record { id = t1.0 i; ping = t2.0 i }, t2.1, t2.2)
