-- ===== src/Game/RoomFields.antt =====
-- The layout of each packet of a room, and that reading takes what was written.
use gip_multiplayer.Base.{
  ℕ, ◌^◌, ◌<◌, ◌≡◌, ◌∙◌, false, List, ◌++◌, append_assoc, if◌then◌else◌, length,
}
use gip_multiplayer.Wire.Chain.{Wrote, Wrote-then, Took, flag-lt, flag-ne_zero}
use gip_multiplayer.Wire.Values.{Stream, StreamLaws}
use gip_multiplayer.Game.{
  ServerQueryResPacket, LobbyJoinPacket, ToggleReadyPacket, SwitchTeamPacket, LobbyKickPacket,
}
use gip_multiplayer.Game.Room.{
  put_server_query_res, get_server_query_res, put_lobby_join, get_lobby_join, put_toggle_ready,
  get_toggle_ready, put_switch_team, get_switch_team, put_lobby_kick, get_lobby_kick,
}

module _ (s : Stream) (ls : StreamLaws s) where
  open s use {io, F}
  open io use {Buf}
  open ls use {
    laws, float_bytes, string_bytes, bool_bytes, write_float-Wrote, write_string-Wrote,
    write_bool-Wrote, read_float-Took, read_string-Took, read_bool-Took,
  }
  open laws use {contents, failed, bytes}

  unfoldable pub encode_server_query_res : ServerQueryResPacket → List ℕ
  encode_server_query_res p =
      string_bytes p.lobby_name
      ++ (string_bytes p.format
          ++ (string_bytes p.size_str
              ++ (bytes 4 (if p.is_dedicated then 1 else 0)
                  ++ (bytes 4 (if p.match_in_progress then 1 else 0)))))

  abbrev pub ServerQueryResFits : ServerQueryResPacket → Type 0
  ServerQueryResFits p =
      (length p.lobby_name < 2 ^ 32) × (length p.format < 2 ^ 32) × (length p.size_str < 2 ^ 32)

  pub put_server_query_res-Wrote :
      (p : ServerQueryResPacket) (b : Buf)
      → Wrote io laws b (put_server_query_res s p b) (encode_server_query_res p)
  unfolding put_server_query_res encode_server_query_res
  put_server_query_res-Wrote p b =
      Wrote-then io laws _ _ _ _ _ (write_string-Wrote p.lobby_name b) (
        Wrote-then io laws _ _ _ _ _ (write_string-Wrote p.format _) (
          Wrote-then io laws _ _ _ _ _ (write_string-Wrote p.size_str _) (
            Wrote-then io laws _ _ _ _ _
              (laws.write_int-Wrote 4 (if p.is_dedicated then 1 else 0) _)
              (laws.write_int-Wrote 4 (if p.match_in_progress then 1 else 0) _))))

  pub get_server_query_res-Took :
      (p : ServerQueryResPacket) (rest : List ℕ) (b : Buf)
      → ServerQueryResFits p
      → failed b ≡ false
      → contents b ≡ encode_server_query_res p ++ rest
      → Took io laws (get_server_query_res s b) p rest
  unfolding get_server_query_res encode_server_query_res
  get_server_query_res-Took p rest b fits g e =
      let t1 = read_string-Took p.lobby_name _ _ fits.0 g (
        e
        ∙ append_assoc (string_bytes p.lobby_name)
            (string_bytes p.format
              ++ (string_bytes p.size_str
                  ++ (bytes 4 (if p.is_dedicated then 1 else 0)
                      ++ (bytes 4 (if p.match_in_progress then 1 else 0)))))
            rest) in
      let t2 = read_string-Took p.format _ _ fits.1 t1.2 (
        t1.1
        ∙ append_assoc (string_bytes p.format)
            (string_bytes p.size_str
              ++ (bytes 4 (if p.is_dedicated then 1 else 0)
                  ++ (bytes 4 (if p.match_in_progress then 1 else 0))))
            rest) in
      let t3 = read_string-Took p.size_str _ _ fits.2 t2.2 (
        t2.1
        ∙ append_assoc (string_bytes p.size_str)
            (bytes 4 (if p.is_dedicated then 1 else 0)
              ++ (bytes 4 (if p.match_in_progress then 1 else 0)))
            rest) in
      let t4 =
        laws.read_int-Took 4 (if p.is_dedicated then 1 else 0) _ _ (flag-lt p.is_dedicated) t3.2 (
          t3.1
          ∙ append_assoc (bytes 4 (if p.is_dedicated then 1 else 0))
              (bytes 4 (if p.match_in_progress then 1 else 0)) rest) in
      let t5 =
        laws.read_int-Took 4 (if p.match_in_progress then 1 else 0) _ _
          (flag-lt p.match_in_progress) t4.2 t4.1 in
      (
        λ i. record {
          lobby_name = t1.0 i;
          format = t2.0 i;
          size_str = t3.0 i;
          is_dedicated = flag-ne_zero p.is_dedicated (t4.0) i;
          match_in_progress = flag-ne_zero p.match_in_progress (t5.0) i;
        },
        t5.1,
        t5.2,
      )

  unfoldable pub encode_lobby_join : LobbyJoinPacket → List ℕ
  encode_lobby_join p =
      bytes 4 p.sender_id ++ (string_bytes p.player_name ++ (string_bytes p.password))

  abbrev pub LobbyJoinFits : LobbyJoinPacket → Type 0
  LobbyJoinFits p =
      (p.sender_id < 2 ^ 32) × (length p.player_name < 2 ^ 32) × (length p.password < 2 ^ 32)

  pub put_lobby_join-Wrote :
      (p : LobbyJoinPacket) (b : Buf) → Wrote io laws b (put_lobby_join s p b) (encode_lobby_join p)
  unfolding put_lobby_join encode_lobby_join
  put_lobby_join-Wrote p b = Wrote-then io laws _ _ _ _ _ (laws.write_int-Wrote 4 p.sender_id b) (
      Wrote-then io laws _ _ _ _ _ (write_string-Wrote p.player_name _)
        (write_string-Wrote p.password _))

  pub get_lobby_join-Took :
      (p : LobbyJoinPacket) (rest : List ℕ) (b : Buf)
      → LobbyJoinFits p
      → failed b ≡ false
      → contents b ≡ encode_lobby_join p ++ rest
      → Took io laws (get_lobby_join s b) p rest
  unfolding get_lobby_join encode_lobby_join
  get_lobby_join-Took p rest b fits g e =
      let t1 = laws.read_int-Took 4 p.sender_id _ _ fits.0 g (
        e
        ∙ append_assoc (bytes 4 p.sender_id)
            (string_bytes p.player_name ++ (string_bytes p.password)) rest) in
      let t2 =
        read_string-Took p.player_name _ _ fits.1 t1.2
          (t1.1 ∙ append_assoc (string_bytes p.player_name) (string_bytes p.password) rest) in
      let t3 = read_string-Took p.password _ _ fits.2 t2.2 t2.1 in
      (λ i. record { sender_id = t1.0 i; player_name = t2.0 i; password = t3.0 i }, t3.1, t3.2)

  unfoldable pub encode_toggle_ready : ToggleReadyPacket → List ℕ
  encode_toggle_ready p = bytes 4 p.sender_id

  abbrev pub ToggleReadyFits : ToggleReadyPacket → Type 0
  ToggleReadyFits p = (p.sender_id < 2 ^ 32)

  pub put_toggle_ready-Wrote :
      (p : ToggleReadyPacket) (b : Buf)
      → Wrote io laws b (put_toggle_ready s p b) (encode_toggle_ready p)
  unfolding put_toggle_ready encode_toggle_ready
  put_toggle_ready-Wrote p b = laws.write_int-Wrote 4 p.sender_id b

  pub get_toggle_ready-Took :
      (p : ToggleReadyPacket) (rest : List ℕ) (b : Buf)
      → ToggleReadyFits p
      → failed b ≡ false
      → contents b ≡ encode_toggle_ready p ++ rest
      → Took io laws (get_toggle_ready s b) p rest
  unfolding get_toggle_ready encode_toggle_ready
  get_toggle_ready-Took p rest b fits g e =
      let t1 = laws.read_int-Took 4 p.sender_id _ _ fits g e in
      (λ i. record { sender_id = t1.0 i }, t1.1, t1.2)

  unfoldable pub encode_switch_team : SwitchTeamPacket → List ℕ
  encode_switch_team p = bytes 4 p.sender_id ++ (bytes 1 p.team_id)

  abbrev pub SwitchTeamFits : SwitchTeamPacket → Type 0
  SwitchTeamFits p = (p.sender_id < 2 ^ 32) × (p.team_id < 2 ^ 8)

  pub put_switch_team-Wrote :
      (p : SwitchTeamPacket) (b : Buf)
      → Wrote io laws b (put_switch_team s p b) (encode_switch_team p)
  unfolding put_switch_team encode_switch_team
  put_switch_team-Wrote p b =
      Wrote-then io laws _ _ _ _ _ (laws.write_int-Wrote 4 p.sender_id b)
        (laws.write_int-Wrote 1 p.team_id _)

  pub get_switch_team-Took :
      (p : SwitchTeamPacket) (rest : List ℕ) (b : Buf)
      → SwitchTeamFits p
      → failed b ≡ false
      → contents b ≡ encode_switch_team p ++ rest
      → Took io laws (get_switch_team s b) p rest
  unfolding get_switch_team encode_switch_team
  get_switch_team-Took p rest b fits g e =
      let t1 =
        laws.read_int-Took 4 p.sender_id _ _ fits.0 g
          (e ∙ append_assoc (bytes 4 p.sender_id) (bytes 1 p.team_id) rest) in
      let t2 = laws.read_int-Took 1 p.team_id _ _ fits.1 t1.2 t1.1 in
      (λ i. record { sender_id = t1.0 i; team_id = t2.0 i }, t2.1, t2.2)

  unfoldable pub encode_lobby_kick : LobbyKickPacket → List ℕ
  encode_lobby_kick p = string_bytes p.reason

  abbrev pub LobbyKickFits : LobbyKickPacket → Type 0
  LobbyKickFits p = (length p.reason < 2 ^ 32)

  pub put_lobby_kick-Wrote :
      (p : LobbyKickPacket) (b : Buf) → Wrote io laws b (put_lobby_kick s p b) (encode_lobby_kick p)
  unfolding put_lobby_kick encode_lobby_kick
  put_lobby_kick-Wrote p b = write_string-Wrote p.reason b

  pub get_lobby_kick-Took :
      (p : LobbyKickPacket) (rest : List ℕ) (b : Buf)
      → LobbyKickFits p
      → failed b ≡ false
      → contents b ≡ encode_lobby_kick p ++ rest
      → Took io laws (get_lobby_kick s b) p rest
  unfolding get_lobby_kick encode_lobby_kick
  get_lobby_kick-Took p rest b fits g e =
      let t1 = read_string-Took p.reason _ _ fits g e in
      (λ i. record { reason = t1.0 i }, t1.1, t1.2)
