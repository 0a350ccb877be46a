-- ===== src/Game/Rows.antt =====
-- The two packets that carry a counted list: the lobby state and the snapshot of pings.
use gip_multiplayer.Base.{
  ℕ, zero, suc, ◌+◌, ◌^◌, ◌≤◌, ◌<◌, ◌≡◌, refl, sym, ap, ◌∙◌, false, inl, inr, Bool-cases, List, [],
  ◌∷◌, ◌++◌, append_assoc, append-nil, ltb, length, length-append, All, arith,
}
use gip_multiplayer.Wire.Chain.{Wrote, Wrote-then, Took}
use gip_multiplayer.Wire.Values.{Stream, StreamLaws}
use gip_multiplayer.Game.{PlayerRow, PingRow, LobbyStatePacket}
use gip_multiplayer.Game.Room.{
  get_player_row, put_players, get_players, put_pings, get_pings, put_lobby_state,
  get_counted_players, get_lobby_state, put_ping_snapshot, get_ping_snapshot,
}
use gip_multiplayer.Game.MessageFields.{
  encode_player_row, PlayerRowFits, put_player_row-Wrote, get_player_row-Took, encode_ping_row,
  PingRowFits, put_ping_row-Wrote, get_ping_row-Took,
}

module _ (s : Stream) (ls : StreamLaws s) where
  open s use {io}
  open io use {Buf}
  open ls use {laws, string_bytes, bool_bytes, var_bytes}
  open laws use {contents, failed}

  unfoldable pub encode_players : List PlayerRow → List ℕ
  encode_players [] = []
  encode_players (r ∷ rs) = encode_player_row s ls r ++ encode_players rs

  unfoldable pub encode_pings : List PingRow → List ℕ
  encode_pings [] = []
  encode_pings (r ∷ rs) = encode_ping_row s ls r ++ encode_pings rs

  put_players-Wrote :
      (rs : List PlayerRow) (b : Buf) → Wrote io laws b (put_players s rs b) (encode_players rs)
  unfolding put_players encode_players
  put_players-Wrote [] b = λ h. (h, sym (append-nil (contents b)))
  put_players-Wrote (r ∷ rs) b =
      Wrote-then io laws _ _ _ _ _ (put_player_row-Wrote s ls r b) (put_players-Wrote rs _)

  put_pings-Wrote :
      (rs : List PingRow) (b : Buf) → Wrote io laws b (put_pings s rs b) (encode_pings rs)
  unfolding put_pings encode_pings
  put_pings-Wrote [] b = λ h. (h, sym (append-nil (contents b)))
  put_pings-Wrote (r ∷ rs) b =
      Wrote-then io laws _ _ _ _ _ (put_ping_row-Wrote s ls r b) (put_pings-Wrote rs _)

  get_players-Took :
      (rs : List PlayerRow) (rest : List ℕ) (b : Buf)
      → All (PlayerRowFits s ls) rs
      → failed b ≡ false
      → contents b ≡ encode_players rs ++ rest
      → Took io laws (get_players s (length rs) b) rs rest
  unfolding get_players encode_players
  get_players-Took [] rest b fits g e = (refl, e, g)
  get_players-Took (r ∷ rs) rest b fits g e =
      let t =
        get_player_row-Took s ls r _ b fits.0 g
          (e ∙ append_assoc (encode_player_row s ls r) (encode_players rs) rest) in
      let u = get_players-Took rs rest _ fits.1 t.2 t.1 in (λ i. t.0 i ∷ u.0 i, u.1, u.2)

  get_pings-Took :
      (rs : List PingRow) (rest : List ℕ) (b : Buf)
      → All (PingRowFits s ls) rs
      → failed b ≡ false
      → contents b ≡ encode_pings rs ++ rest
      → Took io laws (get_pings s (length rs) b) rs rest
  unfolding get_pings encode_pings
  get_pings-Took [] rest b fits g e = (refl, e, g)
  get_pings-Took (r ∷ rs) rest b fits g e =
      let t =
        get_ping_row-Took s ls r _ b fits.0 g
          (e ∙ append_assoc (encode_ping_row s ls r) (encode_pings rs) rest) in
      let u = get_pings-Took rs rest _ fits.1 t.2 t.1 in (λ i. t.0 i ∷ u.0 i, u.1, u.2)

  -- A row is not empty, so that a true count never exceeds the bytes that are left.
  length-encode_players : (rs : List PlayerRow) → length rs ≤ length (encode_players rs)
  unfolding encode_players encode_player_row
  length-encode_players [] = omega arith
  length-encode_players (r ∷ rs) = omega (
    arith,
    length-append (encode_player_row s ls r) (encode_players rs),
    length-append (laws.bytes 4 r.id)
        (string_bytes r.name ++ (laws.bytes 1 r.team ++ laws.bytes 1 r.ready)),
    laws.length-bytes 4 r.id,
    length-encode_players rs,
  )

  length-encode_pings : (rs : List PingRow) → length rs ≤ length (encode_pings rs)
  unfolding encode_pings encode_ping_row
  length-encode_pings [] = omega arith
  length-encode_pings (r ∷ rs) = omega (
    arith,
    length-append (encode_ping_row s ls r) (encode_pings rs),
    length-append (laws.bytes 4 r.id) (laws.bytes 4 r.ping),
    laws.length-bytes 4 r.id,
    length-encode_pings rs,
  )

  abbrev pub LobbyStateFits : LobbyStatePacket → Type 0
  LobbyStateFits p =
      (length p.room_code < 2 ^ 32)
      × (length p.players < 2 ^ 64)
      × All (PlayerRowFits s ls) p.players

  abbrev pub SnapshotFits : List PingRow → Type 0
  SnapshotFits rs = (length rs < 2 ^ 64) × All (PingRowFits s ls) rs

  unfoldable pub encode_lobby_state : LobbyStatePacket → List ℕ
  encode_lobby_state p =
      bool_bytes p.is_global_server
      ++ (bool_bytes p.match_in_progress
          ++ (string_bytes p.room_code
              ++ (var_bytes (length p.players) ++ encode_players p.players)))

  unfoldable pub encode_ping_snapshot : List PingRow → List ℕ
  encode_ping_snapshot rs = var_bytes (length rs) ++ encode_pings rs

  pub put_lobby_state-Wrote :
      (p : LobbyStatePacket) (b : Buf)
      → Wrote io laws b (put_lobby_state s p b) (encode_lobby_state p)
  unfolding put_lobby_state encode_lobby_state
  put_lobby_state-Wrote p b =
      Wrote-then io laws _ _ _ _ _ (ls.write_bool-Wrote p.is_global_server b) (
        Wrote-then io laws _ _ _ _ _ (ls.write_bool-Wrote p.match_in_progress _) (
          Wrote-then io laws _ _ _ _ _ (ls.write_string-Wrote p.room_code _) (
            Wrote-then io laws _ _ _ _ _ (ls.write_var_int-Wrote (length p.players) _)
              (put_players-Wrote p.players _))))

  pub put_ping_snapshot-Wrote :
      (rs : List PingRow) (b : Buf)
      → Wrote io laws b (put_ping_snapshot s rs b) (encode_ping_snapshot rs)
  unfolding put_ping_snapshot encode_ping_snapshot
  put_ping_snapshot-Wrote rs b =
      Wrote-then io laws _ _ _ _ _ (ls.write_var_int-Wrote (length rs) b) (put_pings-Wrote rs _)

  -- After the count, what is left of the buffer is at least as long.
  enough :
      (n : ℕ) (xs rest : List ℕ) (b : Buf)
      → n ≤ length xs
      → contents b ≡ xs ++ rest
      → ltb (io.readable_bytes b) n ≡ false
  enough n xs rest b h e =
      let l : length (contents b) ≡ length xs + length rest = rw e (length-append xs rest) in
      ground (arith, laws.readable_bytes-eq b)

  get_counted_players-Took :
      (rs : List PlayerRow) (rest : List ℕ) (b : Buf)
      → length rs < 2 ^ 64
      → All (PlayerRowFits s ls) rs
      → failed b ≡ false
      → contents b ≡ (var_bytes (length rs) ++ encode_players rs) ++ rest
      → Took io laws (get_counted_players s b) rs rest
  unfolding get_counted_players
  get_counted_players-Took rs rest b short fits g e =
      let t =
        ls.read_var_int-Took (length rs) _ b short g
          (e ∙ append_assoc (var_bytes (length rs)) (encode_players rs) rest) in
      let ok = enough (length rs) (encode_players rs) rest _ (length-encode_players rs) t.1 in
      rw (t.0, ok) (get_players-Took rs rest _ fits t.2 t.1)

  pub get_ping_snapshot-Took :
      (rs : List PingRow) (rest : List ℕ) (b : Buf)
      → SnapshotFits rs
      → failed b ≡ false
      → contents b ≡ encode_ping_snapshot rs ++ rest
      → Took io laws (get_ping_snapshot s b) rs rest
  unfolding get_ping_snapshot encode_ping_snapshot
  get_ping_snapshot-Took rs rest b fits g e =
      let t =
        ls.read_var_int-Took (length rs) _ b fits.0 g
          (e ∙ append_assoc (var_bytes (length rs)) (encode_pings rs) rest) in
      let ok = enough (length rs) (encode_pings rs) rest _ (length-encode_pings rs) t.1 in
      rw (t.0, ok) (get_pings-Took rs rest _ fits.1 t.2 t.1)

  pub get_lobby_state-Took :
      (p : LobbyStatePacket) (rest : List ℕ) (b : Buf)
      → LobbyStateFits p
      → failed b ≡ false
      → contents b ≡ encode_lobby_state p ++ rest
      → Took io laws (get_lobby_state s b) p rest
  unfolding get_lobby_state encode_lobby_state
  get_lobby_state-Took p rest b fits g e =
      let rows = var_bytes (length p.players) ++ encode_players p.players in
      let t1 = ls.read_bool-Took p.is_global_server _ b g (
        e
        ∙ append_assoc (bool_bytes p.is_global_server)
            (bool_bytes p.match_in_progress ++ (string_bytes p.room_code ++ rows)) rest) in
      let t2 = ls.read_bool-Took p.match_in_progress _ _ t1.2 (
        t1.1
        ∙ append_assoc (bool_bytes p.match_in_progress) (string_bytes p.room_code ++ rows) rest) in
      let t3 =
        ls.read_string-Took p.room_code _ _ fits.0 t2.2
          (t2.1 ∙ append_assoc (string_bytes p.room_code) rows rest) in
      let t4 = get_counted_players-Took p.players rest _ fits.1 fits.2 t3.2 t3.1 in
      (
        λ i. record {
          is_global_server = t1.0 i;
          match_in_progress = t2.0 i;
          room_code = t3.0 i;
          players = t4.0 i;
        },
        t4.1,
        t4.2,
      )

  get_players-length : (n : ℕ) (b : Buf) → length (get_players s n b).0 ≡ n
  unfolding get_players
  get_players-length zero b = refl
  get_players-length (suc n) b = ap suc (get_players-length n (get_player_row s b).1)

  -- Whatever a buffer holds, the players that are read after a count are no more than the bytes that
  -- are left after it: a corrupt count cannot make the loop long.
  pub get_counted_players_bound :
      (b : Buf) → length (get_counted_players s b).0 ≤ io.readable_bytes (s.read_var_int b).1
  unfolding get_counted_players
  get_counted_players_bound b =
      elim (Bool-cases (ltb (io.readable_bytes (s.read_var_int b).1) (s.read_var_int b).0)) [
        | inl h ↦ rw (get_counted_players, h) (omega arith)
        | inr h ↦
            rw (get_counted_players, h)
              (ground (arith, get_players-length (s.read_var_int b).0 (s.read_var_int b).1))
      ]
