-- ===== src/Game/MatchFields.antt =====
-- The layout of each packet of a running match, and that reading takes what was written.
use gip_multiplayer.Base.{ℕ, ◌^◌, ◌<◌, ◌≡◌, ◌∙◌, false, List, ◌++◌, append_assoc}
use gip_multiplayer.Wire.Chain.{Wrote, Wrote-then, Took}
use gip_multiplayer.Wire.Values.{Stream, StreamLaws}
use gip_multiplayer.Game.{PingPacket, PongPacket, NodeStatePacket, NodeLeavePacket}
use gip_multiplayer.Game.Match.{
  put_ping, get_ping, put_pong, get_pong, put_node_state, get_node_state, put_node_leave,
  get_node_leave,
}

module _ (s : Stream) (ls : StreamLaws s) where
  open s use {io, F}
  open io use {Buf}
  open ls use {
    laws, float_bytes, string_bytes, bool_bytes, write_float-Wrote, write_string-Wrote,
    write_bool-Wrote, read_float-Took, read_string-Took, read_bool-Took,
  }
  open laws use {contents, failed, bytes}

  unfoldable pub encode_ping : PingPacket → List ℕ
  encode_ping p = bytes 8 p.timestamp ++ (bytes 4 p.reported_ping)

  abbrev pub PingFits : PingPacket → Type 0
  PingFits p = (p.timestamp < 2 ^ 64) × (p.reported_ping < 2 ^ 32)

  pub put_ping-Wrote : (p : PingPacket) (b : Buf) → Wrote io laws b (put_ping s p b) (encode_ping p)
  unfolding put_ping encode_ping
  put_ping-Wrote p b =
      Wrote-then io laws _ _ _ _ _ (laws.write_int-Wrote 8 p.timestamp b)
        (laws.write_int-Wrote 4 p.reported_ping _)

  pub get_ping-Took :
      (p : PingPacket) (rest : List ℕ) (b : Buf)
      → PingFits p
      → failed b ≡ false
      → contents b ≡ encode_ping p ++ rest
      → Took io laws (get_ping s b) p rest
  unfolding get_ping encode_ping
  get_ping-Took p rest b fits g e =
      let t1 =
        laws.read_int-Took 8 p.timestamp _ _ fits.0 g
          (e ∙ append_assoc (bytes 8 p.timestamp) (bytes 4 p.reported_ping) rest) in
      let t2 = laws.read_int-Took 4 p.reported_ping _ _ fits.1 t1.2 t1.1 in
      (λ i. record { timestamp = t1.0 i; reported_ping = t2.0 i }, t2.1, t2.2)

  unfoldable pub encode_pong : PongPacket → List ℕ
  encode_pong p = bytes 8 p.timestamp

  abbrev pub PongFits : PongPacket → Type 0
  PongFits p = (p.timestamp < 2 ^ 64)

  pub put_pong-Wrote : (p : PongPacket) (b : Buf) → Wrote io laws b (put_pong s p b) (encode_pong p)
  unfolding put_pong encode_pong
  put_pong-Wrote p b = laws.write_int-Wrote 8 p.timestamp b

  pub get_pong-Took :
      (p : PongPacket) (rest : List ℕ) (b : Buf)
      → PongFits p
      → failed b ≡ false
      → contents b ≡ encode_pong p ++ rest
      → Took io laws (get_pong s b) p rest
  unfolding get_pong encode_pong
  get_pong-Took p rest b fits g e =
      let t1 = laws.read_int-Took 8 p.timestamp _ _ fits g e in
      (λ i. record { timestamp = t1.0 i }, t1.1, t1.2)

  unfoldable pub encode_node_state : NodeStatePacket F → List ℕ
  encode_node_state p =
      bytes 4 p.netid
      ++ (float_bytes p.x
          ++ (float_bytes p.y
              ++ (float_bytes p.z
                  ++ (float_bytes p.yaw ++ (bytes 1 p.team ++ (bytes 1 p.anim_state))))))

  abbrev pub NodeStateFits : NodeStatePacket F → Type 0
  NodeStateFits p = (p.netid < 2 ^ 32) × (p.team < 2 ^ 8) × (p.anim_state < 2 ^ 8)

  pub put_node_state-Wrote :
      (p : NodeStatePacket F) (b : Buf)
      → Wrote io laws b (put_node_state s p b) (encode_node_state p)
  unfolding put_node_state encode_node_state
  put_node_state-Wrote p b = Wrote-then io laws _ _ _ _ _ (laws.write_int-Wrote 4 p.netid b) (
      Wrote-then io laws _ _ _ _ _ (write_float-Wrote p.x _) (
        Wrote-then io laws _ _ _ _ _ (write_float-Wrote p.y _) (
          Wrote-then io laws _ _ _ _ _ (write_float-Wrote p.z _) (
            Wrote-then io laws _ _ _ _ _ (write_float-Wrote p.yaw _) (
              Wrote-then io laws _ _ _ _ _ (laws.write_int-Wrote 1 p.team _)
                (laws.write_int-Wrote 1 p.anim_state _))))))

  pub get_node_state-Took :
      (p : NodeStatePacket F) (rest : List ℕ) (b : Buf)
      → NodeStateFits p
      → failed b ≡ false
      → contents b ≡ encode_node_state p ++ rest
      → Took io laws (get_node_state s b) p rest
  unfolding get_node_state encode_node_state
  get_node_state-Took p rest b fits g e =
      let t1 = laws.read_int-Took 4 p.netid _ _ fits.0 g (
        e
        ∙ append_assoc (bytes 4 p.netid)
            (float_bytes p.x
              ++ (float_bytes p.y
                  ++ (float_bytes p.z
                      ++ (float_bytes p.yaw ++ (bytes 1 p.team ++ (bytes 1 p.anim_state))))))
            rest) in
      let t2 = read_float-Took p.x _ _ t1.2 (
        t1.1
        ∙ append_assoc (float_bytes p.x)
            (float_bytes p.y
              ++ (float_bytes p.z
                  ++ (float_bytes p.yaw ++ (bytes 1 p.team ++ (bytes 1 p.anim_state)))))
            rest) in
      let t3 = read_float-Took p.y _ _ t2.2 (
        t2.1
        ∙ append_assoc (float_bytes p.y)
            (float_bytes p.z ++ (float_bytes p.yaw ++ (bytes 1 p.team ++ (bytes 1 p.anim_state))))
            rest) in
      let t4 = read_float-Took p.z _ _ t3.2 (
        t3.1
        ∙ append_assoc (float_bytes p.z)
            (float_bytes p.yaw ++ (bytes 1 p.team ++ (bytes 1 p.anim_state))) rest) in
      let t5 =
        read_float-Took p.yaw _ _ t4.2 (
          t4.1
          ∙ append_assoc (float_bytes p.yaw) (bytes 1 p.team ++ (bytes 1 p.anim_state)) rest) in
      let t6 =
        laws.read_int-Took 1 p.team _ _ fits.1 t5.2
          (t5.1 ∙ append_assoc (bytes 1 p.team) (bytes 1 p.anim_state) rest) in
      let t7 = laws.read_int-Took 1 p.anim_state _ _ fits.2 t6.2 t6.1 in
      (
        λ i. record {
          netid = t1.0 i;
          x = t2.0 i;
          y = t3.0 i;
          z = t4.0 i;
          yaw = t5.0 i;
          team = t6.0 i;
          anim_state = t7.0 i;
        },
        t7.1,
        t7.2,
      )

  unfoldable pub encode_node_leave : NodeLeavePacket → List ℕ
  encode_node_leave p = bytes 4 p.netid

  abbrev pub NodeLeaveFits : NodeLeavePacket → Type 0
  NodeLeaveFits p = (p.netid < 2 ^ 32)

  pub put_node_leave-Wrote :
      (p : NodeLeavePacket) (b : Buf) → Wrote io laws b (put_node_leave s p b) (encode_node_leave p)
  unfolding put_node_leave encode_node_leave
  put_node_leave-Wrote p b = laws.write_int-Wrote 4 p.netid b

  pub get_node_leave-Took :
      (p : NodeLeavePacket) (rest : List ℕ) (b : Buf)
      → NodeLeaveFits p
      → failed b ≡ false
      → contents b ≡ encode_node_leave p ++ rest
      → Took io laws (get_node_leave s b) p rest
  unfolding get_node_leave encode_node_leave
  get_node_leave-Took p rest b fits g e =
      let t1 = laws.read_int-Took 4 p.netid _ _ fits g e in
      (λ i. record { netid = t1.0 i }, t1.1, t1.2)
