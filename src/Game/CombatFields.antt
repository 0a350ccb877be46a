-- ===== src/Game/CombatFields.antt =====
-- The layout of shots, hits and kills, and that reading takes what was written.
use gip_multiplayer.Base.{ℕ, ◌^◌, ◌<◌, ◌≡◌, ◌∙◌, false, List, ◌++◌, append_assoc}
use gip_multiplayer.Wire.Chain.{Wrote, Wrote-then, Took}
use gip_multiplayer.Wire.Values.{Stream, StreamLaws}
use gip_multiplayer.Game.{PlayerFirePacket, PlayerHitPacket, PlayerKilledPacket}
use gip_multiplayer.Game.Match.{
  put_player_fire, get_player_fire, put_player_hit, get_player_hit, put_player_killed,
  get_player_killed,
}

module _ (s : Stream) (ls : StreamLaws s) where
  open s use {io, F}
  open io use {Buf}
  open ls use {
    laws, float_bytes, string_bytes, bool_bytes, write_float-Wrote, write_string-Wrote,
    write_bool-Wrote, read_float-Took, read_string-Took, read_bool-Took,
  }
  open laws use {contents, failed, bytes}

  unfoldable pub encode_player_fire : PlayerFirePacket F → List ℕ
  encode_player_fire p =
      bytes 4 p.shooter_id
      ++ (bytes 1 p.gun_type
          ++ (float_bytes p.origin_x
              ++ (float_bytes p.origin_y
                  ++ (float_bytes p.origin_z
                      ++ (float_bytes p.dir_x ++ (float_bytes p.dir_y ++ (float_bytes p.dir_z)))))))

  abbrev pub PlayerFireFits : PlayerFirePacket F → Type 0
  PlayerFireFits p = (p.shooter_id < 2 ^ 32) × (p.gun_type < 2 ^ 8)

  pub put_player_fire-Wrote :
      (p : PlayerFirePacket F) (b : Buf)
      → Wrote io laws b (put_player_fire s p b) (encode_player_fire p)
  unfolding put_player_fire encode_player_fire
  put_player_fire-Wrote p b = Wrote-then io laws _ _ _ _ _ (laws.write_int-Wrote 4 p.shooter_id b) (
      Wrote-then io laws _ _ _ _ _ (laws.write_int-Wrote 1 p.gun_type _) (
        Wrote-then io laws _ _ _ _ _ (write_float-Wrote p.origin_x _) (
          Wrote-then io laws _ _ _ _ _ (write_float-Wrote p.origin_y _) (
            Wrote-then io laws _ _ _ _ _ (write_float-Wrote p.origin_z _) (
              Wrote-then io laws _ _ _ _ _ (write_float-Wrote p.dir_x _) (
                Wrote-then io laws _ _ _ _ _ (write_float-Wrote p.dir_y _)
                  (write_float-Wrote p.dir_z _)))))))

  pub get_player_fire-Took :
      (p : PlayerFirePacket F) (rest : List ℕ) (b : Buf)
      → PlayerFireFits p
      → failed b ≡ false
      → contents b ≡ encode_player_fire p ++ rest
      → Took io laws (get_player_fire s b) p rest
  unfolding get_player_fire encode_player_fire
  get_player_fire-Took p rest b fits g e =
      let t1 = laws.read_int-Took 4 p.shooter_id _ _ fits.0 g (
        e
        ∙ append_assoc (bytes 4 p.shooter_id)
            (bytes 1 p.gun_type
              ++ (float_bytes p.origin_x
                  ++ (float_bytes p.origin_y
                      ++ (float_bytes p.origin_z
                          ++ (float_bytes p.dir_x
                              ++ (float_bytes p.dir_y ++ (float_bytes p.dir_z)))))))
            rest) in
      let t2 = laws.read_int-Took 1 p.gun_type _ _ fits.1 t1.2 (
        t1.1
        ∙ append_assoc (bytes 1 p.gun_type)
            (float_bytes p.origin_x
              ++ (float_bytes p.origin_y
                  ++ (float_bytes p.origin_z
                      ++ (float_bytes p.dir_x ++ (float_bytes p.dir_y ++ (float_bytes p.dir_z))))))
            rest) in
      let t3 = read_float-Took p.origin_x _ _ t2.2 (
        t2.1
        ∙ append_assoc (float_bytes p.origin_x)
            (float_bytes p.origin_y
              ++ (float_bytes p.origin_z
                  ++ (float_bytes p.dir_x ++ (float_bytes p.dir_y ++ (float_bytes p.dir_z)))))
            rest) in
      let t4 = read_float-Took p.origin_y _ _ t3.2 (
        t3.1
        ∙ append_assoc (float_bytes p.origin_y)
            (float_bytes p.origin_z
              ++ (float_bytes p.dir_x ++ (float_bytes p.dir_y ++ (float_bytes p.dir_z))))
            rest) in
      let t5 = read_float-Took p.origin_z _ _ t4.2 (
        t4.1
        ∙ append_assoc (float_bytes p.origin_z)
            (float_bytes p.dir_x ++ (float_bytes p.dir_y ++ (float_bytes p.dir_z))) rest) in
      let t6 = read_float-Took p.dir_x _ _ t5.2 (
        t5.1
        ∙ append_assoc (float_bytes p.dir_x) (float_bytes p.dir_y ++ (float_bytes p.dir_z)) rest) in
      let t7 =
        read_float-Took p.dir_y _ _ t6.2
          (t6.1 ∙ append_assoc (float_bytes p.dir_y) (float_bytes p.dir_z) rest) in
      let t8 = read_float-Took p.dir_z _ _ t7.2 t7.1 in
      (
        λ i. record {
          shooter_id = t1.0 i;
          gun_type = t2.0 i;
          origin_x = t3.0 i;
          origin_y = t4.0 i;
          origin_z = t5.0 i;
          dir_x = t6.0 i;
          dir_y = t7.0 i;
          dir_z = t8.0 i;
        },
        t8.1,
        t8.2,
      )

  unfoldable pub encode_player_hit : PlayerHitPacket F → List ℕ
  encode_player_hit p = bytes 4 p.attacker_id ++ (bytes 4 p.victim_id ++ (float_bytes p.damage))

  abbrev pub PlayerHitFits : PlayerHitPacket F → Type 0
  PlayerHitFits p = (p.attacker_id < 2 ^ 32) × (p.victim_id < 2 ^ 32)

  pub put_player_hit-Wrote :
      (p : PlayerHitPacket F) (b : Buf)
      → Wrote io laws b (put_player_hit s p b) (encode_player_hit p)
  unfolding put_player_hit encode_player_hit
  put_player_hit-Wrote p b = Wrote-then io laws _ _ _ _ _ (laws.write_int-Wrote 4 p.attacker_id b) (
      Wrote-then io laws _ _ _ _ _ (laws.write_int-Wrote 4 p.victim_id _)
        (write_float-Wrote p.damage _))

  pub get_player_hit-Took :
      (p : PlayerHitPacket F) (rest : List ℕ) (b : Buf)
      → PlayerHitFits p
      → failed b ≡ false
      → contents b ≡ encode_player_hit p ++ rest
      → Took io laws (get_player_hit s b) p rest
  unfolding get_player_hit encode_player_hit
  get_player_hit-Took p rest b fits g e =
      let t1 = laws.read_int-Took 4 p.attacker_id _ _ fits.0 g (
        e
        ∙ append_assoc (bytes 4 p.attacker_id) (bytes 4 p.victim_id ++ (float_bytes p.damage))
            rest) in
      let t2 =
        laws.read_int-Took 4 p.victim_id _ _ fits.1 t1.2
          (t1.1 ∙ append_assoc (bytes 4 p.victim_id) (float_bytes p.damage) rest) in
      let t3 = read_float-Took p.damage _ _ t2.2 t2.1 in
      (λ i. record { attacker_id = t1.0 i; victim_id = t2.0 i; damage = t3.0 i }, t3.1, t3.2)

  unfoldable pub encode_player_killed : PlayerKilledPacket → List ℕ
  encode_player_killed p = bytes 4 p.killer_id ++ (bytes 4 p.victim_id)

  abbrev pub PlayerKilledFits : PlayerKilledPacket → Type 0
  PlayerKilledFits p = (p.killer_id < 2 ^ 32) × (p.victim_id < 2 ^ 32)

  pub put_player_killed-Wrote :
      (p : PlayerKilledPacket) (b : Buf)
      → Wrote io laws b (put_player_killed s p b) (encode_player_killed p)
  unfolding put_player_killed encode_player_killed
  put_player_killed-Wrote p b =
      Wrote-then io laws _ _ _ _ _ (laws.write_int-Wrote 4 p.killer_id b)
        (laws.write_int-Wrote 4 p.victim_id _)

  pub get_player_killed-Took :
      (p : PlayerKilledPacket) (rest : List ℕ) (b : Buf)
      → PlayerKilledFits p
      → failed b ≡ false
      → contents b ≡ encode_player_killed p ++ rest
      → Took io laws (get_player_killed s b) p rest
  unfolding get_player_killed encode_player_killed
  get_player_killed-Took p rest b fits g e =
      let t1 =
        laws.read_int-Took 4 p.killer_id _ _ fits.0 g
          (e ∙ append_assoc (bytes 4 p.killer_id) (bytes 4 p.victim_id) rest) in
      let t2 = laws.read_int-Took 4 p.victim_id _ _ fits.1 t1.2 t1.1 in
      (λ i. record { killer_id = t1.0 i; victim_id = t2.0 i }, t2.1, t2.2)
