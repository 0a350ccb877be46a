-- ===== src/Voice/Server/Rate.antt =====
-- The token buckets of `consumeRate`, and what is counted.
use gip_multiplayer.Base.{
  ℕ, suc, ap, ◌+◌, ◌%◌, ◌^◌, ◌≡◌, ◌∙◌, inl, inr, Bool, true, false, ◌||◌, List, [], ◌∷◌, length,
  if◌then◌else◌, arith, Bool-cases,
}
use gip_multiplayer.Voice.Packets.{UplinkPacket}
use gip_multiplayer.Voice.Server.{
  Double, PeerState, Message, relay, Config, Peer, Stats, Server, Env, count_send_failure,
}
use gip_multiplayer.Voice.Server.Relay.{
  Recipient, min_double, consume_rate, relay_all, downlink, count_relayed,
}

-- What the standard says of comparing and subtracting doubles, NaN included.
pub record IsOrdered (d : Double) : Type 0 where
  pub lt_irrefl : (a : d.D) → d.lt a a ≡ false
  pub lt_asym : (a b : d.D) → d.lt a b ≡ true → d.lt b a ≡ false
  pub lt_trans : (a b c : d.D) → d.lt a b ≡ true → d.lt b c ≡ true → d.lt a c ≡ true
  -- Taking away something that is not negative does not lead above a bound.
  pub sub_bound :
      (a b c : d.D) → d.lt b a ≡ false → d.lt c d.zero ≡ false → d.lt b (d.sub a c) ≡ false
  pub one_nonneg : d.lt d.one d.zero ≡ false
  pub of_size_nonneg : (n : ℕ) → d.lt (d.of_size n) d.zero ≡ false

module _ {d : Double} (o : IsOrdered d) where
  min_bound : (b x : d.D) → d.lt b (min_double d b x) ≡ false
  min_bound b x = elim (Bool-cases (d.lt x b)) [
    | inl below ↦ rw (below) (o.lt_asym x b below)
    | inr above ↦ rw (above) (o.lt_irrefl b)
  ]

  -- However long a peer was silent, neither bucket is ever above its burst size.
  pub consume_rate_bound :
      (c : Config d) (now bytes : ℕ) (p : Peer d)
      → (d.lt c.packet_burst (consume_rate c now bytes p).0.packet_tokens ≡ false)
        × (d.lt c.byte_burst (consume_rate c now bytes p).0.byte_tokens ≡ false)
  unfolding consume_rate
  consume_rate_bound c now bytes p =
      let elapsed = d.seconds p.rate_time now in
      let packets = d.add p.packet_tokens (d.mul elapsed c.packets_per_second) in
      let room = d.add p.byte_tokens (d.mul elapsed c.bytes_per_second) in
      let m = min_bound c.packet_burst packets in
      let n = min_bound c.byte_burst room in
      let m' =
        o.sub_bound (min_double d c.packet_burst packets) c.packet_burst d.one m o.one_nonneg in
      let n' =
        o.sub_bound (min_double d c.byte_burst room) c.byte_burst (d.of_size bytes) n
          (o.of_size_nonneg bytes) in
      elim (Bool-cases (
        d.lt (min_double d c.packet_burst packets) d.one
        || d.lt (min_double d c.byte_burst room) (d.of_size bytes))) [
          | inl refused ↦ rw refused (m, n)
          | inr allowed ↦ rw allowed (m', n')
        ]

  -- A packet that is larger than the byte burst is refused, whatever the buckets hold.
  pub consume_rate_oversized :
      (c : Config d) (now bytes : ℕ) (p : Peer d)
      → d.lt c.byte_burst (d.of_size bytes) ≡ true
      → (consume_rate c now bytes p).1 ≡ false
  unfolding consume_rate
  consume_rate_oversized c now bytes p big =
      let room = d.add p.byte_tokens (d.mul (d.seconds p.rate_time now) c.bytes_per_second) in
      let short : d.lt (min_double d c.byte_burst room) (d.of_size bytes) ≡ true =
        min_short c.byte_burst room (d.of_size bytes) big in
      rw short (ground arith)
    where
      min_short : (b x n : d.D) → d.lt b n ≡ true → d.lt (min_double d b x) n ≡ true
      min_short b x n h = elim (Bool-cases (d.lt x b)) [
        | inl below ↦ rw below (o.lt_trans x b n below h)
        | inr above ↦ rw above h
      ]

module _ {d : Double} where
  -- A callback that does not touch the counters.
  pub record IsQuiet (env : Env d) : Type 0 where
    pub deliver_quiet : (f : ℕ) (m : Message) (s : Server d) → (env.deliver f m s).0.stats ≡ s.stats
    pub elsewhere_quiet : (s : Server d) → (env.elsewhere s).stats ≡ s.stats

  -- Every recipient is counted once: as relayed, or as a send failure. The counters wrap at 2^64.
  pub relay_all_counts :
      (env : Env d) (packet : UplinkPacket) (speaker : PeerState) (g : ℕ) (rs : List Recipient)
      (s : Server d)
      → IsQuiet env
      → let t = (relay_all env packet speaker g rs s).stats in
        (t.relayed_packets + t.send_failures) % 2 ^ 64
        ≡ (s.stats.relayed_packets + s.stats.send_failures + length rs) % 2 ^ 64
  unfolding relay_all
  relay_all_counts env packet speaker g [] s q = omega arith
  relay_all_counts env packet speaker g (r ∷ rs) s q =
      let m = relay (downlink packet speaker g r) in
      let e = q.deliver_quiet r.send m s in
      relay_all_counts env packet speaker g rs _ q
      ∙ one (env.deliver r.send m s).1 (env.deliver r.send m s).0 e
    where
      one :
          (sent : Bool) (t : Server d)
          → t.stats ≡ s.stats
          → let u : Server d =
              if sent then count_relayed (length packet.payload) t else count_send_failure t in
            (u.stats.relayed_packets + u.stats.send_failures + length rs) % 2 ^ 64
            ≡ (s.stats.relayed_packets + s.stats.send_failures + suc (length rs)) % 2 ^ 64
      one true t e =
          rw (ap (λ (x : Stats). x.relayed_packets) e, ap (λ (x : Stats). x.send_failures) e)
            (omega arith)
      one false t e =
          rw (ap (λ (x : Stats). x.relayed_packets) e, ap (λ (x : Stats). x.send_failures) e)
            (omega arith)
