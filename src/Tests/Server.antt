-- ===== src/Tests/Server.antt =====
-- The voice router at concrete inputs, with whole numbers for `double` and seconds for the clock.
use gip_multiplayer.Base.{
  ℕ, ◌+◌, ◌-◌, ◌*◌, ◌<◌, ◌≡◌, ◌≢◌, refl, ◌⊎◌, inl, inr, some, true, false, List, [], ◌∷◌, ltb,
  arith, All,
}
use gip_multiplayer.Base.Dict.{lookup, erase-AllValues}
use gip_multiplayer.Voice.Packets.{
  PacketError, UplinkPacket, validate_downlink_packet, validate_uplink_packet,
}
use gip_multiplayer.Voice.Server.{
  Double, PeerState, Config, Peer, Server, Env, no_stats, is_valid_peer_state, remove_peer,
  next_generation, peer_states_equal,
}
use gip_multiplayer.Voice.Server.Control.{
  set_peer_state, clear_peer_state, set_locked, set_confirm, renew, superseded,
}
use gip_multiplayer.Voice.Server.Relay.{
  Recipient, routed, route, downlink, consume_rate, may_send, may_hear, recipients,
}
use gip_multiplayer.Voice.Server.Invariant.{
  IsValid, Keeps, set_peer_state-IsValid, remove_peer-IsValid, next_generation_lem,
}
use gip_multiplayer.Voice.Server.Told.{told_to_speak, Delivered, IsTold, AllTold, KeepsTold}
use gip_multiplayer.Voice.Server.Publish.{
  Published, Cleared, set_peer_state-Published, clear_peer_state-Cleared,
}
use gip_multiplayer.Voice.Server.Routing.{
  Reached, Has, route-Reached, route_complete, route-playable,
}
use gip_multiplayer.Voice.Server.Rate.{IsOrdered, consume_rate_bound, IsQuiet}

abbrev whole : Double
whole = record {
  D = ℕ;
  zero = 0;
  one = 1;
  of_size = λ n. n;
  seconds = λ a b. b - a;
  add = λ a b. a + b;
  sub = λ a b. a - b;
  mul = λ a b. a * b;
  lt = ltb;
}

whole-IsOrdered : IsOrdered whole
whole-IsOrdered = record {
  lt_irrefl = λ a. ground arith;
  lt_asym = λ a b h. ground arith;
  lt_trans = λ a b c h k. ground arith;
  sub_bound = λ a b c h k. ground arith;
  one_nonneg = refl;
  of_size_nonneg = λ n. ground arith;
}

abbrev settings : Config whole
settings = record {
  max_connections = 4;
  packets_per_second = 65;
  packet_burst = 20;
  bytes_per_second = 24576;
  byte_burst = 8192;
}

abbrev red : PeerState
red = record {
  player_id = 11;
  team_id = 1;
  session_id = 7;
  can_transmit = true;
  can_receive = true;
}

abbrev peer : ℕ → ℕ → ℕ → Peer whole
peer identity player team = record {
  identity = identity;
  send = identity;
  state = record red { player_id = player; team_id = team };
  has_state = true;
  control_published = true;
  generation = 1;
  packet_tokens = 20;
  byte_tokens = 8192;
  rate_time = 0;
}

-- 11 and 12 are on one team, 13 on another.
abbrev lobby : Server whole
lobby = record {
  config = settings;
  peers = (1, peer 0 11 1) ∷ (2, peer 1 12 1) ∷ (3, peer 2 13 2) ∷ [];
  stats = no_stats;
  hear_enemies = false;
  next_identity = 3;
}

-- Every send succeeds, but telling connection 3 takes connection 2 off the table.
abbrev meddling : Env whole
meddling = record { elsewhere = λ s. s; deliver = λ f m s. (remove_peer 2 s, true) }

abbrev quiet : Env whole
quiet = record { elsewhere = λ s. s; deliver = λ f m s. (s, true) }

lobby-IsValid : IsValid lobby
lobby-IsValid = record {
  peers = (
    record { word = omega arith; registered = inr (omega arith) },
    (
      record { word = omega arith; registered = inr (omega arith) },
      (record { word = omega arith; registered = inr (omega arith) }, tt),
    ),
  );
  room = omega arith;
}

meddling-Keeps : Keeps meddling
meddling-Keeps = record {
  elsewhere_keeps = λ s v. v;
  deliver_keeps = λ f m s v. remove_peer-IsValid 2 s v;
}

set_peer_state-IsValid_example :
    IsValid (set_peer_state meddling 5 3 (record red { team_id = 1 }) lobby).0
set_peer_state-IsValid_example =
    set_peer_state-IsValid meddling 5 3 (record red { team_id = 1 }) lobby meddling-Keeps
      lobby-IsValid

abbrev spoken : UplinkPacket
spoken = record {
  version = 1;
  flags = 0;
  session_id = 7;
  membership_generation = 1;
  stream_generation = 2;
  sequence = 3;
  sample_position = 960;
  payload = 9 ∷ [];
}

next_generation_lem_example :
    (next_generation 4294967295 ≢ 0)
    × (next_generation 4294967295 < 4294967296)
    × (next_generation 4294967295 ≢ 4294967295)
next_generation_lem_example = next_generation_lem 4294967295 (omega arith)

spoken_to :
    (i : ℕ) (p : Peer whole)
    → lookup i lobby.peers ≡ some p
    → Delivered meddling p (told_to_speak p.state p.generation)
spoken_to i p h = record {
  connection = i;
  table = lobby;
  peer = p;
  held = h;
  same_peer = refl;
  same_generation = refl;
  taken = refl;
}

lobby-AllTold : AllTold meddling lobby
lobby-AllTold = (
  IsTold.speaks refl (spoken_to 1 (peer 0 11 1) refl),
  (
    IsTold.speaks refl (spoken_to 2 (peer 1 12 1) refl),
    (IsTold.speaks refl (spoken_to 3 (peer 2 13 2) refl), tt),
  ),
)

meddling-KeepsTold : KeepsTold meddling
unfolding remove_peer
meddling-KeepsTold = record {
  elsewhere_keeps = λ s v. v;
  deliver_keeps = λ f m s v. erase-AllValues (IsTold meddling) 2 s.peers v;
}

set_peer_state-Published_example :
    AllTold meddling (set_peer_state meddling 5 3 (record red { team_id = 1 }) lobby).0
    × (((set_peer_state meddling 5 3 (record red { team_id = 1 }) lobby).1 ≡ false)
        ⊎ Published meddling 3
            (record red { team_id = 1 })
            (set_peer_state meddling 5 3 (record red { team_id = 1 }) lobby).0)
unfolding is_valid_peer_state
set_peer_state-Published_example =
    set_peer_state-Published meddling 5 3 (record red { team_id = 1 }) lobby refl meddling-KeepsTold
      lobby-AllTold

-- Telling connection 3 succeeds, although its callback threw connection 2 out.
told_all_the_same : (set_peer_state meddling 5 3 (record red { team_id = 1 }) lobby).1 ≡ true
unfolding set_peer_state set_locked set_confirm is_valid_peer_state remove_peer peer_states_equal
    renew superseded next_generation
told_all_the_same = refl

-- A callback that throws out the very peer it is told of: the answer is false.
thrown_out : (set_peer_state meddling 5 2 (record red { team_id = 2 }) lobby).1 ≡ false
unfolding set_peer_state set_locked set_confirm is_valid_peer_state remove_peer peer_states_equal
    renew superseded next_generation
thrown_out = refl

clear_peer_state-Cleared_example :
    AllTold meddling (clear_peer_state meddling 3 lobby).0
    × (((clear_peer_state meddling 3 lobby).1 ≡ false)
        ⊎ Cleared meddling 3 (clear_peer_state meddling 3 lobby).0)
clear_peer_state-Cleared_example =
    clear_peer_state-Cleared meddling 3 lobby meddling-KeepsTold lobby-AllTold

-- The table after the sender's buckets were charged.
abbrev charged : Server whole
charged = record lobby {
  peers =
      (
        1,
        record {
          identity = 0;
          send = 0;
          state = red;
          has_state = true;
          control_published = true;
          generation = 1;
          packet_tokens = 19;
          byte_tokens = 8191;
          rate_time = 5;
        },
      )
      ∷ (2, peer 1 12 1)
      ∷ (3, peer 2 13 2)
      ∷ [];
}

abbrev to_12 : List Recipient
to_12 = record { send = 1; generation = 1 } ∷ []

lobby-routed : route 5 1 spoken lobby ≡ routed charged red 1 to_12
unfolding route may_send may_hear recipients consume_rate is_valid_peer_state
lobby-routed = refl

route-Reached_example : All (Reached false 1 red charged.peers) to_12
route-Reached_example =
    route-Reached 5 1 spoken lobby charged red 1 to_12 lobby-IsValid lobby-routed

route_complete_example : Has (record { send = 1; generation = 1 }) to_12
route_complete_example =
    route_complete 5 1 spoken lobby charged red 1 to_12 2 (peer 1 12 1) lobby-IsValid lobby-routed
      (inr (inl refl)) (omega arith)
      (record {
        has_state = refl;
        published = refl;
        receives = refl;
        session = refl;
        team = inr refl;
      })

route-playable_example :
    All (λ r. validate_downlink_packet (downlink spoken red 1 r) ≡ PacketError.none) to_12
unfolding validate_uplink_packet
route-playable_example =
    route-playable 5 1 spoken lobby charged red 1 to_12 lobby-IsValid refl lobby-routed

consume_rate_bound_example :
    (ltb 20 (consume_rate settings 900 60 (peer 0 11 1)).0.packet_tokens ≡ false)
    × (ltb 8192 (consume_rate settings 900 60 (peer 0 11 1)).0.byte_tokens ≡ false)
consume_rate_bound_example = consume_rate_bound whole-IsOrdered settings 900 60 (peer 0 11 1)

quiet-IsQuiet : IsQuiet quiet
quiet-IsQuiet = record { deliver_quiet = λ f m s. refl; elsewhere_quiet = λ s. refl }
