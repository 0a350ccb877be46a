-- ===== src/Voice/Server/Control.antt =====
-- Publishing a peer's state: `setPeerState` and `clearPeerState` of src/voice/gTeamVoiceServer.cpp.
use gip_multiplayer.Base.{ℕ, Bool, true, false, not, ◌&&◌, ◌||◌, none, some, ◌!=◌, if◌then◌else◌}
use gip_multiplayer.Base.Dict.{lookup, update}
use gip_multiplayer.Voice.Packets.{SessionPacket, protocol_version}
use gip_multiplayer.Voice.Server.{
  Double, PeerState, control, Peer, Server, Env, is_valid_peer_state, peer_states_equal,
  empty_state, next_generation, count_send_failure,
}

-- How the locked region before the send ends: with a return, or with a packet to send.
pub data Locked (d : Double) : Type 0 where
  returns : Bool → Locked d
  sends : Server d → ℕ → ℕ → Locked d

unfoldable pub enable_packet : PeerState → ℕ → SessionPacket
enable_packet new generation = record {
  version = protocol_version;
  enabled = true;
  session_id = new.session_id;
  membership_generation = generation;
  player_id = new.player_id;
}

abbrev pub disable_packet : SessionPacket
disable_packet = record {
  version = protocol_version;
  enabled = false;
  session_id = 0;
  membership_generation = 0;
  player_id = 0;
}

module _ {d : Double} where
  -- `peer->state = newstate` and what goes with it.
  unfoldable pub renew : ℕ → PeerState → Server d → Peer d → Peer d
  renew now new s p = record p {
    state = new;
    has_state = true;
    control_published = false;
    generation = next_generation p.generation;
    packet_tokens = s.config.packet_burst;
    byte_tokens = s.config.byte_burst;
    rate_time = now;
  }

  unfoldable pub set_locked : ℕ → ℕ → ℕ → PeerState → Server d → Locked d
  set_locked now id identity new s = elim (lookup id s.peers) [
    | none ↦ returns false
    | some p ↦
        if p.identity != identity
        then returns false
        else if p.has_state && peer_states_equal p.state new
        then if p.control_published then returns true else sends s p.send p.generation
        else let q = renew now new s p in
          sends (record s { peers = update id q s.peers }) q.send q.generation
  ]

  -- Something else happened to the peer while its packet was sent.
  unfoldable pub superseded : ℕ → ℕ → PeerState → Peer d → Bool
  superseded identity generation new p =
      p.identity != identity
      || (not p.has_state || (p.generation != generation || not (peer_states_equal p.state new)))

  unfoldable pub clear_superseded : ℕ → ℕ → Peer d → Bool
  clear_superseded identity generation p =
      p.identity != identity || (p.has_state || p.generation != generation)

  -- The last locked region: the packet counts as published only if nothing changed meanwhile.
  unfoldable pub set_confirm : ℕ → ℕ → ℕ → PeerState → Server d → Server d × Bool
  set_confirm id identity generation new s = elim (lookup id s.peers) [
    | none ↦ (s, false)
    | some p ↦
        if superseded identity generation new p
        then (s, false)
        else (record s { peers = update id (record p { control_published = true }) s.peers }, true)
  ]

  -- After the send: count a failure, or go on to confirm.
  abbrev pub after_send : Server d × Bool → (Server d → Server d × Bool) → Server d × Bool
  after_send (s, true) confirm = confirm s
  after_send (s, false) confirm = (count_send_failure s, false)

  unfoldable pub clear_locked : ℕ → ℕ → Server d → Locked d
  clear_locked id identity s = elim (lookup id s.peers) [
    | none ↦ returns false
    | some p ↦
        if p.identity != identity
        then returns false
        else if not p.has_state && p.control_published
        then returns true
        else let q : Peer d =
            if p.has_state
            then record p {
              has_state = false;
              state = empty_state;
              generation = next_generation p.generation;
              control_published = false;
            }
            else record p { control_published = false } in
          sends (record s { peers = update id q s.peers }) q.send q.generation
  ]

  unfoldable pub clear_confirm : ℕ → ℕ → ℕ → Server d → Server d × Bool
  clear_confirm id identity generation s = elim (lookup id s.peers) [
    | none ↦ (s, false)
    | some p ↦
        if clear_superseded identity generation p
        then (s, false)
        else (record s { peers = update id (record p { control_published = true }) s.peers }, true)
  ]

  unfoldable pub clear_peer_state : Env d → ℕ → Server d → Server d × Bool
  clear_peer_state env id s = elim (lookup id s.peers) [
    | none ↦ (s, false)
    | some p ↦
        let s1 = env.elsewhere s in
        elim (clear_locked id p.identity s1) [
          | returns r ↦ (s1, r)
          | sends s2 send generation ↦
              after_send (env.deliver send (control disable_packet) s2)
                (clear_confirm id p.identity generation)
        ]
  ]

  unfoldable pub set_peer_state : Env d → ℕ → ℕ → PeerState → Server d → Server d × Bool
  set_peer_state env now id new s =
      if not (is_valid_peer_state new)
      then clear_peer_state env id s
      else elim (lookup id s.peers) [
        | none ↦ (s, false)
        | some p ↦
            let s1 = env.elsewhere s in
            elim (set_locked now id p.identity new s1) [
              | returns r ↦ (s1, r)
              | sends s2 send generation ↦
                  after_send (env.deliver send (control (enable_packet new generation)) s2)
                    (set_confirm id p.identity generation new)
            ]
      ]
