-- ===== src/Broker/Rooms.antt =====
-- The room table of the master server: registering, heartbeats, ageing, and the query by room code, of
-- `gMasterPacketHandler` and `gMasterServerApp::update` in src/master/MasterMain.cpp.
use gip_multiplayer.Base.{
  ℕ, Bool, true, false, not, ◌||◌, List, [], ◌∷◌, ◌++◌, Option, none, some, if◌then◌else◌,
}
use gip_multiplayer.Base.Text.{Text, text_eq}
use gip_multiplayer.Master.{
  MasterHeartbeatPacket, MasterRegisterResponsePacket, MasterQueryRoomPacket,
}
use gip_multiplayer.Broker.{
  ServerInfo, MasterRegisterPacket, MasterQueryRoomResPacket, PeerSession, Traversal, Age,
}
use gip_multiplayer.Broker.Address.{ℤ, advertised_port, peer_addresses}
use gip_multiplayer.Broker.Codes.{generate_unique_room_code}

module _ {C F : Type 0} where
  -- The first row with an address.
  unfoldable pub find_server : Text → List (ServerInfo C F) → Option (ServerInfo C F)
  find_server ip [] = none
  find_server ip (s ∷ ss) = if text_eq s.ip ip then some s else find_server ip ss

  -- A change to the first row with an address.
  unfoldable pub change_first :
      Text → (ServerInfo C F → ServerInfo C F) → List (ServerInfo C F) → List (ServerInfo C F)
  change_first ip f [] = []
  change_first ip f (s ∷ ss) =
      let rest = change_first ip f ss in if text_eq s.ip ip then f s ∷ ss else s ∷ rest

  -- The first row with a room code.
  unfoldable pub find_room : Text → List (ServerInfo C F) → Option (ServerInfo C F)
  find_room code [] = none
  find_room code (s ∷ ss) = if text_eq s.room_code code then some s else find_room code ss

  unfoldable pub query_room :
      MasterQueryRoomPacket → List (ServerInfo C F) → MasterQueryRoomResPacket
  query_room p ss = elim (find_room p.room_code ss) [
    | none ↦ record {
      room_code = p.room_code;
      found = false;
      name = [];
      current_players = 0;
      max_players = 0;
      has_password = false;
      is_dedicated = false;
      use_p2p = false;
      ip = [];
    }
    | some s ↦ record {
      room_code = p.room_code;
      found = true;
      name = s.name;
      current_players = s.current_players;
      max_players = s.max_players;
      has_password = s.has_password;
      is_dedicated = s.is_dedicated;
      use_p2p = s.use_p2p;
      ip = s.ip;
    }
  ]

-- The address that a host is listed at: the one observed, with the port that it advertises.
unfoldable pub actual_ip : (Text → Option ℤ) → PeerSession → Text → Text
actual_ip stoi peer text = peer.with_port (advertised_port stoi text)

module _ (t : Traversal) (a : Age) where
  abbrev Row : Type 0
  Row = ServerInfo t.C a.F

  -- The fields of a row that a register packet sets.
  unfoldable pub refreshed : PeerSession → MasterRegisterPacket t.C → Text → Row → Row
  refreshed peer p ip s = record s {
    name = p.name;
    current_players = p.current_players;
    max_players = p.max_players;
    match_state = p.match_state;
    is_private = p.is_private;
    has_password = p.has_password;
    is_dedicated = p.is_dedicated;
    use_p2p = p.use_p2p;
    host_session = peer.session;
    last_heartbeat = a.fresh;
    peer_candidates = peer_addresses t ip p.candidates;
    candidates = p.candidates;
  }

  unfoldable pub new_server : PeerSession → MasterRegisterPacket t.C → Text → Text → Row
  new_server peer p ip code = record {
    ip = ip;
    peer_candidates = peer_addresses t ip p.candidates;
    candidates = p.candidates;
    name = p.name;
    current_players = p.current_players;
    max_players = p.max_players;
    match_state = p.match_state;
    last_heartbeat = a.fresh;
    is_private = p.is_private;
    has_password = p.has_password;
    is_dedicated = p.is_dedicated;
    use_p2p = p.use_p2p;
    room_code = code;
    host_session = peer.session;
  }

  -- The table after a register packet, and the response.
  unfoldable pub register :
      (Text → Option ℤ)
      → (ℕ → ℕ)
      → PeerSession
      → MasterRegisterPacket t.C
      → List Row
      → List Row × MasterRegisterResponsePacket
  register stoi draw peer p ss =
      let ip = actual_ip stoi peer p.ip in
      let code = generate_unique_room_code draw ss in
      elim (find_server ip ss) [
        | some s ↦ (change_first ip (refreshed peer p ip) ss, record { room_code = s.room_code })
        | none ↦ (ss ++ new_server peer p ip code ∷ [], record { room_code = code })
      ]

  abbrev pub beaten : Row → Row
  beaten s = record s { last_heartbeat = a.fresh }

  unfoldable pub heartbeat :
      (Text → Option ℤ) → PeerSession → MasterHeartbeatPacket → List Row → List Row
  heartbeat stoi peer p ss = change_first (actual_ip stoi peer p.ip) beaten ss

  abbrev pub aged : a.F → Row → Row
  aged delta s = record s { last_heartbeat = a.plus s.last_heartbeat delta }

  -- Whether a row goes: its session is gone, or it is past 30 seconds.
  abbrev pub is_dead : (ℕ → Bool) → Row → Bool
  is_dead alive s = not (alive s.host_session) || a.past_30 s.last_heartbeat

  unfoldable pub update : (ℕ → Bool) → a.F → List Row → List Row
  update alive delta [] = []
  update alive delta (s ∷ ss) =
      let rest = update alive delta ss in
      if is_dead alive (aged delta s) then rest else aged delta s ∷ rest

  -- What changes the table: a register packet, a heartbeat, or a frame of the server. The random
  -- numbers and the sessions that are still there come with the step.
  pub data Request : Type 0 where
    register_packet : (ℕ → ℕ) → PeerSession → MasterRegisterPacket t.C → Request
    heartbeat_packet : PeerSession → MasterHeartbeatPacket → Request
    frame : (ℕ → Bool) → a.F → Request

  unfoldable pub handle : (Text → Option ℤ) → Request → List Row → List Row
  handle stoi (register_packet draw peer p) ss = (register stoi draw peer p ss).0
  handle stoi (heartbeat_packet peer p) ss = heartbeat stoi peer p ss
  handle stoi (frame alive delta) ss = update alive delta ss

  unfoldable pub run : (Text → Option ℤ) → List Request → List Row → List Row
  run stoi [] ss = ss
  run stoi (r ∷ rs) ss = run stoi rs (handle stoi r ss)
