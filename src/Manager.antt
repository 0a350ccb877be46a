-- ===== src/Manager.antt =====
-- `NetworkManager` of src/NetworkManager.cpp: which backend is installed while hosts and joins overlap,
-- and what the host of a lobby may do. A join runs on a thread of its own, and ends in any order.
pub mod Attempts
use gip_multiplayer.Base.{
  ℕ, zero, suc, ◌+◌, ◌-◌, Bool, true, false, ◌&&◌, ◌||◌, not, List, [], ◌∷◌, ◌++◌, Option, none,
  some, leb, ltb, ◌==◌, ◌!=◌, if◌then◌else◌, length, get_elem?, add64,
}
use gip_multiplayer.Base.Text.{Text, text_eq}
use gip_multiplayer.Lobby.{RoomPlayer}

-- A backend object: its number, the attempt that made it, and the room that it shows.
pub record Link : Type 0 where
  pub number : ℕ
  pub attempt : ℕ
  pub room_players : List RoomPlayer

pub record Manager : Type 0 where
  pub backend : Option Link
  pub join_generation : ℕ
  pub host_mode : Bool
  pub wants_disconnect : Bool
  pub disconnect_pending : Bool

-- The old backend is gone, and what is in flight is of an older attempt from here on.
unfoldable pub begin_join : Manager → Manager
begin_join s = record s {
  disconnect_pending = false;
  backend = none;
  join_generation = add64 s.join_generation 1;
}

abbrev pub set_backend : Option Link → Manager → Manager
set_backend next s = record s { backend = next }

unfoldable pub install_backend : Link → ℕ → Manager → Manager × Bool
install_backend next generation s =
    if generation != s.join_generation then (s, false) else (set_backend (some next) s, true)

abbrev pub made : ℕ → List RoomPlayer → Manager → Option Link
made number players s =
    some (record { number = number; attempt = s.join_generation; room_players = players })

unfoldable pub use_backend : ℕ → List RoomPlayer → Manager → Manager
use_backend number players s =
    let fresh = record (begin_join s) { wants_disconnect = false; disconnect_pending = false } in
    set_backend (made number players fresh) fresh

-- `hostLobby`: a local backend is made and installed.
unfoldable pub host_lobby : ℕ → Manager → Manager
host_lobby number s =
    let fresh = record (begin_join s) { wants_disconnect = false; host_mode = true } in
    set_backend (made number [] fresh) fresh

-- `joinLobby`, up to the start of its thread.
unfoldable pub join_lobby : Manager → Manager
join_lobby s = record (begin_join s) { wants_disconnect = false; host_mode = false }

unfoldable pub disconnect : Manager → Manager
disconnect s = record s { wants_disconnect = true }

-- `update`, as far as the backend goes; whether the game is told of the end.
unfoldable pub update : Manager → Manager × Bool
update s =
    if s.wants_disconnect
    then (record s { backend = none; wants_disconnect = false }, true)
    else (s, false)

-- The callback of a backend whose host is silent, with whether the game has a handler.
unfoldable pub on_disconnected : Bool → Manager → Manager
on_disconnected has_handler s = if has_handler then s else record s { disconnect_pending = true }

-- The manager and the generations of the joins in flight.
pub record World : Type 0 where
  pub manager : Manager
  pub in_flight : List ℕ

pub data Step : Type 0 where
  hosts : ℕ → Step
  uses : ℕ → List RoomPlayer → Step
  joins : Step
  finishes : ℕ → ℕ → List RoomPlayer → Step
  disconnects : Step
  frame : Step
  goes_silent : Bool → Step

unfoldable pub remove_at : ℕ → List ℕ → List ℕ
remove_at i [] = []
remove_at zero (g ∷ gs) = gs
remove_at (suc i) (g ∷ gs) = g ∷ remove_at i gs

-- The end of a join's thread, which has made a backend for its generation.
unfoldable pub finish : ℕ → ℕ → List RoomPlayer → World → World
finish i number players w = elim (get_elem? w.in_flight i) [
  | none ↦ w
  | some g ↦
      let link : Link = record { number = number; attempt = g; room_players = players } in
      record { manager = (install_backend link g w.manager).0; in_flight = remove_at i w.in_flight }
]

unfoldable pub step : Step → World → World
step (Step.hosts number) w = record w { manager = host_lobby number w.manager }
step (Step.uses number players) w = record w { manager = use_backend number players w.manager }
step Step.joins w =
    let s = join_lobby w.manager in
    record { manager = s; in_flight = w.in_flight ++ s.join_generation ∷ [] }
step (Step.finishes i number players) w = finish i number players w
step Step.disconnects w = record w { manager = disconnect w.manager }
step Step.frame w = record w { manager = (update w.manager).0 }
step (Step.goes_silent has_handler) w = record w { manager = on_disconnected has_handler w.manager }

unfoldable pub run : List Step → World → World
run [] w = w
run (x ∷ xs) w = run xs (step x w)

unfoldable pub count_ready : List RoomPlayer → ℕ
count_ready [] = 0
count_ready (p ∷ ps) = let rest = count_ready ps in if p.is_ready then suc rest else rest

-- `startMatch`: whether the packets are sent. The room is not empty where one is subtracted.
unfoldable pub start_match : Manager → Bool
start_match s = elim s.backend [
  | none ↦ false
  | some link ↦
      if not s.host_mode || length link.room_players == 0
      then false
      else not (ltb (count_ready link.room_players) (length link.room_players - 1))
]

-- `kickPlayer`: whether the backend is asked.
unfoldable pub may_kick : Manager → Bool
may_kick s = elim s.backend [ none ↦ false | some link ↦ s.host_mode ]

-- Where `toggleReady` and `switchTeam` put their packet: into the host's own queue, or on the way to
-- the host; nowhere without a backend.
pub data Route : Type 0 where
  dropped : Route
  own_queue : Route
  network : Route

unfoldable pub lobby_route : Manager → Route
lobby_route s = elim s.backend [
  | none ↦ Route.dropped
  | some link ↦ if s.host_mode then Route.own_queue else Route.network
]

unfoldable pub find_id : Text → List RoomPlayer → ℕ
find_id name [] = 0
find_id name (p ∷ ps) = if text_eq p.name name then p.id else find_id name ps

unfoldable pub find_player_id_by_name : Text → Manager → ℕ
find_player_id_by_name name s = elim s.backend [
  | none ↦ 0
  | some link ↦ find_id name link.room_players
]
