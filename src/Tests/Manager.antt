-- ===== src/Tests/Manager.antt =====
-- Hosting and joining, and the clocks of a client, at concrete inputs.
use gip_multiplayer.Base.{ℕ, ◌+◌, ◌≡◌, ◌↔◌, refl, true, false, List, [], ◌∷◌, none, some, ltb, leb}
use gip_multiplayer.Lobby.{RoomPlayer}
use gip_multiplayer.Lobby.Timers.{Clock, Timers, silent_frames}
use gip_multiplayer.Lobby.Silence.{count_ends, total_silence, silent_host_noticed}
use gip_multiplayer.Manager.{
  Manager, World, Step, run, start_match, step, finish, install_backend, join_lobby, begin_join,
  disconnect, update, remove_at,
}
use gip_multiplayer.Manager.Attempts.{MayStart, start_match_iff}

abbrev opened : World
opened = record {
  manager = record {
    backend = none;
    join_generation = 0;
    host_mode = false;
    wants_disconnect = false;
    disconnect_pending = false;
  };
  in_flight = [];
}

-- A join in flight.
abbrev joining : World
joining = record {
  manager = record {
    backend = none;
    join_generation = 1;
    host_mode = false;
    wants_disconnect = false;
    disconnect_pending = false;
  };
  in_flight = 1 ∷ [];
}

-- Another join, which ends first.
abbrev impatient : List Step
impatient = Step.joins ∷ Step.finishes 1 8 [] ∷ Step.frame ∷ []

-- A join that is left before it ends: its backend is installed all the same.
abbrev left_early : List Step
left_early = Step.joins ∷ Step.disconnects ∷ Step.frame ∷ Step.finishes 0 7 [] ∷ []

left_early_joins :
    (run left_early opened).manager.backend
    ≡ some (record { number = 7; attempt = 1; room_players = [] })
unfolding run step finish install_backend join_lobby begin_join disconnect update remove_at
left_early_joins = refl

abbrev two_players : List RoomPlayer
two_players =
    record { id = 1; name = 65 ∷ []; team = 1; is_ready = false }
    ∷ record { id = 2; name = 66 ∷ []; team = 2; is_ready = true }
    ∷ []

abbrev hosting : Manager
hosting = record {
  backend = some (record { number = 1; attempt = 1; room_players = two_players });
  join_generation = 1;
  host_mode = true;
  wants_disconnect = false;
  disconnect_pending = false;
}

start_match_iff_example : (start_match hosting ≡ true) ↔ MayStart hosting
start_match_iff_example = start_match_iff hosting

-- Milliseconds.
abbrev millis : Clock
millis = record {
  F = ℕ;
  zero = 0;
  plus = λ a b. a + b;
  over_quarter = ltb 250;
  over_one = ltb 1000;
  over_eight = ltb 8000;
  at_least_one = leb 1000;
  at_least_tick = leb 50;
}

abbrev waiting : Timers millis
waiting = record {
  keep_alive_timer = 900;
  time_since_last_keep_alive = 7700;
  ping_timer = 0;
  network_timer = 0;
  disconnect_notified = false;
}

silent_host_noticed_example :
    (count_ends (silent_frames millis (200 ∷ []) waiting).1 ≡ 0)
    × (count_ends (silent_frames millis (200 ∷ 200 ∷ []) waiting).1 ≡ 1)
    × (count_ends (silent_frames millis (200 ∷ 200 ∷ 200 ∷ []) waiting).1 ≡ 1)
unfolding total_silence
silent_host_noticed_example =
    silent_host_noticed millis (200 ∷ []) 200 (200 ∷ []) waiting (refl, tt) (refl, (refl, tt)) refl
      (refl, tt) refl
