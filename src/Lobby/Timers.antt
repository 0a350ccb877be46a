-- ===== src/Lobby/Timers.antt =====
-- The clocks of `GameBackend::update` in src/GameBackend.cpp, after the packets of the frame: keep-alive
-- packets, the silence of the host, pings, and the ticks that send positions. Floats are a parameter.
use gip_multiplayer.Base.{Bool, true, false, ◌&&◌, not, List, [], ◌∷◌, ◌++◌, if◌then◌else◌}

-- `float`, with the comparisons that the clocks make.
pub record Clock : Type 1 where
  pub F : Type 0
  pub zero : F
  pub plus : F → F → F
  pub over_quarter : F → Bool
  pub over_one : F → Bool
  pub over_eight : F → Bool
  pub at_least_one : F → Bool
  pub at_least_tick : F → Bool

-- What a frame does outside the clocks.
pub data TimerEvent : Type 0 where
  keep_alive_packet : TimerEvent
  disconnected : TimerEvent
  ping_packet : TimerEvent
  positions : TimerEvent

module _ (c : Clock) where
  pub record Timers : Type 0 where
    pub keep_alive_timer : c.F
    pub time_since_last_keep_alive : c.F
    pub ping_timer : c.F
    pub network_timer : c.F
    pub disconnect_notified : Bool

  -- A frame of more than a quarter of a second is a stall, and counts as no silence.
  unfoldable pub stall : Timers → Timers
  stall s = record s {
    keep_alive_timer = c.zero;
    time_since_last_keep_alive = c.zero;
    ping_timer = c.zero;
  }

  unfoldable pub tick_keep_alive : c.F → Timers → Timers × List TimerEvent
  tick_keep_alive delta s =
      let later = c.plus s.keep_alive_timer delta in
      if s.disconnect_notified
      then (s, [])
      else if c.over_one later
      then (record s { keep_alive_timer = c.zero }, TimerEvent.keep_alive_packet ∷ [])
      else (record s { keep_alive_timer = later }, [])

  unfoldable pub tick_ping : c.F → Timers → Timers × List TimerEvent
  tick_ping delta s =
      let later = c.plus s.ping_timer delta in
      if s.disconnect_notified
      then (s, [])
      else if c.at_least_one later
      then (record s { ping_timer = c.zero }, TimerEvent.ping_packet ∷ [])
      else (record s { ping_timer = later }, [])

  unfoldable pub tick_network : c.F → Timers → Timers × List TimerEvent
  tick_network delta s =
      let later = c.plus s.network_timer delta in
      if c.at_least_tick later
      then (record s { network_timer = c.zero }, TimerEvent.positions ∷ [])
      else (record s { network_timer = later }, [])

  -- A client that is told of the end leaves the frame there.
  unfoldable pub update_timers : Bool → c.F → Timers → Timers × List TimerEvent
  update_timers is_server delta s =
      let alive = tick_keep_alive delta s in
      let since = c.plus alive.0.time_since_last_keep_alive delta in
      let waited = record alive.0 { time_since_last_keep_alive = since } in
      let pinged = tick_ping delta waited in
      let client_tick = tick_network delta pinged.0 in
      let server_tick = tick_network delta alive.0 in
      if c.over_quarter delta
      then (stall s, [])
      else if is_server
      then (server_tick.0, alive.1 ++ server_tick.1)
      else if c.over_eight since && not waited.disconnect_notified
      then (record waited { disconnect_notified = true }, alive.1 ++ TimerEvent.disconnected ∷ [])
      else (client_tick.0, alive.1 ++ (pinged.1 ++ client_tick.1))

  -- Frames of a client without a packet between them.
  unfoldable pub silent_frames : List c.F → Timers → Timers × List TimerEvent
  silent_frames [] s = (s, [])
  silent_frames (delta ∷ deltas) s =
      let now = update_timers false delta s in
      let rest = silent_frames deltas now.0 in (rest.0, now.1 ++ rest.1)
