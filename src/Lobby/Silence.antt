-- ===== src/Lobby/Silence.antt =====
-- A client whose host is silent is told so, once. About `GameBackend::update` in src/GameBackend.cpp.
use gip_multiplayer.Base.{
  ℕ, suc, ◌+◌, ◌≡◌, refl, sym, ap, ◌∙◌, inl, inr, Bool, true, false, ◌&&◌, not, List, [], ◌∷◌, ◌++◌,
  arith, Bool-cases,
}
use gip_multiplayer.Lobby.Timers.{
  Clock, TimerEvent, Timers, tick_keep_alive, tick_ping, tick_network, update_timers, silent_frames,
}

-- How often the game is told of the end.
unfoldable pub count_ends : List TimerEvent → ℕ
count_ends [] = 0
count_ends (TimerEvent.disconnected ∷ es) = suc (count_ends es)
count_ends (TimerEvent.keep_alive_packet ∷ es) = count_ends es
count_ends (TimerEvent.ping_packet ∷ es) = count_ends es
count_ends (TimerEvent.positions ∷ es) = count_ends es

count_ends-append :
    (es fs : List TimerEvent) → count_ends (es ++ fs) ≡ count_ends es + count_ends fs
unfolding count_ends
count_ends-append [] fs = omega arith
count_ends-append (TimerEvent.disconnected ∷ es) fs = omega (arith, count_ends-append es fs)
count_ends-append (TimerEvent.keep_alive_packet ∷ es) fs = count_ends-append es fs
count_ends-append (TimerEvent.ping_packet ∷ es) fs = count_ends-append es fs
count_ends-append (TimerEvent.positions ∷ es) fs = count_ends-append es fs

module _ (c : Clock) where
  -- What the three ticks leave alone.
  record Quiet (s : Timers c) (r : Timers c × List TimerEvent) : Type 0 where
    no_end : count_ends r.1 ≡ 0
    same_silence : r.0.time_since_last_keep_alive ≡ s.time_since_last_keep_alive
    same_notice : r.0.disconnect_notified ≡ s.disconnect_notified

  keep_alive-Quiet : (delta : c.F) (s : Timers c) → Quiet s (tick_keep_alive c delta s)
  unfolding tick_keep_alive count_ends
  keep_alive-Quiet delta s = elim (Bool-cases s.disconnect_notified) [
    | inl n ↦ simp n (record { no_end = refl; same_silence = refl; same_notice = refl })
    | inr n ↦ elim (Bool-cases (c.over_one (c.plus s.keep_alive_timer delta))) [
      | inl o ↦ simp (n, o) (record { no_end = refl; same_silence = refl; same_notice = sym n })
      | inr o ↦ simp (n, o) (record { no_end = refl; same_silence = refl; same_notice = sym n })
    ]
  ]

  ping-Quiet : (delta : c.F) (s : Timers c) → Quiet s (tick_ping c delta s)
  unfolding tick_ping count_ends
  ping-Quiet delta s = elim (Bool-cases s.disconnect_notified) [
    | inl n ↦ simp n (record { no_end = refl; same_silence = refl; same_notice = refl })
    | inr n ↦ elim (Bool-cases (c.at_least_one (c.plus s.ping_timer delta))) [
      | inl o ↦ simp (n, o) (record { no_end = refl; same_silence = refl; same_notice = sym n })
      | inr o ↦ simp (n, o) (record { no_end = refl; same_silence = refl; same_notice = sym n })
    ]
  ]

  network-Quiet : (delta : c.F) (s : Timers c) → Quiet s (tick_network c delta s)
  unfolding tick_network count_ends
  network-Quiet delta s = elim (Bool-cases (c.at_least_tick (c.plus s.network_timer delta))) [
    | inl o ↦ simp o (record { no_end = refl; same_silence = refl; same_notice = refl })
    | inr o ↦ simp o (record { no_end = refl; same_silence = refl; same_notice = refl })
  ]

  -- The silence and the notice after a frame of a client that is not stalled.
  record Frame (delta : c.F) (s : Timers c) (ends : ℕ) (notified : Bool)
      (r : Timers c × List TimerEvent) : Type 0 where
    ends_now : count_ends r.1 ≡ ends
    silence : r.0.time_since_last_keep_alive ≡ c.plus s.time_since_last_keep_alive delta
    notice : r.0.disconnect_notified ≡ notified

  quiet-Frame :
      (delta : c.F) (s : Timers c)
      → c.over_quarter delta ≡ false
      → (c.over_eight (c.plus s.time_since_last_keep_alive delta) && not s.disconnect_notified)
        ≡ false
      → Frame delta s 0 s.disconnect_notified (update_timers c false delta s)
  unfolding update_timers
  quiet-Frame delta s q n =
      let alive = tick_keep_alive c delta s in
      let a = keep_alive-Quiet delta s in
      let since = c.plus alive.0.time_since_last_keep_alive delta in
      let waited : Timers c = record alive.0 { time_since_last_keep_alive = since } in
      let pinged = tick_ping c delta waited in
      let b = ping-Quiet delta waited in
      let ticked = tick_network c delta pinged.0 in
      let d = network-Quiet delta pinged.0 in
      let n' : (c.over_eight since && not alive.0.disconnect_notified) ≡ false =
        rw (a.same_silence, a.same_notice) n in
      simp (update_timers, q, n')
        (record {
          ends_now = omega (
            arith,
            count_ends-append alive.1 (pinged.1 ++ ticked.1),
            count_ends-append pinged.1 ticked.1,
            a.no_end,
            b.no_end,
            d.no_end,
          );
          silence = d.same_silence ∙ b.same_silence ∙ ap (λ x. c.plus x delta) a.same_silence;
          notice = d.same_notice ∙ b.same_notice ∙ a.same_notice;
        })

  last-Frame :
      (delta : c.F) (s : Timers c)
      → c.over_quarter delta ≡ false
      → (c.over_eight (c.plus s.time_since_last_keep_alive delta) && not s.disconnect_notified)
        ≡ true
      → Frame delta s 1 true (update_timers c false delta s)
  unfolding update_timers count_ends
  last-Frame delta s q n =
      let alive = tick_keep_alive c delta s in
      let a = keep_alive-Quiet delta s in
      let since = c.plus alive.0.time_since_last_keep_alive delta in
      let n' : (c.over_eight since && not alive.0.disconnect_notified) ≡ true =
        rw (a.same_silence, a.same_notice) n in
      simp (update_timers, q, n')
        (record {
          ends_now =
              omega (arith, count_ends-append alive.1 (TimerEvent.disconnected ∷ []), a.no_end);
          silence = ap (λ x. c.plus x delta) a.same_silence;
          notice = refl;
        })

  -- No frame of a list is a stall.
  abbrev pub NoStall : List c.F → Type 0
  NoStall [] = Unit
  NoStall (delta ∷ deltas) = (c.over_quarter delta ≡ false) × NoStall deltas

  -- The silence that the frames add up to, in the order of the additions.
  unfoldable pub total_silence : c.F → List c.F → c.F
  total_silence since [] = since
  total_silence since (delta ∷ deltas) = total_silence (c.plus since delta) deltas

  told_already :
      (deltas : List c.F) (s : Timers c)
      → NoStall deltas
      → s.disconnect_notified ≡ true
      → count_ends (silent_frames c deltas s).1 ≡ 0
  unfolding silent_frames count_ends
  told_already [] s q n = refl
  told_already (delta ∷ deltas) s q n =
      let done : (c.over_eight (c.plus s.time_since_last_keep_alive delta)
            && not s.disconnect_notified)
          ≡ false =
        ground arith in
      let f = quiet-Frame delta s q.0 done in
      let now = update_timers c false delta s in
      let ih = told_already deltas now.0 q.1 (f.notice ∙ n) in
      omega (arith, count_ends-append now.1 (silent_frames c deltas now.0).1, f.ends_now, ih)

  -- No frame of a list brings the silence over eight seconds.
  abbrev pub StillShort : c.F → List c.F → Type 0
  StillShort since [] = Unit
  StillShort since (delta ∷ deltas) =
      (c.over_eight (c.plus since delta) ≡ false) × StillShort (c.plus since delta) deltas

  not_told_yet :
      (deltas : List c.F) (s : Timers c)
      → NoStall deltas
      → StillShort s.time_since_last_keep_alive deltas
      → count_ends (silent_frames c deltas s).1 ≡ 0
  unfolding silent_frames count_ends
  not_told_yet [] s q short = refl
  not_told_yet (delta ∷ deltas) s q short =
      let now = update_timers c false delta s in
      let f = quiet-Frame delta s q.0 (let young = short.0 in ground arith) in
      let ih = not_told_yet deltas now.0 q.1 (rw f.silence short.1) in
      omega (arith, count_ends-append now.1 (silent_frames c deltas now.0).1, f.ends_now, ih)

  told_once :
      (before : List c.F) (last : c.F) (after : List c.F) (s : Timers c)
      → NoStall before
      → NoStall (last ∷ after)
      → s.disconnect_notified ≡ false
      → StillShort s.time_since_last_keep_alive before
      → c.over_eight (c.plus (total_silence s.time_since_last_keep_alive before) last) ≡ true
      → count_ends (silent_frames c (before ++ last ∷ after) s).1 ≡ 1
  unfolding silent_frames total_silence
  told_once [] last after s q q' n short old =
      let now = update_timers c false last s in
      let f = last-Frame last s q'.0 (ground arith) in
      let ih = told_already after now.0 q'.1 f.notice in
      omega (arith, count_ends-append now.1 (silent_frames c after now.0).1, f.ends_now, ih)
  told_once (delta ∷ before) last after s q q' n short old =
      let now = update_timers c false delta s in
      let f = quiet-Frame delta s q.0 (let young = short.0 in ground arith) in
      let ih =
        told_once before last after now.0 q.1 q' (f.notice ∙ n) (rw f.silence short.1)
          (rw f.silence old) in
      omega (
        arith,
        count_ends-append now.1 (silent_frames c (before ++ last ∷ after) now.0).1,
        f.ends_now,
        ih,
      )

  -- A client whose host stays silent is not told of the end while the silence that its frames add up
  -- to is not over eight seconds; it is told with the frame that brings the silence over eight
  -- seconds, and never again, however long the frames go on: no frame is a stall, and the client was
  -- not told before.
  pub silent_host_noticed :
      (before : List c.F) (last : c.F) (after : List c.F) (s : Timers c)
      → NoStall before
      → NoStall (last ∷ after)
      → s.disconnect_notified ≡ false
      → StillShort s.time_since_last_keep_alive before
      → c.over_eight (c.plus (total_silence s.time_since_last_keep_alive before) last) ≡ true
      → (count_ends (silent_frames c before s).1 ≡ 0)
        × (count_ends (silent_frames c (before ++ last ∷ []) s).1 ≡ 1)
        × (count_ends (silent_frames c (before ++ last ∷ after) s).1 ≡ 1)
  silent_host_noticed before last after s q q' n short old = (
    not_told_yet before s q short,
    told_once before last [] s q (q'.0, tt) n short old,
    told_once before last after s q q' n short old,
  )
