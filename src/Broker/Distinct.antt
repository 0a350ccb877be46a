-- ===== src/Broker/Distinct.antt =====
-- The rows of the master's table: no address twice, no room code twice, through registering, heartbeats
-- and ageing. About src/master/MasterMain.cpp.
use gip_multiplayer.Base.{
  ℕ, ◌<◌, ◌*◌, ◌≡◌, refl, inl, inr, Bool, false, List, [], ◌∷◌, Option, none, Bool-cases,
  Option-cases,
}
use gip_multiplayer.Base.Text.{Text}
use gip_multiplayer.Master.{MasterHeartbeatPacket}
use gip_multiplayer.Broker.{ServerInfo, MasterRegisterPacket, PeerSession, Traversal, Age}
use gip_multiplayer.Broker.Address.{ℤ}
use gip_multiplayer.Broker.Codes.{
  is_taken, generate_room_code, generate_unique_room_code, generate_unique_room_code-is_free,
}
use gip_multiplayer.Broker.Rooms.{
  find_server, actual_ip, refreshed, new_server, register, beaten, heartbeat, aged, is_dead, update,
  Request, handle, run,
}
use gip_multiplayer.Broker.Table.{
  DistinctIps, DistinctCodes, found_ne, found_rest, taken_ne, DistinctIps-append,
  DistinctCodes-append, DistinctIps-change_first, DistinctCodes-change_first,
}

-- Ageing only takes rows away.
module _ (t : Traversal) (a : Age) where
  pub find-update :
      (ip : Text) (alive : ℕ → Bool) (delta : a.F) (ss : List (ServerInfo t.C a.F))
      → find_server ip ss ≡ none
      → find_server ip (update t a alive delta ss) ≡ none
  unfolding find_server update
  find-update ip alive delta [] h = refl
  find-update ip alive delta (x ∷ ss) h =
      let ih = find-update ip alive delta ss (found_rest ip x ss h) in
      elim (Bool-cases (is_dead t a alive (aged t a delta x))) [
        | inl b ↦ rw b ih
        | inr b ↦ rw (b, found_ne ip x ss h) ih
      ]

  taken-update :
      (code : Text) (alive : ℕ → Bool) (delta : a.F) (ss : List (ServerInfo t.C a.F))
      → is_taken code ss ≡ false
      → is_taken code (update t a alive delta ss) ≡ false
  unfolding is_taken update
  taken-update code alive delta [] h = refl
  taken-update code alive delta (x ∷ ss) h =
      let ne = taken_ne code x ss h in
      let ih = taken-update code alive delta ss ne.1 in
      elim (Bool-cases (is_dead t a alive (aged t a delta x))) [
        | inl b ↦ rw b ih
        | inr b ↦ rw (b, ne.0) ih
      ]

  pub DistinctIps-update :
      (alive : ℕ → Bool) (delta : a.F) (ss : List (ServerInfo t.C a.F))
      → DistinctIps ss
      → DistinctIps (update t a alive delta ss)
  unfolding update
  DistinctIps-update alive delta [] d = tt
  DistinctIps-update alive delta (x ∷ ss) d =
      let ih = DistinctIps-update alive delta ss d.1 in
      elim (Bool-cases (is_dead t a alive (aged t a delta x))) [
        | inl b ↦ rw b ih
        | inr b ↦ rw b (find-update x.ip alive delta ss d.0, ih)
      ]

  pub DistinctCodes-update :
      (alive : ℕ → Bool) (delta : a.F) (ss : List (ServerInfo t.C a.F))
      → DistinctCodes ss
      → DistinctCodes (update t a alive delta ss)
  unfolding update
  DistinctCodes-update alive delta [] d = tt
  DistinctCodes-update alive delta (x ∷ ss) d =
      let ih = DistinctCodes-update alive delta ss d.1 in
      elim (Bool-cases (is_dead t a alive (aged t a delta x))) [
        | inl b ↦ rw b ih
        | inr b ↦ rw b (taken-update x.room_code alive delta ss d.0, ih)
      ]

  pub DistinctIps-register :
      (stoi : Text → Option ℤ) (draw : ℕ → ℕ) (peer : PeerSession) (p : MasterRegisterPacket t.C)
      (ss : List (ServerInfo t.C a.F))
      → DistinctIps ss
      → DistinctIps (register t a stoi draw peer p ss).0
  unfolding register refreshed new_server
  DistinctIps-register stoi draw peer p ss d =
      let ip = actual_ip stoi peer p.ip in
      elim (Option-cases (find_server ip ss)) [
        | inl h ↦
            rw (register, h)
              (DistinctIps-append (new_server t a peer p ip (generate_unique_room_code draw ss)) ss
                h d)
        | inr (s, h) ↦
            rw (register, h)
              (DistinctIps-change_first ip (refreshed t a peer p ip) (λ s. refl) ss d)
      ]

  -- Registering keeps the room codes apart, where one of the 32 codes that are drawn is free.
  pub DistinctCodes-register :
      (stoi : Text → Option ℤ) (draw : ℕ → ℕ) (peer : PeerSession) (p : MasterRegisterPacket t.C)
      (ss : List (ServerInfo t.C a.F)) (k : ℕ)
      → k < 32
      → is_taken (generate_room_code draw (k * 6)) ss ≡ false
      → DistinctCodes ss
      → DistinctCodes (register t a stoi draw peer p ss).0
  unfolding register refreshed new_server
  DistinctCodes-register stoi draw peer p ss k l free d =
      let ip = actual_ip stoi peer p.ip in
      elim (Option-cases (find_server ip ss)) [
        | inl h ↦
            rw (register, h)
              (DistinctCodes-append (new_server t a peer p ip (generate_unique_room_code draw ss))
                ss (generate_unique_room_code-is_free draw k ss l free) d)
        | inr (s, h) ↦
            rw (register, h)
              (DistinctCodes-change_first ip (refreshed t a peer p ip) (λ s. refl) ss d)
      ]

  pub DistinctIps-heartbeat :
      (stoi : Text → Option ℤ) (peer : PeerSession) (p : MasterHeartbeatPacket)
      (ss : List (ServerInfo t.C a.F))
      → DistinctIps ss
      → DistinctIps (heartbeat t a stoi peer p ss)
  unfolding heartbeat
  DistinctIps-heartbeat stoi peer p ss d =
      DistinctIps-change_first (actual_ip stoi peer p.ip) (beaten t a) (λ s. refl) ss d

  pub DistinctCodes-heartbeat :
      (stoi : Text → Option ℤ) (peer : PeerSession) (p : MasterHeartbeatPacket)
      (ss : List (ServerInfo t.C a.F))
      → DistinctCodes ss
      → DistinctCodes (heartbeat t a stoi peer p ss)
  unfolding heartbeat
  DistinctCodes-heartbeat stoi peer p ss d =
      DistinctCodes-change_first (actual_ip stoi peer p.ip) (beaten t a) (λ s. refl) ss d

  pub DistinctIps-handle :
      (stoi : Text → Option ℤ) (r : Request t a) (ss : List (ServerInfo t.C a.F))
      → DistinctIps ss
      → DistinctIps (handle t a stoi r ss)
  unfolding handle
  DistinctIps-handle stoi (Request.register_packet draw peer p) ss d =
      DistinctIps-register stoi draw peer p ss d
  DistinctIps-handle stoi (Request.heartbeat_packet peer p) ss d =
      DistinctIps-heartbeat stoi peer p ss d
  DistinctIps-handle stoi (Request.frame alive delta) ss d = DistinctIps-update alive delta ss d

  -- Whatever packets and frames the master server handles, in whatever order, no two rows of its table
  -- come to have one address, where no two had one before.
  pub DistinctIps-run :
      (stoi : Text → Option ℤ) (rs : List (Request t a)) (ss : List (ServerInfo t.C a.F))
      → DistinctIps ss
      → DistinctIps (run t a stoi rs ss)
  unfolding run
  DistinctIps-run stoi [] ss d = d
  DistinctIps-run stoi (r ∷ rs) ss d =
      DistinctIps-run stoi rs (handle t a stoi r ss) (DistinctIps-handle stoi r ss d)
