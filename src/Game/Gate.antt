-- ===== src/Game/Gate.antt =====
-- What a connection can bring into the host's queue.
use gip_multiplayer.Base.{
  ℕ, ◌≡◌, refl, ap, inl, inr, false, ◌&&◌, not, List, [], ◌∷◌, some, ◌!=◌, All, All-append,
  Bool-cases,
}
use gip_multiplayer.Base.Text.{text_eq}
use gip_multiplayer.Game.{GamePacket}
use gip_multiplayer.Game.Session.{HostInfo, Action, enqueue, on_join, on_packet, run_session}

module _ {F : Type 0} where
  -- A join that gets into the queue of a private host has its password; a chat message that does
  -- has the player `i` for its sender.
  abbrev pub Admitted : HostInfo → ℕ → GamePacket F → Type 0
  Admitted h i (GamePacket.lobby_join p) =
      (h.is_private_server && not (text_eq h.server_password p.password)) ≡ false
  Admitted h i (GamePacket.chat_message m) = m.sender_id ≡ i
  Admitted h i p = Unit

  abbrev pub Enqueues : HostInfo → ℕ → Action F → Type 0
  Enqueues h i (enqueue p) = Admitted h i p
  Enqueues h i a = Unit

  -- The packet claims to be from the player, if it claims anything that tags the connection.
  abbrev pub Claims : ℕ → GamePacket F → Type 0
  Claims i (GamePacket.node_state p) = p.netid ≡ i
  Claims i (GamePacket.lobby_join p) = p.sender_id ≡ i
  Claims i p = Unit

  on_packet-Enqueues :
      (otherwise : GamePacket F → List (Action F)) (h : HostInfo) (i : ℕ) (p : GamePacket F)
      → ((q : GamePacket F) → All (Enqueues h i) (otherwise q))
      → Claims i p
      → ((on_packet otherwise h (some i) p).0 ≡ some i)
        × All (Enqueues h i) (on_packet otherwise h (some i) p).1
  unfolding on_packet on_join
  on_packet-Enqueues otherwise h i (GamePacket.node_state p) o c =
      (ap (λ k. some k) c, (tt, (tt, tt)))
  on_packet-Enqueues otherwise h i (GamePacket.node_leave p) o c =
      (refl, o (GamePacket.node_leave p))
  on_packet-Enqueues otherwise h i (GamePacket.player_fire p) o c = (refl, (tt, (tt, tt)))
  on_packet-Enqueues otherwise h i (GamePacket.player_hit p) o c = (refl, (tt, (tt, tt)))
  on_packet-Enqueues otherwise h i (GamePacket.player_killed p) o c = (refl, (tt, (tt, tt)))
  on_packet-Enqueues otherwise h i GamePacket.server_query_req o c = (refl, (tt, tt))
  on_packet-Enqueues otherwise h i (GamePacket.server_query_res p) o c = (refl, tt)
  on_packet-Enqueues otherwise h i (GamePacket.lobby_join p) o c =
      elim (Bool-cases (h.is_private_server && not (text_eq h.server_password p.password))) [
        | inl wrong ↦ rw (on_packet, on_join, wrong) (refl, (tt, tt))
        | inr right ↦ rw (on_packet, on_join, right) (ap (λ k. some k) c, (right, (tt, tt)))
      ]
  on_packet-Enqueues otherwise h i (GamePacket.lobby_state p) o c = (refl, tt)
  on_packet-Enqueues otherwise h i (GamePacket.toggle_ready p) o c = (refl, (tt, tt))
  on_packet-Enqueues otherwise h i (GamePacket.switch_team p) o c = (refl, (tt, tt))
  on_packet-Enqueues otherwise h i GamePacket.start_match o c = (refl, (tt, tt))
  on_packet-Enqueues otherwise h i (GamePacket.lobby_kick p) o c = (refl, tt)
  on_packet-Enqueues otherwise h i GamePacket.keep_alive o c = (refl, (tt, tt))
  on_packet-Enqueues otherwise h i (GamePacket.ping p) o c = elim (Bool-cases (i != 0)) [
    | inl e ↦ rw e (refl, (tt, (tt, tt)))
    | inr e ↦ rw e (refl, (tt, tt))
  ]
  on_packet-Enqueues otherwise h i (GamePacket.pong p) o c = (refl, (tt, tt))
  on_packet-Enqueues otherwise h i (GamePacket.chat_message p) o c = (refl, (refl, tt))
  on_packet-Enqueues otherwise h i (GamePacket.ping_snapshot p) o c = (refl, tt)

  -- Whatever a connection sends in whatever order, as long as it claims no other player than the one
  -- it is tagged with: each join that gets into the queue has the password of a private host, and
  -- each chat message that does has that player for its sender. What the library does with a
  -- leave, which has no handler, must keep to the same.
  pub run_session-Enqueues :
      (otherwise : GamePacket F → List (Action F)) (h : HostInfo) (i : ℕ) (ps : List (GamePacket F))
      → ((q : GamePacket F) → All (Enqueues h i) (otherwise q))
      → All (Claims i) ps
      → All (Enqueues h i) (run_session otherwise h (some i) ps)
  unfolding run_session
  run_session-Enqueues otherwise h i [] o c = tt
  run_session-Enqueues otherwise h i (p ∷ ps) o c =
      let (tag, now) = on_packet-Enqueues otherwise h i p o c.0 in
      rw tag (
        All-append (Enqueues h i) (on_packet otherwise h (some i) p).1
          (run_session otherwise h (some i) ps) now (run_session-Enqueues otherwise h i ps o c.1))
