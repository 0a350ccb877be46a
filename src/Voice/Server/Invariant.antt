-- ===== src/Voice/Server/Invariant.antt =====
-- What always holds of the router's table of peers, whatever other threads and callbacks do.
use gip_multiplayer.Base.{
  ℕ, ◌^◌, ◌≤◌, ◌<◌, ◌≡◌, ◌≢◌, refl, ◌⊎◌, inl, inr, Bool, true, false, Option, none, some, length,
  arith, Bool-cases, Option-cases,
}
use gip_multiplayer.Base.Dict.{
  lookup, update, length-update, length-erase, AllValues, lookup-AllValues, update-AllValues,
  erase-AllValues,
}
use gip_multiplayer.Voice.Server.{
  Double, PeerState, Message, Peer, Server, Config, Env, is_valid_peer_state, empty_state,
  next_generation, new_server, add_peer, remove_peer, control,
}
use gip_multiplayer.Voice.Server.Control.{
  Locked, returns, sends, renew, set_locked, set_confirm, enable_packet, disable_packet, after_send,
  clear_locked, clear_confirm, superseded, clear_superseded, clear_peer_state, set_peer_state,
}

-- The generation 0 is never given out, and the counter moves on.
pub next_generation_lem :
    (g : ℕ)
    → g < 2 ^ 32
    → (next_generation g ≢ 0) × (next_generation g < 2 ^ 32) × (next_generation g ≢ g)
unfolding next_generation
next_generation_lem g h = (ground arith, ground arith, ground arith)

-- What a peer that has a state can be relied on for.
pub record IsRegistered (generation : ℕ) (state : PeerState) : Type 0 where
  pub generation_set : generation ≢ 0
  pub player : state.player_id ≢ 0
  pub team : state.team_id ≢ 0
  pub session : state.session_id ≢ 0

module _ {d : Double} where
  pub record PeerIsValid (p : Peer d) : Type 0 where
    pub word : p.generation < 2 ^ 32
    pub registered : (p.has_state ≡ false) ⊎ IsRegistered p.generation p.state

  -- Every peer is valid, and there are no more than the configuration allows.
  pub record IsValid (s : Server d) : Type 0 where
    pub peers : AllValues PeerIsValid s.peers
    pub room : length s.peers ≤ s.config.max_connections

  pub new_server-IsValid : (c : Config d) → IsValid (new_server c)
  unfolding new_server
  new_server-IsValid c = record { peers = tt; room = omega arith }

  pub add_peer-IsValid :
      (now id : ℕ) (send : Option ℕ) (s : Server d) → IsValid s → IsValid (add_peer now id send s).0
  unfolding add_peer
  add_peer-IsValid now id none s v = v
  add_peer-IsValid now id (some f) s v = ground arith

  pub remove_peer-IsValid : (id : ℕ) (s : Server d) → IsValid s → IsValid (remove_peer id s)
  unfolding remove_peer
  remove_peer-IsValid id s v = record {
    peers = erase-AllValues PeerIsValid id s.peers v.peers;
    room = omega (arith, v.room, length-erase id s.peers);
  }

  -- Writing a valid peer at a connection keeps the table valid.
  pub update-IsValid :
      (s : Server d) (id : ℕ) (q : Peer d)
      → IsValid s
      → PeerIsValid q
      → IsValid (record s { peers = update id q s.peers })
  update-IsValid s id q v w = record {
    peers = update-AllValues PeerIsValid id q s.peers w v.peers;
    room = omega (arith, v.room, length-update id q s.peers);
  }

  abbrev LockedIsValid : Locked d → Type 0
  LockedIsValid (returns r) = Unit
  LockedIsValid (sends s send generation) = IsValid s

  renew-PeerIsValid :
      (now : ℕ) (new : PeerState) (s : Server d) (p : Peer d)
      → is_valid_peer_state new ≡ true
      → PeerIsValid p
      → PeerIsValid (renew now new s p)
  unfolding renew is_valid_peer_state
  renew-PeerIsValid now new s p ok v = ground (arith, next_generation_lem p.generation)

  set_locked-IsValid :
      (now id identity : ℕ) (new : PeerState) (s : Server d)
      → is_valid_peer_state new ≡ true
      → IsValid s
      → LockedIsValid (set_locked now id identity new s)
  unfolding set_locked
  set_locked-IsValid now id identity new s ok v = elim (Option-cases (lookup id s.peers)) [
    | inl e ↦ rw (e, set_locked) tt
    | inr (p, e) ↦
        let w = lookup-AllValues PeerIsValid id s.peers p v.peers e in
        let u = update-IsValid s id (renew now new s p) v (renew-PeerIsValid now new s p ok w) in
        rw (e, set_locked) (ground (arith, u))
  ]

  clear_locked-IsValid :
      (id identity : ℕ) (s : Server d) → IsValid s → LockedIsValid (clear_locked id identity s)
  unfolding clear_locked
  clear_locked-IsValid id identity s v = elim (Option-cases (lookup id s.peers)) [
    | inl e ↦ rw (e, clear_locked) tt
    | inr (p, e) ↦
        let w = lookup-AllValues PeerIsValid id s.peers p v.peers e in
        let cleared : Peer d = record p {
          has_state = false;
          state = empty_state;
          generation = next_generation p.generation;
          control_published = false;
        } in
        let u =
          update-IsValid s id cleared v (record {
            word = (next_generation_lem p.generation w.word).1;
            registered = inl refl;
          }) in
        let u' =
          update-IsValid s id (record p { control_published = false }) v
            (record { word = w.word; registered = w.registered }) in
        rw (e, clear_locked) (ground (arith, u, u'))
  ]

  publish-IsValid :
      (s : Server d) (id : ℕ) (p : Peer d)
      → IsValid s
      → lookup id s.peers ≡ some p
      → IsValid (record s { peers = update id (record p { control_published = true }) s.peers })
  publish-IsValid s id p v e =
      let w = lookup-AllValues PeerIsValid id s.peers p v.peers e in
      update-IsValid s id (record p { control_published = true }) v
        (record { word = w.word; registered = w.registered })

  set_confirm-IsValid :
      (id identity generation : ℕ) (new : PeerState) (s : Server d)
      → IsValid s
      → IsValid (set_confirm id identity generation new s).0
  unfolding set_confirm superseded
  set_confirm-IsValid id identity generation new s v = elim (Option-cases (lookup id s.peers)) [
    | inl e ↦ rw (e, set_confirm) v
    | inr (p, e) ↦ rw (e, set_confirm) (ground (arith, publish-IsValid s id p v e))
  ]

  clear_confirm-IsValid :
      (id identity generation : ℕ) (s : Server d)
      → IsValid s
      → IsValid (clear_confirm id identity generation s).0
  unfolding clear_confirm clear_superseded
  clear_confirm-IsValid id identity generation s v = elim (Option-cases (lookup id s.peers)) [
    | inl e ↦ rw (e, clear_confirm) v
    | inr (p, e) ↦ rw (e, clear_confirm) (ground (arith, publish-IsValid s id p v e))
  ]

  -- The environment uses the server through its operations, so that it keeps the table valid.
  pub record Keeps (env : Env d) : Type 0 where
    pub elsewhere_keeps : (s : Server d) → IsValid s → IsValid (env.elsewhere s)
    pub deliver_keeps :
        (f : ℕ) (m : Message) (s : Server d) → IsValid s → IsValid (env.deliver f m s).0

  after_send-IsValid :
      (r : Server d × Bool) (confirm : Server d → Server d × Bool)
      → ((s : Server d) → IsValid s → IsValid (confirm s).0)
      → IsValid r.0
      → IsValid (after_send r confirm).0
  after_send-IsValid (s, true) confirm keep v = keep s v
  after_send-IsValid (s, false) confirm keep v = record { peers = v.peers; room = v.room }

  -- `clearPeerState` keeps the table valid in every environment that does.
  pub clear_peer_state-IsValid :
      (env : Env d) (id : ℕ) (s : Server d)
      → Keeps env
      → IsValid s
      → IsValid (clear_peer_state env id s).0
  unfolding clear_peer_state
  clear_peer_state-IsValid env id s k v = elim (Option-cases (lookup id s.peers)) [
    | inl e ↦ rw (e, clear_peer_state) v
    | inr (p, e) ↦
        let v1 = k.elsewhere_keeps s v in
        rw (e, clear_peer_state)
          (go p (clear_locked id p.identity (env.elsewhere s)) v1
            (clear_locked-IsValid id p.identity (env.elsewhere s) v1))
  ]
    where
      go :
          (p : Peer d) (l : Locked d)
          → IsValid (env.elsewhere s)
          → LockedIsValid l
          → let r : Server d × Bool = elim l [
            | returns b ↦ (env.elsewhere s, b)
            | sends s2 send generation ↦
                after_send
                  (env.deliver send (control disable_packet) s2)
                  (clear_confirm id p.identity generation)
          ] in
            IsValid r.0
      go p (returns b) v1 w = v1
      go p (sends s2 send generation) v1 w =
          after_send-IsValid (env.deliver send (control disable_packet) s2) _
            (λ t u. clear_confirm-IsValid id p.identity generation t u)
            (k.deliver_keeps send (control disable_packet) s2 w)

  -- `setPeerState` keeps the table valid in every environment that does.
  pub set_peer_state-IsValid :
      (env : Env d) (now id : ℕ) (new : PeerState) (s : Server d)
      → Keeps env
      → IsValid s
      → IsValid (set_peer_state env now id new s).0
  unfolding set_peer_state
  set_peer_state-IsValid env now id new s k v = elim (Bool-cases (is_valid_peer_state new)) [
    | inr bad ↦ rw bad (clear_peer_state-IsValid env id s k v)
    | inl good ↦ elim (Option-cases (lookup id s.peers)) [
      | inl e ↦ rw (good, e, set_peer_state) v
      | inr (p, e) ↦
          let v1 = k.elsewhere_keeps s v in
          rw (good, e, set_peer_state)
            (go p (set_locked now id p.identity new (env.elsewhere s)) v1
              (set_locked-IsValid now id p.identity new (env.elsewhere s) good v1))
    ]
  ]
    where
      go :
          (p : Peer d) (l : Locked d)
          → IsValid (env.elsewhere s)
          → LockedIsValid l
          → let r : Server d × Bool = elim l [
            | returns b ↦ (env.elsewhere s, b)
            | sends s2 send generation ↦
                after_send
                  (env.deliver send (control (enable_packet new generation)) s2)
                  (set_confirm id p.identity generation new)
          ] in
            IsValid r.0
      go p (returns b) v1 w = v1
      go p (sends s2 send generation) v1 w =
          after_send-IsValid (env.deliver send (control (enable_packet new generation)) s2) _
            (λ t u. set_confirm-IsValid id p.identity generation new t u)
            (k.deliver_keeps send (control (enable_packet new generation)) s2 w)
