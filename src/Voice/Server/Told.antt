-- ===== src/Voice/Server/Told.antt =====
-- What the clients have been told: a peer of the table counts as published only when the callback of
-- that peer has taken the packet for its state. About src/voice/gTeamVoiceServer.cpp.
use gip_multiplayer.Base.{
  ℕ, ◌≡◌, refl, ◌∙◌, ◌⊎◌, inl, inr, ◌&&◌, true, false, Option, none, some, leb, length, arith,
  Bool-cases, Option-cases, ◌==◌, ◌!=◌, if◌then◌else◌,
}
use gip_multiplayer.Base.Dict.{lookup, update, lookup-update, AllValues, update-AllValues}
use gip_multiplayer.Voice.Packets.{SessionPacket}
use gip_multiplayer.Voice.Server.{
  Double, PeerState, Message, Peer, Server, Env, control, peer_states_equal, empty_state, add_peer,
  next_generation,
}
use gip_multiplayer.Voice.Server.Control.{Locked, returns, sends, renew, set_locked, clear_locked}

pub peer_states_equal_iff : (l r : PeerState) → peer_states_equal l r ≡ true → l ≡ r
unfolding peer_states_equal
peer_states_equal_iff l r h = ground arith

pub found {ℓ} : {A : Type ℓ} (k : ℕ) (x y : A) → (if k == k then x else y) ≡ x
found k x y = ground arith

-- What tells a client that it speaks as this player, in this session and under this generation.
abbrev pub told_to_speak : PeerState → ℕ → SessionPacket
told_to_speak new generation = record {
  version = 1;
  enabled = true;
  session_id = new.session_id;
  membership_generation = generation;
  player_id = new.player_id;
}

abbrev pub told_to_stop : SessionPacket
told_to_stop = record {
  version = 1;
  enabled = false;
  session_id = 0;
  membership_generation = 0;
  player_id = 0;
}

module _ {d : Double} where
  -- The callback of this very peer has taken the packet: it was called with it on a table in which the
  -- peer stood in this generation, and answered true.
  pub record Delivered (env : Env d) (p : Peer d) (packet : SessionPacket) : Type 0 where
    pub connection : ℕ
    pub table : Server d
    pub peer : Peer d
    pub held : lookup connection table.peers ≡ some peer
    pub same_peer : peer.identity ≡ p.identity
    pub same_generation : peer.generation ≡ p.generation
    pub taken : (env.deliver peer.send (control packet) table).1 ≡ true

  -- A peer is not published, or its client has been told what it is, or it never had a state.
  pub data IsTold (env : Env d) (p : Peer d) : Type 0 where
    unpublished : p.control_published ≡ false → IsTold env p
    speaks :
        p.has_state ≡ true → Delivered env p (told_to_speak p.state p.generation) → IsTold env p
    stopped : p.has_state ≡ false → Delivered env p told_to_stop → IsTold env p
    fresh : p.has_state ≡ false → p.generation ≡ 0 → IsTold env p

  abbrev pub AllTold : Env d → Server d → Type 0
  AllTold env s = AllValues (IsTold env) s.peers

  -- A connection that is added has been told nothing, as it has no state yet.
  pub add_peer-AllTold :
      (env : Env d) (now id : ℕ) (send : Option ℕ) (s : Server d)
      → AllTold env s
      → AllTold env (add_peer now id send s).0
  unfolding add_peer
  add_peer-AllTold env now id none s all = all
  add_peer-AllTold env now id (some send) s all = elim (Bool-cases (id == 0)) [
    | inl zeroth ↦ rw (add_peer, zeroth) all
    | inr named ↦ elim (Option-cases (lookup id s.peers)) [
      | inr (p, e) ↦ rw (add_peer, named, e) all
      | inl e ↦ elim (Bool-cases (leb s.config.max_connections (length s.peers))) [
        | inl full ↦ rw (add_peer, named, e, full) all
        | inr room ↦ rw (add_peer, named, e, room) (IsTold.fresh refl refl, all)
      ]
    ]
  ]

  -- The environment uses the server through its operations, so that nobody is published untold.
  pub record KeepsTold (env : Env d) : Type 0 where
    pub elsewhere_keeps : (s : Server d) → AllTold env s → AllTold env (env.elsewhere s)
    pub deliver_keeps :
        (f : ℕ) (m : Message) (s : Server d) → AllTold env s → AllTold env (env.deliver f m s).0

  pub told_speaks :
      (env : Env d) (p : Peer d)
      → IsTold env p
      → p.has_state ≡ true
      → p.control_published ≡ true
      → Delivered env p (told_to_speak p.state p.generation)
  told_speaks env p (IsTold.unpublished u) h k = absurd (cc)
  told_speaks env p (IsTold.speaks u v) h k = v
  told_speaks env p (IsTold.stopped u v) h k = absurd (cc)
  told_speaks env p (IsTold.fresh u v) h k = absurd (cc)

  pub told_stopped :
      (env : Env d) (p : Peer d)
      → IsTold env p
      → p.has_state ≡ false
      → p.control_published ≡ true
      → (p.generation ≡ 0) ⊎ Delivered env p told_to_stop
  told_stopped env p (IsTold.unpublished u) h k = absurd (cc)
  told_stopped env p (IsTold.speaks u v) h k = absurd (cc)
  told_stopped env p (IsTold.stopped u v) h k = inr v
  told_stopped env p (IsTold.fresh u v) h k = inl v

  -- A peer of the table, as the first locked region leaves it.
  pub record Held (id identity send generation : ℕ) (t : Server d) : Type 0 where
    pub peer : Peer d
    pub known : lookup id t.peers ≡ some peer
    pub same_peer : peer.identity ≡ identity
    pub same_send : peer.send ≡ send
    pub same_generation : peer.generation ≡ generation

  abbrev pub HeldBy : Env d → ℕ → ℕ → Locked d → Type 0
  HeldBy env id identity (returns b) = Unit
  HeldBy env id identity (sends t send generation) =
      Held id identity send generation t × AllTold env t

  update-HeldBy :
      (env : Env d) (id identity : ℕ) (q p : Peer d) (s : Server d)
      → AllTold env s
      → q.control_published ≡ false
      → lookup id s.peers ≡ some p
      → q.identity ≡ identity
      → HeldBy env id identity
          (sends (record s { peers = update id q s.peers }) q.send q.generation)
  update-HeldBy env id identity q p s all hidden e same = (
    record {
      peer = q;
      known = lookup-update id id q p s.peers e ∙ found id _ _;
      same_peer = same;
      same_send = refl;
      same_generation = refl;
    },
    update-AllValues (IsTold env) id q s.peers (IsTold.unpublished hidden) all,
  )

  pub set_locked-HeldBy :
      (env : Env d) (now id identity : ℕ) (new : PeerState) (s : Server d)
      → AllTold env s
      → HeldBy env id identity (set_locked now id identity new s)
  unfolding set_locked renew
  set_locked-HeldBy env now id identity new s all = elim (Option-cases (lookup id s.peers)) [
    | inl e ↦ rw (e, set_locked) tt
    | inr (p, e) ↦ elim (Bool-cases (p.identity != identity)) [
      | inl other ↦ rw (e, set_locked, other) tt
      | inr one ↦
          let same : p.identity ≡ identity = ground arith in
          elim (Bool-cases (p.has_state && peer_states_equal p.state new)) [
            | inl kept ↦ elim (Bool-cases p.control_published) [
              | inl done ↦ rw (e, set_locked, one, kept, done) tt
              | inr waiting ↦
                  rw (e, set_locked, one, kept, waiting)
                    (
                      record {
                        peer = p;
                        known = e;
                        same_peer = same;
                        same_send = refl;
                        same_generation = refl;
                      },
                      all,
                    )
            ]
            | inr changed ↦
                rw (e, set_locked, one, changed)
                  (update-HeldBy env id identity (renew now new s p) p s all refl e same)
          ]
    ]
  ]

  pub clear_locked-HeldBy :
      (env : Env d) (id identity : ℕ) (s : Server d)
      → AllTold env s
      → HeldBy env id identity (clear_locked id identity s)
  unfolding clear_locked
  clear_locked-HeldBy env id identity s all = elim (Option-cases (lookup id s.peers)) [
    | inl e ↦ rw (e, clear_locked) tt
    | inr (p, e) ↦ elim (Bool-cases (p.identity != identity)) [
      | inl other ↦ rw (e, clear_locked, other) tt
      | inr one ↦
          let same : p.identity ≡ identity = ground arith in
          elim (Bool-cases p.has_state) [
            | inl on ↦
                rw (e, clear_locked, one, on)
                  (update-HeldBy env id identity
                    (record p {
                      has_state = false;
                      state = empty_state;
                      generation = next_generation p.generation;
                      control_published = false;
                    })
                    p s all refl e same)
            | inr off ↦ elim (Bool-cases p.control_published) [
              | inl done ↦ rw (e, clear_locked, one, off, done) tt
              | inr waiting ↦
                  rw (e, clear_locked, one, off, waiting)
                    (update-HeldBy env id identity
                      (record p { has_state = false; control_published = false }) p s all refl e
                      same)
            ]
          ]
    ]
  ]
