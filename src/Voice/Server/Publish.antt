-- ===== src/Voice/Server/Publish.antt =====
-- What the answers of `setPeerState` and `clearPeerState` are worth, whatever happened meanwhile. About
-- src/voice/gTeamVoiceServer.cpp.
use gip_multiplayer.Base.{
  ℕ, ◌≡◌, refl, sym, ap, ◌∙◌, subst, ◌⊎◌, inl, inr, Bool, true, false, some, arith, Bool-cases,
  Option-cases,
}
use gip_multiplayer.Base.Dict.{lookup, lookup-update, lookup-AllValues, update-AllValues}
use gip_multiplayer.Voice.Packets.{SessionPacket}
use gip_multiplayer.Voice.Server.{
  Double, PeerState, Peer, Server, Env, control, is_valid_peer_state,
}
use gip_multiplayer.Voice.Server.Control.{
  Locked, returns, sends, superseded, clear_superseded, set_locked, set_confirm, enable_packet,
  disable_packet, after_send, clear_locked, clear_confirm, clear_peer_state, set_peer_state,
}
use gip_multiplayer.Voice.Server.Told.{
  peer_states_equal_iff, found, told_to_speak, told_to_stop, Delivered, IsTold, AllTold, KeepsTold,
  told_speaks, told_stopped, Held, HeldBy, set_locked-HeldBy, clear_locked-HeldBy,
}

module _ {d : Double} where
  -- The connection has exactly this state, published, and its client has taken the packet for it.
  pub record Published (env : Env d) (id : ℕ) (new : PeerState) (r : Server d) : Type 0 where
    pub peer : Peer d
    pub known : lookup id r.peers ≡ some peer
    pub has_state : peer.has_state ≡ true
    pub control_published : peer.control_published ≡ true
    pub state : peer.state ≡ new
    pub told : Delivered env peer (told_to_speak new peer.generation)

  -- The connection is known and has no state, published; its client has taken the packet for it, or
  -- it never had a state.
  pub record Cleared (env : Env d) (id : ℕ) (r : Server d) : Type 0 where
    pub peer : Peer d
    pub known : lookup id r.peers ≡ some peer
    pub has_state : peer.has_state ≡ false
    pub control_published : peer.control_published ≡ true
    pub told : (peer.generation ≡ 0) ⊎ Delivered env peer told_to_stop

  -- A table without untold peers, and with an answer of true what was asked for.
  abbrev Outcome : Env d → (Server d → Type 0) → Server d × Bool → Type 0
  Outcome env P r = AllTold env r.0 × ((r.1 ≡ false) ⊎ P r.0)

  not_superseded :
      (identity generation : ℕ) (new : PeerState) (p : Peer d)
      → superseded identity generation new p ≡ false
      → (p.has_state ≡ true)
        × (p.state ≡ new)
        × (p.identity ≡ identity)
        × (p.generation ≡ generation)
  unfolding superseded
  not_superseded identity generation new p h =
      (ground arith, peer_states_equal_iff p.state new (ground arith), ground arith, ground arith)

  not_clear_superseded :
      (identity generation : ℕ) (p : Peer d)
      → clear_superseded identity generation p ≡ false
      → (p.has_state ≡ false) × (p.identity ≡ identity) × (p.generation ≡ generation)
  unfolding clear_superseded
  not_clear_superseded identity generation p h = (ground arith, ground arith, ground arith)

  -- The peer of a region's packet, found again when the packet is confirmed.
  took :
      (env : Env d) (id identity send generation : ℕ) (packet : SessionPacket) (p : Peer d)
      (t : Server d)
      → Held id identity send generation t
      → p.identity ≡ identity
      → p.generation ≡ generation
      → (env.deliver send (control packet) t).1 ≡ true
      → Delivered env p packet
  took env id identity send generation packet p t held same now_in answer = record {
    connection = id;
    table = t;
    peer = held.peer;
    held = held.known;
    same_peer = held.same_peer ∙ sym same;
    same_generation = held.same_generation ∙ sym now_in;
    taken = rw held.same_send answer;
  }

  set_confirm-Published :
      (env : Env d) (id identity send generation : ℕ) (new : PeerState) (t s : Server d)
      → Held id identity send generation t
      → (env.deliver send (control (enable_packet new generation)) t).1 ≡ true
      → AllTold env s
      → Outcome env (Published env id new) (set_confirm id identity generation new s)
  unfolding set_confirm enable_packet
  set_confirm-Published env id identity send generation new t s held answer all =
      elim (Option-cases (lookup id s.peers)) [
        | inl e ↦ rw (e, set_confirm) (all, inl refl)
        | inr (p, e) ↦ elim (Bool-cases (superseded identity generation new p)) [
          | inl gone ↦ rw (e, set_confirm, gone) (all, inl refl)
          | inr kept ↦
              let f = not_superseded identity generation new p kept in
              let q : Peer d = record p { control_published = true } in
              let told : Delivered env q (told_to_speak new p.generation) =
                took env id identity send generation (told_to_speak new p.generation) q t held f.2
                  f.3
                  (subst (λ g. (env.deliver send (control (told_to_speak new g)) t).1 ≡ true)
                    (sym f.3) answer) in
              rw (e, set_confirm, kept)
                (
                  update-AllValues (IsTold env) id q s.peers
                      (IsTold.speaks f.0 (
                        subst (λ x. Delivered env q (told_to_speak x p.generation)) (sym f.1) told))
                      all,
                  inr (record {
                    peer = q;
                    known = lookup-update id id q p s.peers e ∙ found id _ _;
                    has_state = f.0;
                    control_published = refl;
                    state = f.1;
                    told = told;
                  }),
                )
        ]
      ]

  clear_confirm-Cleared :
      (env : Env d) (id identity send generation : ℕ) (t s : Server d)
      → Held id identity send generation t
      → (env.deliver send (control disable_packet) t).1 ≡ true
      → AllTold env s
      → Outcome env (Cleared env id) (clear_confirm id identity generation s)
  unfolding clear_confirm
  clear_confirm-Cleared env id identity send generation t s held answer all =
      elim (Option-cases (lookup id s.peers)) [
        | inl e ↦ rw (e, clear_confirm) (all, inl refl)
        | inr (p, e) ↦ elim (Bool-cases (clear_superseded identity generation p)) [
          | inl gone ↦ rw (e, clear_confirm, gone) (all, inl refl)
          | inr kept ↦
              let f = not_clear_superseded identity generation p kept in
              let q : Peer d = record p { control_published = true } in
              let told : Delivered env q told_to_stop =
                took env id identity send generation told_to_stop q t held f.1 f.2 answer in
              rw (e, clear_confirm, kept)
                (
                  update-AllValues (IsTold env) id q s.peers (IsTold.stopped f.0 told) all,
                  inr (record {
                    peer = q;
                    known = lookup-update id id q p s.peers e ∙ found id _ _;
                    has_state = f.0;
                    control_published = refl;
                    told = inr told;
                  }),
                )
        ]
      ]

  -- A region that returns `true` found the state published already.
  set_locked-Published :
      (env : Env d) (now id identity : ℕ) (new : PeerState) (s : Server d)
      → AllTold env s
      → set_locked now id identity new s ≡ returns true
      → Published env id new s
  unfolding set_locked
  set_locked-Published env now id identity new s all h = elim (Option-cases (lookup id s.peers)) [
    | inl e ↦ absurd (let h' = rw (e, set_locked) at h in ground arith)
    | inr (p, e) ↦
        let h' = rw (e, set_locked) at h in
        let on : p.has_state ≡ true = ground arith in
        let shown : p.control_published ≡ true = ground arith in
        let same : p.state ≡ new = ground (arith, peer_states_equal_iff p.state new) in
        record {
          peer = p;
          known = e;
          has_state = on;
          control_published = shown;
          state = same;
          told =
              subst (λ x. Delivered env p (told_to_speak x p.generation)) same
                (told_speaks env p (lookup-AllValues (IsTold env) id s.peers p all e) on shown);
        }
  ]

  clear_locked-Cleared :
      (env : Env d) (id identity : ℕ) (s : Server d)
      → AllTold env s
      → clear_locked id identity s ≡ returns true
      → Cleared env id s
  unfolding clear_locked
  clear_locked-Cleared env id identity s all h = elim (Option-cases (lookup id s.peers)) [
    | inl e ↦ absurd (let h' = rw (e, clear_locked) at h in ground arith)
    | inr (p, e) ↦
        let h' = rw (e, clear_locked) at h in
        let off : p.has_state ≡ false = ground arith in
        let shown : p.control_published ≡ true = ground arith in
        record {
          peer = p;
          known = e;
          has_state = off;
          control_published = shown;
          told = told_stopped env p (lookup-AllValues (IsTold env) id s.peers p all e) off shown;
        }
  ]

  returned :
      (env : Env d) (P : Server d → Type 0) (s : Server d) (b : Bool)
      → AllTold env s
      → (b ≡ true → P s)
      → Outcome env P (s, b)
  returned env P s true all keep = (all, inr (keep refl))
  returned env P s false all keep = (all, inl refl)

  -- Only a packet that was taken is confirmed.
  after_send-Outcome :
      (env : Env d) (P : Server d → Type 0) (r : Server d × Bool)
      (confirm : Server d → Server d × Bool)
      → AllTold env r.0
      → (r.1 ≡ true → (s : Server d) → AllTold env s → Outcome env P (confirm s))
      → Outcome env P (after_send r confirm)
  after_send-Outcome env P (s, true) confirm all keep = keep refl s all
  after_send-Outcome env P (s, false) confirm all keep = (all, inl refl)

  -- From a table in which nobody is published untold, and in an environment that keeps it so,
  -- `clearPeerState` leaves it so, and answers false unless the connection is known and has no state,
  -- and either never had one, or the callback of that very peer has taken a packet that switches voice
  -- off while the peer was in the generation it is left in: also if callbacks or other threads change
  -- the table meanwhile.
  pub clear_peer_state-Cleared :
      (env : Env d) (id : ℕ) (s : Server d)
      → KeepsTold env
      → AllTold env s
      → AllTold env (clear_peer_state env id s).0
        × (((clear_peer_state env id s).1 ≡ false) ⊎ Cleared env id (clear_peer_state env id s).0)
  unfolding clear_peer_state
  clear_peer_state-Cleared env id s keeps all = elim (Option-cases (lookup id s.peers)) [
    | inl e ↦ rw (e, clear_peer_state) (all, inl refl)
    | inr (p, e) ↦
        rw (e, clear_peer_state) (go p (clear_locked id p.identity (env.elsewhere s)) refl)
  ]
    where
      now_told : AllTold env (env.elsewhere s)
      now_told = keeps.elsewhere_keeps s all

      go :
          (p : Peer d) (l : Locked d)
          → clear_locked id p.identity (env.elsewhere s) ≡ l
          → let r : Server d × Bool = elim l [
            | returns b ↦ (env.elsewhere s, b)
            | sends s2 send generation ↦
                after_send
                  (env.deliver send (control disable_packet) s2)
                  (clear_confirm id p.identity generation)
          ] in
            Outcome env (Cleared env id) r
      go p (returns b) q = returned env (Cleared env id) (env.elsewhere s) b now_told (λ k.
          clear_locked-Cleared env id p.identity (env.elsewhere s) now_told
            (q ∙ ap (λ x. returns x) k))
      go p (sends s2 send generation) q =
          let held =
            subst (HeldBy env id p.identity) q
              (clear_locked-HeldBy env id p.identity (env.elsewhere s) now_told) in
          after_send-Outcome env (Cleared env id) (env.deliver send (control disable_packet) s2)
            (clear_confirm id p.identity generation)
            (keeps.deliver_keeps send (control disable_packet) s2 held.1)
            (λ answer t u.
              clear_confirm-Cleared env id p.identity send generation s2 t held.0 answer u)

  -- From a table in which nobody is published untold, and in an environment that keeps it so,
  -- `setPeerState` of a valid state leaves it so, and answers false unless the connection has exactly
  -- that state, and the callback of that very peer has taken a packet with the session, the player and
  -- the generation that the peer is left with: also if callbacks or other threads change the table
  -- meanwhile.
  pub set_peer_state-Published :
      (env : Env d) (now id : ℕ) (new : PeerState) (s : Server d)
      → is_valid_peer_state new ≡ true
      → KeepsTold env
      → AllTold env s
      → AllTold env (set_peer_state env now id new s).0
        × (((set_peer_state env now id new s).1 ≡ false)
            ⊎ Published env id new (set_peer_state env now id new s).0)
  unfolding set_peer_state
  set_peer_state-Published env now id new s good keeps all =
      elim (Option-cases (lookup id s.peers)) [
        | inl e ↦ rw (good, e, set_peer_state) (all, inl refl)
        | inr (p, e) ↦
            rw (good, e, set_peer_state)
              (go p (set_locked now id p.identity new (env.elsewhere s)) refl)
      ]
    where
      now_told : AllTold env (env.elsewhere s)
      now_told = keeps.elsewhere_keeps s all

      go :
          (p : Peer d) (l : Locked d)
          → set_locked now id p.identity new (env.elsewhere s) ≡ l
          → let r : Server d × Bool = elim l [
            | returns b ↦ (env.elsewhere s, b)
            | sends s2 send generation ↦
                after_send
                  (env.deliver send (control (enable_packet new generation)) s2)
                  (set_confirm id p.identity generation new)
          ] in
            Outcome env (Published env id new) r
      go p (returns b) q = returned env (Published env id new) (env.elsewhere s) b now_told (λ k.
          set_locked-Published env now id p.identity new (env.elsewhere s) now_told
            (q ∙ ap (λ x. returns x) k))
      go p (sends s2 send generation) q =
          let packet = control (enable_packet new generation) in
          let held =
            subst (HeldBy env id p.identity) q
              (set_locked-HeldBy env now id p.identity new (env.elsewhere s) now_told) in
          after_send-Outcome env (Published env id new) (env.deliver send packet s2)
            (set_confirm id p.identity generation new) (keeps.deliver_keeps send packet s2 held.1)
            (λ answer t u.
              set_confirm-Published env id p.identity send generation new s2 t held.0 answer u)
