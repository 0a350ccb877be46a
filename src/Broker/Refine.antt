-- ===== src/Broker/Refine.antt =====
-- What the master's table promises: a map from addresses to rows, changed at one address by a packet
-- and thinned out by a frame. The table of src/master/MasterMain.cpp against that map.
use gip_multiplayer.Base.{
  ℕ, ◌≡◌, refl, sym, subst, inl, inr, Bool, List, [], ◌∷◌, Option, none, some, if◌then◌else◌, not,
  ◌||◌, Bool-cases, Option-cases,
}
use mathlib.Core.Path.{fun_ext}
use gip_multiplayer.Base.Text.{Text, text_eq, text_eq_sound}
use gip_multiplayer.Master.{MasterHeartbeatPacket}
use gip_multiplayer.Broker.{ServerInfo, MasterRegisterPacket, PeerSession, Traversal, Age}
use gip_multiplayer.Broker.Address.{ℤ, peer_addresses}
use gip_multiplayer.Broker.Codes.{
  generate_room_code, generate_unique_room_code, generate_unique_room_code-drawn,
}
use gip_multiplayer.Broker.Rooms.{
  find_server, change_first, actual_ip, refreshed, new_server, register, beaten, heartbeat, aged,
  is_dead, update, Request, handle, run,
}
use gip_multiplayer.Broker.View.{
  view, put, find_server_ip, view-append, view-change_first, change_first-missing,
}
use gip_multiplayer.Broker.Table.{DistinctIps}
use gip_multiplayer.Broker.Distinct.{find-update, DistinctIps-handle}

module _ (t : Traversal) (a : Age) where
  abbrev Listing : Type 0
  Listing = Text → Option (ServerInfo t.C a.F)

  -- What a frame does to a row of the map: it grows older by the time of the frame, and it goes if its
  -- session is gone or it is past 30 seconds then.
  abbrev pub thin_row : (ℕ → Bool) → a.F → Option (ServerInfo t.C a.F) → Option (ServerInfo t.C a.F)
  thin_row alive delta none = none
  thin_row alive delta (some s) =
      let age = a.plus s.last_heartbeat delta in
      if not (alive s.host_session) || a.past_30 age
      then none
      else some (record s { last_heartbeat = age })

  abbrev pub thinned : (ℕ → Bool) → a.F → Listing → Listing
  thinned alive delta m key = thin_row alive delta (m key)

  -- The row is the one that a register packet asks for, at the address, of that session, and fresh.
  pub record IsRowOf (peer : PeerSession) (p : MasterRegisterPacket t.C) (ip : Text)
      (s : ServerInfo t.C a.F) : Type 0 where
    pub at : s.ip ≡ ip
    pub name : s.name ≡ p.name
    pub current_players : s.current_players ≡ p.current_players
    pub max_players : s.max_players ≡ p.max_players
    pub match_state : s.match_state ≡ p.match_state
    pub is_private : s.is_private ≡ p.is_private
    pub has_password : s.has_password ≡ p.has_password
    pub is_dedicated : s.is_dedicated ≡ p.is_dedicated
    pub use_p2p : s.use_p2p ≡ p.use_p2p
    pub host_session : s.host_session ≡ peer.session
    pub last_heartbeat : s.last_heartbeat ≡ a.fresh
    pub peer_candidates : s.peer_candidates ≡ peer_addresses t ip p.candidates
    pub candidates : s.candidates ≡ p.candidates

  -- The abstract server, request by request. A register packet puts the row that it asks for at its
  -- address: a new one with a room code that was drawn, or one that keeps the room code of the row
  -- that was there. A heartbeat makes the age of the row at its address fresh and changes nothing
  -- else; without a row there it changes nothing. A frame thins the map out.
  pub data Step (stoi : Text → Option ℤ) : Request t a → Listing → Listing → Type 0 where
    listed :
        (m : Listing) (draw : ℕ → ℕ) (peer : PeerSession) (p : MasterRegisterPacket t.C)
        (s : ServerInfo t.C a.F) (k : ℕ)
        → m (actual_ip stoi peer p.ip) ≡ none
        → IsRowOf peer p (actual_ip stoi peer p.ip) s
        → s.room_code ≡ generate_room_code draw k
        → Step stoi
            (Request.register_packet draw peer p)
            m
            (put (actual_ip stoi peer p.ip) (some s) m)
    relisted :
        (m : Listing) (draw : ℕ → ℕ) (peer : PeerSession) (p : MasterRegisterPacket t.C)
        (old s : ServerInfo t.C a.F)
        → m (actual_ip stoi peer p.ip) ≡ some old
        → IsRowOf peer p (actual_ip stoi peer p.ip) s
        → s.room_code ≡ old.room_code
        → Step stoi
            (Request.register_packet draw peer p)
            m
            (put (actual_ip stoi peer p.ip) (some s) m)
    beat :
        (m : Listing) (peer : PeerSession) (p : MasterHeartbeatPacket) (s : ServerInfo t.C a.F)
        → m (actual_ip stoi peer p.ip) ≡ some s
        → Step stoi
            (Request.heartbeat_packet peer p)
            m
            (put (actual_ip stoi peer p.ip) (some (record s { last_heartbeat = a.fresh })) m)
    missed :
        (m : Listing) (peer : PeerSession) (p : MasterHeartbeatPacket)
        → m (actual_ip stoi peer p.ip) ≡ none
        → Step stoi (Request.heartbeat_packet peer p) m m
    thin :
        (m : Listing) (alive : ℕ → Bool) (delta : a.F)
        → Step stoi (Request.frame alive delta) m (thinned alive delta m)

  pub data Steps (stoi : Text → Option ℤ) : List (Request t a) → Listing → Listing → Type 0 where
    done : (m : Listing) → Steps stoi [] m m
    more :
        (r : Request t a) (rs : List (Request t a)) (l m n : Listing)
        → Step stoi r l m
        → Steps stoi rs m n
        → Steps stoi (r ∷ rs) l n

  pub view-update :
      (alive : ℕ → Bool) (delta : a.F) (ss : List (ServerInfo t.C a.F))
      → DistinctIps ss
      → (key : Text)
      → find_server key (update t a alive delta ss) ≡ thin_row alive delta (find_server key ss)
  unfolding find_server update
  view-update alive delta [] d key = refl
  view-update alive delta (x ∷ ss) d key =
      let ih = view-update alive delta ss d.1 key in
      elim (Bool-cases (text_eq x.ip key)) [
        | inl k ↦ elim (Bool-cases (is_dead t a alive (aged t a delta x))) [
          | inl b ↦
              rw (k, thin_row, b)
                (subst (λ q. find_server q (update t a alive delta ss) ≡ none)
                  (text_eq_sound x.ip key k) (find-update t a x.ip alive delta ss d.0))
          | inr b ↦ rw (k, thin_row, b, k) refl
        ]
        | inr k ↦ elim (Bool-cases (is_dead t a alive (aged t a delta x))) [
          | inl b ↦ rw (k, b) ih
          | inr b ↦ rw (k, b, k) ih
        ]
      ]

  register-Step :
      (stoi : Text → Option ℤ) (draw : ℕ → ℕ) (peer : PeerSession) (p : MasterRegisterPacket t.C)
      (ss : List (ServerInfo t.C a.F))
      → Step stoi
          (Request.register_packet draw peer p)
          (view ss)
          (view (register t a stoi draw peer p ss).0)
  unfolding register refreshed new_server
  register-Step stoi draw peer p ss =
      let r = Request.register_packet draw peer p in
      let ip = actual_ip stoi peer p.ip in
      elim (Option-cases (find_server ip ss)) [
        | inl h ↦
            let s = new_server t a peer p ip (generate_unique_room_code draw ss) in
            let drawn = generate_unique_room_code-drawn draw ss in
            rw (register, h)
              (subst (Step stoi r (view ss)) (sym (fun_ext (view-append ss s h))) (
                Step.listed (view ss) draw peer p s drawn.0 h
                  (record {
                    at = refl;
                    name = refl;
                    current_players = refl;
                    max_players = refl;
                    match_state = refl;
                    is_private = refl;
                    has_password = refl;
                    is_dedicated = refl;
                    use_p2p = refl;
                    host_session = refl;
                    last_heartbeat = refl;
                    peer_candidates = refl;
                    candidates = refl;
                  })
                  drawn.1))
        | inr (old, h) ↦
            let f = refreshed t a peer p ip in
            rw (register, h)
              (subst (Step stoi r (view ss))
                (sym (fun_ext (view-change_first ip f (λ s. refl) ss old h)))
                (Step.relisted (view ss) draw peer p old (f old) h
                  (record {
                    at = find_server_ip ip ss old h;
                    name = refl;
                    current_players = refl;
                    max_players = refl;
                    match_state = refl;
                    is_private = refl;
                    has_password = refl;
                    is_dedicated = refl;
                    use_p2p = refl;
                    host_session = refl;
                    last_heartbeat = refl;
                    peer_candidates = refl;
                    candidates = refl;
                  })
                  refl))
      ]

  heartbeat-Step :
      (stoi : Text → Option ℤ) (peer : PeerSession) (p : MasterHeartbeatPacket)
      (ss : List (ServerInfo t.C a.F))
      → Step stoi
          (Request.heartbeat_packet peer p)
          (view ss)
          (view (change_first (actual_ip stoi peer p.ip) (beaten t a) ss))
  heartbeat-Step stoi peer p ss =
      let r = Request.heartbeat_packet peer p in
      let ip = actual_ip stoi peer p.ip in
      elim (Option-cases (find_server ip ss)) [
        | inl h ↦ rw (change_first-missing ip (beaten t a) ss h) (Step.missed (view ss) peer p h)
        | inr (s, h) ↦
            subst (Step stoi r (view ss))
              (sym (fun_ext (view-change_first ip (beaten t a) (λ s. refl) ss s h)))
              (Step.beat (view ss) peer p s h)
      ]

  pub handle-Step :
      (stoi : Text → Option ℤ) (r : Request t a) (ss : List (ServerInfo t.C a.F))
      → DistinctIps ss
      → Step stoi r (view ss) (view (handle t a stoi r ss))
  unfolding handle heartbeat
  handle-Step stoi (Request.register_packet draw peer p) ss d = register-Step stoi draw peer p ss
  handle-Step stoi (Request.heartbeat_packet peer p) ss d = heartbeat-Step stoi peer p ss
  handle-Step stoi (Request.frame alive delta) ss d =
      subst (Step stoi (Request.frame alive delta) (view ss))
        (sym (fun_ext (view-update alive delta ss d))) (Step.thin (view ss) alive delta)

  -- The master server implements the abstract one: whatever packets and frames it handles, from a table
  -- with one row for an address, the map that its table stands for goes, request by request, through
  -- the steps of the abstract server for those requests, in which a registered row has every field
  -- that its packet asks for, and it ends at the map of the table that is left.
  pub run-Steps :
      (stoi : Text → Option ℤ) (rs : List (Request t a)) (ss : List (ServerInfo t.C a.F))
      → DistinctIps ss
      → Steps stoi rs (view ss) (view (run t a stoi rs ss))
  unfolding run
  run-Steps stoi [] ss d = Steps.done (view ss)
  run-Steps stoi (r ∷ rs) ss d =
      let next = handle t a stoi r ss in
      Steps.more r rs (view ss) (view next) (view (run t a stoi rs next)) (handle-Step stoi r ss d)
        (run-Steps stoi rs next (DistinctIps-handle t a stoi r ss d))
