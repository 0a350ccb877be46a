-- ===== src/Broker/Expiry.antt =====
-- A host that is silent leaves the master's list, whatever the others send: `gMasterServerApp::update` of
-- src/master/MasterMain.cpp, among the handlers that change the table.
use gip_multiplayer.Base.{
  ◌≡◌, refl, ap, ◌∙◌, inl, inr, true, false, List, [], ◌∷◌, Option, none, some, not, ◌||◌, arith,
  Bool-cases,
}
use gip_multiplayer.Base.Text.{Text, text_eq}
use gip_multiplayer.Broker.{ServerInfo, Traversal, Age}
use gip_multiplayer.Broker.Address.{ℤ}
use gip_multiplayer.Broker.Rooms.{find_server, actual_ip, Request, handle, run}
use gip_multiplayer.Broker.Table.{DistinctIps}
use gip_multiplayer.Broker.Distinct.{DistinctIps-handle}
use gip_multiplayer.Broker.Refine.{Step, thin_row, handle-Step}

module _ (t : Traversal) (a : Age) where
  -- The request is no packet of the host that is listed at the address.
  abbrev pub IsSilent : (Text → Option ℤ) → Text → Request t a → Type 0
  IsSilent stoi ip (Request.register_packet draw peer p) =
      text_eq (actual_ip stoi peer p.ip) ip ≡ false
  IsSilent stoi ip (Request.heartbeat_packet peer p) = text_eq (actual_ip stoi peer p.ip) ip ≡ false
  IsSilent stoi ip (Request.frame alive delta) = Unit

  abbrev pub AllSilent : (Text → Option ℤ) → Text → List (Request t a) → Type 0
  AllSilent stoi ip [] = Unit
  AllSilent stoi ip (r ∷ rs) = IsSilent stoi ip r × AllSilent stoi ip rs

  -- The age that the frames add up to, in the order of the additions.
  unfoldable pub total_age : a.F → List (Request t a) → a.F
  total_age age [] = age
  total_age age (Request.register_packet draw peer p ∷ rs) = total_age age rs
  total_age age (Request.heartbeat_packet peer p ∷ rs) = total_age age rs
  total_age age (Request.frame alive delta ∷ rs) = total_age (a.plus age delta) rs

  -- What a request of somebody else does to a row.
  abbrev row_after : Request t a → Option (ServerInfo t.C a.F) → Option (ServerInfo t.C a.F)
  row_after (Request.register_packet draw peer p) row = row
  row_after (Request.heartbeat_packet peer p) row = row
  row_after (Request.frame alive delta) row = thin_row t a alive delta row

  silent_step_row :
      (stoi : Text → Option ℤ) (ip : Text) {r : Request t a}
      {m n : Text → Option (ServerInfo t.C a.F)}
      → Step t a stoi r m n
      → IsSilent stoi ip r
      → n ip ≡ row_after r (m ip)
  silent_step_row stoi ip (Step.listed m draw peer p s k free row drawn) q = rw q refl
  silent_step_row stoi ip (Step.relisted m draw peer p old s there row same) q = rw q refl
  silent_step_row stoi ip (Step.beat m peer p s there) q = rw q refl
  silent_step_row stoi ip (Step.missed m peer p free) q = refl
  silent_step_row stoi ip (Step.thin m alive delta) q = refl

  find_server-handle :
      (stoi : Text → Option ℤ) (ip : Text) (r : Request t a) (ss : List (ServerInfo t.C a.F))
      (row : Option (ServerInfo t.C a.F))
      → DistinctIps ss
      → IsSilent stoi ip r
      → find_server ip ss ≡ row
      → find_server ip (handle t a stoi r ss) ≡ row_after r row
  find_server-handle stoi ip r ss row d q h =
      silent_step_row stoi ip (handle-Step t a stoi r ss d) q ∙ ap (row_after r) h

  row_after-none : (r : Request t a) → row_after r none ≡ none
  row_after-none (Request.register_packet draw peer p) = refl
  row_after-none (Request.heartbeat_packet peer p) = refl
  row_after-none (Request.frame alive delta) = refl

  stays_away :
      (stoi : Text → Option ℤ) (ip : Text) (rs : List (Request t a))
      (ss : List (ServerInfo t.C a.F))
      → DistinctIps ss
      → AllSilent stoi ip rs
      → find_server ip ss ≡ none
      → find_server ip (run t a stoi rs ss) ≡ none
  unfolding run
  stays_away stoi ip [] ss d q h = h
  stays_away stoi ip (r ∷ rs) ss d q h =
      stays_away stoi ip rs (handle t a stoi r ss) (DistinctIps-handle t a stoi r ss d) q.1
        (find_server-handle stoi ip r ss none d q.0 h ∙ row_after-none r)

  -- A host that sends nothing is gone from the list, at the latest with the frame whose time brings
  -- the age of its row past 30 seconds: whatever other hosts register and whatever heartbeats they
  -- send between the frames, which may be of any length, and whatever sessions are still there. The
  -- table has one row for an address, and the row was not past 30 seconds before.
  pub silent_host_leaves :
      (stoi : Text → Option ℤ) (ip : Text) (rs : List (Request t a))
      (ss : List (ServerInfo t.C a.F)) (s : ServerInfo t.C a.F)
      → DistinctIps ss
      → AllSilent stoi ip rs
      → find_server ip ss ≡ some s
      → a.past_30 s.last_heartbeat ≡ false
      → a.past_30 (total_age s.last_heartbeat rs) ≡ true
      → find_server ip (run t a stoi rs ss) ≡ none
  unfolding run total_age
  silent_host_leaves stoi ip [] ss s d q h young old = absurd (cc)
  silent_host_leaves stoi ip (Request.register_packet draw peer p ∷ rs) ss s d q h young old =
      let r = Request.register_packet draw peer p in
      silent_host_leaves stoi ip rs (handle t a stoi r ss) s (DistinctIps-handle t a stoi r ss d)
        q.1 (find_server-handle stoi ip r ss (some s) d q.0 h) young old
  silent_host_leaves stoi ip (Request.heartbeat_packet peer p ∷ rs) ss s d q h young old =
      let r = Request.heartbeat_packet peer p in
      silent_host_leaves stoi ip rs (handle t a stoi r ss) s (DistinctIps-handle t a stoi r ss d)
        q.1 (find_server-handle stoi ip r ss (some s) d q.0 h) young old
  silent_host_leaves stoi ip (Request.frame alive delta ∷ rs) ss s d q h young old =
      let r = Request.frame alive delta in
      let next = handle t a stoi r ss in
      let keeps = DistinctIps-handle t a stoi r ss d in
      let age = a.plus s.last_heartbeat delta in
      let seen = find_server-handle stoi ip r ss (some s) d q.0 h in
      elim (Bool-cases (not (alive s.host_session) || a.past_30 age)) [
        | inl b ↦ stays_away stoi ip rs next keeps q.1 (rw b at seen)
        | inr b ↦
            silent_host_leaves stoi ip rs next (record s { last_heartbeat = age }) keeps q.1
              (rw b at seen) (ground arith) old
      ]
