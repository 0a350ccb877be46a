-- ===== src/Manager/Attempts.antt =====
-- A late join does not replace a newer attempt, and a match starts only when it may. About
-- src/NetworkManager.cpp.
use gip_multiplayer.Base.{
  ℕ, suc, ◌+◌, ◌-◌, ◌≤◌, ◌<◌, ◌≡◌, ◌↔◌, refl, inl, inr, true, false, ◌||◌, not, List, [], ◌∷◌, some,
  ltb, ◌==◌, if◌then◌else◌, length, arith, Bool-cases, Option-cases,
}
use gip_multiplayer.Lobby.{RoomPlayer}
use gip_multiplayer.Manager.{Link, Manager, Step, count_ready, start_match}

-- How many of the steps begin an attempt: they host, use a backend of their own, or join.
unfoldable pub count_attempts : List Step → ℕ
count_attempts [] = 0
count_attempts (Step.hosts number ∷ xs) = suc (count_attempts xs)
count_attempts (Step.uses number players ∷ xs) = suc (count_attempts xs)
count_attempts (Step.joins ∷ xs) = suc (count_attempts xs)
count_attempts (Step.finishes i number players ∷ xs) = count_attempts xs
count_attempts (Step.disconnects ∷ xs) = count_attempts xs
count_attempts (Step.frame ∷ xs) = count_attempts xs
count_attempts (Step.goes_silent has_handler ∷ xs) = count_attempts xs

-- How many are not ready.
unfoldable pub count_waiting : List RoomPlayer → ℕ
count_waiting [] = 0
count_waiting (p ∷ ps) = let rest = count_waiting ps in if p.is_ready then rest else suc rest

ready_or_waiting : (ps : List RoomPlayer) → count_ready ps + count_waiting ps ≡ length ps
unfolding count_ready count_waiting
ready_or_waiting [] = omega arith
ready_or_waiting (p ∷ ps) = ground (arith, ready_or_waiting ps)

-- What a match needs.
pub record MayStart (s : Manager) : Type 0 where
  pub link : Link
  pub connected : s.backend ≡ some link
  pub hosting : s.host_mode ≡ true
  pub someone : 0 < length link.room_players
  pub waiting : count_waiting link.room_players ≤ 1

-- The host's start of a match goes through exactly when there is a backend, this game hosts, somebody is
-- in the room, and at most one player, as the host never gets ready, is not ready.
pub start_match_iff : (s : Manager) → (start_match s ≡ true) ↔ MayStart s
unfolding start_match
start_match_iff s = (forth, back)
  where
    forth : start_match s ≡ true → MayStart s
    forth h = elim (Option-cases s.backend) [
      | inl e ↦ absurd (let x = rw (start_match, e) at h in cc)
      | inr (link, e) ↦ elim (Bool-cases (not s.host_mode || length link.room_players == 0)) [
        | inl b ↦ absurd (let x = rw (start_match, e, b) at h in cc)
        | inr b ↦
            let enough : not (ltb (count_ready link.room_players) (length link.room_players - 1))
                ≡ true =
              rw (start_match, e, b) at h in
            let total = ready_or_waiting link.room_players in
            record {
              link = link;
              connected = e;
              hosting = ground arith;
              someone = ground arith;
              waiting = ground arith;
            }
      ]
    ]

    back : MayStart s → start_match s ≡ true
    back v =
        let some_player = v.someone in
        let few = v.waiting in
        let total = ready_or_waiting v.link.room_players in
        let there : (length v.link.room_players == 0) ≡ false = ground arith in
        let enough : ltb (count_ready v.link.room_players) (length v.link.room_players - 1)
            ≡ false =
          ground arith in
        rw (start_match, v.connected, v.hosting, there, enough) refl
