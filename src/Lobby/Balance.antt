-- ===== src/Lobby/Balance.antt =====
-- Joining keeps the two teams within one player of each other, and happens once for an id.
use gip_multiplayer.Base.{
  ℕ, suc, ◌+◌, ◌*◌, ◌≤◌, ◌<◌, ◌≡◌, refl, inl, inr, false, List, [], ◌∷◌, ◌++◌, none, some, leb,
  ◌==◌, if◌then◌else◌, length, arith, Bool-cases, Option-cases,
}
use gip_multiplayer.Base.Text.{Text}
use gip_multiplayer.Lobby.{RoomPlayer, Floats, Backend}
use gip_multiplayer.Lobby.Names.{count_team, balanced_team, final_name_lem}
use gip_multiplayer.Lobby.Chat.{find_player}
use gip_multiplayer.Lobby.Handler.{handle_join, set_players}

-- Neither team is two players ahead.
abbrev pub Balanced : List RoomPlayer → Type 0
Balanced ps = (count_team 1 ps ≤ suc (count_team 2 ps)) × (count_team 2 ps ≤ suc (count_team 1 ps))

count_team-append :
    (t : ℕ) (ps : List RoomPlayer) (x : RoomPlayer)
    → count_team t (ps ++ (x ∷ [])) ≡ count_team t ps + (if x.team == t then 1 else 0)
unfolding count_team
count_team-append t [] x = omega arith
count_team-append t (p ∷ ps) x = omega (arith, count_team-append t ps x)

find_player-append :
    (ps : List RoomPlayer) (x : RoomPlayer)
    → find_player x.id ps ≡ none
    → find_player x.id (ps ++ (x ∷ [])) ≡ some x
unfolding find_player
find_player-append [] x h = ground arith
find_player-append (p ∷ ps) x h = ground (arith, find_player-append ps x)

Balanced-append :
    (ps : List RoomPlayer) (x : RoomPlayer)
    → x.team ≡ balanced_team ps
    → Balanced ps
    → Balanced (ps ++ (x ∷ []))
unfolding balanced_team
Balanced-append ps x e b = ground (arith, count_team-append 1 ps x, count_team-append 2 ps x)

module _ {f : Floats} where
  -- If neither team is two players ahead of the other, neither is after a join, admitted or not.
  pub handle_join-Balanced :
      (n id : ℕ) (name : Text) (s : Backend f)
      → Balanced s.room_players
      → Balanced (handle_join n id name s).0.room_players
  unfolding handle_join
  handle_join-Balanced n id name s b = elim (Option-cases (find_player id s.room_players)) [
    | inr (p, h) ↦ rw (handle_join, h) b
    | inl h ↦ elim (Bool-cases (leb (n * 2) (length s.room_players))) [
      | inl full ↦ rw (handle_join, h, full) b
      | inr room ↦
          let (fresh, r, _) = final_name_lem name s.room_players in
          rw (handle_join, h, room, r) (Balanced-append s.room_players _ refl b)
    ]
  ]

  -- What a join with a seat left does, the name aside.
  admits :
      (n id : ℕ) (name : Text) (s : Backend f)
      → find_player id s.room_players ≡ none
      → length s.room_players < n * 2
      → (x : RoomPlayer) × ((handle_join n id name s).0
          ≡ set_players (s.room_players ++ (x ∷ [])) s)
        × (find_player id (s.room_players ++ (x ∷ [])) ≡ some x)
        × (x.is_ready ≡ false)
  unfolding handle_join
  admits n id name s h room =
      let seat : leb (n * 2) (length s.room_players) ≡ false = ground arith in
      let (fresh, r, _) = final_name_lem name s.room_players in
      let x : RoomPlayer = record {
        id = id;
        name = fresh;
        team = balanced_team s.room_players;
        is_ready = false;
      } in
      (x, rw (handle_join, h, seat, r) refl, find_player-append s.room_players x h, refl)

  joins_again :
      (n id : ℕ) (name : Text) (s : Backend f) (p : RoomPlayer)
      → find_player id s.room_players ≡ some p
      → (handle_join n id name s).0 ≡ s
  unfolding handle_join
  joins_again n id name s p h = rw (handle_join, h) refl

  -- A join into a room with a seat left admits the player at the end of the room, to be found there
  -- under its id and not ready; and if the same id asks again, under any name, nothing of the
  -- host's state changes.
  pub handle_join_once :
      (n id : ℕ) (name again : Text) (s : Backend f)
      → find_player id s.room_players ≡ none
      → length s.room_players < n * 2
      → ((p : RoomPlayer) × ((handle_join n id name s).0.room_players ≡ s.room_players ++ (p ∷ []))
          × (find_player id (handle_join n id name s).0.room_players ≡ some p)
          × (p.is_ready ≡ false))
        × ((handle_join n id again (handle_join n id name s).0).0 ≡ (handle_join n id name s).0)
  handle_join_once n id name again s h room =
      let (x, e, found, waiting) = admits n id name s h room in
      (
        (x, rw e refl, rw e found, waiting),
        joins_again n id again (handle_join n id name s).0 x (rw e found),
      )
