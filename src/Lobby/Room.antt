-- ===== src/Lobby/Room.antt =====
-- No two players of a room share an id or a name: the edits of the list keep it so.
use gip_multiplayer.Base.{ℕ, ◌≤◌, ◌≡◌, ◌≢◌, refl, false, List, [], ◌∷◌, ◌++◌, none, length, arith}
use gip_multiplayer.Base.Text.{Text, text_eq_refl}
use gip_multiplayer.Lobby.{RoomPlayer}
use gip_multiplayer.Lobby.Names.{name_exists}
use gip_multiplayer.Lobby.Chat.{find_player}
use gip_multiplayer.Lobby.Handler.{remove_player, toggle_player, set_team, all_ready, remove_all}

-- Neither the id nor the name is in the list.
abbrev pub Absent : ℕ → Text → List RoomPlayer → Type 0
Absent id name [] = Unit
Absent id name (q ∷ qs) = ((id ≢ q.id) × (name ≢ q.name)) × Absent id name qs

abbrev pub Distinct : List RoomPlayer → Type 0
Distinct [] = Unit
Distinct (p ∷ ps) = Absent p.id p.name ps × Distinct ps

pub Absent-toggle :
    (i id : ℕ) (n : Text) (ps : List RoomPlayer) → Absent i n ps → Absent i n (toggle_player id ps)
unfolding toggle_player
Absent-toggle i id n [] a = tt
Absent-toggle i id n (p ∷ ps) a = ground (arith, Absent-toggle i id n ps a.1)

pub Distinct-toggle : (id : ℕ) (ps : List RoomPlayer) → Distinct ps → Distinct (toggle_player id ps)
unfolding toggle_player
Distinct-toggle id [] a = tt
Distinct-toggle id (p ∷ ps) a =
    ground (arith, Absent-toggle p.id id p.name ps a.0, Distinct-toggle id ps a.1)

pub Absent-set_team :
    (i id team : ℕ) (n : Text) (ps : List RoomPlayer)
    → Absent i n ps
    → Absent i n (set_team id team ps)
unfolding set_team
Absent-set_team i id team n [] a = tt
Absent-set_team i id team n (p ∷ ps) a = ground (arith, Absent-set_team i id team n ps a.1)

pub Distinct-set_team :
    (id team : ℕ) (ps : List RoomPlayer) → Distinct ps → Distinct (set_team id team ps)
unfolding set_team
Distinct-set_team id team [] a = tt
Distinct-set_team id team (p ∷ ps) a =
    ground (arith, Absent-set_team p.id id team p.name ps a.0, Distinct-set_team id team ps a.1)

Absent-all_ready :
    (i : ℕ) (n : Text) (ps : List RoomPlayer) → Absent i n ps → Absent i n (all_ready ps)
unfolding all_ready
Absent-all_ready i n [] a = tt
Absent-all_ready i n (p ∷ ps) a = (a.0, Absent-all_ready i n ps a.1)

pub Distinct-all_ready : (ps : List RoomPlayer) → Distinct ps → Distinct (all_ready ps)
unfolding all_ready
Distinct-all_ready [] a = tt
Distinct-all_ready (p ∷ ps) a = (Absent-all_ready p.id p.name ps a.0, Distinct-all_ready ps a.1)

Absent-remove :
    (i id : ℕ) (n : Text) (ps : List RoomPlayer) → Absent i n ps → Absent i n (remove_player id ps)
unfolding remove_player
Absent-remove i id n [] a = tt
Absent-remove i id n (p ∷ ps) a = ground (arith, Absent-remove i id n ps a.1)

pub Distinct-remove : (id : ℕ) (ps : List RoomPlayer) → Distinct ps → Distinct (remove_player id ps)
unfolding remove_player
Distinct-remove id [] a = tt
Distinct-remove id (p ∷ ps) a =
    ground (arith, Absent-remove p.id id p.name ps a.0, Distinct-remove id ps a.1)

Absent-remove_all :
    (i id : ℕ) (n : Text) (ps : List RoomPlayer) → Absent i n ps → Absent i n (remove_all id ps)
unfolding remove_all
Absent-remove_all i id n [] a = tt
Absent-remove_all i id n (p ∷ ps) a = ground (arith, Absent-remove_all i id n ps a.1)

pub Distinct-remove_all :
    (id : ℕ) (ps : List RoomPlayer) → Distinct ps → Distinct (remove_all id ps)
unfolding remove_all
Distinct-remove_all id [] a = tt
Distinct-remove_all id (p ∷ ps) a =
    ground (arith, Absent-remove_all p.id id p.name ps a.0, Distinct-remove_all id ps a.1)

Absent-append :
    (i : ℕ) (n : Text) (ps : List RoomPlayer) (x : RoomPlayer)
    → i ≢ x.id
    → n ≢ x.name
    → Absent i n ps
    → Absent i n (ps ++ (x ∷ []))
Absent-append i n [] x h k a = ((h, k), tt)
Absent-append i n (p ∷ ps) x h k a = (a.0, Absent-append i n ps x h k a.1)

-- A player whose id was not found and whose name nobody has can be added.
pub Distinct-append :
    (ps : List RoomPlayer) (x : RoomPlayer)
    → find_player x.id ps ≡ none
    → name_exists x.name ps ≡ false
    → Distinct ps
    → Distinct (ps ++ (x ∷ []))
unfolding find_player name_exists
Distinct-append [] x h k d = (tt, tt)
Distinct-append (p ∷ ps) x h k d = (
  Absent-append p.id p.name ps x (ground arith)
      (λ e. let t = text_eq_refl x.name in let k' = rw e at k in ground (arith, t)) d.0,
  Distinct-append ps x (ground arith) (ground arith) d.1,
)

pub length-toggle : (id : ℕ) (ps : List RoomPlayer) → length (toggle_player id ps) ≡ length ps
unfolding toggle_player
length-toggle id [] = refl
length-toggle id (p ∷ ps) = ground (arith, length-toggle id ps)

pub length-set_team :
    (id team : ℕ) (ps : List RoomPlayer) → length (set_team id team ps) ≡ length ps
unfolding set_team
length-set_team id team [] = refl
length-set_team id team (p ∷ ps) = ground (arith, length-set_team id team ps)

pub length-all_ready : (ps : List RoomPlayer) → length (all_ready ps) ≡ length ps
unfolding all_ready
length-all_ready [] = refl
length-all_ready (p ∷ ps) = omega (arith, length-all_ready ps)

pub length-remove : (id : ℕ) (ps : List RoomPlayer) → length (remove_player id ps) ≤ length ps
unfolding remove_player
length-remove id [] = omega arith
length-remove id (p ∷ ps) = ground (arith, length-remove id ps)

pub length-remove_all : (id : ℕ) (ps : List RoomPlayer) → length (remove_all id ps) ≤ length ps
unfolding remove_all
length-remove_all id [] = omega arith
length-remove_all id (p ∷ ps) = ground (arith, length-remove_all id ps)
