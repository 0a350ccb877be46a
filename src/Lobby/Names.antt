-- ===== src/Lobby/Names.antt =====
-- Joining a room: the team that is given, and the search for a name that is free. They are parts of
-- the join case of `onPacketReceived` in src/GameBackend.cpp.
use gip_multiplayer.Base.{
  ℕ, zero, suc, ◌+◌, ◌≤◌, ◌<◌, ◌≡◌, refl, sym, ◌∙◌, inl, inr, Bool, true, false, ◌||◌, List, [],
  ◌∷◌, ◌++◌, Option, none, some, leb, ◌==◌, if◌then◌else◌, length, arith, Bool-cases,
}
use gip_multiplayer.Base.Text.{
  Text, text_eq, text_eq_sound, text_eq_sym, to_string, to_string_inj, append_cancel,
}
use gip_multiplayer.Lobby.{RoomPlayer}

unfoldable pub count_team : ℕ → List RoomPlayer → ℕ
count_team t [] = 0
count_team t (p ∷ ps) = (if p.team == t then 1 else 0) + count_team t ps

-- Team 1 unless it is the larger one.
unfoldable pub balanced_team : List RoomPlayer → ℕ
balanced_team ps = if leb (count_team 1 ps) (count_team 2 ps) then 1 else 2

unfoldable pub name_exists : Text → List RoomPlayer → Bool
name_exists n [] = false
name_exists n (p ∷ ps) = text_eq p.name n || name_exists n ps

-- `playerName + " " + std::to_string(duplicateCount)`.
abbrev pub numbered : Text → ℕ → Text
numbered base k = base ++ (32 ∷ to_string k)

-- The `while` over the names that are taken; `none` if the fuel runs out.
unfoldable pub free_name : ℕ → Text → List RoomPlayer → Text → ℕ → Option Text
free_name zero base ps candidate count = none
free_name (suc fuel) base ps candidate count =
    let rest = free_name fuel base ps (numbered base count) (count + 1) in
    if name_exists candidate ps then rest else some candidate

-- Two rounds more than there are players suffice.
unfoldable pub final_name : Text → List RoomPlayer → Option Text
final_name base ps = free_name (suc (suc (length ps))) base ps base 1

pub free_name-eq_some :
    (fuel : ℕ) (base : Text) (ps : List RoomPlayer) (candidate : Text) (count : ℕ) (n : Text)
    → free_name fuel base ps candidate count ≡ some n
    → name_exists n ps ≡ false
unfolding free_name
free_name-eq_some zero base ps candidate count n h = absurd (cc)
free_name-eq_some (suc fuel) base ps candidate count n h =
    ground (arith, free_name-eq_some fuel base ps (numbered base count) (count + 1) n)

-- How many of the numbered names from `count` on, `k` of them, are the name `n`.
hits : Text → ℕ → ℕ → Text → ℕ
hits base count zero n = 0
hits base count (suc k) n =
    (if text_eq (numbered base (count + k)) n then 1 else 0) + hits base count k n

numbered_inj : (base : Text) (i j : ℕ) → numbered base i ≡ numbered base j → i ≡ j
numbered_inj base i j e = to_string_inj i j (
    append_cancel (32 ∷ []) (to_string i) (to_string j)
      (append_cancel base (32 ∷ to_string i) (32 ∷ to_string j) e))

-- Once hit, a name is not hit by an earlier number.
hits_zero :
    (base : Text) (count j k : ℕ) (n : Text)
    → k ≤ j
    → numbered base (count + j) ≡ n
    → hits base count k n ≡ 0
unfolding hits
hits_zero base count j zero n h e = refl
hits_zero base count j (suc k) n h e = elim (Bool-cases (text_eq (numbered base (count + k)) n)) [
  | inl same ↦ absurd (
      let i = numbered_inj base (count + k) (count + j) (text_eq_sound _ n same ∙ sym e) in
      omega arith)
  | inr other ↦ rw other (omega (arith, hits_zero base count j k n (omega arith) e))
]

hits-le_one : (base : Text) (count k : ℕ) (n : Text) → hits base count k n ≤ 1
unfolding hits
hits-le_one base count zero n = omega arith
hits-le_one base count (suc k) n = elim (Bool-cases (text_eq (numbered base (count + k)) n)) [
  | inl same ↦
      rw (same, hits_zero base count k k n (omega arith) (text_eq_sound _ n same)) (omega arith)
  | inr other ↦ rw other (omega (arith, hits-le_one base count k n))
]

total_hits : Text → ℕ → ℕ → List RoomPlayer → ℕ
total_hits base count k [] = 0
total_hits base count k (p ∷ ps) = hits base count k p.name + total_hits base count k ps

total_hits-le :
    (base : Text) (count k : ℕ) (ps : List RoomPlayer) → total_hits base count k ps ≤ length ps
unfolding total_hits
total_hits-le base count k [] = omega arith
total_hits-le base count k (p ∷ ps) =
    omega (arith, hits-le_one base count k p.name, total_hits-le base count k ps)

total_hits_mono :
    (base : Text) (count k : ℕ) (ps : List RoomPlayer)
    → total_hits base count k ps ≤ total_hits base count (suc k) ps
unfolding total_hits hits
total_hits_mono base count k [] = omega arith
total_hits_mono base count k (p ∷ ps) = omega (arith, total_hits_mono base count k ps)

-- A further number that is taken is one more hit.
total_hits-suc :
    (base : Text) (count k : ℕ) (ps : List RoomPlayer)
    → name_exists (numbered base (count + k)) ps ≡ true
    → suc (total_hits base count k ps) ≤ total_hits base count (suc k) ps
unfolding total_hits name_exists hits
total_hits-suc base count k [] h = absurd (cc)
total_hits-suc base count k (p ∷ ps) h =
    elim (Bool-cases (text_eq (numbered base (count + k)) p.name)) [
      | inl same ↦ rw same (omega (arith, total_hits_mono base count k ps))
      | inr other ↦ rw other (omega (arith, total_hits-suc base count k ps (later other h)))
    ]
  where
    later :
        text_eq (numbered base (count + k)) p.name ≡ false
        → name_exists (numbered base (count + k)) (p ∷ ps) ≡ true
        → name_exists (numbered base (count + k)) ps ≡ true
    later o e = ground (arith, text_eq_sym (numbered base (count + k)) p.name)

-- The search ends: among one more candidates than there are players, one is free.
free_name_ends :
    (fuel k c : ℕ) (base : Text) (ps : List RoomPlayer)
    → c ≡ 1 + k
    → k ≤ total_hits base 1 k ps
    → length ps < fuel + k
    → (n : Text) × (free_name fuel base ps (numbered base c) (c + 1) ≡ some n)
unfolding free_name
free_name_ends zero k c base ps e h f = absurd (omega (arith, total_hits-le base 1 k ps))
free_name_ends (suc fuel) k c base ps e h f = elim (Bool-cases (name_exists (numbered base c) ps)) [
  | inr free ↦ (numbered base c, rw free)
  | inl taken ↦
      let step = total_hits-suc base 1 k ps (rw e at taken) in
      let (n, r) =
        free_name_ends fuel (suc k) (c + 1) base ps (omega arith) (omega arith) (omega arith) in
      (n, rw taken r)
]

-- The search for a free name ends, within one round more than there are players and the wanted name
-- itself, and the name that it finds is nobody's.
pub final_name_lem :
    (base : Text) (ps : List RoomPlayer)
    → (n : Text) × (final_name base ps ≡ some n) × (name_exists n ps ≡ false)
unfolding final_name free_name
final_name_lem base ps = elim (Bool-cases (name_exists base ps)) [
  | inr free ↦ (base, rw free, free)
  | inl taken ↦
      let (n, r) = free_name_ends (suc (length ps)) 0 1 base ps refl (omega arith) (omega arith) in
      (n, rw taken r, free_name-eq_some (suc (length ps)) base ps (numbered base 1) 2 n r)
]

-- A name that nobody has is kept.
pub final_name_free :
    (base : Text) (ps : List RoomPlayer)
    → name_exists base ps ≡ false
    → final_name base ps ≡ some base
unfolding final_name free_name
final_name_free base ps h = rw h
