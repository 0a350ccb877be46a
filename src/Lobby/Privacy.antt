-- ===== src/Lobby/Privacy.antt =====
-- Who a chat message goes to, what is left of its text, and how many may pass within a second.
use gip_multiplayer.Base.{
  ℕ, suc, ◌≤◌, ◌≡◌, ◌≢◌, refl, ap, ◌∙◌, zero, ==_false, ◌⊎◌, inl, inr, true, List, [], ◌∷◌, ◌++◌,
  some, ltb, leb, if◌then◌else◌, ◌==◌, ◌!=◌, length, length-append, length-take, take, All,
  All-append, arith, Bool-cases, Option-cases,
}
use gip_multiplayer.Base.Dict.{
  lookup, lookup-insert, insert, AllValues, insert-AllValues, lookup-AllValues,
}
use gip_multiplayer.Base.Text.{Text}
use gip_multiplayer.Lobby.{RoomPlayer, ChatMessage, Floats, chat_team, chat_private}
use gip_multiplayer.Lobby.Chat.{
  printable, clean_text, find_player, recent, stamps_of, allow_chat_rate, Session, is_tagged,
  send_to_player, send_to_team, relay_chat,
}

-- Some connection of the list, tagged with the id, is this one.
abbrev pub Tagged : ℕ → List Session → ℕ → Type 0
Tagged id [] c = ⊥
Tagged id (s ∷ ss) c = ((is_tagged id s ≡ true) × (s.connection ≡ c)) ⊎ Tagged id ss c

-- The connection belongs to somebody of the list who plays for the team.
abbrev pub InTeam : ℕ → List RoomPlayer → List Session → ℕ → Type 0
InTeam team [] ss c = ⊥
InTeam team (p ∷ ps) ss c = ((p.team ≡ team) × Tagged p.id ss c) ⊎ InTeam team ps ss c

All-weaken : (P Q : ℕ → Type 0) (xs : List ℕ) → ((a : ℕ) → P a → Q a) → All P xs → All Q xs
All-weaken P Q [] f a = tt
All-weaken P Q (x ∷ xs) f a = (f x a.0, All-weaken P Q xs f a.1)

send_to_player-Tagged : (id : ℕ) (ss : List Session) → All (Tagged id ss) (send_to_player id ss)
unfolding send_to_player
send_to_player-Tagged id [] = tt
send_to_player-Tagged id (s ∷ ss) = elim (Bool-cases (is_tagged id s)) [
  | inl h ↦ rw h (inl (h, refl), tt)
  | inr h ↦ rw h (
      All-weaken (Tagged id ss) (Tagged id (s ∷ ss)) (send_to_player id ss) (λ c t. inr t)
        (send_to_player-Tagged id ss))
]

send_to_team-InTeam :
    (team : ℕ) (ps : List RoomPlayer) (ss : List Session)
    → All (InTeam team ps ss) (send_to_team team ps ss)
unfolding send_to_team
send_to_team-InTeam team [] ss = tt
send_to_team-InTeam team (p ∷ ps) ss =
    let rest =
      All-weaken (InTeam team ps ss) (InTeam team (p ∷ ps) ss) (send_to_team team ps ss)
        (λ c t. inr t) (send_to_team-InTeam team ps ss) in
    elim (Bool-cases (p.team == team)) [
      | inr h ↦ rw h rest
      | inl h ↦
          let same : p.team ≡ team = ground arith in
          rw h (
            All-append (InTeam team (p ∷ ps) ss) (send_to_player p.id ss) _
              (All-weaken (Tagged p.id ss) (InTeam team (p ∷ ps) ss) (send_to_player p.id ss)
                (λ c t. inl (same, t)) (send_to_player-Tagged p.id ss))
              rest)
    ]

-- A team message of a player in the room goes out only on connections that are tagged with a player
-- of the sender's team.
pub relay_chat_team :
    (ps : List RoomPlayer) (ss : List Session) (m : ChatMessage) (sender : RoomPlayer)
    → m.channel ≡ chat_team
    → find_player m.sender_id ps ≡ some sender
    → All (InTeam sender.team ps ss) (relay_chat ps ss m)
unfolding relay_chat
relay_chat_team ps ss m sender c h = rw (relay_chat, c, h) (send_to_team-InTeam sender.team ps ss)

-- A private message goes out only on connections that are tagged with its target or its sender.
pub relay_chat_private :
    (ps : List RoomPlayer) (ss : List Session) (m : ChatMessage)
    → m.channel ≡ chat_private
    → All (λ c. Tagged m.target_id ss c ⊎ Tagged m.sender_id ss c) (relay_chat ps ss m)
unfolding relay_chat
relay_chat_private ps ss m c =
    let P : ℕ → Type 0 = λ c. Tagged m.target_id ss c ⊎ Tagged m.sender_id ss c in
    let target =
      All-weaken (Tagged m.target_id ss) P (send_to_player m.target_id ss) (λ c t. inl t)
        (send_to_player-Tagged m.target_id ss) in
    let sender =
      All-weaken (Tagged m.sender_id ss) P (send_to_player m.sender_id ss) (λ c t. inr t)
        (send_to_player-Tagged m.sender_id ss) in
    rw (relay_chat, c)
      (All-append P (send_to_player m.target_id ss) _ target
        (elim (Bool-cases (m.sender_id != m.target_id)) [ inl h ↦ rw h sender | inr h ↦ rw h tt ]))

abbrev pub Printable : ℕ → Type 0
Printable c = (32 ≤ c) × (c ≤ 126)

printable-Printable : (t : Text) → All Printable (printable t)
unfolding printable
printable-Printable [] = tt
printable-Printable (c ∷ cs) = ground (arith, printable-Printable cs)

All-take : (P : ℕ → Type 0) (n : ℕ) (xs : List ℕ) → All P xs → All P (take n xs)
All-take P zero xs a = tt
All-take P (suc n) [] a = tt
All-take P (suc n) (x ∷ xs) a = (a.0, All-take P n xs a.1)

take-all : (n : ℕ) (xs : List ℕ) → length xs ≤ n → take n xs ≡ xs
take-all zero [] h = refl
take-all zero (x ∷ xs) h = absurd (omega arith)
take-all (suc n) [] h = refl
take-all (suc n) (x ∷ xs) h = ap (λ r. x ∷ r) (take-all n xs (omega arith))

printable-All : (t : Text) → All Printable t → printable t ≡ t
unfolding printable
printable-All [] a = refl
printable-All (c ∷ cs) a = let ih = printable-All cs a.1 in ground (arith, ih)

-- A cleaned text has only printable ASCII and at most two hundred characters; cleaning it again
-- changes nothing.
pub clean_text_lem :
    (t : Text)
    → All Printable (clean_text t)
      × (length (clean_text t) ≤ 200)
      × (clean_text (clean_text t) ≡ clean_text t)
unfolding clean_text
clean_text_lem t =
    let p = All-take Printable 200 (printable t) (printable-Printable t) in
    let l : length (take 200 (printable t)) ≤ 200 = omega (arith, length-take 200 (printable t)) in
    (p, l, rw (printable-All (take 200 (printable t)) p) (take-all 200 _ l))

found : (k : ℕ) → (k == k) ≡ true
found k = ground arith

module _ (f : Floats) where
  length-recent : (now : f.F) (ts : List f.F) → length (recent f now ts) ≤ length ts
  unfolding recent
  length-recent now [] = omega arith
  length-recent now (t ∷ ts) = ground (arith, length-recent now ts)

  -- How many of the stamps lie within the last second.
  unfoldable pub count_last_second : f.F → List f.F → ℕ
  count_last_second now [] = 0
  count_last_second now (t ∷ ts) =
      let rest = count_last_second now ts in if f.older_than_second now t then rest else suc rest

  length-recent_count :
      (now : f.F) (ts : List f.F) → length (recent f now ts) ≡ count_last_second now ts
  unfolding recent count_last_second
  length-recent_count now [] = refl
  length-recent_count now (t ∷ ts) = ground (arith, length-recent_count now ts)

  stamps_bound :
      (id : ℕ) (m : List (ℕ × List f.F))
      → AllValues (λ ts. length ts ≤ 3) m
      → length (stamps_of f id m) ≤ 3
  stamps_bound id m v = elim (Option-cases (lookup id m)) [
    | inl h ↦ rw (stamps_of, h) (omega arith)
    | inr (ts, h) ↦ rw (stamps_of, h) (lookup-AllValues (λ ts. length ts ≤ 3) id m ts v h)
  ]

  length-stamps :
      (id : ℕ) (ts : List f.F) (m : List (ℕ × List f.F))
      → length (stamps_of f id (insert id ts m)) ≡ length ts
  length-stamps id ts m =
      let there : lookup id (insert id ts m) ≡ some ts =
        lookup-insert id id ts m ∙ rw (found id) refl in
      rw (there, stamps_of) refl

  -- If no player has more than three stamps, then none has after a message of one; the message is
  -- let through exactly if its sender has fewer than three stamps that are not older than a second;
  -- the sender is left with as many as those, and one more for a message that is let through; and
  -- another player's stamps stay what they are.
  pub allow_chat_rate_lem :
      (now : f.F) (id other : ℕ) (m : List (ℕ × List f.F))
      → id ≢ other
      → AllValues (λ ts. length ts ≤ 3) m
      → AllValues (λ ts. length ts ≤ 3) (allow_chat_rate f now id m).0
        × ((allow_chat_rate f now id m).1 ≡ ltb (count_last_second now (stamps_of f id m)) 3)
        × (length (stamps_of f id (allow_chat_rate f now id m).0) ≡ (
            if (allow_chat_rate f now id m).1
            then suc (count_last_second now (stamps_of f id m))
            else count_last_second now (stamps_of f id m)))
        × (lookup other (allow_chat_rate f now id m).0 ≡ lookup other m)
  unfolding allow_chat_rate
  allow_chat_rate_lem now id other m d v =
      let ts = recent f now (stamps_of f id m) in
      let short : length ts ≤ 3 =
        omega (arith, length-recent now (stamps_of f id m), stamps_bound id m v) in
      let e = ==_false id other d in
      let total = length-recent_count now (stamps_of f id m) in
      elim (Bool-cases (leb 3 (length ts))) [
        | inl full ↦ rw full (
          insert-AllValues (λ ts. length ts ≤ 3) id ts m short v,
          ground arith,
          length-stamps id ts m ∙ total,
          lookup-insert id other ts m ∙ rw e refl,
        )
        | inr free ↦
            let next = ts ++ (now ∷ []) in
            let room : length next ≤ 3 = ground (arith, length-append ts (now ∷ [])) in
            rw free (
              insert-AllValues (λ ts. length ts ≤ 3) id next m room v,
              ground arith,
              omega (arith, length-stamps id next m, length-append ts (now ∷ []), total),
              lookup-insert id other next m ∙ rw e refl,
            )
      ]
