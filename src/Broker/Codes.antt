-- ===== src/Broker/Codes.antt =====
-- Room codes: `GenerateRoomCode` and `GenerateUniqueRoomCode` of src/master/MasterMain.cpp. The random
-- numbers, each below 36, are a parameter: the i-th that the generator gives.
use gip_multiplayer.Base.{
  ℕ, zero, suc, ◌+◌, ◌*◌, ◌<◌, ◌≡◌, refl, subst, inl, inr, Bool, false, ◌||◌, List, [], ◌∷◌, ltb,
  if◌then◌else◌, arith, Bool-cases,
}
use gip_multiplayer.Base.Text.{Text, text_eq}
use gip_multiplayer.Broker.{ServerInfo}

-- "A" to "Z", then "0" to "9".
unfoldable pub charset : ℕ → ℕ
charset i = if ltb i 26 then 65 + i else 22 + i

unfoldable pub generate_room_code : (ℕ → ℕ) → ℕ → Text
generate_room_code draw start =
    charset (draw start)
    ∷ charset (draw (start + 1))
    ∷ charset (draw (start + 2))
    ∷ charset (draw (start + 3))
    ∷ charset (draw (start + 4))
    ∷ charset (draw (start + 5))
    ∷ []

module _ {C F : Type 0} where
  unfoldable pub is_taken : Text → List (ServerInfo C F) → Bool
  is_taken code [] = false
  is_taken code (s ∷ ss) = text_eq s.room_code code || is_taken code ss

  unfoldable pub next_free : (ℕ → ℕ) → ℕ → ℕ → List (ServerInfo C F) → Text
  next_free draw zero start ss = generate_room_code draw start
  next_free draw (suc attempts) start ss =
      let later = next_free draw attempts (start + 6) ss in
      let code = generate_room_code draw start in if is_taken code ss then later else code

  unfoldable pub generate_unique_room_code : (ℕ → ℕ) → List (ServerInfo C F) → Text
  generate_unique_room_code draw ss = next_free draw 32 0 ss

  next_free-drawn :
      (draw : ℕ → ℕ) (attempts start : ℕ) (ss : List (ServerInfo C F))
      → (k : ℕ) × (next_free draw attempts start ss ≡ generate_room_code draw k)
  unfolding next_free
  next_free-drawn draw zero start ss = (start, refl)
  next_free-drawn draw (suc attempts) start ss =
      elim (Bool-cases (is_taken (generate_room_code draw start) ss)) [
        | inl b ↦ rw b (next_free-drawn draw attempts (start + 6) ss)
        | inr b ↦ rw b (start, refl)
      ]

  -- A room code is one that the generator drew.
  pub generate_unique_room_code-drawn :
      (draw : ℕ → ℕ) (ss : List (ServerInfo C F))
      → (k : ℕ) × (generate_unique_room_code draw ss ≡ generate_room_code draw k)
  unfolding generate_unique_room_code
  generate_unique_room_code-drawn draw ss = next_free-drawn draw 32 0 ss

  next_free-is_free :
      (draw : ℕ → ℕ) (attempts start k from : ℕ) (ss : List (ServerInfo C F))
      → k < attempts
      → from ≡ start + k * 6
      → is_taken (generate_room_code draw from) ss ≡ false
      → is_taken (next_free draw attempts start ss) ss ≡ false
  unfolding next_free
  next_free-is_free draw zero start k from ss l e h = absurd (omega arith)
  next_free-is_free draw (suc attempts) start zero from ss l e h =
      let same : from ≡ start = omega arith in
      let g : is_taken (generate_room_code draw start) ss ≡ false =
        subst (λ i. is_taken (generate_room_code draw i) ss ≡ false) same h in
      rw g g
  next_free-is_free draw (suc attempts) start (suc k) from ss l e h =
      elim (Bool-cases (is_taken (generate_room_code draw start) ss)) [
        | inl b ↦
            rw b
              (next_free-is_free draw attempts (start + 6) k from ss (omega arith) (omega arith) h)
        | inr b ↦ rw b b
      ]

  -- A generated room code is one that no listed room has, as soon as one of the 32 codes that are
  -- drawn is such a code.
  pub generate_unique_room_code-is_free :
      (draw : ℕ → ℕ) (k : ℕ) (ss : List (ServerInfo C F))
      → k < 32
      → is_taken (generate_room_code draw (k * 6)) ss ≡ false
      → is_taken (generate_unique_room_code draw ss) ss ≡ false
  unfolding generate_unique_room_code
  generate_unique_room_code-is_free draw k ss l h =
      next_free-is_free draw 32 0 k (k * 6) ss l (omega arith) h
