-- ===== src/Audio/Blocks.antt =====
-- The two blocks of a copy into or out of the sample ring are the places from a position on, in order.
-- About `SampleRingBuffer` of src/audio/gVoiceAudioProcessor.cpp.
use gip_multiplayer.Base.{
  ℕ, zero, suc, ◌+◌, ◌-◌, ◌%◌, ◌≤◌, ◌<◌, ◌≡◌, refl, sym, ap, ◌∙◌, inl, inr, List, [], ◌∷◌, ◌++◌,
  ltb, ==_refl, min, length, take-drop, length_zero, length-take, length-drop, take, drop, arith,
  append_assoc, append-nil, Bool-cases,
}
use native.Mathlib.Nat.{mod-add-mod, mod-eq_of_lt, mod-lt, mod_self}
use gip_multiplayer.Audio.Window.{store, window, window_snoc, window-store}
use gip_multiplayer.Audio.Ring.{
  store_block, load_block, SampleRing, first_block, copy_into, copy_out,
}

-- The next place, where a block does not go round, and the first place, where it does.
next_place : (size at : ℕ) → at % size + 1 < size → (at + 1) % size ≡ at % size + 1
next_place size at l = sym (mod-add-mod at size 1) ∙ mod-eq_of_lt l

round_place : (size at n : ℕ) → at % size + n ≡ size → (at + n) % size ≡ 0
round_place size at n e = sym (mod-add-mod at size n) ∙ ap (λ k. k % size) e ∙ mod_self size

module _ {S : Type 0} where
  -- Storing from a position on, place by place.
  unfoldable pub store_round : ℕ → ℕ → List S → (ℕ → S) → ℕ → S
  store_round size at [] slots = slots
  store_round size at (x ∷ xs) slots = store_round size (at + 1) xs (store (at % size) x slots)

  block-round :
      (size at : ℕ) (xs : List S) (slots : ℕ → S)
      → at % size + length xs ≤ size
      → store_block (at % size) xs slots ≡ store_round size at xs slots
  unfolding store_block store_round
  block-round size at [] slots l = refl
  block-round size at (x ∷ []) slots l = refl
  block-round size at (x ∷ y ∷ xs) slots l =
      let e = next_place size at (omega arith) in
      ap (λ p. store_block p (y ∷ xs) (store (at % size) x slots)) (sym e)
      ∙ block-round size (at + 1) (y ∷ xs) (store (at % size) x slots) (rw e (omega arith))

  load-window :
      (size at n : ℕ) (slots : ℕ → S)
      → at % size + n ≤ size
      → load_block (at % size) n slots ≡ window slots size at n
  unfolding load_block window
  load-window size at zero slots l = refl
  load-window size at (suc zero) slots l = refl
  load-window size at (suc (suc n)) slots l =
      let e = next_place size at (omega arith) in
      ap (λ p. slots (at % size) ∷ load_block p (suc n) slots) (sym e)
      ∙ ap (λ xs. slots (at % size) ∷ xs)
          (load-window size (at + 1) (suc n) slots (rw e (omega arith)))

  store_round-append :
      (size at : ℕ) (xs ys : List S) (slots : ℕ → S)
      → store_round size at (xs ++ ys) slots
        ≡ store_round size (at + length xs) ys (store_round size at xs slots)
  unfolding store_round
  store_round-append size at [] ys slots = ap (λ p. store_round size p ys slots) (omega arith)
  store_round-append size at (x ∷ xs) ys slots =
      store_round-append size (at + 1) xs ys (store (at % size) x slots)
      ∙ ap (λ p. store_round size p ys (store_round size (at + 1) xs (store (at % size) x slots)))
          (omega arith)

  pub window-append :
      (slots : ℕ → S) (size from m n : ℕ)
      → window slots size from (m + n) ≡ window slots size from m ++ window slots size (from + m) n
  unfolding window
  window-append slots size from zero n =
      let a : 0 + n ≡ n = omega arith in let b : from + 0 ≡ from = omega arith in rw (a, b) refl
  window-append slots size from (suc m) n =
      let shift : suc m + n ≡ suc (m + n) = omega arith in
      ap (λ k. window slots size from k) shift
      ∙ ap (λ l. slots (from % size) ∷ l)
          (window-append slots size (from + 1) m n
            ∙ ap (λ p. window slots size (from + 1) m ++ window slots size p n) (omega arith))

  -- Samples written past a window extend it.
  pub window-store_round :
      (size from n : ℕ) (xs : List S) (slots : ℕ → S)
      → n + length xs ≤ size
      → window (store_round size (from + n) xs slots) size from (n + length xs)
        ≡ window slots size from n ++ xs
  unfolding store_round store
  window-store_round size from n [] slots l =
      ap (window slots size from) (omega arith) ∙ sym (append-nil (window slots size from n))
  window-store_round size from n (x ∷ xs) slots l =
      let next = store ((from + n) % size) x slots in
      let here : next ((from + n) % size) ≡ x = rw (==_refl ((from + n) % size)) refl in
      let kept : window next size from (suc n) ≡ window slots size from n ++ x ∷ [] =
        window_snoc next size from n
        ∙ ap (λ l. l ++ next ((from + n) % size) ∷ [])
            (window-store slots size from n (from + n) x (omega arith) (omega arith))
        ∙ ap (λ v. window slots size from n ++ v ∷ []) here in
      let a : from + n + 1 ≡ from + suc n = omega arith in
      let b : n + suc (length xs) ≡ suc n + length xs = omega arith in
      rw (a, b)
        (window-store_round size from (suc n) xs next (omega arith)
          ∙ ap (λ l. l ++ xs) kept
          ∙ append_assoc (window slots size from n) (x ∷ []) xs)

  -- The two blocks of a copy are the round copy.
  pub copy_into-round :
      (input : List S) (position : ℕ) (r : SampleRing S)
      → 0 < r.size
      → length input ≤ r.size
      → (copy_into input position r).slots ≡ store_round r.size position input r.slots
  unfolding copy_into store_block store_round
  copy_into-round input position r pos l =
      let first = first_block r position (length input) in
      let small = mod-lt position pos in
      let front = length-take first input in
      let back = length-drop first input in
      let whole = take-drop first input in
      let here : min first (length input) ≡ first = omega arith in
      let tail : store_block 0 (drop first input)
            (store_round r.size position (take first input) r.slots)
          ≡ store_round r.size (position + first) (drop first input)
              (store_round r.size position (take first input) r.slots) =
        elim (Bool-cases (ltb (r.size - position % r.size) (length input))) [
          | inl b ↦
              let longer : r.size - position % r.size < length input = ground arith in
              let turn = round_place r.size position first (omega arith) in
              ap
                (λ p.
                  store_block p (drop first input)
                    (store_round r.size position (take first input) r.slots))
                (sym turn)
              ∙ block-round r.size (position + first) (drop first input)
                  (store_round r.size position (take first input) r.slots) (rw turn (omega arith))
          | inr b ↦
              let shorter : length input ≤ r.size - position % r.size = ground arith in
              rw (length_zero (drop first input) (omega arith)) refl
        ] in
      ap (store_block 0 (drop first input))
        (block-round r.size position (take first input) r.slots (omega arith))
      ∙ tail
      ∙ ap
          (λ n.
            store_round r.size (position + n) (drop first input)
              (store_round r.size position (take first input) r.slots))
          (sym (front ∙ here))
      ∙ sym (store_round-append r.size position (take first input) (drop first input) r.slots)
      ∙ ap (λ xs. store_round r.size position xs r.slots) whole

  none_left :
      (size from n : ℕ) (slots : ℕ → S) → n ≡ 0 → load_block 0 n slots ≡ window slots size from n
  unfolding load_block window
  none_left size from zero slots e = refl
  none_left size from (suc n) slots e = absurd (omega arith)

  pub copy_out-window :
      (position count : ℕ) (r : SampleRing S)
      → 0 < r.size
      → count ≤ r.size
      → copy_out position count r ≡ window r.slots r.size position count
  unfolding copy_out load_block
  copy_out-window position count r pos l =
      let first = first_block r position count in
      let small = mod-lt position pos in
      let whole : first + (count - first) ≡ count = omega arith in
      let tail : load_block 0 (count - first) r.slots
          ≡ window r.slots r.size (position + first) (count - first) =
        elim (Bool-cases (ltb (r.size - position % r.size) count)) [
          | inl b ↦
              let longer : r.size - position % r.size < count = ground arith in
              let turn = round_place r.size position first (omega arith) in
              ap (λ p. load_block p (count - first) r.slots) (sym turn)
              ∙ load-window r.size (position + first) (count - first) r.slots
                  (rw turn (omega arith))
          | inr b ↦
              let shorter : count ≤ r.size - position % r.size = ground arith in
              let nothing : count - first ≡ 0 = omega arith in
              none_left r.size (position + first) (count - first) r.slots nothing
        ] in
      ap (λ xs. xs ++ load_block 0 (count - first) r.slots)
        (load-window r.size position first r.slots (omega arith))
      ∙ ap (λ xs. window r.slots r.size position first ++ xs) tail
      ∙ sym (window-append r.slots r.size position first (count - first))
      ∙ ap (window r.slots r.size position) whole
