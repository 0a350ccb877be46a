-- ===== src/Audio/Window.antt =====
-- Places of a ring, by positions that only grow: the values between two positions.
use gip_multiplayer.Base.{
  ℕ, zero, suc, ◌+◌, ◌-◌, ◌%◌, ◌≤◌, ◌<◌, ◌≡◌, ◌≢◌, refl, ap, ◌∙◌, List, [], ◌∷◌, ◌++◌, ◌==◌,
  ==_false, if◌then◌else◌, length, drop, arith,
}
use native.Mathlib.Nat.{mod-add-mod, mod-eq_of_lt, mod-eq-sub-mod, mod-lt}
use native.Mathlib.Decide.{dec_lt}

-- Going round from a place by less than the size, and by something, ends at another place.
place_moves : (size h d : ℕ) → h < size → 0 < d → d < size → (h + d) % size ≢ h
place_moves size h d hh pos hd = elim (dec_lt (h + d) size) [
  | yes p ↦ omega (arith, mod-eq_of_lt p)
  | no p ↦ omega (
    arith,
    mod-eq-sub-mod {n = h + d} {m = size} (omega arith),
    mod-eq_of_lt {n = h + d - size} {m = size} (omega arith),
  )
]

pub places_apart : (size i j : ℕ) → i < j → j < i + size → j % size ≢ i % size
places_apart size i j l m e =
    let d = j - i in
    let shift : (i % size + d) % size ≡ i % size =
      mod-add-mod i size d ∙ ap (λ k. k % size) (omega arith) ∙ e in
    place_moves size (i % size) d (mod-lt i (omega arith)) (omega arith) (omega arith) shift

module _ {T : Type 0} where
  -- A write to one place.
  unfoldable pub store : ℕ → T → (ℕ → T) → ℕ → T
  store place v slots i = if place == i then v else slots i

  -- The values of `n` positions, from `from` on.
  unfoldable pub window : (ℕ → T) → ℕ → ℕ → ℕ → List T
  window slots size from zero = []
  window slots size from (suc n) = slots (from % size) ∷ window slots size (from + 1) n

  pub length-window : (slots : ℕ → T) (size from n : ℕ) → length (window slots size from n) ≡ n
  unfolding window
  length-window slots size from zero = refl
  length-window slots size from (suc n) = ap suc (length-window slots size (from + 1) n)

  -- A write past the window, and less than a round from its start, leaves the window.
  pub window-store :
      (slots : ℕ → T) (size from n at : ℕ) (v : T)
      → from + n ≤ at
      → at < from + size
      → window (store (at % size) v slots) size from n ≡ window slots size from n
  unfolding window store
  window-store slots size from zero at v l m = refl
  window-store slots size from (suc n) at v l m =
      rw
        (
          ==_false (at % size) (from % size) (places_apart size from at (omega arith) m),
          window-store slots size (from + 1) n at v (omega arith) (omega arith),
        )
        refl

  pub window_snoc :
      (slots : ℕ → T) (size from n : ℕ)
      → window slots size from (suc n) ≡ window slots size from n ++ slots ((from + n) % size) ∷ []
  unfolding window
  window_snoc slots size from zero = ap (λ k. slots (k % size) ∷ []) (omega arith)
  window_snoc slots size from (suc n) =
      ap (λ l. slots (from % size) ∷ l)
        (window_snoc slots size (from + 1) n
          ∙ ap (λ k. window slots size (from + 1) n ++ slots (k % size) ∷ []) (omega arith))

  pub drop-window :
      (slots : ℕ → T) (size from n k : ℕ)
      → k ≤ n
      → drop k (window slots size from n) ≡ window slots size (from + k) (n - k)
  unfolding window
  drop-window slots size from n zero l =
      let a : from + 0 ≡ from = omega arith in let b : n - 0 ≡ n = omega arith in rw (a, b) refl
  drop-window slots size from zero (suc k) l = absurd (omega arith)
  drop-window slots size from (suc n) (suc k) l =
      let a : from + suc k ≡ from + 1 + k = omega arith in
      let b : suc n - suc k ≡ n - k = omega arith in
      rw (a, b) (drop-window slots size (from + 1) n k (omega arith))
