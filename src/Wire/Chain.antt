-- ===== src/Wire/Chain.antt =====
-- Chains of writes, and what a read took.
use gip_multiplayer.Base.{
  ℕ, ◌^◌, ◌<◌, ◌≡◌, ap, ◌∙◌, Bool, false, List, ◌++◌, append_assoc, append-nil, sym, [], ◌!=◌,
  if◌then◌else◌, arith,
}
use gip_multiplayer.Wire.{Buffer, Laws}

-- A flag is written as 1 or 0 in four bytes, and read as `!= 0`.
pub flag-lt : (x : Bool) → (if x then 1 else 0) < 2 ^ 32
flag-lt x = ground arith

pub flag-ne_zero : (x : Bool) {n : ℕ} → n ≡ (if x then 1 else 0) → (n != 0) ≡ x
flag-ne_zero x e = ground arith

module _ (io : Buffer) (laws : Laws io) where
  open io use {Buf}
  open laws use {contents, failed}

  -- A chain of writes that ends with no error appended `xs`.
  abbrev pub Wrote : Buf → Buf → List ℕ → Type 0
  Wrote b c xs = failed c ≡ false → (failed b ≡ false) × (contents c ≡ contents b ++ xs)

  pub Wrote-then :
      (b c d : Buf) (xs ys : List ℕ) → Wrote b c xs → Wrote c d ys → Wrote b d (xs ++ ys)
  Wrote-then b c d xs ys p q h =
      ((p (q h).0).0, (q h).1 ∙ ap (λ r. r ++ ys) (p (q h).0).1 ∙ append_assoc (contents b) xs ys)

  -- A read that took the value `a` and left `rest`.
  abbrev pub Took : {A : Type 0} → A × Buf → A → List ℕ → Type 0
  Took r a rest = (r.0 ≡ a) × (contents r.1 ≡ rest) × (failed r.1 ≡ false)

  -- What was appended to an empty buffer is all that it holds.
  pub held :
      (b c : Buf) (xs : List ℕ)
      → Wrote b c xs
      → contents b ≡ []
      → failed c ≡ false
      → contents c ≡ xs ++ []
  held b c xs w e g = (w g).1 ∙ ap (λ r. r ++ xs) e ∙ sym (append-nil xs)
