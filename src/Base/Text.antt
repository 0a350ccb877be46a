-- ===== src/Base/Text.antt =====
-- `std::string` as its bytes: comparison, and `std::to_string` of a number that is not negative.
use Prim.Native.Nat.{ℕ, zero, suc, ◌+◌, ◌-◌, ◌*◌, ◌/◌, ◌%◌, ◌≤◌}
use mathlib.Core.Path.{◌≡◌, refl, sym, ap, ◌∙◌}
use mathlib.Core.Bool.{Bool, true, false, ◌&&◌}
use mathlib.Core.List.{List, [], ◌∷◌, ◌++◌, reverse, reverse-reverse}
use native.Mathlib.Omega.{arith}
use gip_multiplayer.Base.Tests.{◌==◌, ltb, if◌then◌else◌, ==_refl}

abbrev pub Text : Type 0
Text = List ℕ

abbrev pub text_eq : Text → Text → Bool
text_eq [] [] = true
text_eq [] (y ∷ ys) = false
text_eq (x ∷ xs) [] = false
text_eq (x ∷ xs) (y ∷ ys) = x == y && text_eq xs ys

pub text_eq_sound : (xs ys : Text) → text_eq xs ys ≡ true → xs ≡ ys
text_eq_sound [] [] h = refl
text_eq_sound [] (y ∷ ys) h = absurd (cc)
text_eq_sound (x ∷ xs) [] h = absurd (cc)
text_eq_sound (x ∷ xs) (y ∷ ys) h = ground (arith, text_eq_sound xs ys)

pub text_eq_refl : (xs : Text) → text_eq xs xs ≡ true
text_eq_refl [] = refl
text_eq_refl (x ∷ xs) = ground (arith, ==_refl x, text_eq_refl xs)

pub text_eq_sym : (xs ys : Text) → text_eq xs ys ≡ text_eq ys xs
text_eq_sym [] [] = refl
text_eq_sym [] (y ∷ ys) = refl
text_eq_sym (x ∷ xs) [] = refl
text_eq_sym (x ∷ xs) (y ∷ ys) = ground (arith, text_eq_sym xs ys)

-- Equal texts compare alike with a third, and a text differs from what one of them differs from.
pub text_eq_through : (x y z : Text) → text_eq x y ≡ true → text_eq x z ≡ text_eq y z
text_eq_through x y z h = ap (λ t. text_eq t z) (text_eq_sound x y h)

pub text_eq_apart :
    (x key y : Text) → text_eq x key ≡ true → text_eq x y ≡ false → text_eq y key ≡ false
text_eq_apart x key y h d = text_eq_sym y key ∙ sym (text_eq_through x key y h) ∙ d

-- The digits, the last one first; `fuel` is the number itself, which is enough.
unfoldable pub digits : ℕ → ℕ → Text
digits zero n = (48 + n % 10) ∷ []
digits (suc fuel) n =
    let rest = digits fuel (n / 10) in if ltb n 10 then (48 + n) ∷ [] else (48 + n % 10) ∷ rest

unfoldable pub to_string : ℕ → Text
unfolding digits
to_string n = reverse (digits n n)

-- What a text of digits, the last one first, stands for.
value : Text → ℕ
value [] = 0
value (c ∷ cs) = (c - 48) + 10 * value cs

value-digits : (fuel n : ℕ) → n ≤ fuel → value (digits fuel n) ≡ n
unfolding value digits
value-digits zero n h = omega arith
value-digits (suc fuel) n h = ground (arith, value-digits fuel (n / 10))

-- Different numbers are written differently.
pub to_string_inj : (m n : ℕ) → to_string m ≡ to_string n → m ≡ n
unfolding to_string
to_string_inj m n e =
    let d : digits m m ≡ digits n n =
      sym (reverse-reverse (digits m m)) ∙ ap reverse e ∙ reverse-reverse (digits n n) in
    sym (value-digits m m (omega arith)) ∙ ap value d ∙ value-digits n n (omega arith)

pub append_cancel : (xs ys zs : Text) → xs ++ ys ≡ xs ++ zs → ys ≡ zs
append_cancel [] ys zs e = e
append_cancel (x ∷ xs) ys zs e = append_cancel xs ys zs (cc)
