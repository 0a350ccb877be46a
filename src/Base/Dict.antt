-- ===== src/Base/Dict.antt =====
-- A map with numbers for keys, as the list of its entries in iteration order.
use Prim.Native.Nat.{ℕ, ◌+◌, ◌≤◌}
use mathlib.Core.Path.{◌≡◌, refl}
use mathlib.Core.List.{List, [], ◌∷◌}
use mathlib.Core.Option.{Option, none, some}
use native.Mathlib.Omega.{arith}
use gip_multiplayer.Base.Tests.{◌==◌, if◌then◌else◌}
use gip_multiplayer.Base.Lists.{length}

module _ {ℓ} {V : Type ℓ} where
  abbrev pub lookup : ℕ → List (ℕ × V) → Option V
  lookup k [] = none
  lookup k ((j, v) ∷ m) = if j == k then some v else lookup k m

  -- `it->second = v` at a key that is present; nothing where it is not.
  abbrev pub update : ℕ → V → List (ℕ × V) → List (ℕ × V)
  update k v [] = []
  update k v ((j, w) ∷ m) = if j == k then (k, v) ∷ m else (j, w) ∷ update k v m

  abbrev pub erase : ℕ → List (ℕ × V) → List (ℕ × V)
  erase k [] = []
  erase k ((j, w) ∷ m) = let rest = erase k m in if j == k then rest else (j, w) ∷ rest

  -- `m[k] = v`.
  abbrev pub insert : ℕ → V → List (ℕ × V) → List (ℕ × V)
  insert k v [] = (k, v) ∷ []
  insert k v ((j, w) ∷ m) = if j == k then (k, v) ∷ m else (j, w) ∷ insert k v m

  pub lookup-update :
      (k j : ℕ) (v w : V) (m : List (ℕ × V))
      → lookup k m ≡ some w
      → lookup j (update k v m) ≡ (if k == j then some v else lookup j m)
  lookup-update k j v w [] h = absurd (cc)
  lookup-update k j v w ((i, x) ∷ m) h = ground (arith, lookup-update k j v w m)

  pub lookup-insert :
      (k j : ℕ) (v : V) (m : List (ℕ × V))
      → lookup j (insert k v m) ≡ (if k == j then some v else lookup j m)
  lookup-insert k j v [] = refl
  lookup-insert k j v ((i, x) ∷ m) = ground (arith, lookup-insert k j v m)

  pub lookup-erase :
      (k j : ℕ) (m : List (ℕ × V)) → lookup j (erase k m) ≡ (if k == j then none else lookup j m)
  lookup-erase k j [] = ground arith
  lookup-erase k j ((i, x) ∷ m) = ground (arith, lookup-erase k j m)

  pub length-update : (k : ℕ) (v : V) (m : List (ℕ × V)) → length (update k v m) ≡ length m
  length-update k v [] = refl
  length-update k v ((i, x) ∷ m) = ground (arith, length-update k v m)

  pub length-erase : (k : ℕ) (m : List (ℕ × V)) → length (erase k m) ≤ length m
  length-erase k [] = omega arith
  length-erase k ((i, x) ∷ m) = ground (arith, length-erase k m)

  pub length-insert : (k : ℕ) (v : V) (m : List (ℕ × V)) → length (insert k v m) ≤ length m + 1
  length-insert k v [] = omega arith
  length-insert k v ((i, x) ∷ m) = ground (arith, length-insert k v m)

  -- A property of every value.
  abbrev pub AllValues {κ} : (V → Type κ) → List (ℕ × V) → Type κ
  AllValues P [] = Unit
  AllValues P ((_, v) ∷ m) = P v × AllValues P m

  pub lookup-AllValues {κ} :
      (P : V → Type κ) (k : ℕ) (m : List (ℕ × V)) (v : V)
      → AllValues P m
      → lookup k m ≡ some v
      → P v
  lookup-AllValues P k [] v a h = absurd (cc)
  lookup-AllValues P k ((i, x) ∷ m) v a h = ground (arith, lookup-AllValues P k m v a.1)

  pub update-AllValues {κ} :
      (P : V → Type κ) (k : ℕ) (v : V) (m : List (ℕ × V))
      → P v
      → AllValues P m
      → AllValues P (update k v m)
  update-AllValues P k v [] p a = a
  update-AllValues P k v ((i, x) ∷ m) p a = ground (arith, update-AllValues P k v m p a.1)

  pub insert-AllValues {κ} :
      (P : V → Type κ) (k : ℕ) (v : V) (m : List (ℕ × V))
      → P v
      → AllValues P m
      → AllValues P (insert k v m)
  insert-AllValues P k v [] p a = (p, tt)
  insert-AllValues P k v ((i, x) ∷ m) p a = ground (arith, insert-AllValues P k v m p a.1)

  pub erase-AllValues {κ} :
      (P : V → Type κ) (k : ℕ) (m : List (ℕ × V)) → AllValues P m → AllValues P (erase k m)
  erase-AllValues P k [] a = a
  erase-AllValues P k ((i, x) ∷ m) a = ground (arith, erase-AllValues P k m a.1)
