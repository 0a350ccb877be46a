-- ===== src/Wire/Bytes.antt =====
-- A byte buffer that meets the laws: unread bytes, little-endian integers, and an error flag.
use gip_multiplayer.Base.{
  ℕ, zero, suc, ◌+◌, ◌*◌, ◌/◌, ◌%◌, ◌^◌, ◌<◌, ◌≡◌, refl, ap, Bool, true, false, List, [], ◌∷◌, ◌++◌,
  Option, none, some, length, take, drop, length-append, take-append, drop-append, ltb,
  if◌then◌else◌, arith,
}
use native.Mathlib.Numerals.{towards_suc}
use gip_multiplayer.Wire.{Buffer, Laws}

pub record Unread : Type 0 where
  pub unread : List ℕ
  pub bad : Bool

abbrev pub bytes : ℕ → ℕ → List ℕ
bytes zero v = []
bytes (suc w) v = v % 256 ∷ bytes w (v / 256)

abbrev pub take_int : ℕ → List ℕ → Option (ℕ × List ℕ)
take_int zero xs = some (0, xs)
take_int (suc w) [] = none
take_int (suc w) (x ∷ xs) = elim (take_int w xs) [
  | none ↦ none
  | some (v, rest) ↦ some (x + 256 * v, rest)
]

abbrev pub read_int : ℕ → Unread → ℕ × Unread
read_int w b = elim (take_int w b.unread) [
  | none ↦ (0, record b { bad = true })
  | some (v, rest) ↦ (v, record b { unread = rest })
]

abbrev pub bytes_buffer : Buffer
bytes_buffer = record {
  Buf = Unread;
  write_int = λ w v b. record b { unread = b.unread ++ bytes w v };
  write = λ xs b. record b { unread = b.unread ++ xs };
  read_int = read_int;
  read = λ n b.
      if ltb (length b.unread) n
      then ([], record b { bad = true })
      else (take n b.unread, record b { unread = drop n b.unread });
  readable_bytes = λ b. length b.unread;
  get_and_clear_last_error = λ b. (b.bad, record b { bad = false });
}

pub length-bytes : (w v : ℕ) → length (bytes w v) ≡ w
length-bytes zero v = refl
length-bytes (suc w) v = ap suc (length-bytes w (v / 256))

pow_byte : (w : ℕ) → 2 ^ (8 * suc w) ≡ 256 * 2 ^ (8 * w)
pow_byte w = let e : 8 * suc w ≡ 8 * w + 8 = omega arith in rw e (simp towards_suc (omega arith))

take_int-bytes :
    (w v : ℕ) (rest : List ℕ) → v < 2 ^ (8 * w) → take_int w (bytes w v ++ rest) ≡ some (v, rest)
take_int-bytes zero v rest h = ap (λ (n : ℕ). some (n, rest)) (omega arith)
take_int-bytes (suc w) v rest h =
    let small : v < 256 * 2 ^ (8 * w) = rw (← pow_byte w) h in
    let ih = take_int-bytes w (v / 256) rest (omega arith) in
    rw ih (ap (λ (n : ℕ). some (n, rest)) (omega arith))

pub read_int-Took :
    (w v : ℕ) (rest : List ℕ) (b : Unread)
    → v < 2 ^ (8 * w)
    → b.bad ≡ false
    → b.unread ≡ bytes w v ++ rest
    → ((read_int w b).0 ≡ v) × ((read_int w b).1.unread ≡ rest) × ((read_int w b).1.bad ≡ false)
read_int-Took w v rest b fits ok e = rw (e, take_int-bytes w v rest fits, read_int) (refl, refl, ok)

pub read-Took :
    (xs rest : List ℕ) (b : Unread)
    → b.bad ≡ false
    → b.unread ≡ xs ++ rest
    → ((bytes_buffer.read (length xs) b).0 ≡ xs)
      × ((bytes_buffer.read (length xs) b).1.unread ≡ rest)
      × ((bytes_buffer.read (length xs) b).1.bad ≡ false)
read-Took xs rest b ok e =
    let n : ltb (length (xs ++ rest)) (length xs) ≡ false = ground (arith, length-append xs rest) in
    rw (e, n) (take-append xs rest, drop-append xs rest, ok)

abbrev pub bytes_laws : Laws bytes_buffer
bytes_laws = record {
  contents = λ b. b.unread;
  failed = λ b. b.bad;
  bytes = bytes;
  length-bytes = length-bytes;
  readable_bytes-eq = λ b. refl;
  write_int-Wrote = λ w v b h. (h, refl);
  write-Wrote = λ xs b h. (h, refl);
  read_int-Took = read_int-Took;
  read-Took = read-Took;
  error-eq = λ b. (refl, refl, refl);
}
