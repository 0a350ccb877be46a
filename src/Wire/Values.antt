-- ===== src/Wire/Values.antt =====
-- What the packets of the game and of the master server write besides integers: floats, strings,
-- booleans and counts, again as parameters (`znet::Buffer`).
use gip_multiplayer.Base.{ℕ, ◌^◌, ◌<◌, ◌≡◌, Bool, false, List, ◌++◌, length}
use gip_multiplayer.Base.Text.{Text}
use gip_multiplayer.Wire.{Buffer, Laws}
use gip_multiplayer.Wire.Chain.{Wrote, Took}

pub record Stream : Type 1 where
  pub io : Buffer
  pub F : Type 0
  pub write_float : F → io.Buf → io.Buf
  pub write_string : Text → io.Buf → io.Buf
  pub write_bool : Bool → io.Buf → io.Buf
  pub write_var_int : ℕ → io.Buf → io.Buf
  pub read_float : io.Buf → F × io.Buf
  pub read_string : io.Buf → Text × io.Buf
  pub read_bool : io.Buf → Bool × io.Buf
  pub read_var_int : io.Buf → ℕ × io.Buf

-- Each value is appended as its encoding, and an encoding is read back as its value; a string has
-- to be shorter than 4 GB, and a count has to fit 64 bits.
pub record StreamLaws (s : Stream) : Type 0 where
  pub laws : Laws s.io
  pub float_bytes : s.F → List ℕ
  pub string_bytes : Text → List ℕ
  pub bool_bytes : Bool → List ℕ
  pub var_bytes : ℕ → List ℕ
  pub write_float-Wrote :
      (x : s.F) (b : s.io.Buf) → Wrote s.io laws b (s.write_float x b) (float_bytes x)
  pub write_string-Wrote :
      (t : Text) (b : s.io.Buf) → Wrote s.io laws b (s.write_string t b) (string_bytes t)
  pub write_bool-Wrote :
      (x : Bool) (b : s.io.Buf) → Wrote s.io laws b (s.write_bool x b) (bool_bytes x)
  pub write_var_int-Wrote :
      (n : ℕ) (b : s.io.Buf) → Wrote s.io laws b (s.write_var_int n b) (var_bytes n)
  pub read_float-Took :
      (x : s.F) (rest : List ℕ) (b : s.io.Buf)
      → laws.failed b ≡ false
      → laws.contents b ≡ float_bytes x ++ rest
      → Took s.io laws (s.read_float b) x rest
  pub read_string-Took :
      (t : Text) (rest : List ℕ) (b : s.io.Buf)
      → length t < 2 ^ 32
      → laws.failed b ≡ false
      → laws.contents b ≡ string_bytes t ++ rest
      → Took s.io laws (s.read_string b) t rest
  pub read_bool-Took :
      (x : Bool) (rest : List ℕ) (b : s.io.Buf)
      → laws.failed b ≡ false
      → laws.contents b ≡ bool_bytes x ++ rest
      → Took s.io laws (s.read_bool b) x rest
  pub read_var_int-Took :
      (n : ℕ) (rest : List ℕ) (b : s.io.Buf)
      → n < 2 ^ 64
      → laws.failed b ≡ false
      → laws.contents b ≡ var_bytes n ++ rest
      → Took s.io laws (s.read_var_int b) n rest
