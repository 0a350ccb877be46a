-- ===== src/Wire.antt =====
-- The byte buffer that the packet serializers write to and read from (`znet::Buffer`), which is not
-- part of this repository: its operations are a parameter, and `Laws` says what is relied on.
pub mod Bytes
pub mod Chain
pub mod Values
pub mod StreamBytes
use gip_multiplayer.Base.{ℕ, ◌*◌, ◌^◌, ◌<◌, ◌≡◌, Bool, false, List, ◌++◌, length}

pub record Buffer : Type 1 where
  pub Buf : Type 0
  -- `WriteInt<T>` at a width in bytes, `Write`.
  pub write_int : ℕ → ℕ → Buf → Buf
  pub write : List ℕ → Buf → Buf
  -- `ReadInt<T>` at a width in bytes, and `Read` of so many bytes.
  pub read_int : ℕ → Buf → ℕ × Buf
  pub read : ℕ → Buf → List ℕ × Buf
  pub readable_bytes : Buf → ℕ
  -- `GetAndClearLastError() != BufferError::None`.
  pub get_and_clear_last_error : Buf → Bool × Buf

-- The unread bytes, the pending error, and the encoding of an integer are named, not fixed.
pub record Laws (io : Buffer) : Type 0 where
  pub contents : io.Buf → List ℕ
  pub failed : io.Buf → Bool
  pub bytes : ℕ → ℕ → List ℕ
  pub length-bytes : (w v : ℕ) → length (bytes w v) ≡ w
  pub readable_bytes-eq : (b : io.Buf) → io.readable_bytes b ≡ length (contents b)
  -- A write that leaves no error pending met none before, and appended its bytes.
  pub write_int-Wrote :
      (w v : ℕ) (b : io.Buf)
      → failed (io.write_int w v b) ≡ false
      → (failed b ≡ false) × (contents (io.write_int w v b) ≡ contents b ++ bytes w v)
  pub write-Wrote :
      (xs : List ℕ) (b : io.Buf)
      → failed (io.write xs b) ≡ false
      → (failed b ≡ false) × (contents (io.write xs b) ≡ contents b ++ xs)
  -- A read takes from the front the bytes of a value that fits its width.
  pub read_int-Took :
      (w v : ℕ) (rest : List ℕ) (b : io.Buf)
      → v < 2 ^ (8 * w)
      → failed b ≡ false
      → contents b ≡ bytes w v ++ rest
      → ((io.read_int w b).0 ≡ v)
        × (contents (io.read_int w b).1 ≡ rest)
        × (failed (io.read_int w b).1 ≡ false)
  pub read-Took :
      (xs : List ℕ) (rest : List ℕ) (b : io.Buf)
      → failed b ≡ false
      → contents b ≡ xs ++ rest
      → ((io.read (length xs) b).0 ≡ xs)
        × (contents (io.read (length xs) b).1 ≡ rest)
        × (failed (io.read (length xs) b).1 ≡ false)
  pub error-eq :
      (b : io.Buf)
      → ((io.get_and_clear_last_error b).0 ≡ failed b)
        × (contents (io.get_and_clear_last_error b).1 ≡ contents b)
        × (failed (io.get_and_clear_last_error b).1 ≡ false)
