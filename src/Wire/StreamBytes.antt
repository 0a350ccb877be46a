-- ===== src/Wire/StreamBytes.antt =====
-- A stream that meets the laws: a float is its four bytes, a string is prefixed by its length.
use gip_multiplayer.Base.{
  ℕ, ◌^◌, ◌<◌, ◌≡◌, refl, ap, ◌∙◌, Bool, true, false, List, [], ◌∷◌, ◌++◌, append_assoc, length,
  ◌!=◌, if◌then◌else◌, arith,
}
use gip_multiplayer.Base.Text.{Text}
use gip_multiplayer.Wire.Chain.{Took}
use gip_multiplayer.Wire.Bytes.{
  Unread, bytes, bytes_buffer, bytes_laws, read_int, read_int-Took, read-Took,
}
use gip_multiplayer.Wire.Values.{Stream, StreamLaws}

pub record Single : Type 0 where
  pub b0 : ℕ
  pub b1 : ℕ
  pub b2 : ℕ
  pub b3 : ℕ

abbrev pub single_bytes : Single → List ℕ
single_bytes x = x.b0 ∷ x.b1 ∷ x.b2 ∷ x.b3 ∷ []

abbrev pub take_single : List ℕ → Bool → Single × Unread
take_single (a ∷ b ∷ c ∷ d ∷ rest) bad =
    (record { b0 = a; b1 = b; b2 = c; b3 = d }, record { unread = rest; bad = bad })
take_single xs bad = (record { b0 = 0; b1 = 0; b2 = 0; b3 = 0 }, record { unread = xs; bad = true })

abbrev pub read_text : Unread → Text × Unread
read_text b = let (n, b1) = read_int 4 b in bytes_buffer.read n b1

abbrev pub read_flag : Unread → Bool × Unread
read_flag b = let (n, b1) = read_int 1 b in (n != 0, b1)

abbrev pub flag_byte : Bool → ℕ
flag_byte x = if x then 1 else 0

abbrev pub bytes_stream : Stream
bytes_stream = record {
  io = bytes_buffer;
  F = Single;
  write_float = λ x b. bytes_buffer.write (single_bytes x) b;
  write_string = λ t b. bytes_buffer.write t (bytes_buffer.write_int 4 (length t) b);
  write_bool = λ x b. bytes_buffer.write_int 1 (flag_byte x) b;
  write_var_int = λ n b. bytes_buffer.write_int 8 n b;
  read_float = λ b. take_single b.unread b.bad;
  read_string = read_text;
  read_bool = read_flag;
  read_var_int = λ b. read_int 8 b;
}

pub read_text-Took :
    (t : Text) (rest : List ℕ) (b : Unread)
    → length t < 2 ^ 32
    → b.bad ≡ false
    → b.unread ≡ (bytes 4 (length t) ++ t) ++ rest
    → Took bytes_buffer bytes_laws (read_text b) t rest
read_text-Took t rest b fits g e =
    let n =
      read_int-Took 4 (length t) (t ++ rest) b fits g
        (e ∙ append_assoc (bytes 4 (length t)) t rest) in
    rw n.0 (read-Took t rest (read_int 4 b).1 n.2 n.1)

pub read_flag-Took :
    (x : Bool) (rest : List ℕ) (b : Unread)
    → b.bad ≡ false
    → b.unread ≡ bytes 1 (flag_byte x) ++ rest
    → Took bytes_buffer bytes_laws (read_flag b) x rest
read_flag-Took x rest b g e =
    let n = read_int-Took 1 (flag_byte x) rest b (ground arith) g e in
    (ap (λ k. k != 0) n.0 ∙ ground arith, n.1, n.2)

abbrev pub bytes_stream_laws : StreamLaws bytes_stream
bytes_stream_laws = record {
  laws = bytes_laws;
  float_bytes = single_bytes;
  string_bytes = λ t. bytes 4 (length t) ++ t;
  bool_bytes = λ x. bytes 1 (flag_byte x);
  var_bytes = λ n. bytes 8 n;
  write_float-Wrote = λ x b h. (h, refl);
  write_string-Wrote = λ t b h. (h, append_assoc b.unread (bytes 4 (length t)) t);
  write_bool-Wrote = λ x b h. (h, refl);
  write_var_int-Wrote = λ n b h. (h, refl);
  read_float-Took = λ x rest b g e. rw (e, g) (refl, refl, refl);
  read_string-Took = read_text-Took;
  read_bool-Took = read_flag-Took;
  read_var_int-Took = λ n rest b fits g e. read_int-Took 8 n rest b fits g e;
}
