-- ===== src/Audio/Ring.antt =====
-- `SampleRingBuffer` of src/audio/gVoiceAudioProcessor.cpp, with its copies in two blocks, and
-- `popPlayback`, which reads from it. A call is a step here; the slots are a function of their place.
use gip_multiplayer.Base.{
  ℕ, zero, suc, ◌+◌, ◌-◌, ◌%◌, Bool, false, ◌&&◌, List, [], ◌∷◌, ◌++◌, ltb, ◌==◌, if◌then◌else◌,
  min, length, take, drop, add64, sub64,
}
use gip_multiplayer.Audio.Window.{store}

module _ {S : Type 0} where
  -- `std::memcpy` into and out of the slots.
  unfoldable pub store_block : ℕ → List S → (ℕ → S) → ℕ → S
  store_block place [] slots = slots
  store_block place (x ∷ xs) slots = store_block (place + 1) xs (store place x slots)

  unfoldable pub load_block : ℕ → ℕ → (ℕ → S) → List S
  load_block place zero slots = []
  load_block place (suc n) slots = slots place ∷ load_block (place + 1) n slots

pub record SampleRing (S : Type 0) : Type 0 where
  pub slots : ℕ → S
  pub size : ℕ
  pub read_position : ℕ
  pub write_position : ℕ

module _ {S : Type 0} where
  abbrev pub first_block : SampleRing S → ℕ → ℕ → ℕ
  first_block r position count = min count (r.size - position % r.size)

  unfoldable pub copy_into : List S → ℕ → SampleRing S → SampleRing S
  copy_into input position r =
      let offset = position % r.size in
      let first = first_block r position (length input) in
      record r {
        slots = store_block 0 (drop first input) (store_block offset (take first input) r.slots);
      }

  unfoldable pub copy_out : ℕ → ℕ → SampleRing S → List S
  copy_out position count r =
      let offset = position % r.size in
      let first = first_block r position count in
      load_block offset first r.slots ++ load_block 0 (count - first) r.slots

  -- All of the input or nothing.
  unfoldable pub write : List S → SampleRing S → SampleRing S × ℕ
  write input r =
      let written = copy_into input r.write_position r in
      if ltb (sub64 r.size (sub64 r.write_position r.read_position)) (length input)
      then (r, 0)
      else (record written { write_position = add64 r.write_position (length input) }, length input)

  unfoldable pub read : ℕ → SampleRing S → SampleRing S × List S
  read count r =
      let available = min count (sub64 r.write_position r.read_position) in
      (
        record r { read_position = add64 r.read_position available },
        copy_out r.read_position available r,
      )

  unfoldable pub discard_by_consumer : SampleRing S → SampleRing S
  discard_by_consumer r = record r { read_position = r.write_position }

-- What the playback callback reads and changes.
pub record Playback (S : Type 0) : Type 0 where
  pub ring : SampleRing S
  pub clear_requested : Bool
  pub active : Bool
  pub underruns : ℕ

module _ {S : Type 0} where
  unfoldable pub zeros : S → ℕ → List S
  zeros silence zero = []
  zeros silence (suc n) = silence ∷ zeros silence n

  -- `popPlayback`: the state, the output and the number of samples read; `output` is not null.
  unfoldable pub pop_playback : S → ℕ → Playback S → Playback S × (List S × ℕ)
  pop_playback silence count p =
      let ring = if p.clear_requested then discard_by_consumer p.ring else p.ring in
      let r = read count ring in
      let got = length r.1 in
      let short = ltb got count in
      let underruns = if short && p.active then add64 p.underruns 1 else p.underruns in
      if count == 0 then (p, ([], 0)) else (
        record p { ring = r.0; clear_requested = false; underruns = underruns },
        (r.1 ++ zeros silence (count - got), got),
      )
