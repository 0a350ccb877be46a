-- ===== src/Audio/RingRefine.antt =====
-- The sample ring is a queue of samples: what is read is what was written, in its order. About
-- `SampleRingBuffer` of src/audio/gVoiceAudioProcessor.cpp.
use gip_multiplayer.Base.{
  ℕ, ◌+◌, ◌-◌, ◌^◌, ◌≤◌, ◌<◌, ◌≡◌, refl, sym, ap, ◌∙◌, inl, inr, List, ◌++◌, ltb, if◌then◌else◌,
  min, length, add64, sub64, arith, Bool-cases,
}
use gip_multiplayer.Audio.Window.{window, length-window}
use gip_multiplayer.Audio.Ring.{SampleRing, copy_into, write, read}
use gip_multiplayer.Audio.Blocks.{
  store_round, window-append, window-store_round, copy_into-round, copy_out-window,
}

module _ {S : Type 0} where
  -- The samples between the positions.
  abbrev pub samples : SampleRing S → List S
  samples r = window r.slots r.size r.read_position (r.write_position - r.read_position)

  pub record IsRing (r : SampleRing S) : Type 0 where
    pub ordered : r.read_position ≤ r.write_position
    pub bounded : r.write_position ≤ r.read_position + r.size
    pub sized : 0 < r.size
    pub small : r.size < 2 ^ 64

  -- A write that fits adds its samples at the end of the queue and says so; one that does not fit
  -- changes nothing; the ring stays valid. The positions do not wrap.
  write-queue :
      (input : List S) (r : SampleRing S)
      → IsRing r
      → r.write_position + length input < 2 ^ 64
      → IsRing (write input r).0
        × (samples (write input r).0 ≡ (
            if ltb (r.size - (r.write_position - r.read_position)) (length input)
            then samples r
            else samples r ++ input))
  unfolding write copy_into
  write-queue input r v early =
      let a = v.ordered in
      let b = v.bounded in
      let z = v.sized in
      let y = v.small in
      let gap : sub64 r.write_position r.read_position ≡ r.write_position - r.read_position =
        omega arith in
      let free : sub64 r.size (r.write_position - r.read_position)
          ≡ r.size - (r.write_position - r.read_position) =
        omega arith in
      let next : add64 r.write_position (length input) ≡ r.write_position + length input =
        omega arith in
      elim (Bool-cases (ltb (r.size - (r.write_position - r.read_position)) (length input))) [
        | inl h ↦ simp (write, gap, free, h) (v, refl)
        | inr h ↦
            let fits : length input ≤ r.size - (r.write_position - r.read_position) =
              ground arith in
            let n = r.write_position - r.read_position in
            let start : r.write_position ≡ r.read_position + n = omega arith in
            let total : r.write_position + length input - r.read_position ≡ n + length input =
              omega arith in
            let stored = copy_into-round input r.write_position r z (omega arith) in
            simp (write, gap, free, h, next)
              (
                record { ordered = omega arith; bounded = omega arith; sized = z; small = y },
                ap
                      (λ s.
                        window s r.size r.read_position
                          (r.write_position + length input - r.read_position))
                      stored
                    ∙ ap
                        (window (store_round r.size r.write_position input r.slots) r.size
                          r.read_position)
                        total
                    ∙ ap
                        (λ p.
                          window (store_round r.size p input r.slots) r.size r.read_position
                            (n + length input))
                        start
                    ∙ window-store_round r.size r.read_position n input r.slots (omega arith),
              )
      ]

  -- A read takes samples from the front of the queue, as many as it asks for or all that are there; the
  -- ring stays valid.
  read-queue :
      (count : ℕ) (r : SampleRing S)
      → IsRing r
      → r.write_position < 2 ^ 64
      → IsRing (read count r).0
        × (((read count r).1 ++ samples (read count r).0 ≡ samples r)
            × (length (read count r).1 ≡ min count (length (samples r))))
  unfolding read
  read-queue count r v early =
      let a = v.ordered in
      let b = v.bounded in
      let z = v.sized in
      let n = r.write_position - r.read_position in
      let gap : sub64 r.write_position r.read_position ≡ n = omega arith in
      let got = min count n in
      let next : add64 r.read_position got ≡ r.read_position + got = omega arith in
      let out = copy_out-window r.read_position got r z (omega arith) in
      let rest : r.write_position - (r.read_position + got) ≡ n - got = omega arith in
      let whole : got + (n - got) ≡ n = omega arith in
      let size = length-window r.slots r.size r.read_position n in
      simp (gap, next)
        (
          record { ordered = omega arith; bounded = omega arith; sized = z; small = v.small },
          (
            ap
                  (λ xs.
                    xs
                    ++ window r.slots r.size (r.read_position + got)
                        (r.write_position - (r.read_position + got)))
                  out
                ∙ ap
                    (λ k.
                      window r.slots r.size r.read_position got
                      ++ window r.slots r.size (r.read_position + got) k)
                    rest
                ∙ sym (window-append r.slots r.size r.read_position got (n - got))
                ∙ ap (window r.slots r.size r.read_position) whole,
            ap length out
                ∙ length-window r.slots r.size r.read_position got
                ∙ ap (min count) (sym size),
          ),
        )

  -- The sample ring is a queue of samples: a write that fits adds its samples at the end and one that
  -- does not changes nothing; a read takes samples from the front, as many as it asks for or all that
  -- are there; and the ring stays valid, where the positions do not wrap.
  pub sample_ring_lem :
      (input : List S) (count : ℕ) (r : SampleRing S)
      → IsRing r
      → r.write_position + length input < 2 ^ 64
      → (IsRing (write input r).0
          × (samples (write input r).0 ≡ (
              if ltb (r.size - (r.write_position - r.read_position)) (length input)
              then samples r
              else samples r ++ input)))
        × (IsRing (read count r).0
            × (((read count r).1 ++ samples (read count r).0 ≡ samples r)
                × (length (read count r).1 ≡ min count (length (samples r)))))
  sample_ring_lem input count r v early =
      (write-queue input r v early, read-queue count r v (omega arith))
