-- ===== src/Audio/Refine.antt =====
-- What `SpscQueue` of src/audio/gVoiceAudioProcessor.cpp promises: a bounded queue, whatever way the
-- accesses of its two threads interleave.
use gip_multiplayer.Base.{
  ℕ, suc, ◌+◌, ◌-◌, ◌%◌, ◌^◌, ◌≤◌, ◌<◌, ◌≡◌, refl, inl, inr, List, [], ◌∷◌, ◌++◌, leb, ==_refl,
  ==_false, length, drop, sub64, arith, Bool-cases,
}
use gip_multiplayer.Audio.Window.{store, window, places_apart, length-window, window-store}
use gip_multiplayer.Audio.Queue.{
  Producer, Consumer, SpscQueue, Access, Event, push_test_of, push_fill_of, produce,
}

module _ {T : Type 0} where
  -- The abstract queue of a size: what each event does to it, and when.
  pub data QueueStep (size : ℕ) : Event T → List T → List T → Type 0 where
    enqueued :
        (xs : List T) (v : T) → length xs < size → QueueStep size (Event.pushed v) xs (xs ++ v ∷ [])
    rejected : (xs : List T) → length xs ≡ size → QueueStep size Event.refused xs xs
    dequeued : (v : T) (xs : List T) → QueueStep size (Event.popped v) (v ∷ xs) xs
    empty : QueueStep size Event.nothing_there [] []
    cleared : (k : ℕ) (xs : List T) → QueueStep size Event.discarded xs (drop k xs)
    unseen : (xs : List T) → QueueStep size Event.silent xs xs

  pub data QueueRun (size : ℕ) : List (Event T) → List T → List T → Type 0 where
    done : (xs : List T) → QueueRun size [] xs xs
    more :
        (e : Event T) (es : List (Event T)) (xs ys zs : List T)
        → QueueStep size e xs ys
        → QueueRun size es ys zs
        → QueueRun size (e ∷ es) xs zs

  -- The values between the two positions.
  abbrev pub contents : SpscQueue T → List T
  contents q = window q.slots q.size q.read_position (q.write_position - q.read_position)

  -- What a thread may rely on in the middle of an operation, by the slots and the positions.
  abbrev pub ProducerOk : (ℕ → T) → ℕ → ℕ → ℕ → Producer T → Type 0
  ProducerOk slots size read write Producer.out = Unit
  ProducerOk slots size read write (Producer.checked v at) = (at ≡ write) × (write < read + size)
  ProducerOk slots size read write (Producer.filled v at) =
      (at ≡ write) × ((write < read + size) × (slots (at % size) ≡ v))

  abbrev pub ConsumerOk : (ℕ → T) → ℕ → ℕ → ℕ → Consumer T → Type 0
  ConsumerOk slots size read write Consumer.out = Unit
  ConsumerOk slots size read write (Consumer.found at) = (at ≡ read) × (read < write)
  ConsumerOk slots size read write (Consumer.copied v at) =
      (at ≡ read) × ((read < write) × (slots (at % size) ≡ v))
  ConsumerOk slots size read write (Consumer.dropping at) = (read ≤ at) × (at ≤ write)

  pub record IsSpsc (q : SpscQueue T) : Type 0 where
    pub ordered : q.read_position ≤ q.write_position
    pub bounded : q.write_position ≤ q.read_position + q.size
    pub sized : 0 < q.size
    pub producing : ProducerOk q.slots q.size q.read_position q.write_position q.producer
    pub consuming : ConsumerOk q.slots q.size q.read_position q.write_position q.consumer

  pub length-contents : (q : SpscQueue T) → length (contents q) ≡ q.write_position - q.read_position
  length-contents q =
      length-window q.slots q.size q.read_position (q.write_position - q.read_position)

  -- What a step has to do.
  pub record Refines (q : SpscQueue T) (r : SpscQueue T × Event T) : Type 0 where
    pub valid : IsSpsc r.0
    pub stepped : QueueStep q.size r.1 (contents q) (contents r.0)
    pub same_size : r.0.size ≡ q.size
    pub slow : r.0.write_position ≤ suc q.write_position

  pub idle : (q : SpscQueue T) → IsSpsc q → Refines q (q, Event.silent)
  idle q v = record {
    valid = v;
    stepped = QueueStep.unseen (contents q);
    same_size = refl;
    slow = omega arith;
  }

  pub test-Refines :
      (x : T) (p : Producer T) (q : SpscQueue T)
      → q.producer ≡ p
      → IsSpsc q
      → suc q.write_position < 2 ^ 64
      → Refines q (produce (Access.push_test x) p q)
  unfolding produce push_test_of
  test-Refines x (Producer.checked y w) q e v early = idle q v
  test-Refines x (Producer.filled y w) q e v early = idle q v
  test-Refines x Producer.out q e v early =
      let a = v.ordered in
      let b = v.bounded in
      let n = length-contents q in
      let g : sub64 q.write_position q.read_position ≡ q.write_position - q.read_position =
        omega arith in
      elim (Bool-cases (leb q.size (q.write_position - q.read_position))) [
        | inl h ↦
            let full : q.size ≤ q.write_position - q.read_position = ground arith in
            rw (produce, push_test_of, g, h)
              (record {
                valid = v;
                stepped = QueueStep.rejected (contents q) (omega arith);
                same_size = refl;
                slow = omega arith;
              })
        | inr h ↦
            let room : q.write_position - q.read_position < q.size = ground arith in
            rw (produce, push_test_of, g, h)
              (record {
                valid = record {
                  ordered = a;
                  bounded = b;
                  sized = v.sized;
                  producing = (refl, omega arith);
                  consuming = v.consuming;
                };
                stepped = QueueStep.unseen (contents q);
                same_size = refl;
                slow = omega arith;
              })
      ]

  -- A write to the slot at the write position is not seen by the consumer.
  consumer_unmoved :
      (slots : ℕ → T) (size read write : ℕ) (v : T) (p : Consumer T)
      → write < read + size
      → ConsumerOk slots size read write p
      → ConsumerOk (store (write % size) v slots) size read write p
  unfolding store
  consumer_unmoved slots size read write v Consumer.out l c = tt
  consumer_unmoved slots size read write v (Consumer.found at) l c = c
  consumer_unmoved slots size read write v (Consumer.dropping at) l c = c
  consumer_unmoved slots size read write v (Consumer.copied y at) l c =
      let e = c.0 in
      let r = c.1.0 in
      (
        c.0,
        (
          c.1.0,
          rw
              (==_false (write % size) (at % size)
                (places_apart size at write (omega arith) (omega arith)))
              c.1.1,
        ),
      )

  pub fill-Refines :
      (p : Producer T) (q : SpscQueue T)
      → ProducerOk q.slots q.size q.read_position q.write_position p
      → IsSpsc q
      → Refines q (produce Access.push_fill p q)
  unfolding produce push_fill_of store
  fill-Refines Producer.out q ok v = idle q v
  fill-Refines (Producer.filled y w) q ok v = idle q v
  fill-Refines (Producer.checked y w) q ok v =
      let a = v.ordered in
      let at = ok.0 in
      let room = ok.1 in
      record {
        valid = record {
          ordered = a;
          bounded = v.bounded;
          sized = v.sized;
          producing = (ok.0, (ok.1, rw (store, ==_refl (w % q.size)) refl));
          consuming = rw at (
              consumer_unmoved q.slots q.size q.read_position q.write_position y q.consumer room
                v.consuming);
        };
        stepped = rw at (
            rw
              (window-store q.slots q.size q.read_position (q.write_position - q.read_position)
                q.write_position y (omega arith) (omega arith))
              (QueueStep.unseen (contents q)));
        same_size = refl;
        slow = omega arith;
      }
