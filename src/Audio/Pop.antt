-- ===== src/Audio/Pop.antt =====
-- The stores of `push`, and the three steps of `pop`, of `SpscQueue` in
-- src/audio/gVoiceAudioProcessor.cpp.
use gip_multiplayer.Base.{
  ℕ, suc, ◌+◌, ◌-◌, ◌%◌, ◌^◌, ◌≤◌, ◌<◌, ◌≡◌, refl, ap, ◌∙◌, inl, inr, [], ◌==◌, add64, arith,
  Bool-cases,
}
use gip_multiplayer.Audio.Window.{window, window_snoc}
use gip_multiplayer.Audio.Queue.{
  Producer, Consumer, SpscQueue, Access, push_store_of, pop_test_of, pop_copy_of, pop_store_of,
  produce, consume,
}
use gip_multiplayer.Audio.Refine.{
  QueueStep, contents, length-contents, ProducerOk, ConsumerOk, IsSpsc, Refines, idle,
}

module _ {T : Type 0} where
  consumer_later :
      (slots : ℕ → T) (size read write : ℕ) (p : Consumer T)
      → ConsumerOk slots size read write p
      → ConsumerOk slots size read (suc write) p
  consumer_later slots size read write Consumer.out c = tt
  consumer_later slots size read write (Consumer.found at) c = (c.0, let l = c.1 in omega arith)
  consumer_later slots size read write (Consumer.copied y at) c =
      (c.0, (let l = c.1.0 in omega arith, c.1.1))
  consumer_later slots size read write (Consumer.dropping at) c = (c.0, let l = c.1 in omega arith)

  pub producer_later :
      (slots : ℕ → T) (size read later write : ℕ) (p : Producer T)
      → read ≤ later
      → ProducerOk slots size read write p
      → ProducerOk slots size later write p
  producer_later slots size read later write Producer.out l c = tt
  producer_later slots size read later write (Producer.checked v at) l c =
      (c.0, let m = c.1 in omega arith)
  producer_later slots size read later write (Producer.filled v at) l c =
      (c.0, (let m = c.1.0 in omega arith, c.1.1))

  pub store-Refines :
      (p : Producer T) (q : SpscQueue T)
      → ProducerOk q.slots q.size q.read_position q.write_position p
      → IsSpsc q
      → suc q.write_position < 2 ^ 64
      → Refines q (produce Access.push_store p q)
  unfolding produce push_store_of
  store-Refines Producer.out q ok v early = idle q v
  store-Refines (Producer.checked y w) q ok v early = idle q v
  store-Refines (Producer.filled y w) q ok v early =
      let a = v.ordered in
      let room = ok.1.0 in
      let same = ok.0 in
      let n = length-contents q in
      let next : add64 w 1 ≡ suc q.write_position = omega arith in
      let size : suc q.write_position - q.read_position ≡ suc (q.write_position - q.read_position) =
        omega arith in
      let last : q.slots ((q.read_position + (q.write_position - q.read_position)) % q.size) ≡ y =
        ap (λ i. q.slots (i % q.size)) (omega arith) ∙ ok.1.1 in
      simp (next) (record {
        valid = record {
          ordered = omega arith;
          bounded = omega arith;
          sized = v.sized;
          producing = tt;
          consuming =
              consumer_later q.slots q.size q.read_position q.write_position q.consumer v.consuming;
        };
        stepped =
            rw
              (
                size,
                window_snoc q.slots q.size q.read_position (q.write_position - q.read_position),
                last,
              )
              (QueueStep.enqueued (contents q) y (omega arith));
        same_size = refl;
        slow = omega arith;
      })

  pub pop_test-Refines :
      (p : Consumer T) (q : SpscQueue T)
      → ConsumerOk q.slots q.size q.read_position q.write_position p
      → IsSpsc q
      → Refines q (consume Access.pop_test p q)
  unfolding consume pop_test_of window
  pop_test-Refines (Consumer.found at) q ok v = idle q v
  pop_test-Refines (Consumer.copied y at) q ok v = idle q v
  pop_test-Refines (Consumer.dropping at) q ok v = idle q v
  pop_test-Refines Consumer.out q ok v =
      let a = v.ordered in
      elim (Bool-cases (q.read_position == q.write_position)) [
        | inl h ↦
            let none_left : q.write_position - q.read_position ≡ 0 = ground arith in
            let nothing : contents q ≡ [] = ap (window q.slots q.size q.read_position) none_left in
            rw (consume, pop_test_of, h)
              (record {
                valid = v;
                stepped = rw nothing QueueStep.empty;
                same_size = refl;
                slow = omega arith;
              })
        | inr h ↦
            let some_left : q.read_position < q.write_position = ground arith in
            rw (consume, pop_test_of, h)
              (record {
                valid = record {
                  ordered = a;
                  bounded = v.bounded;
                  sized = v.sized;
                  producing = v.producing;
                  consuming = (refl, some_left);
                };
                stepped = QueueStep.unseen (contents q);
                same_size = refl;
                slow = omega arith;
              })
      ]

  pub pop_copy-Refines :
      (p : Consumer T) (q : SpscQueue T)
      → ConsumerOk q.slots q.size q.read_position q.write_position p
      → IsSpsc q
      → Refines q (consume Access.pop_copy p q)
  unfolding consume pop_copy_of
  pop_copy-Refines Consumer.out q ok v = idle q v
  pop_copy-Refines (Consumer.copied y at) q ok v = idle q v
  pop_copy-Refines (Consumer.dropping at) q ok v = idle q v
  pop_copy-Refines (Consumer.found at) q ok v = record {
    valid = record {
      ordered = v.ordered;
      bounded = v.bounded;
      sized = v.sized;
      producing = v.producing;
      consuming = (ok.0, (ok.1, refl));
    };
    stepped = QueueStep.unseen (contents q);
    same_size = refl;
    slow = omega arith;
  }

  pub pop_store-Refines :
      (p : Consumer T) (q : SpscQueue T)
      → ConsumerOk q.slots q.size q.read_position q.write_position p
      → IsSpsc q
      → suc q.write_position < 2 ^ 64
      → Refines q (consume Access.pop_store p q)
  unfolding consume pop_store_of window
  pop_store-Refines Consumer.out q ok v early = idle q v
  pop_store-Refines (Consumer.found at) q ok v early = idle q v
  pop_store-Refines (Consumer.dropping at) q ok v early = idle q v
  pop_store-Refines (Consumer.copied y at) q ok v early =
      let a = v.ordered in
      let b = v.bounded in
      let here = ok.0 in
      let some_left = ok.1.0 in
      let next : add64 at 1 ≡ q.read_position + 1 = omega arith in
      let count : q.write_position - q.read_position
          ≡ suc (q.write_position - (q.read_position + 1)) =
        omega arith in
      let first : q.slots (q.read_position % q.size) ≡ y = rw here at ok.1.1 in
      simp (next) (record {
        valid = record {
          ordered = omega arith;
          bounded = omega arith;
          sized = v.sized;
          producing =
              producer_later q.slots q.size q.read_position (q.read_position + 1) q.write_position
                q.producer (omega arith) v.producing;
          consuming = tt;
        };
        stepped =
            rw (count, first)
              (QueueStep.dequeued y (
                window q.slots q.size (q.read_position + 1)
                  (q.write_position - (q.read_position + 1))));
        same_size = refl;
        slow = omega arith;
      })
