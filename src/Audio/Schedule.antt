-- ===== src/Audio/Schedule.antt =====
-- `discardByConsumer` of `SpscQueue`, and any schedule of the accesses of the two threads. About
-- src/audio/gVoiceAudioProcessor.cpp.
use gip_multiplayer.Base.{
  ℕ, suc, ◌+◌, ◌-◌, ◌^◌, ◌<◌, ◌≡◌, refl, ap, subst, ◌∙◌, List, [], ◌∷◌, length, drop, arith,
}
use gip_multiplayer.Audio.Window.{window, drop-window}
use gip_multiplayer.Audio.Queue.{
  Consumer, SpscQueue, Access, Event, discard_store_of, new_queue, consume, access_step, run,
}
use gip_multiplayer.Audio.Refine.{
  QueueStep, QueueRun, contents, ConsumerOk, IsSpsc, Refines, idle, test-Refines, fill-Refines,
}
use gip_multiplayer.Audio.Pop.{
  producer_later, store-Refines, pop_test-Refines, pop_copy-Refines, pop_store-Refines,
}

module _ {T : Type 0} where
  discard_load-Refines :
      (p : Consumer T) (q : SpscQueue T) → IsSpsc q → Refines q (consume Access.discard_load p q)
  unfolding consume
  discard_load-Refines (Consumer.found at) q v = idle q v
  discard_load-Refines (Consumer.copied y at) q v = idle q v
  discard_load-Refines (Consumer.dropping at) q v = idle q v
  discard_load-Refines Consumer.out q v =
      let a = v.ordered in
      record {
        valid = record {
          ordered = a;
          bounded = v.bounded;
          sized = v.sized;
          producing = v.producing;
          consuming = (a, omega arith);
        };
        stepped = QueueStep.unseen (contents q);
        same_size = refl;
        slow = omega arith;
      }

  discard_store-Refines :
      (p : Consumer T) (q : SpscQueue T)
      → ConsumerOk q.slots q.size q.read_position q.write_position p
      → IsSpsc q
      → Refines q (consume Access.discard_store p q)
  unfolding consume discard_store_of
  discard_store-Refines Consumer.out q ok v = idle q v
  discard_store-Refines (Consumer.found at) q ok v = idle q v
  discard_store-Refines (Consumer.copied y at) q ok v = idle q v
  discard_store-Refines (Consumer.dropping at) q ok v =
      let l = ok.0 in
      let m = ok.1 in
      let b = v.bounded in
      let k = at - q.read_position in
      let n = q.write_position - q.read_position in
      let left : drop k (contents q) ≡ window q.slots q.size at (q.write_position - at) =
        drop-window q.slots q.size q.read_position n k (omega arith)
        ∙ ap (λ i. window q.slots q.size i (n - k)) (omega arith)
        ∙ ap (window q.slots q.size at) (omega arith) in
      record {
        valid = record {
          ordered = m;
          bounded = omega arith;
          sized = v.sized;
          producing =
              producer_later q.slots q.size q.read_position at q.write_position q.producer l
                v.producing;
          consuming = tt;
        };
        stepped =
            subst (λ zs. QueueStep q.size Event.discarded (contents q) zs) left
              (QueueStep.cleared k (contents q));
        same_size = refl;
        slow = omega arith;
      }

  access-Refines :
      (x : Access T) (q : SpscQueue T)
      → IsSpsc q
      → suc q.write_position < 2 ^ 64
      → Refines q (access_step x q)
  unfolding access_step
  access-Refines (Access.push_test y) q v early = test-Refines y q.producer q refl v early
  access-Refines Access.push_fill q v early = fill-Refines q.producer q v.producing v
  access-Refines Access.push_store q v early = store-Refines q.producer q v.producing v early
  access-Refines Access.pop_test q v early = pop_test-Refines q.consumer q v.consuming v
  access-Refines Access.pop_copy q v early = pop_copy-Refines q.consumer q v.consuming v
  access-Refines Access.pop_store q v early = pop_store-Refines q.consumer q v.consuming v early
  access-Refines Access.discard_load q v early = discard_load-Refines q.consumer q v
  access-Refines Access.discard_store q v early = discard_store-Refines q.consumer q v.consuming v

  -- The queue between two threads is a bounded first-in first-out queue, whatever the order of their
  -- accesses: from a valid state, what the callers see is a run of the abstract queue, from the values
  -- between the positions at the start to those at the end, and the end is valid; the positions do not
  -- wrap in the schedule.
  pub run_refines :
      (xs : List (Access T)) (q : SpscQueue T)
      → IsSpsc q
      → q.write_position + length xs < 2 ^ 64
      → IsSpsc (run xs q).0 × QueueRun q.size (run xs q).1 (contents q) (contents (run xs q).0)
  unfolding run
  run_refines [] q v early = (v, QueueRun.done (contents q))
  run_refines (x ∷ xs) q v early =
      let r = access-Refines x q v (omega arith) in
      let next = access_step x q in
      let slow = r.slow in
      let ih = run_refines xs next.0 r.valid (omega arith) in
      (
        ih.0,
        QueueRun.more next.1 (run xs next.0).1 (contents q) (contents next.0)
            (contents (run xs next.0).0) r.stepped
            (subst
              (λ n. QueueRun n (run xs next.0).1 (contents next.0) (contents (run xs next.0).0))
              r.same_size ih.1),
      )

  -- A new queue is valid and empty.
  pub new_queue-IsSpsc :
      (blank : T) (capacity : ℕ)
      → IsSpsc (new_queue blank capacity) × (contents (new_queue blank capacity) ≡ [])
  unfolding new_queue window
  new_queue-IsSpsc blank capacity = (
    record {
      ordered = omega arith;
      bounded = omega arith;
      sized = omega arith;
      producing = tt;
      consuming = tt;
    },
    refl,
  )
