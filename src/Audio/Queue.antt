-- ===== src/Audio/Queue.antt =====
-- `SpscQueue` of src/audio/gVoiceAudioProcessor.cpp, between one producer thread and one consumer
-- thread: each atomic access of `push`, `pop` and `discardByConsumer` is a step, and the steps of the
-- two threads come in any order.
use gip_multiplayer.Base.{ℕ, ◌%◌, List, [], ◌∷◌, leb, ◌==◌, if◌then◌else◌, max, add64, sub64}
use gip_multiplayer.Audio.Window.{store}

module _ (T : Type 0) where
  -- Where the producer is in `push`: outside; past the test for space, with the value and the position
  -- that it loaded; past the write to the slot.
  pub data Producer : Type 0 where
    out : Producer
    checked : T → ℕ → Producer
    filled : T → ℕ → Producer

  -- Where the consumer is: outside; past the test for values in `pop`; past the copy of the slot; or
  -- in `discardByConsumer`, with the position that it loaded.
  pub data Consumer : Type 0 where
    out : Consumer
    found : ℕ → Consumer
    copied : T → ℕ → Consumer
    dropping : ℕ → Consumer

  pub record SpscQueue : Type 0 where
    pub slots : ℕ → T
    pub size : ℕ
    pub read_position : ℕ
    pub write_position : ℕ
    pub producer : Producer
    pub consumer : Consumer

  -- The next access of a thread: the test of `push` with its argument, the write to the slot, and the
  -- store of the position; likewise for `pop` and `discardByConsumer`.
  pub data Access : Type 0 where
    push_test : T → Access
    push_fill : Access
    push_store : Access
    pop_test : Access
    pop_copy : Access
    pop_store : Access
    discard_load : Access
    discard_store : Access

  -- What a caller sees at a step: `push` returned, `pop` returned, values were discarded, or nothing.
  pub data Event : Type 0 where
    pushed : T → Event
    refused : Event
    popped : T → Event
    nothing_there : Event
    discarded : Event
    silent : Event

module _ {T : Type 0} where
  unfoldable pub new_queue : T → ℕ → SpscQueue T
  new_queue blank capacity = record {
    slots = λ i. blank;
    size = max 1 capacity;
    read_position = 0;
    write_position = 0;
    producer = Producer.out;
    consumer = Consumer.out;
  }

  -- `push`: the producer's own position does not change under it, so the load that counts is the one
  -- of the read position.
  unfoldable pub push_test_of : T → SpscQueue T → SpscQueue T × Event T
  push_test_of v q =
      if leb q.size (sub64 q.write_position q.read_position)
      then (q, Event.refused)
      else (record q { producer = Producer.checked v q.write_position }, Event.silent)

  unfoldable pub push_fill_of : T → ℕ → SpscQueue T → SpscQueue T × Event T
  push_fill_of v write q = (
    record q { slots = store (write % q.size) v q.slots; producer = Producer.filled v write },
    Event.silent,
  )

  unfoldable pub push_store_of : T → ℕ → SpscQueue T → SpscQueue T × Event T
  push_store_of v write q =
      (record q { write_position = add64 write 1; producer = Producer.out }, Event.pushed v)

  unfoldable pub pop_test_of : SpscQueue T → SpscQueue T × Event T
  pop_test_of q =
      if q.read_position == q.write_position
      then (q, Event.nothing_there)
      else (record q { consumer = Consumer.found q.read_position }, Event.silent)

  unfoldable pub pop_copy_of : ℕ → SpscQueue T → SpscQueue T × Event T
  pop_copy_of read q =
      (record q { consumer = Consumer.copied (q.slots (read % q.size)) read }, Event.silent)

  unfoldable pub pop_store_of : T → ℕ → SpscQueue T → SpscQueue T × Event T
  pop_store_of v read q =
      (record q { read_position = add64 read 1; consumer = Consumer.out }, Event.popped v)

  unfoldable pub discard_store_of : ℕ → SpscQueue T → SpscQueue T × Event T
  discard_store_of position q =
      (record q { read_position = position; consumer = Consumer.out }, Event.discarded)

  -- The producer's accesses, from where it is; an access that it is not at does not happen.
  unfoldable pub produce : Access T → Producer T → SpscQueue T → SpscQueue T × Event T
  produce (Access.push_test v) Producer.out q = push_test_of v q
  produce Access.push_fill (Producer.checked v write) q = push_fill_of v write q
  produce Access.push_store (Producer.filled v write) q = push_store_of v write q
  produce access producer q = (q, Event.silent)

  unfoldable pub consume : Access T → Consumer T → SpscQueue T → SpscQueue T × Event T
  consume Access.pop_test Consumer.out q = pop_test_of q
  consume Access.pop_copy (Consumer.found read) q = pop_copy_of read q
  consume Access.pop_store (Consumer.copied v read) q = pop_store_of v read q
  consume Access.discard_load Consumer.out q =
      (record q { consumer = Consumer.dropping q.write_position }, Event.silent)
  consume Access.discard_store (Consumer.dropping position) q = discard_store_of position q
  consume access consumer q = (q, Event.silent)

  unfoldable pub access_step : Access T → SpscQueue T → SpscQueue T × Event T
  access_step (Access.push_test v) q = produce (Access.push_test v) q.producer q
  access_step Access.push_fill q = produce Access.push_fill q.producer q
  access_step Access.push_store q = produce Access.push_store q.producer q
  access_step access q = consume access q.consumer q

  -- The state and the events after a schedule of accesses.
  unfoldable pub run : List (Access T) → SpscQueue T → SpscQueue T × List (Event T)
  run [] q = (q, [])
  run (x ∷ xs) q =
      let next = access_step x q in let rest = run xs next.0 in (rest.0, next.1 ∷ rest.1)
