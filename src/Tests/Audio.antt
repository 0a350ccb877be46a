-- ===== src/Tests/Audio.antt =====
-- The queues and the frames of team voice at concrete inputs.
use gip_multiplayer.Base.{
  ◌≡◌, ltb, if◌then◌else◌, ◌++◌, min, ℕ, ◌<◌, ◌≤◌, refl, true, false, List, [], ◌∷◌, Option, some,
  length, some_inj, subst, arith,
}
use gip_multiplayer.Voice.Packets.{UplinkPacket}
use gip_multiplayer.Audio.Queue.{SpscQueue, Access, new_queue, run}
use gip_multiplayer.Audio.Refine.{QueueRun, contents, IsSpsc}
use gip_multiplayer.Audio.Schedule.{run_refines, new_queue-IsSpsc}
use gip_multiplayer.Audio.Ring.{SampleRing, write, read}
use gip_multiplayer.Audio.RingRefine.{IsRing, samples, sample_ring_lem}
use gip_multiplayer.Audio.Capture.{PcmFrame, Capture, CaptureView}
use gip_multiplayer.Audio.Uplink.{
  Processor, Call, calls, call, pop_outgoing, encode_frame, capture_active, enqueue_outgoing,
  encoded_of, next_current, is_current, packet_of, set_session,
}
use gip_multiplayer.Audio.Sending.{IsValid}
use gip_multiplayer.Audio.Calls.{CodecLaws}
use gip_multiplayer.Audio.Accepted.{Accepted, calls-Accepted}

abbrev pair_queue : SpscQueue ℕ
pair_queue = new_queue 0 2

-- The consumer looks while the producer is between its write and its store.
abbrev schedule : List (Access ℕ)
schedule =
    Access.push_test 5
    ∷ Access.push_fill
    ∷ Access.pop_test
    ∷ Access.push_store
    ∷ Access.pop_test
    ∷ Access.push_test 6
    ∷ Access.pop_copy
    ∷ Access.push_fill
    ∷ Access.push_store
    ∷ Access.pop_store
    ∷ Access.discard_load
    ∷ Access.discard_store
    ∷ []

run_refines_example :
    IsSpsc (run schedule pair_queue).0
    × QueueRun 2
        (run schedule pair_queue).1
        (contents pair_queue)
        (contents (run schedule pair_queue).0)
unfolding new_queue
run_refines_example = run_refines schedule pair_queue (new_queue-IsSpsc 0 2).0 (omega arith)

abbrev microphone : Capture ℕ
microphone = record {
  staging = 1 ∷ 2 ∷ [];
  staging_position = 10;
  staging_session_epoch = 2;
  staging_epoch = 5;
  position = 12;
  discontinuity = false;
  captured_frames = 0;
  overruns = 0;
}

abbrev sending : CaptureView
sending = record { running = true; active = true; session_epoch = 2; capture_epoch = 5 }

abbrev idle_processor : Processor
idle_processor = record {
  outgoing_packets = 2;
  incoming_packets = 4;
  running = true;
  enabled = true;
  transmitting = true;
  local_muted = false;
  session_id = 0;
  membership_generation = 0;
  local_player_id = 0;
  session_epoch = 0;
  capture_epoch = 1;
  outgoing = [];
  incoming = [];
  playback_clear_requested = false;
  encoded_packets = 0;
  encode_errors = 0;
  outgoing_queue_drops = 0;
  received_packets = 0;
  received_bytes = 0;
  incoming_queue_drops = 0;
}

-- A codec that makes one byte of any frame.
abbrev one_byte : List ℕ → Option (List ℕ)
one_byte xs = some (9 ∷ [])

one_byte-laws : CodecLaws one_byte
one_byte-laws = record {
  not_empty = λ xs bytes e. subst (λ b. 0 < length b) (some_inj e) (omega arith);
  fits = λ xs bytes e. subst (λ b. length b ≤ 256) (some_inj e) (omega arith);
}

abbrev spoken : PcmFrame ℕ
spoken = record {
  samples = 1 ∷ [];
  session_epoch = 2;
  capture_epoch = 2;
  sample_position = 0;
  discontinuity = true;
}

abbrev evening : List (Call ℕ)
evening = Call.enter 7 3 1 ∷ Call.encode spoken 4 0 true ∷ []

abbrev spoken_packet : UplinkPacket
spoken_packet = record {
  version = 1;
  flags = 3;
  session_id = 7;
  membership_generation = 3;
  stream_generation = 4;
  sequence = 0;
  sample_position = 0;
  payload = 9 ∷ [];
}

idle-IsValid : IsValid idle_processor
idle-IsValid = record {
  out_room = omega arith;
  in_room = omega arith;
  out_bounded = omega arith;
  in_bounded = omega arith;
  sendable = tt;
}

calls-Accepted_example :
    IsValid (calls one_byte evening idle_processor)
    × Accepted (calls one_byte evening idle_processor) spoken_packet
unfolding calls call pop_outgoing encode_frame capture_active enqueue_outgoing encoded_of
    next_current is_current packet_of set_session
calls-Accepted_example =
    calls-Accepted one_byte one_byte-laws evening idle_processor spoken_packet idle-IsValid refl

-- One of three slots is in use, and the write goes round.
abbrev small_ring : SampleRing ℕ
small_ring = record { slots = λ i. i; size = 3; read_position = 4; write_position = 5 }

small_ring-IsRing : IsRing small_ring
small_ring-IsRing = record {
  ordered = omega arith;
  bounded = omega arith;
  sized = omega arith;
  small = omega arith;
}

sample_ring_lem_example :
    (IsRing (write (8 ∷ 9 ∷ []) small_ring).0
      × (samples (write (8 ∷ 9 ∷ []) small_ring).0
          ≡ (if ltb 2 2 then samples small_ring else samples small_ring ++ 8 ∷ 9 ∷ [])))
    × (IsRing (read 2 small_ring).0
        × (((read 2 small_ring).1 ++ samples (read 2 small_ring).0 ≡ samples small_ring)
            × (length (read 2 small_ring).1 ≡ min 2 (length (samples small_ring)))))
sample_ring_lem_example = sample_ring_lem (8 ∷ 9 ∷ []) 2 small_ring small_ring-IsRing (omega arith)
