-- ===== src/Tests/Receiver.antt =====
-- A speaker whose frames arrive, and who is played, at concrete sequence numbers.
use gip_multiplayer.Base.{ℕ, ◌≡◌, refl, true, false, [], ◌∷◌, Option, arith}
use gip_multiplayer.Voice.Receiver.{
  RemoteFrame, Speaker, Counters, Receiver, ReceiverConfig, new_speaker,
}
use gip_multiplayer.Voice.Receiver.Jitter.{
  is_queued, buffer_frame, count_late, Arrival, process_incoming, scan_oldest,
}
use gip_multiplayer.Voice.Receiver.Invariant.{IsValid, SpeakerIsValid, Owned}
use gip_multiplayer.Voice.Receiver.Delivery.{process_incoming-IsValid}
use gip_multiplayer.Voice.Receiver.Playout.{begin_playout, find_sequence, decode_next, play_speaker}
use gip_multiplayer.Voice.Receiver.Order.{arrive, play_speaker_once}

abbrev config : ReceiverConfig
config = record {
  max_speakers = 2;
  jitter_packets = 4;
  initial_jitter_packets = 2;
  max_plc_frames = 5;
  speaker_timeout_milliseconds = 2000;
}

abbrev frame : ℕ → RemoteFrame
frame n = record {
  flags = 0;
  session_epoch = 2;
  speaker_id = 7;
  speaker_generation = 1;
  stream_generation = 1;
  sequence = n;
  sample_position = 0;
  payload = 1 ∷ [];
}

abbrev counters : Counters
counters = record {
  late_packets = 0;
  duplicate_packets = 0;
  reordered_packets = 0;
  decode_errors = 0;
}

abbrev arrival : ℕ → Arrival
arrival n = record { frame = frame n; now = 5; codec = true; session_epoch = 2; enabled = true }

abbrev silent : Receiver
silent = record { config = config; speakers = []; counters = counters }

process_incoming-IsValid_example :
    IsValid (process_incoming 2 (arrival 1 ∷ arrival 0 ∷ arrival 1 ∷ []) silent)
process_incoming-IsValid_example =
    process_incoming-IsValid 2 (arrival 1 ∷ arrival 0 ∷ arrival 1 ∷ []) silent
      record { speakers = tt; room = omega arith }

-- The last sequence number and the first are queued, in the wrong order.
abbrev ready : Speaker
ready = record (new_speaker 0 7) {
  speaker_generation = 1;
  stream_generation = 1;
  jitter = frame 0 ∷ frame 4294967295 ∷ [];
  has_highest = true;
  highest_sequence = 0;
}

ready-IsValid : SpeakerIsValid 4 7 ready
unfolding is_queued
ready-IsValid = record {
  bounded = omega arith;
  distinct = (refl, (refl, tt));
  owned = ((refl, refl, refl), ((refl, refl, refl), tt));
}

abbrev decode : Option RemoteFrame → ℕ
decode f = 960

abbrev played : Speaker
played = (play_speaker config 9 decode ready).0

play_speaker_once_example :
    Owned 7 1 1 (frame 4294967295)
    × (is_queued 4294967295 (frame 0 ∷ frame 4294967295 ∷ []) ≡ true)
    × (played.expected_sequence ≡ 0)
    × (is_queued 4294967295 played.jitter ≡ false)
    × SpeakerIsValid 4 7 played
    × (let r = arrive config ((10, frame 1) ∷ []) played counters in
        buffer_frame config 11 (frame 4294967295) r.0 r.1 ≡ (r.0, count_late r.1))
unfolding play_speaker begin_playout decode_next find_sequence scan_oldest
    gip_multiplayer.Voice.Packets.is_sequence_newer
play_speaker_once_example =
    play_speaker_once config 9 11 7 decode ready (frame 4294967295) (frame 4294967295)
      ((10, frame 1) ∷ []) counters ready-IsValid (omega arith, (omega arith, tt))
      (λ e. absurd (cc)) refl refl
