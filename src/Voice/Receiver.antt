-- ===== src/Voice/Receiver.antt =====
-- The receiving half of the voice worker, `gVoiceAudioProcessor::State` of
-- src/audio/gVoiceAudioProcessor.cpp: the speakers, their jitter buffers, and the counters. The Opus
-- codec is a third-party library: whether it can be set up, and how many samples it decodes, are
-- arguments. A time is a number of nanoseconds.
pub mod Jitter
pub mod Playout
pub mod Invariant
pub mod Delivery
pub mod Order
use gip_multiplayer.Base.{ℕ, ◌*◌, Bool, false, List, []}

abbrev pub milliseconds : ℕ → ℕ
milliseconds n = n * 1000000

abbrev pub frame_milliseconds : ℕ
frame_milliseconds = 20

abbrev pub frame_samples : ℕ
frame_samples = 960

abbrev pub max_forward_sequence_jump : ℕ
max_forward_sequence_jump = 250

-- What the receiving half reads of `Config`.
pub record ReceiverConfig : Type 0 where
  pub max_speakers : ℕ
  pub jitter_packets : ℕ
  pub initial_jitter_packets : ℕ
  pub max_plc_frames : ℕ
  pub speaker_timeout_milliseconds : ℕ

pub record RemoteFrame : Type 0 where
  pub flags : ℕ
  pub session_epoch : ℕ
  pub speaker_id : ℕ
  pub speaker_generation : ℕ
  pub stream_generation : ℕ
  pub sequence : ℕ
  pub sample_position : ℕ
  pub payload : List ℕ

pub record Speaker : Type 0 where
  pub speaker_id : ℕ
  pub speaker_generation : ℕ
  pub stream_generation : ℕ
  pub jitter : List RemoteFrame
  pub playing : Bool
  pub has_expected : Bool
  pub expected_sequence : ℕ
  pub has_highest : Bool
  pub highest_sequence : ℕ
  pub consecutive_missing : ℕ
  pub first_arrival : ℕ
  pub last_activity : ℕ
  pub next_playout : ℕ
  pub received_packets : ℕ
  pub decoded_packets : ℕ
  pub missing_packets : ℕ
  pub plc_frames : ℕ
  pub decode_errors : ℕ

pub record Counters : Type 0 where
  pub late_packets : ℕ
  pub duplicate_packets : ℕ
  pub reordered_packets : ℕ
  pub decode_errors : ℕ

pub record Receiver : Type 0 where
  pub config : ReceiverConfig
  pub speakers : List (ℕ × Speaker)
  pub counters : Counters

-- A `Speaker` as it is declared, before `resetSpeaker`.
abbrev pub new_speaker : ℕ → ℕ → Speaker
new_speaker now id = record {
  speaker_id = id;
  speaker_generation = 0;
  stream_generation = 0;
  jitter = [];
  playing = false;
  has_expected = false;
  expected_sequence = 0;
  has_highest = false;
  highest_sequence = 0;
  consecutive_missing = 0;
  first_arrival = now;
  last_activity = now;
  next_playout = now;
  received_packets = 0;
  decoded_packets = 0;
  missing_packets = 0;
  plc_frames = 0;
  decode_errors = 0;
}
