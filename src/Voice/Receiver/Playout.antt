-- ===== src/Voice/Receiver/Playout.antt =====
-- A speaker's turn in `mixOneFrame`, up to what is fed to the decoder, and `cleanupSpeakers`. The
-- samples, the mute and volume controls and the totals over all speakers are left out.
use gip_multiplayer.Base.{
  ℕ, ◌+◌, ◌*◌, true, false, ◌&&◌, List, [], ◌∷◌, Option, none, some, ltb, ◌==◌, ◌!=◌, if◌then◌else◌,
  length, add32, add64,
}
use gip_multiplayer.Voice.Receiver.{
  RemoteFrame, Speaker, ReceiverConfig, milliseconds, frame_milliseconds, frame_samples,
}
use gip_multiplayer.Voice.Receiver.Jitter.{scan_oldest}

-- `none` while the speaker has to wait for more frames.
unfoldable pub begin_playout : ReceiverConfig → ℕ → Speaker → Option Speaker
begin_playout config now s =
    if s.playing
    then some s
    else if ltb (length s.jitter) config.initial_jitter_packets
        && ltb now
            (s.first_arrival + milliseconds (frame_milliseconds * config.initial_jitter_packets))
    then none
    else elim s.jitter [
      | [] ↦ none
      | q ∷ rest ↦ some (record s {
        expected_sequence = (scan_oldest rest 1 q 0).0.sequence;
        has_expected = true;
        playing = true;
        next_playout = now;
      })
    ]

unfoldable pub find_sequence : ℕ → List RemoteFrame → Option RemoteFrame
find_sequence n [] = none
find_sequence n (q ∷ qs) = if q.sequence == n then some q else find_sequence n qs

unfoldable pub erase_sequence : ℕ → List RemoteFrame → List RemoteFrame
erase_sequence n [] = []
erase_sequence n (q ∷ qs) = if q.sequence == n then qs else q ∷ erase_sequence n qs

-- What follows a call of the decoder that returned `samples`.
abbrev pub advance : ℕ → Speaker → Speaker
advance samples s = record s {
  decode_errors = if samples != frame_samples then add64 s.decode_errors 1 else s.decode_errors;
  expected_sequence = add32 s.expected_sequence 1;
  next_playout = s.next_playout + milliseconds frame_milliseconds;
}

-- The speaker who has begun, and what its decoder is fed: a frame, `some none` to conceal a missing
-- one, or nothing. `decode` says how many samples the decoder returns.
unfoldable pub decode_next :
    ReceiverConfig → (Option RemoteFrame → ℕ) → Speaker → Speaker × Option (Option RemoteFrame)
decode_next config decode s = elim (find_sequence s.expected_sequence s.jitter) [
  | some f ↦
      let samples = decode (some f) in
      (
        advance samples (record s {
          jitter = erase_sequence s.expected_sequence s.jitter;
          consecutive_missing = 0;
          decoded_packets =
              if samples == frame_samples then add64 s.decoded_packets 1 else s.decoded_packets;
        }),
        some (some f),
      )
  | none ↦
      let samples = decode none in
      if ltb s.consecutive_missing config.max_plc_frames
      then (
        advance samples (record s {
          consecutive_missing = s.consecutive_missing + 1;
          missing_packets = add64 s.missing_packets 1;
          plc_frames = if samples == frame_samples then add64 s.plc_frames 1 else s.plc_frames;
        }),
        some none,
      )
      else (record s { playing = false; has_expected = false }, none)
]

unfoldable pub play_speaker :
    ReceiverConfig → ℕ → (Option RemoteFrame → ℕ) → Speaker → Speaker × Option (Option RemoteFrame)
play_speaker config now decode s = elim (begin_playout config now s) [
  | none ↦ (s, none)
  | some b ↦ if ltb now b.next_playout then (b, none) else decode_next config decode b
]

unfoldable pub cleanup_speakers : ReceiverConfig → ℕ → List (ℕ × Speaker) → List (ℕ × Speaker)
cleanup_speakers config now [] = []
cleanup_speakers config now ((id, s) ∷ m) =
    let rest = cleanup_speakers config now m in
    if ltb (s.last_activity + milliseconds config.speaker_timeout_milliseconds) now
    then rest
    else (id, s) ∷ rest
