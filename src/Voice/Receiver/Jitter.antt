-- ===== src/Voice/Receiver/Jitter.antt =====
-- A frame on its way into a jitter buffer: `addRemoteFrame`, `resetSpeaker`, `processIncoming`.
use gip_multiplayer.Base.{
  ℕ, suc, Bool, true, false, ◌&&◌, ◌||◌, not, List, [], ◌∷◌, ◌++◌, Option, none, some, ltb, leb,
  ◌==◌, ◌!=◌, if◌then◌else◌, length, set, bit_and, add64,
}
use gip_multiplayer.Base.Dict.{lookup, update}
use gip_multiplayer.Voice.Packets.{is_sequence_newer, sequence_distance, flag_discontinuity}
use gip_multiplayer.Voice.Receiver.{
  RemoteFrame, Speaker, Counters, Receiver, ReceiverConfig, new_speaker, max_forward_sequence_jump,
}

abbrev pub count_late : Counters → Counters
count_late c = record c { late_packets = add64 c.late_packets 1 }

abbrev pub count_duplicate : Counters → Counters
count_duplicate c = record c { duplicate_packets = add64 c.duplicate_packets 1 }

abbrev pub count_reordered : Counters → Counters
count_reordered c = record c { reordered_packets = add64 c.reordered_packets 1 }

-- `resetSpeaker` once the codec is set up.
abbrev pub reset_speaker : ℕ → RemoteFrame → Speaker → Speaker
reset_speaker now f s = record s {
  speaker_generation = f.speaker_generation;
  stream_generation = f.stream_generation;
  jitter = [];
  playing = false;
  has_expected = false;
  has_highest = false;
  consecutive_missing = 0;
  first_arrival = now;
  last_activity = now;
}

-- What the middle branch of `addRemoteFrame` finds about a frame for a speaker who is known.
pub data Verdict : Type 0 where
  continues : Verdict
  renews : Verdict
  late : Verdict
  duplicate : Verdict

unfoldable pub judge : RemoteFrame → Speaker → Verdict
judge f s =
    if f.speaker_generation == s.speaker_generation
      && (f.stream_generation == s.stream_generation && bit_and f.flags flag_discontinuity == 0)
    then continues
    else if f.speaker_generation != s.speaker_generation
        && not (is_sequence_newer f.speaker_generation s.speaker_generation)
    then late
    else if f.speaker_generation == s.speaker_generation
        && (f.stream_generation != s.stream_generation
            && not (is_sequence_newer f.stream_generation s.stream_generation))
    then late
    else if f.speaker_generation == s.speaker_generation
        && (f.stream_generation == s.stream_generation
            && (s.has_highest && not (is_sequence_newer f.sequence s.highest_sequence)))
    then if f.sequence == s.highest_sequence then duplicate else late
    else renews

unfoldable pub is_queued : ℕ → List RemoteFrame → Bool
is_queued n [] = false
is_queued n (q ∷ qs) = q.sequence == n || is_queued n qs

-- The scan for the oldest frame, from position `i` on; `best` stands at position `at`.
unfoldable pub scan_oldest : List RemoteFrame → ℕ → RemoteFrame → ℕ → RemoteFrame × ℕ
scan_oldest [] i best at = (best, at)
scan_oldest (q ∷ qs) i best at =
    let older = is_sequence_newer best.sequence q.sequence in
    scan_oldest qs (suc i) (if older then q else best) (if older then i else at)

-- A full buffer gives up its oldest frame for a newer one, or refuses.
unfoldable pub enqueue : ℕ → RemoteFrame → List RemoteFrame → Option (List RemoteFrame)
enqueue capacity f qs =
    if leb capacity (length qs)
    then elim qs [
      | [] ↦ none
      | q ∷ rest ↦
          let (oldest, at) = scan_oldest rest 1 q 0 in
          if is_sequence_newer f.sequence oldest.sequence then some (set (q ∷ rest) at f) else none
    ]
    else some (qs ++ (f ∷ []))

abbrev pub note_highest : RemoteFrame → Speaker → Speaker
note_highest f s =
    if not s.has_highest || is_sequence_newer f.sequence s.highest_sequence
    then record s { has_highest = true; highest_sequence = f.sequence }
    else s

-- `addRemoteFrame` once the speaker is found.
unfoldable pub buffer_frame :
    ReceiverConfig → ℕ → RemoteFrame → Speaker → Counters → Speaker × Counters
buffer_frame config now f s c =
    if s.has_expected
      && (f.sequence != s.expected_sequence
          && not (is_sequence_newer f.sequence s.expected_sequence))
    then (s, count_late c)
    else if s.has_expected
        && (is_sequence_newer f.sequence s.expected_sequence
            && ltb max_forward_sequence_jump (sequence_distance f.sequence s.expected_sequence))
    then (s, count_late c)
    else if is_queued f.sequence s.jitter
    then (s, count_duplicate c)
    else let c1 : Counters =
        if s.has_highest && not (is_sequence_newer f.sequence s.highest_sequence)
        then count_reordered c
        else c in
      elim (enqueue config.jitter_packets f s.jitter) [
        | none ↦ (note_highest f s, count_late c1)
        | some qs ↦ (
          record (note_highest f s) {
            jitter = qs;
            last_activity = now;
            received_packets = add64 s.received_packets 1;
          },
          c1,
        )
      ]

unfoldable pub store_frame : ℕ → RemoteFrame → Speaker → Receiver → Receiver
store_frame now f s r =
    let (s', c) = buffer_frame r.config now f s r.counters in
    record r { speakers = update f.speaker_id s' r.speakers; counters = c }

-- `codec` says whether a new decoder could be set up.
unfoldable pub add_remote_frame : ℕ → Bool → RemoteFrame → Receiver → Receiver
add_remote_frame now codec f r = elim (lookup f.speaker_id r.speakers) [
  | none ↦
      if leb r.config.max_speakers (length r.speakers)
      then record r { counters = count_late r.counters }
      else if not codec
      then record r {
        counters = record r.counters { decode_errors = add64 r.counters.decode_errors 1 };
      }
      else let s = reset_speaker now f (new_speaker now f.speaker_id) in
        store_frame now f s (record r { speakers = (f.speaker_id, s) ∷ r.speakers })
  | some s ↦ elim (judge f s) [
    | continues ↦ store_frame now f s r
    | late ↦ record r { counters = count_late r.counters }
    | duplicate ↦ record r { counters = count_duplicate r.counters }
    | renews ↦
        if not codec
        then record r {
          counters = record r.counters { decode_errors = add64 r.counters.decode_errors 1 };
        }
        else let s' = reset_speaker now f s in
          store_frame now f s' (record r { speakers = update f.speaker_id s' r.speakers })
  ]
]

-- A frame of the batch, and the clock and the codec when its turn comes.
pub record Arrival : Type 0 where
  pub frame : RemoteFrame
  pub now : ℕ
  pub codec : Bool
  pub session_epoch : ℕ
  pub enabled : Bool

unfoldable pub process_incoming : ℕ → List Arrival → Receiver → Receiver
process_incoming observed [] r = r
process_incoming observed (a ∷ rest) r =
    let live =
      a.frame.session_epoch == observed
      && (a.frame.session_epoch == a.session_epoch && a.enabled) in
    process_incoming observed rest (if live then add_remote_frame a.now a.codec a.frame r else r)
