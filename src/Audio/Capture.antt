-- ===== src/Audio/Capture.antt =====
-- Cutting captured sound into frames: `pushCaptured` of src/audio/gVoiceAudioProcessor.cpp. The capture
-- queue is shared with the worker, so whether it takes a frame is a parameter, by the frame's place.
use gip_multiplayer.Base.{
  ℕ, zero, suc, ◌+◌, ◌-◌, ◌%◌, Bool, true, false, ◌&&◌, ◌||◌, not, List, [], ◌∷◌, ◌++◌, ◌==◌, ◌!=◌,
  if◌then◌else◌, min, length, take, drop, add64,
}
use gip_multiplayer.Voice.Receiver.{frame_samples}

pub record PcmFrame (S : Type 0) : Type 0 where
  pub samples : List S
  pub session_epoch : ℕ
  pub capture_epoch : ℕ
  pub sample_position : ℕ
  pub discontinuity : Bool

-- The members that only the capture thread writes, with the two counters of its frames. The staging
-- array is its filled part.
pub record Capture (S : Type 0) : Type 0 where
  pub staging : List S
  pub staging_position : ℕ
  pub staging_session_epoch : ℕ
  pub staging_epoch : ℕ
  pub position : ℕ
  pub discontinuity : Bool
  pub captured_frames : ℕ
  pub overruns : ℕ

-- What the capture thread reads of the rest: whether the worker runs and sound is sent, and the epochs.
pub record CaptureView : Type 0 where
  pub running : Bool
  pub active : Bool
  pub session_epoch : ℕ
  pub capture_epoch : ℕ

module _ {S : Type 0} where
  -- A new frame starts where the staging array is empty.
  unfoldable pub begin_frame : CaptureView → ℕ → Capture S → Capture S
  begin_frame view offset c =
      if length c.staging == 0
      then record c {
        staging_position = add64 c.position offset;
        staging_session_epoch = view.session_epoch;
        staging_epoch = view.capture_epoch;
      }
      else c

  unfoldable pub frame_of : Capture S → PcmFrame S
  frame_of c = record {
    samples = c.staging;
    session_epoch = c.staging_session_epoch;
    capture_epoch = c.staging_epoch;
    sample_position = c.staging_position;
    discontinuity = c.discontinuity;
  }

  -- A full staging array is handed to the queue, which takes it or not.
  unfoldable pub emit : Bool → Capture S → Capture S
  emit taken c =
      if taken
      then record c {
        staging = [];
        discontinuity = false;
        captured_frames = add64 c.captured_frames 1;
      }
      else record c { staging = []; discontinuity = true; overruns = add64 c.overruns 1 }

  abbrev pub copied : List S → Capture S → ℕ
  copied input c = min (length input) (frame_samples - length c.staging)

  -- One turn of the loop, up to the test for a full frame.
  unfoldable pub fill : List S → Capture S → Capture S
  fill input c = record c { staging = c.staging ++ take (copied input c) input }

  -- The loop over what is left of the input, `offset` samples in; the frames that it cuts come with
  -- whether the queue took them. Every turn takes a sample, so the length of the input is fuel enough.
  unfoldable pub cut :
      CaptureView → (ℕ → Bool) → ℕ → ℕ → List S → Capture S → Capture S × List (Bool × PcmFrame S)
  cut view room zero offset input c = (c, [])
  cut view room (suc fuel) offset input c =
      let started = begin_frame view offset c in
      let filled = fill input started in
      let left = drop (copied input started) input in
      let later = offset + copied input started in
      let on = cut view room fuel later left filled in
      let next = cut view (λ i. room (suc i)) fuel later left (emit (room 0) filled) in
      if length input == 0
      then (c, [])
      else if length filled.staging == frame_samples
      then (next.0, (room 0, frame_of filled) ∷ next.1)
      else on

  -- A staging array of another epoch is dropped.
  unfoldable pub renew_staging : CaptureView → Capture S → Capture S
  renew_staging view c =
      if length c.staging != 0
        && (c.staging_session_epoch != view.session_epoch || c.staging_epoch != view.capture_epoch)
      then record c { staging = []; discontinuity = true }
      else c

  -- `input` is not null.
  unfoldable pub push_captured :
      CaptureView → (ℕ → Bool) → List S → Capture S → Capture S × List (Bool × PcmFrame S)
  push_captured view room input c =
      let samples = length input in
      let skipped = record c { staging = []; position = add64 c.position samples } in
      let r = cut view room samples 0 input (renew_staging view c) in
      if samples == 0
      then (c, [])
      else if not view.running || (view.session_epoch % 2 != 0 || not view.active)
      then (skipped, [])
      else (record r.0 { position = add64 c.position samples }, r.1)
