-- ===== src/Audio/Samples.antt =====
-- No captured sample is lost or reordered on the way into frames, and every frame is full. About
-- `pushCaptured` of src/audio/gVoiceAudioProcessor.cpp.
use gip_multiplayer.Base.{◌<◌, ◌≡◌, Bool, ◌&&◌, List, [], ◌∷◌, ◌++◌, ◌==◌, if◌then◌else◌, length}
use gip_multiplayer.Voice.Receiver.{frame_samples}
use gip_multiplayer.Audio.Capture.{PcmFrame, Capture, CaptureView}

module _ {S : Type 0} where
  -- The samples of the frames, one after the other.
  unfoldable pub samples_of : List (Bool × PcmFrame S) → List S
  samples_of [] = []
  samples_of ((_, f) ∷ fs) = f.samples ++ samples_of fs

  abbrev pub AreFull : List (Bool × PcmFrame S) → Type 0
  AreFull [] = Unit
  AreFull ((_, f) ∷ fs) = (length f.samples ≡ frame_samples) × AreFull fs

  -- The samples that were staged before, and not of another session or another capture.
  unfoldable pub staged_before : CaptureView → Capture S → List S
  staged_before view c =
      if c.staging_session_epoch == view.session_epoch && c.staging_epoch == view.capture_epoch
      then c.staging
      else []

  -- What the loop does to the samples.
  pub record Cut (staged input : List S) (r : Capture S × List (Bool × PcmFrame S)) : Type 0 where
    pub kept : samples_of r.1 ++ r.0.staging ≡ staged ++ input
    pub full : AreFull r.1
    pub short : length r.0.staging < frame_samples
