-- ===== src/Audio.antt =====
-- The sound side of team voice: the queues between the capture, worker and playback threads, and the
-- frames on their way out and in. From src/audio/gVoiceAudioProcessor.cpp.
pub mod Window
pub mod Queue
pub mod Refine
pub mod Pop
pub mod Schedule
pub mod Capture
pub mod Samples
pub mod Uplink
pub mod Sending
pub mod Calls
pub mod Accepted
pub mod Ring
pub mod Blocks
pub mod RingRefine
