-- ===== src/Voice/Receiver/Invariant.antt =====
-- What always holds of the jitter buffers, whatever frames arrive.
use gip_multiplayer.Base.{
  ℕ, zero, suc, ◌≤◌, ◌≡◌, ◌≢◌, refl, inl, inr, true, false, List, [], ◌∷◌, ◌++◌, some, leb, ◌==◌,
  length, length-append, length-set, set, All, All-append, arith, Bool-cases,
}
use gip_multiplayer.Base.Dict.{lookup, update}
use gip_multiplayer.Voice.Receiver.{RemoteFrame, Speaker, Receiver}
use gip_multiplayer.Voice.Receiver.Jitter.{is_queued, scan_oldest, enqueue}

-- No sequence number is queued twice.
abbrev pub Distinct : List RemoteFrame → Type 0
Distinct [] = Unit
Distinct (q ∷ qs) = (is_queued q.sequence qs ≡ false) × Distinct qs

-- The frame is one of the speaker's current stream.
abbrev pub Owned : ℕ → ℕ → ℕ → RemoteFrame → Type 0
Owned id generation stream q =
    (q.speaker_id ≡ id) × (q.speaker_generation ≡ generation) × (q.stream_generation ≡ stream)

-- The speaker under a key: a bounded buffer of different frames, all of its current stream.
pub record SpeakerIsValid (capacity key : ℕ) (s : Speaker) : Type 0 where
  pub bounded : length s.jitter ≤ capacity
  pub distinct : Distinct s.jitter
  pub owned : All (Owned key s.speaker_generation s.stream_generation) s.jitter

abbrev pub AllSpeakers : ℕ → List (ℕ × Speaker) → Type 0
AllSpeakers capacity [] = Unit
AllSpeakers capacity ((k, s) ∷ m) = SpeakerIsValid capacity k s × AllSpeakers capacity m

pub record IsValid (r : Receiver) : Type 0 where
  pub speakers : AllSpeakers r.config.jitter_packets r.speakers
  pub room : length r.speakers ≤ r.config.max_speakers

pub lookup-AllSpeakers :
    (n k : ℕ) (m : List (ℕ × Speaker)) (s : Speaker)
    → AllSpeakers n m
    → lookup k m ≡ some s
    → SpeakerIsValid n k s
lookup-AllSpeakers n k [] s a h = absurd (cc)
lookup-AllSpeakers n k ((j, x) ∷ m) s a h = elim (Bool-cases (j == k)) [
  | inl e ↦ let i : j ≡ k = ground arith in let p : x ≡ s = ground arith in rw (← p, ← i) a.0
  | inr e ↦ lookup-AllSpeakers n k m s a.1 (ground arith)
]

pub update-AllSpeakers :
    (n k : ℕ) (s : Speaker) (m : List (ℕ × Speaker))
    → SpeakerIsValid n k s
    → AllSpeakers n m
    → AllSpeakers n (update k s m)
update-AllSpeakers n k s [] v a = tt
update-AllSpeakers n k s ((j, x) ∷ m) v a = ground (arith, update-AllSpeakers n k s m v a.1)

All-set :
    (P : RemoteFrame → Type 0) (qs : List RemoteFrame) (i : ℕ) (f : RemoteFrame)
    → P f
    → All P qs
    → All P (set qs i f)
All-set P [] i f p a = tt
All-set P (q ∷ qs) zero f p a = (p, a.1)
All-set P (q ∷ qs) (suc i) f p a = (a.0, All-set P qs i f p a.1)

is_queued-set :
    (n : ℕ) (qs : List RemoteFrame) (i : ℕ) (f : RemoteFrame)
    → f.sequence ≢ n
    → is_queued n qs ≡ false
    → is_queued n (set qs i f) ≡ false
unfolding is_queued
is_queued-set n [] i f d h = refl
is_queued-set n (q ∷ qs) zero f d h = ground arith
is_queued-set n (q ∷ qs) (suc i) f d h = ground (arith, is_queued-set n qs i f d)

Distinct-set :
    (qs : List RemoteFrame) (i : ℕ) (f : RemoteFrame)
    → is_queued f.sequence qs ≡ false
    → Distinct qs
    → Distinct (set qs i f)
unfolding is_queued
Distinct-set [] i f h d = tt
Distinct-set (q ∷ qs) zero f h d = (ground arith, d.1)
Distinct-set (q ∷ qs) (suc i) f h d =
    (is_queued-set q.sequence qs i f (ground arith) d.0, Distinct-set qs i f (ground arith) d.1)

is_queued-append :
    (n : ℕ) (qs : List RemoteFrame) (f : RemoteFrame)
    → f.sequence ≢ n
    → is_queued n qs ≡ false
    → is_queued n (qs ++ (f ∷ [])) ≡ false
unfolding is_queued
is_queued-append n [] f d h = ground arith
is_queued-append n (q ∷ qs) f d h = ground (arith, is_queued-append n qs f d)

Distinct-append :
    (qs : List RemoteFrame) (f : RemoteFrame)
    → is_queued f.sequence qs ≡ false
    → Distinct qs
    → Distinct (qs ++ (f ∷ []))
unfolding is_queued
Distinct-append [] f h d = (refl, tt)
Distinct-append (q ∷ qs) f h d =
    (is_queued-append q.sequence qs f (ground arith) d.0, Distinct-append qs f (ground arith) d.1)

-- What is kept by a buffer that takes a frame that it did not hold.
pub record Kept (capacity : ℕ) (P : RemoteFrame → Type 0) (qs : List RemoteFrame) : Type 0 where
  pub bounded : length qs ≤ capacity
  pub distinct : Distinct qs
  pub all : All P qs

pub enqueue-Kept :
    (n : ℕ) (P : RemoteFrame → Type 0) (f : RemoteFrame) (qs after : List RemoteFrame)
    → enqueue n f qs ≡ some after
    → is_queued f.sequence qs ≡ false
    → P f
    → Kept n P qs
    → Kept n P after
unfolding enqueue
enqueue-Kept n P f qs after e h p k = elim (Bool-cases (leb n (length qs))) [
  | inr free ↦
      let b = k.bounded in
      let x : qs ++ (f ∷ []) ≡ after = ground arith in
      rw (← x) record {
        bounded = ground (arith, length-append qs (f ∷ []));
        distinct = Distinct-append qs f h k.distinct;
        all = All-append P qs (f ∷ []) k.all (p, tt);
      }
  | inl full ↦ replaced qs full e h k
]
  where
    replaced :
        (qs : List RemoteFrame)
        → leb n (length qs) ≡ true
        → enqueue n f qs ≡ some after
        → is_queued f.sequence qs ≡ false
        → Kept n P qs
        → Kept n P after
    replaced [] full e h k = absurd (ground arith)
    replaced (q ∷ qs) full e h k =
        let at = (scan_oldest qs 1 q 0).1 in
        let b = k.bounded in
        let x : set (q ∷ qs) at f ≡ after = ground arith in
        rw (← x) record {
          bounded = omega (arith, length-set (q ∷ qs) at f);
          distinct = Distinct-set (q ∷ qs) at f h k.distinct;
          all = All-set P (q ∷ qs) at f p k.all;
        }
