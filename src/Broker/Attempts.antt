-- ===== src/Broker/Attempts.antt =====
-- What the limit on failed logins promises: nobody collects ten failures, ten within a minute lock the
-- address out, and other addresses are left alone. About `RateLimiter` of src/master/MasterMain.cpp.
use gip_multiplayer.Base.{
  ℕ, ◌+◌, ◌-◌, ◌*◌, ◌/◌, ◌<◌, ◌≤◌, ◌≡◌, refl, ap, ◌∙◌, inl, inr, true, false, List, [], ◌∷◌, ◌++◌,
  none, some, ltb, leb, if◌then◌else◌, length, length-append, All, All-append, arith, Bool-cases,
  Option-cases,
}
use gip_multiplayer.Base.Text.{Text, text_eq, text_eq_refl, text_eq_through, text_eq_apart}
use gip_multiplayer.Broker.Limiter.{
  IpRateLimit, second, Tracker, tracked, track, untrack, is_locked_out, recent_attempts,
  no_attempts, entry_of, failed, record_failed_attempt, record_success, Attempt, attempt, attempts,
}

-- No address has ten failures on record.
abbrev pub FewAttempts : Tracker → Type 0
FewAttempts [] = Unit
FewAttempts ((_, e) ∷ m) = (length e.failed_attempts < 10) × FewAttempts m

failed-few : (now : ℕ) (e : IpRateLimit) → length (failed now e).failed_attempts < 10
unfolding failed
failed-few now e =
    let attempts = recent_attempts now e.failed_attempts ++ now ∷ [] in
    elim (Bool-cases (leb 10 (length attempts))) [
      | inl b ↦ rw b (omega arith)
      | inr b ↦ rw b (ground arith)
    ]

track-FewAttempts :
    (ip : Text) (e : IpRateLimit) (m : Tracker)
    → length e.failed_attempts < 10
    → FewAttempts m
    → FewAttempts (track ip e m)
unfolding track
track-FewAttempts ip e [] l f = (l, tt)
track-FewAttempts ip e ((key, x) ∷ m) l f = elim (Bool-cases (text_eq key ip)) [
  | inl b ↦ rw b (l, f.1)
  | inr b ↦ rw b (f.0, track-FewAttempts ip e m l f.1)
]

untrack-FewAttempts : (ip : Text) (m : Tracker) → FewAttempts m → FewAttempts (untrack ip m)
unfolding untrack
untrack-FewAttempts ip [] f = tt
untrack-FewAttempts ip ((key, x) ∷ m) f = elim (Bool-cases (text_eq key ip)) [
  | inl b ↦ rw b (untrack-FewAttempts ip m f.1)
  | inr b ↦ rw b (f.0, untrack-FewAttempts ip m f.1)
]

tracked-track :
    (ip other : Text) (e : IpRateLimit) (m : Tracker)
    → tracked other (track ip e m) ≡ (if text_eq ip other then some e else tracked other m)
unfolding tracked track
tracked-track ip other e [] = refl
tracked-track ip other e ((key, x) ∷ m) = elim (Bool-cases (text_eq key ip)) [
  | inl b ↦
      rw (b, text_eq_through key ip other b)
        (elim (Bool-cases (text_eq ip other)) [ inl k ↦ rw k refl | inr k ↦ rw k refl ])
  | inr b ↦ elim (Bool-cases (text_eq key other)) [
    | inl k ↦ rw (b, k, text_eq_apart key other ip k b) refl
    | inr k ↦ rw (b, k) (tracked-track ip other e m)
  ]
]

-- The times of a minute that starts at `start`.
abbrev pub InMinute : ℕ → ℕ → Type 0
InMinute start time = (start ≤ time) × (time ≤ start + 60 * second)

recent_all :
    (start now : ℕ) (tps : List ℕ)
    → InMinute start now
    → All (InMinute start) tps
    → recent_attempts now tps ≡ tps
unfolding recent_attempts
recent_all start now [] n a = refl
recent_all start now (tp ∷ tps) n a =
    let ih = recent_all start now tps n a.1 in
    let h = a.0 in
    let small : (now - tp) / second ≤ 60 = omega arith in
    let early : ltb 60 ((now - tp) / second) ≡ false = ground arith in rw (early, ih) refl

-- The failures of one address, one after the other.
unfoldable pub failures : List ℕ → IpRateLimit → IpRateLimit
failures [] e = e
failures (now ∷ times) e = failures times (failed now e)

failed-short :
    (start now : ℕ) (e : IpRateLimit)
    → InMinute start now
    → All (InMinute start) e.failed_attempts
    → length e.failed_attempts < 9
    → failed now e
      ≡ record { failed_attempts = e.failed_attempts ++ now ∷ []; lockout_until = e.lockout_until }
unfolding failed
failed-short start now e n a l =
    let attempts = e.failed_attempts ++ now ∷ [] in
    let short : leb 10 (length attempts) ≡ false =
      let k = length-append e.failed_attempts (now ∷ []) in ground arith in
    rw (recent_all start now e.failed_attempts n a, short) refl

failed-tenth :
    (start now : ℕ) (e : IpRateLimit)
    → InMinute start now
    → All (InMinute start) e.failed_attempts
    → length e.failed_attempts ≡ 9
    → failed now e ≡ record { failed_attempts = []; lockout_until = now + 300 * second }
unfolding failed
failed-tenth start now e n a l =
    let attempts = e.failed_attempts ++ now ∷ [] in
    let long : leb 10 (length attempts) ≡ true =
      let k = length-append e.failed_attempts (now ∷ []) in ground arith in
    rw (recent_all start now e.failed_attempts n a, long) refl

lock_after :
    (start : ℕ) (times : List ℕ) (e : IpRateLimit)
    → length e.failed_attempts + length times ≡ 10
    → length e.failed_attempts < 10
    → All (InMinute start) e.failed_attempts
    → All (InMinute start) times
    → start + 300 * second ≤ (failures times e).lockout_until
unfolding failures
lock_after start [] e n l a b = absurd (omega arith)
lock_after start (now ∷ []) e n l a b =
    let h = b.0 in rw (failed-tenth start now e b.0 a (omega arith)) (omega arith)
lock_after start (now ∷ later ∷ times) e n l a b =
    let k = length-append e.failed_attempts (now ∷ []) in
    rw (failures, failed-short start now e b.0 a (omega arith))
      (lock_after start (later ∷ times)
        (record {
          failed_attempts = e.failed_attempts ++ now ∷ [];
          lockout_until = e.lockout_until;
        })
        (omega arith) (omega arith)
        (All-append (InMinute start) e.failed_attempts (now ∷ []) a (b.0, tt)) b.1)

-- Whatever fails and succeeds, no address comes to have ten failures on record.
pub attempts-FewAttempts :
    (xs : List Attempt) (m : Tracker) → FewAttempts m → FewAttempts (attempts xs m)
unfolding attempts attempt record_failed_attempt record_success
attempts-FewAttempts [] m f = f
attempts-FewAttempts (Attempt.failure now ip ∷ xs) m f =
    let e = failed now (entry_of (tracked ip m)) in
    attempts-FewAttempts xs (track ip e m)
      (track-FewAttempts ip e m (failed-few now (entry_of (tracked ip m))) f)
attempts-FewAttempts (Attempt.success ip ∷ xs) m f =
    attempts-FewAttempts xs (untrack ip m) (untrack-FewAttempts ip m f)

-- Failures of one address, at the given times.
unfoldable pub record_failures : Text → List ℕ → Tracker → Tracker
record_failures ip [] m = m
record_failures ip (now ∷ times) m = record_failures ip times (record_failed_attempt now ip m)

tracked-record_failures :
    (ip : Text) (times : List ℕ) (m : Tracker)
    → entry_of (tracked ip (record_failures ip times m)) ≡ failures times (entry_of (tracked ip m))
unfolding record_failures failures record_failed_attempt
tracked-record_failures ip [] m = refl
tracked-record_failures ip (now ∷ times) m =
    let e = failed now (entry_of (tracked ip m)) in
    tracked-record_failures ip times (track ip e m)
    ∙ ap (λ o. failures times (entry_of o))
        (tracked-track ip ip e m ∙ ap (λ b. if b then some e else tracked ip m) (text_eq_refl ip))

tracked-other :
    (ip other : Text) (times : List ℕ) (m : Tracker)
    → text_eq ip other ≡ false
    → tracked other (record_failures ip times m) ≡ tracked other m
unfolding record_failures record_failed_attempt
tracked-other ip other [] m d = refl
tracked-other ip other (now ∷ times) m d =
    let e = failed now (entry_of (tracked ip m)) in
    tracked-other ip other times (track ip e m) d
    ∙ tracked-track ip other e m
    ∙ ap (λ b. if b then some e else tracked other m) d

locked :
    (now : ℕ) (ip : Text) (m : Tracker)
    → now < (entry_of (tracked ip m)).lockout_until
    → (seconds : ℕ) × (is_locked_out now ip m ≡ some seconds)
unfolding is_locked_out
locked now ip m l = elim (Option-cases (tracked ip m)) [
  | inl h ↦ let none_set : now < 0 = rw h at l in absurd (omega arith)
  | inr (e, h) ↦
      let set : now < e.lockout_until = rw h at l in
      let early : ltb now e.lockout_until ≡ true = ground arith in
      ((e.lockout_until - now) / second, rw (is_locked_out, h, early) refl)
]

-- Ten failed logins from one address within a minute lock it out for the five minutes that follow the
-- minute's start, where the address had no failures on record, and no other address is touched.
pub ten_failures_lock :
    (ip other : Text) (start now : ℕ) (times : List ℕ) (m : Tracker)
    → tracked ip m ≡ none
    → length times ≡ 10
    → All (InMinute start) times
    → now < start + 300 * second
    → text_eq ip other ≡ false
    → ((seconds : ℕ) × (is_locked_out now ip (record_failures ip times m) ≡ some seconds))
      × (tracked other (record_failures ip times m) ≡ tracked other m)
ten_failures_lock ip other start now times m h n a l d =
    let e = tracked-record_failures ip times m ∙ ap (λ o. failures times (entry_of o)) h in
    let k = lock_after start times no_attempts (omega arith) (omega arith) tt a in
    (
      locked now ip (record_failures ip times m) (rw e (omega arith)),
      tracked-other ip other times m d,
    )
