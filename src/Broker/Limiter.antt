-- ===== src/Broker/Limiter.antt =====
-- The limit on failed logins: `RateLimiter` of src/master/MasterMain.cpp. The clock is a parameter, in
-- whole nanoseconds: the time of a step comes with the step.
use gip_multiplayer.Base.{
  ℕ, ◌+◌, ◌-◌, ◌*◌, ◌/◌, List, [], ◌∷◌, ◌++◌, Option, none, some, ltb, leb, if◌then◌else◌, length,
}
use gip_multiplayer.Base.Text.{Text, text_eq}

-- Lockout ends at 0, before any time of the clock, where there was none.
pub record IpRateLimit : Type 0 where
  pub failed_attempts : List ℕ
  pub lockout_until : ℕ

abbrev pub second : ℕ
second = 1000000000

abbrev pub Tracker : Type 0
Tracker = List (Text × IpRateLimit)

unfoldable pub tracked : Text → Tracker → Option IpRateLimit
tracked ip [] = none
tracked ip ((key, e) ∷ m) = if text_eq key ip then some e else tracked ip m

-- `tracker[ip] = e`.
unfoldable pub track : Text → IpRateLimit → Tracker → Tracker
track ip e [] = (ip, e) ∷ []
track ip e ((key, f) ∷ m) =
    let rest = track ip e m in if text_eq key ip then (key, e) ∷ m else (key, f) ∷ rest

-- `tracker.erase(ip)`.
unfoldable pub untrack : Text → Tracker → Tracker
untrack ip [] = []
untrack ip ((key, f) ∷ m) =
    let rest = untrack ip m in if text_eq key ip then rest else (key, f) ∷ rest

-- How long an address is locked out, in whole seconds, if it is.
unfoldable pub is_locked_out : ℕ → Text → Tracker → Option ℕ
is_locked_out now ip m = elim (tracked ip m) [
  | none ↦ none
  | some e ↦ if ltb now e.lockout_until then some ((e.lockout_until - now) / second) else none
]

-- The attempts of the last minute.
unfoldable pub recent_attempts : ℕ → List ℕ → List ℕ
recent_attempts now [] = []
recent_attempts now (tp ∷ tps) =
    let rest = recent_attempts now tps in if ltb 60 ((now - tp) / second) then rest else tp ∷ rest

abbrev pub no_attempts : IpRateLimit
no_attempts = record { failed_attempts = []; lockout_until = 0 }

abbrev pub entry_of : Option IpRateLimit → IpRateLimit
entry_of none = no_attempts
entry_of (some e) = e

unfoldable pub failed : ℕ → IpRateLimit → IpRateLimit
failed now e =
    let attempts = recent_attempts now e.failed_attempts ++ now ∷ [] in
    if leb 10 (length attempts)
    then record { failed_attempts = []; lockout_until = now + 300 * second }
    else record { failed_attempts = attempts; lockout_until = e.lockout_until }

unfoldable pub record_failed_attempt : ℕ → Text → Tracker → Tracker
record_failed_attempt now ip m = track ip (failed now (entry_of (tracked ip m))) m

unfoldable pub record_success : Text → Tracker → Tracker
record_success ip m = untrack ip m

-- What the logins of an address do to the limiter: failures, each with its time, and successes.
pub data Attempt : Type 0 where
  failure : ℕ → Text → Attempt
  success : Text → Attempt

unfoldable pub attempt : Attempt → Tracker → Tracker
attempt (failure now ip) m = record_failed_attempt now ip m
attempt (success ip) m = record_success ip m

unfoldable pub attempts : List Attempt → Tracker → Tracker
attempts [] m = m
attempts (x ∷ xs) m = attempts xs (attempt x m)
