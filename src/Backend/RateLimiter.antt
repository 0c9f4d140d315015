-- ===== src/Backend/RateLimiter.antt =====
-- The sliding-window rate limiter: backend/auth/rate_limiter.py. Times are whole microseconds; the
-- clock's reading is the argument `now`. Each method runs under the limiter's lock, so that it is one
-- step. The code's `ts > now - window` is written without a difference, as `now < ts + window`.
pub mod Windows
pub mod Logins
use buy_or_wait_ai_advisor.Common.{
  Bool, Dict, List, Option, Result, String, [], err, false, if◌then◌else◌, index_error, insert, leb,
  length, lookup_or, lower, ltb, nat_eq, none, ok, pair_eq, remove, select, some, string_eq, strip,
  true, ℕ, ◌*◌, ◌++◌, ◌+◌, ◌-◌, ◌/◌, ◌∷◌,
}

abbrev pub Time : Type 0
Time = ℕ

abbrev pub seconds : ℕ → Time
seconds n = n * 1_000_000

pub record RateLimitResult : Type 0 where
  pub allowed : Bool
  pub limit : ℕ
  pub remaining : ℕ
  pub reset_seconds : ℕ
  pub retry_after : ℕ

pub record RateLimiter : Type 0 where
  pub windows : Dict String (List Time)
  pub failed_logins : Dict (String × String) (List Time)

-- `max(1, int(t))` of a time in seconds.
abbrev pub at_least_one : Time → ℕ
at_least_one t = let s = t / 1_000_000 in if ltb s 1 then 1 else s

-- `[ts for ts in timestamps if ts > now - window]`
abbrev pub recent : Time → Time → List Time → List Time
recent window now = select (λ ts. ltb now (ts + window))

-- The answer, and the timestamps that the key keeps: `valid.append(now)` extends the stored list.
unfoldable pub check_window : Time → List Time → ℕ → ℕ → Result RateLimitResult × List Time
check_window now valid limit window_seconds =
    if leb limit (length valid)
    then (
      elim valid [
        | [] ↦ err index_error
        | oldest ∷ _ ↦
            let wait_time = at_least_one (oldest + seconds window_seconds - now) in
            ok record {
              allowed = false;
              limit = limit;
              remaining = 0;
              reset_seconds = wait_time;
              retry_after = wait_time;
            }
      ],
      valid,
    )
    else (
      ok record {
        allowed = true;
        limit = limit;
        remaining = limit - (length valid + 1);
        reset_seconds = at_least_one (seconds window_seconds);
        retry_after = 0;
      },
      valid ++ now ∷ [],
    )

unfoldable pub check : Time → String → ℕ → ℕ → RateLimiter → Result RateLimitResult × RateLimiter
unfolding check_window lookup_or insert
check now key limit window_seconds limiter =
    let valid = recent (seconds window_seconds) now (lookup_or key [] limiter.windows) in
    let (answer, kept) = check_window now valid limit window_seconds in
    (answer, record limiter { windows = insert key kept limiter.windows })

-- `(ip, email.strip().lower())`
unfoldable pub login_key : String → String → String × String
unfolding strip lower
login_key ip email = (ip, lower (strip email))

unfoldable pub record_failed_login : Time → String → String → RateLimiter → ℕ × RateLimiter
unfolding login_key lookup_or insert
record_failed_login now ip email limiter =
    let key = login_key ip email in
    let failures = recent (seconds 300) now (lookup_or key [] limiter.failed_logins) ++ now ∷ [] in
    (length failures, record limiter { failed_logins = insert key failures limiter.failed_logins })

unfoldable pub clear_failed_login : String → String → RateLimiter → RateLimiter
unfolding login_key remove
clear_failed_login ip email limiter = record limiter {
  failed_logins = remove (login_key ip email) limiter.failed_logins;
}

-- `xs[-1]`
unfoldable pub last_of : List Time → Option Time
last_of [] = none
last_of (x ∷ xs) = elim (last_of xs) [ none ↦ some x | some y ↦ some y ]

unfoldable pub throttle_of : Time → List Time → ℕ → ℕ → Result (Bool × ℕ)
unfolding last_of
throttle_of now failures max_failures cooldown_seconds =
    if leb max_failures (length failures)
    then elim (last_of failures) [
      | none ↦ err index_error
      | some last_failure ↦
          if ltb now (last_failure + seconds cooldown_seconds)
          then ok (true, at_least_one (last_failure + seconds cooldown_seconds - now))
          else ok (false, 0)
    ]
    else ok (false, 0)

unfoldable pub is_login_throttled :
    Time → String → String → ℕ → ℕ → RateLimiter → Result (Bool × ℕ) × RateLimiter
unfolding login_key lookup_or insert throttle_of
is_login_throttled now ip email max_failures cooldown_seconds limiter =
    let key = login_key ip email in
    let failures = recent (seconds 300) now (lookup_or key [] limiter.failed_logins) in
    (
      throttle_of now failures max_failures cooldown_seconds,
      record limiter { failed_logins = insert key failures limiter.failed_logins },
    )

unfoldable pub reset_all : RateLimiter → RateLimiter
reset_all limiter = record { windows = []; failed_logins = [] }
