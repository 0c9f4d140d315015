-- ===== src/Backend/RateLimiter/Logins.antt =====
-- Failed logins: `record_failed_login`, `clear_failed_login` and `is_login_throttled` of
-- backend/auth/rate_limiter.py.
use buy_or_wait_ai_advisor.Common.{
  All, Bool-cases, List, String, [], ap, arith, false, inl, inr, length, le→leb, lookup_or,
  lookup_or-insert, lookup_or-insert_self, lookup_or-remove, nat_eq, ok, pair_eq, refl, some,
  string_eq, true, ℕ, ◌++◌, ◌+◌, ◌-◌, ◌<◌, ◌==◌, ◌∙◌, ◌∷◌, ◌≡◌, ◌≤◌,
}
use buy_or_wait_ai_advisor.Backend.RateLimiter.{
  RateLimiter, Time, at_least_one, clear_failed_login, is_login_throttled, last_of, login_key,
  recent, record_failed_login, seconds, throttle_of,
}
use mathlib.Core.Path.{subst}
use buy_or_wait_ai_advisor.Backend.RateLimiter.Windows.{recent-recent}

last_of-append : (xs : List Time) (t : Time) → last_of (xs ++ t ∷ []) ≡ some t
unfolding last_of
last_of-append [] t = refl
last_of-append (x ∷ xs) t = rw (last_of-append xs t) refl

recent_append :
    (window now t : Time) (times : List Time)
    → now < t + window
    → recent window now (times ++ t ∷ []) ≡ recent window now times ++ t ∷ []
recent_append window now t [] h = ground arith
recent_append window now t (s ∷ times) h = ground (arith, recent_append window now t times h)

at_least_one-le : (t : Time) → 1 ≤ at_least_one t
at_least_one-le t = ground arith

throttle_of-recent :
    (now later : Time) (before : List Time) (max_failures cooldown_seconds : ℕ)
    → later < now + seconds cooldown_seconds
    → max_failures ≤ length (before ++ now ∷ [])
    → (wait_time : ℕ) × (throttle_of later (before ++ now ∷ []) max_failures cooldown_seconds
        ≡ ok (true, wait_time))
      × (1 ≤ wait_time)
unfolding throttle_of
throttle_of-recent now later before max_failures cooldown_seconds h enough =
    rw (le→leb _ _ enough, last_of-append before now)
      (at_least_one (now + seconds cooldown_seconds - later), ground arith, at_least_one-le _)

-- The failures of a login that `is_login_throttled` counts at a time.
abbrev pub failures_at : Time → String → String → RateLimiter → List Time
failures_at now ip email limiter =
    recent (seconds 300) now (lookup_or (login_key ip email) [] limiter.failed_logins)

failures_after :
    (now later : Time) (ip email : String) (limiter : RateLimiter)
    → later < now + seconds 300
    → failures_at later ip email (record_failed_login now ip email limiter).1
      ≡ recent (seconds 300) later (failures_at now ip email limiter) ++ now ∷ []
unfolding record_failed_login
failures_after now later ip email limiter r =
    let key = login_key ip email in
    ap (recent (seconds 300) later) (lookup_or-insert_self key _ [] limiter.failed_logins)
    ∙ recent_append (seconds 300) later now _ r

-- A call of `is_login_throttled`, for any login.
pub record LoginCheck : Type 0 where
  pub at : Time
  pub ip : String
  pub email : String
  pub max_failures : ℕ
  pub cooldown_seconds : ℕ

-- The limiter after the calls, the first one first.
pub check_logins : List LoginCheck → RateLimiter → RateLimiter
check_logins [] limiter = limiter
check_logins (c ∷ checks) limiter =
    check_logins checks
      (is_login_throttled c.at c.ip c.email c.max_failures c.cooldown_seconds limiter).1

abbrev pub AllBy : Time → List LoginCheck → Type 0
AllBy later = All (λ c. c.at ≤ later)

-- A check drops only failures that no later check counts.
failures-check :
    (later : Time) (ip email : String) (c : LoginCheck) (limiter : RateLimiter)
    → c.at ≤ later
    → failures_at later ip email
        (is_login_throttled c.at c.ip c.email c.max_failures c.cooldown_seconds limiter).1
      ≡ failures_at later ip email limiter
unfolding is_login_throttled
failures-check later ip email c limiter h =
    let checked = login_key c.ip c.email in
    let key = login_key ip email in
    let kept = recent (seconds 300) c.at (lookup_or checked [] limiter.failed_logins) in
    ap (recent (seconds 300) later) (lookup_or-insert checked key kept [] limiter.failed_logins)
    ∙ elim (Bool-cases (checked == key)) [
      | inl same ↦
          let equal : checked ≡ key = (pair_eq.beq_iff checked key).0 same in
          rw (same, equal)
            (recent-recent (seconds 300) c.at later (lookup_or key [] limiter.failed_logins) h)
      | inr other ↦ rw other refl
    ]

failures-check_logins :
    (later : Time) (ip email : String) (checks : List LoginCheck) (limiter : RateLimiter)
    → AllBy later checks
    → failures_at later ip email (check_logins checks limiter) ≡ failures_at later ip email limiter
unfolding check_logins
failures-check_logins later ip email [] limiter h = refl
failures-check_logins later ip email (c ∷ checks) limiter (h, rest) =
    failures-check_logins later ip email checks _ rest ∙ failures-check later ip email c limiter h

-- What is counted in a short window now is still counted in the long one later.
length-recent-le :
    (short long now later : Time) (times : List Time)
    → later + short ≤ now + long
    → length (recent short now times) ≤ length (recent long later times)
length-recent-le short long now later [] h = omega arith
length-recent-le short long now later (t ∷ times) h =
    ground (arith, length-recent-le short long now later times h)

-- For a cooldown of at most 300 seconds: if `max_failures` or more of the failures recorded for a login,
-- the one just recorded included, are less than 300 seconds less the cooldown old, then the login is throttled at every time from then to the end
-- of the cooldown, whatever checks of this and of other logins are made in between, and is told to wait
-- for a second or more.
pub record_failed_login-throttled :
    (now later : Time) (ip email : String) (max_failures cooldown_seconds : ℕ)
    (limiter : RateLimiter) (checks : List LoginCheck)
    → now ≤ later
    → later < now + seconds cooldown_seconds
    → cooldown_seconds ≤ 300
    → AllBy later checks
    → max_failures
      ≤ length (
          recent
            (seconds (300 - cooldown_seconds))
            now
            (failures_at now ip email (record_failed_login now ip email limiter).1))
    → (wait_time : ℕ) × ((is_login_throttled later ip email max_failures cooldown_seconds
          (check_logins checks (record_failed_login now ip email limiter).1)).0
        ≡ ok (true, wait_time))
      × (1 ≤ wait_time)
unfolding is_login_throttled
record_failed_login-throttled now later ip email max_failures cooldown_seconds limiter checks n k c
      by h =
    let after = (record_failed_login now ip email limiter).1 in
    let stored = lookup_or (login_key ip email) [] after.failed_logins in
    let in_time : later < now + seconds 300 = omega arith in
    let before = recent (seconds 300) later (failures_at now ip email limiter) in
    let counted : failures_at later ip email (check_logins checks after) ≡ before ++ now ∷ [] =
      failures-check_logins later ip email checks after by
      ∙ failures_after now later ip email limiter in_time in
    let enough : max_failures ≤ length (before ++ now ∷ []) =
      subst (λ xs. max_failures ≤ length xs)
        (recent-recent (seconds 300) now later stored n
          ∙ failures_after now later ip email limiter in_time)
        (omega (
          arith,
          h,
          length-recent-le (seconds (300 - cooldown_seconds)) (seconds 300) now later
              (recent (seconds 300) now stored) (omega arith),
        )) in
    let (wait_time, e, positive) =
      throttle_of-recent now later before max_failures cooldown_seconds k enough in
    (wait_time, ap (λ xs. throttle_of later xs max_failures cooldown_seconds) counted ∙ e, positive)

-- A cleared login is not throttled.
pub clear_failed_login-throttled :
    (now : Time) (ip email : String) (max_failures cooldown_seconds : ℕ) (limiter : RateLimiter)
    → 1 ≤ max_failures
    → (is_login_throttled now ip email max_failures cooldown_seconds
        (clear_failed_login ip email limiter)).0
      ≡ ok (false, 0)
unfolding clear_failed_login is_login_throttled throttle_of
clear_failed_login-throttled now ip email max_failures cooldown_seconds limiter h =
    rw (lookup_or-remove (login_key ip email) [] limiter.failed_logins) (ground arith)
