-- ===== src/Backend/RateLimiter/Windows.antt =====
-- The requests that `check` lets through: backend/auth/rate_limiter.py. Each key has one limit and one
-- window, as each endpoint category has.
use buy_or_wait_ai_advisor.Common.{
  Bool, Bool-cases, List, Result, String, [], ap, arith, err, false, if◌then◌else◌, inl, inr,
  length, lookup_or, lookup_or-insert, ltb, nat_eq, ok, pair_eq, refl, string_eq, true, ℕ, ◌++◌,
  ◌==◌, ◌∙◌, ◌∷◌, ◌≡◌, ◌≤◌,
}
use buy_or_wait_ai_advisor.Backend.RateLimiter.{
  RateLimitResult, RateLimiter, Time, check, check_window, recent, seconds,
}
use mathlib.Core.Path.{subst}

pub recent-recent :
    (window now later : Time) (times : List Time)
    → now ≤ later
    → recent window later (recent window now times) ≡ recent window later times
recent-recent window now later [] h = refl
recent-recent window now later (t ∷ times) h =
    ground (arith, recent-recent window now later times h)

length-recent_snoc :
    (window now t : Time) (times : List Time)
    → length (recent window now (times ++ t ∷ [])) ≡ length (recent window now (t ∷ times))
length-recent_snoc window now t [] = refl
length-recent_snoc window now t (s ∷ times) = ground (arith, length-recent_snoc window now t times)

abbrev pub was_allowed : Result RateLimitResult → Bool
was_allowed (ok answer) = answer.allowed
was_allowed (err e) = false

-- A request is let through exactly below the limit.
was_allowed-check_window :
    (now : Time) (valid : List Time) (limit window_seconds : ℕ)
    → was_allowed (check_window now valid limit window_seconds).0 ≡ ltb (length valid) limit
unfolding check_window
was_allowed-check_window now [] limit window_seconds = ground arith
was_allowed-check_window now (t ∷ valid) limit window_seconds = ground arith

kept-check_window :
    (now : Time) (valid : List Time) (limit window_seconds : ℕ)
    → (check_window now valid limit window_seconds).1
      ≡ (if ltb (length valid) limit then valid ++ now ∷ [] else valid)
unfolding check_window
kept-check_window now valid limit window_seconds = ground arith

-- `(now, key)`, and the calls that were let through, the newest first.
abbrev pub Call : Type 0
Call = Time × String

abbrev pub times_of : String → List Call → List Time
times_of key [] = []
times_of key ((t, k) ∷ calls) = let rest = times_of key calls in if k == key then t ∷ rest else rest

abbrev pub IsOrdered : Time → List Call → Type 0
IsOrdered last [] = Unit
IsOrdered last ((t, k) ∷ calls) = (last ≤ t) × IsOrdered t calls

-- Each call that was let through ends a window with at most `limit` of them.
abbrev pub IsSpaced : ℕ → Time → List Time → Type 0
IsSpaced limit window [] = Unit
IsSpaced limit window (t ∷ older) =
    (length (recent window t (t ∷ older)) ≤ limit) × IsSpaced limit window older

times_of-step :
    (now : Time) (key k : String) (b : Bool) (passed : List Call)
    → times_of k (if b then (now, key) ∷ passed else passed) ≡ (
        if key == k
        then (if b then now ∷ times_of k passed else times_of k passed)
        else times_of k passed)
times_of-step now key k b passed = ground arith

IsSpaced-if :
    (limit window now : ℕ) (count : ℕ) (older : List Time)
    → count ≡ length (recent window now older)
    → IsSpaced limit window older
    → IsSpaced limit window (if ltb count limit then now ∷ older else older)
IsSpaced-if limit window now count older e spaced = ground arith

module _ (limit_of window_of : String → ℕ) where
  unfoldable pub run : RateLimiter → List Call → List Call → RateLimiter × List Call
  unfolding check
  run limiter passed [] = (limiter, passed)
  run limiter passed ((now, key) ∷ calls) =
      let (answer, after) = check now key (limit_of key) (window_of key) limiter in
      run after (if was_allowed answer then (now, key) ∷ passed else passed) calls

  -- From `last` on, what is stored for a key counts as many recent calls as were let through.
  abbrev Tracks : Time → RateLimiter → List Call → Type 0
  Tracks last limiter passed =
      (key : String) (now : Time)
      → last ≤ now
      → length (recent (seconds (window_of key)) now (lookup_or key [] limiter.windows))
        ≡ length (recent (seconds (window_of key)) now (times_of key passed))

  valid_before : RateLimiter → Time → String → List Time
  valid_before limiter now key =
      recent (seconds (window_of key)) now (lookup_or key [] limiter.windows)

  was_allowed-check :
      (now : Time) (key : String) (limiter : RateLimiter)
      → was_allowed (check now key (limit_of key) (window_of key) limiter).0
        ≡ ltb (length (valid_before limiter now key)) (limit_of key)
  unfolding check valid_before
  was_allowed-check now key limiter = was_allowed-check_window now _ (limit_of key) (window_of key)

  windows-check :
      (now : Time) (key k : String) (limiter : RateLimiter)
      → let valid = valid_before limiter now key in
        lookup_or k []
          (RateLimiter.windows (check now key (limit_of key) (window_of key) limiter).1)
        ≡ (if key == k
            then (if ltb (length valid) (limit_of key) then valid ++ now ∷ [] else valid)
            else lookup_or k [] limiter.windows)
  unfolding check valid_before
  windows-check now key k limiter =
      lookup_or-insert key k _ [] limiter.windows
      ∙ ap (λ kept. if key == k then kept else lookup_or k [] limiter.windows)
          (kept-check_window now _ (limit_of key) (window_of key))

  -- The same key, on both branches of the check.
  Tracks-same :
      (last now later : Time) (key : String) (limiter : RateLimiter) (passed : List Call) (b : Bool)
      → last ≤ now
      → now ≤ later
      → Tracks last limiter passed
      → let valid = valid_before limiter now key in
        let window = seconds (window_of key) in
        length (recent window later (if b then valid ++ now ∷ [] else valid))
        ≡ length
            (recent window later (if b then now ∷ times_of key passed else times_of key passed))
  unfolding valid_before
  Tracks-same last now later key limiter passed true h le tracks =
      let window = seconds (window_of key) in
      let stored = lookup_or key [] limiter.windows in
      let before = tracks key later (omega arith) in
      let pruned = ap length (recent-recent window now later stored le) in
      length-recent_snoc window later now (recent window now stored)
      ∙ ground (arith, before, pruned)
  Tracks-same last now later key limiter passed false h le tracks =
      ap length (recent-recent (seconds (window_of key)) now later _ le)
      ∙ tracks key later (omega arith)

  check-Tracks :
      (last now : Time) (key : String) (limiter : RateLimiter) (passed : List Call)
      → last ≤ now
      → Tracks last limiter passed
      → let (answer, after) = check now key (limit_of key) (window_of key) limiter in
        Tracks now after (if was_allowed answer then (now, key) ∷ passed else passed)
  check-Tracks last now key limiter passed h tracks k later le =
      let stored = windows-check now key k limiter in
      let allowed = was_allowed-check now key limiter in
      let valid = valid_before limiter now key in
      let b = ltb (length valid) (limit_of key) in
      let step = times_of-step now key k b passed in
      rw (stored, allowed, step)
        (elim (Bool-cases (key == k)) [
          | inl same ↦ rw same (
              subst
                (λ j.
                  length
                    (recent (seconds (window_of j)) later (if b then valid ++ now ∷ [] else valid))
                  ≡ length (
                      recent (seconds (window_of j)) later
                        (if b then now ∷ times_of j passed else times_of j passed)))
                ((string_eq.beq_iff key k).0 same)
                (Tracks-same last now later key limiter passed b h le tracks))
          | inr other ↦ rw other (tracks k later (omega arith))
        ])

  IsSpaced-step :
      (last now : Time) (key k : String) (limiter : RateLimiter) (passed : List Call)
      → last ≤ now
      → Tracks last limiter passed
      → IsSpaced (limit_of k) (seconds (window_of k)) (times_of k passed)
      → let answer = (check now key (limit_of key) (window_of key) limiter).0 in
        IsSpaced
          (limit_of k)
          (seconds (window_of k))
          (times_of k (if was_allowed answer then (now, key) ∷ passed else passed))
  unfolding valid_before
  IsSpaced-step last now key k limiter passed h tracks spaced =
      let allowed = was_allowed-check now key limiter in
      let valid = valid_before limiter now key in
      let b = ltb (length valid) (limit_of key) in
      let step = times_of-step now key k b passed in
      let counted = tracks key now h in
      rw (allowed, step)
        (elim (Bool-cases (key == k)) [
          | inl same ↦
              let e = (string_eq.beq_iff key k).0 same in
              rw same (
                subst
                  (λ j.
                    IsSpaced (limit_of j) (seconds (window_of j)) (times_of j passed)
                    → IsSpaced (limit_of j) (seconds (window_of j))
                        (if b then now ∷ times_of j passed else times_of j passed))
                  e
                  (λ spaced_key.
                    IsSpaced-if (limit_of key) (seconds (window_of key)) now _ _ counted spaced_key)
                  spaced)
          | inr other ↦ rw other spaced
        ])

  run-IsSpaced_from :
      (last : Time) (limiter : RateLimiter) (passed calls : List Call) (k : String)
      → IsOrdered last calls
      → Tracks last limiter passed
      → IsSpaced (limit_of k) (seconds (window_of k)) (times_of k passed)
      → IsSpaced (limit_of k) (seconds (window_of k)) (times_of k (run limiter passed calls).1)
  unfolding run
  run-IsSpaced_from last limiter passed [] k ordered tracks spaced = spaced
  run-IsSpaced_from last limiter passed ((now, key) ∷ calls) k ordered tracks spaced =
      run-IsSpaced_from now _ _ calls k ordered.1
        (check-Tracks last now key limiter passed ordered.0 tracks)
        (IsSpaced-step last now key k limiter passed ordered.0 tracks spaced)

-- `RateLimiter()`
abbrev pub no_calls_yet : RateLimiter
no_calls_yet = record { windows = []; failed_logins = [] }

-- However the calls for many keys are interleaved, as long as the clock does not run backwards: of
-- the calls of one key that are let through, no window of the key's length holds more than its limit.
pub run-IsSpaced :
    (limit_of window_of : String → ℕ) (start : Time) (calls : List Call) (key : String)
    → IsOrdered start calls
    → IsSpaced
        (limit_of key)
        (seconds (window_of key))
        (times_of key (run limit_of window_of no_calls_yet [] calls).1)
unfolding lookup_or
run-IsSpaced limit_of window_of start calls key ordered =
    run-IsSpaced_from limit_of window_of start no_calls_yet [] calls key ordered (λ k now le. refl)
      tt
