-- ===== src/State/Projections/Loops.antt =====
-- The loops over months and days of the projections: the dates that they give, and when they end.
use buy_or_wait_ai_advisor.Common.{
  All, AllOk, Bool, Bool-cases, Date, List, Result, [], arith, date_of, days_in_month, err,
  if◌then◌else◌, inl, inr, leb, ltb, map_ok, min_ℕ, month_start, month_start-next_month, next_month,
  ok, out_of_fuel, refl, suc, true, zero, ℕ, ◌+◌, ◌<◌, ◌∷◌, ◌≡◌, ◌≤◌,
}
use buy_or_wait_ai_advisor.State.Projections.{month_loop, step_loop}

-- A date that a loop may give.
abbrev pub IsLoopDate : (Date → Bool) → Date → Date → Type 0
IsLoopDate test horizon_end dt = (test dt ≡ true) × (dt ≤ horizon_end)

All-if :
    (P : Date → Type 0) (test : Date → Bool) (dt : Date) (dates : List Date)
    → (test dt ≡ true → P dt)
    → All P dates
    → All P (if test dt then dt ∷ dates else dates)
All-if P test dt dates h all = elim (Bool-cases (test dt)) [
  | inl passes ↦ rw passes (h passes, all)
  | inr fails ↦ rw fails all
]

AllOk-step :
    (P : Date → Type 0) (test : Date → Bool) (dt : Date) (rest : Result (List Date))
    → (test dt ≡ true → P dt)
    → AllOk P rest
    → AllOk P (map_ok (λ dates. if test dt then dt ∷ dates else dates) rest)
AllOk-step P test dt (ok dates) h all = All-if P test dt dates h all
AllOk-step P test dt (err e) h all = tt

pub AllOk-month_loop :
    (fuel : ℕ) (test : Date → Bool) (horizon_end : Date) (dom y m : ℕ)
    → AllOk (IsLoopDate test horizon_end) (month_loop fuel test horizon_end dom (y, m))
unfolding month_loop
AllOk-month_loop zero test horizon_end dom y m = tt
AllOk-month_loop (suc fuel) test horizon_end dom y m =
    let dt = date_of y m (min_ℕ dom (days_in_month y m)) in
    let (y', m') = next_month (y, m) in
    elim (Bool-cases (ltb horizon_end dt)) [
      | inl past ↦ rw past tt
      | inr within ↦ rw within (
          AllOk-step (IsLoopDate test horizon_end) test dt _ (λ passes. (passes, ground arith))
            (AllOk-month_loop fuel test horizon_end dom y' m'))
    ]

-- The steps go on from the first date.
abbrev pub IsStepDate : Date → (Date → Bool) → Date → Date → Type 0
IsStepDate first test horizon_end dt = (first ≤ dt) × IsLoopDate test horizon_end dt

pub AllOk-step_loop :
    (fuel : ℕ) (test : Date → Bool) (horizon_end : Date) (step first cur : ℕ)
    → first ≤ cur
    → AllOk (IsStepDate first test horizon_end) (step_loop fuel test horizon_end step cur)
unfolding step_loop
AllOk-step_loop zero test horizon_end step first cur h = tt
AllOk-step_loop (suc fuel) test horizon_end step first cur h =
    elim (Bool-cases (leb cur horizon_end)) [
      | inl within ↦ rw within (
          AllOk-step (IsStepDate first test horizon_end) test cur _
            (λ passes. (h, (passes, ground arith)))
            (AllOk-step_loop fuel test horizon_end step first (cur + step) (omega arith)))
      | inr past ↦ rw past tt
    ]

abbrev pub Returns {ℓ} : {A : Type ℓ} → Result A → Type ℓ
Returns {A} r = (a : A) × (r ≡ ok a)

pub Returns-map_ok {ℓ κ} :
    {A : Type ℓ} {B : Type κ} (f : A → B) (r : Result A) → Returns r → Returns (map_ok f r)
Returns-map_ok f (ok a) h = (f a, refl)
Returns-map_ok f (err e) (a, h) = absurd (cc)

date_of-gt :
    (horizon_end y m dom : ℕ)
    → horizon_end < month_start y m
    → ltb horizon_end (date_of y m (min_ℕ dom (days_in_month y m))) ≡ true
unfolding date_of
date_of-gt horizon_end y m dom le = ground arith

-- The months follow one another, so that the loop is past the horizon at last.
pub month_loop-Returns :
    (fuel : ℕ) (test : Date → Bool) (horizon_end : Date) (dom y m : ℕ)
    → 1 ≤ y
    → 1 ≤ m
    → m ≤ 12
    → horizon_end < month_start y m + fuel
    → Returns (month_loop (suc fuel) test horizon_end dom (y, m))
unfolding month_loop
month_loop-Returns zero test horizon_end dom y m hy lo hi enough =
    let past : ltb horizon_end (date_of y m (min_ℕ dom (days_in_month y m))) ≡ true =
      date_of-gt horizon_end y m dom (omega arith) in
    ([], rw past refl)
month_loop-Returns (suc fuel) test horizon_end dom y m hy lo hi enough =
    let dt = date_of y m (min_ℕ dom (days_in_month y m)) in
    let (y', m') = next_month (y, m) in
    let (hy', lo', hi', later) = month_start-next_month y m hy lo hi in
    elim (Bool-cases (ltb horizon_end dt)) [
      | inl past ↦ ([], rw past refl)
      | inr within ↦ rw within (
          Returns-map_ok (λ dates. if test dt then dt ∷ dates else dates) _
            (month_loop-Returns fuel test horizon_end dom y' m' hy' lo' hi' (omega arith)))
    ]

-- A loop that advances ends.
pub step_loop-Returns :
    (fuel : ℕ) (test : Date → Bool) (horizon_end : Date) (step cur : ℕ)
    → 1 ≤ step
    → horizon_end < cur + fuel
    → Returns (step_loop (suc fuel) test horizon_end step cur)
unfolding step_loop
step_loop-Returns zero test horizon_end step cur hs enough = ([], ground arith)
step_loop-Returns (suc fuel) test horizon_end step cur hs enough =
    elim (Bool-cases (leb cur horizon_end)) [
      | inl within ↦ rw within (
          Returns-map_ok (λ dates. if test cur then cur ∷ dates else dates) _
            (step_loop-Returns fuel test horizon_end step (cur + step) hs (omega arith)))
      | inr past ↦ ([], rw past refl)
    ]

-- A loop that does not advance never ends within the horizon.
pub step_loop-stuck :
    (fuel : ℕ) (test : Date → Bool) (horizon_end cur : Date)
    → cur ≤ horizon_end
    → step_loop fuel test horizon_end 0 cur ≡ err out_of_fuel
unfolding step_loop
step_loop-stuck zero test horizon_end cur h = refl
step_loop-stuck (suc fuel) test horizon_end cur h =
    ground (arith, step_loop-stuck fuel test horizon_end (cur + 0))
