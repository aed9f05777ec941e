-- ===== src/Pool/Adaptive.antt =====
-- core/db/pool/adaptive.py: the size of a pool, from the callers that wait and how long they
-- waited. A wait is a number of nanoseconds, an average wait the exact fraction `total / count`.
use Prim.Native.Nat.{max as larger, min as smaller}
use salesinfo_api_v.Base.{
  ◌⊎◌, ℕ, zero, suc, ◌+◌, ◌-◌, ◌*◌, ◌/◌, ◌≤◌, ◌<◌, ◌≡◌, Bool, true, false, ◌&&◌, ◌||◌, arith, ltb,
  leb, if◌then◌else◌, List, [], ◌∷◌, dec_lt,
}

abbrev pub cooldown_checks : ℕ
cooldown_checks = 5

-- 5.0 ms, in nanoseconds.
abbrev pub wait_pressure_threshold : ℕ
wait_pressure_threshold = 5_000_000

-- The average `total / count`; with no sample it is 0.
pub record Mean : Type 0 where
  pub total : ℕ
  pub count : ℕ

abbrev pub exceeds : Mean → ℕ → Bool
exceeds m bound = ltb (bound * m.count) m.total

pub record AdaptiveSizer : Type 0 where
  pub min : ℕ
  pub max : ℕ
  pub current : ℕ
  pub idle_streak : ℕ

unfoldable pub init : ℕ → ℕ → AdaptiveSizer
init lo hi = record { min = lo; max = hi; current = lo; idle_streak = 0 }

unfoldable pub under_pressure : ℕ → Mean → Bool
under_pressure current_waiters recent_wait =
    ltb 0 current_waiters || exceeds recent_wait wait_pressure_threshold

unfoldable pub adjust : AdaptiveSizer → ℕ → Mean → AdaptiveSizer
adjust s current_waiters recent_wait =
    if under_pressure current_waiters recent_wait
    then (if ltb s.current s.max
        then record s { current = s.current + 1; idle_streak = 0 }
        else record s { idle_streak = 0 })
    else (if leb cooldown_checks (s.idle_streak + 1) && ltb s.min s.current
        then record s { current = s.current - 1; idle_streak = 0 }
        else record s { idle_streak = s.idle_streak + 1 })

-- The size lies between the configured limits, and these are the limits given.
pub record IsSized (lo hi : ℕ) (s : AdaptiveSizer) : Type 0 where
  pub floor : s.min ≡ lo
  pub ceiling : s.max ≡ hi
  pub above : lo ≤ s.current
  pub below : s.current ≤ hi

pub init-IsSized : (lo hi : ℕ) → lo ≤ hi → IsSized lo hi (init lo hi)
unfolding init
init-IsSized lo hi h = omega arith

pub adjust-IsSized :
    (lo hi : ℕ) (s : AdaptiveSizer) (w : ℕ) (m : Mean)
    → IsSized lo hi s
    → IsSized lo hi (adjust s w m)
unfolding adjust
adjust-IsSized lo hi s w m v = ground arith

-- A history of observations, each a number of waiting callers and an average wait.
pub observe_all : AdaptiveSizer → List (ℕ × Mean) → AdaptiveSizer
observe_all s [] = s
observe_all s ((w, m) ∷ os) = observe_all (adjust s w m) os

-- Whatever contention a pool sees, in any order, its size stays between the configured limits,
-- which stay as configured.
observe_all-IsSized :
    (lo hi : ℕ) (s : AdaptiveSizer) (os : List (ℕ × Mean))
    → IsSized lo hi s
    → IsSized lo hi (observe_all s os)
unfolding observe_all
observe_all-IsSized lo hi s [] v = v
observe_all-IsSized lo hi s ((w, m) ∷ os) v =
    observe_all-IsSized lo hi (adjust s w m) os (adjust-IsSized lo hi s w m v)

-- One observation leaves the size, or adds one connection under pressure and below the ceiling, or
-- takes one away without pressure, above the floor and after four such observations in a row.
adjust_moves :
    (s : AdaptiveSizer) (w : ℕ) (m : Mean)
    → ((adjust s w m).current ≡ s.current)
      ⊎ (((adjust s w m).current ≡ s.current + 1)
          × (under_pressure w m ≡ true)
          × (s.current < s.max))
      ⊎ (((adjust s w m).current + 1 ≡ s.current)
          × (under_pressure w m ≡ false)
          × (s.min < s.current)
          × (4 ≤ s.idle_streak))
unfolding adjust
adjust_moves s w m = ground arith

-- `n` observations without pressure.
pub quiet : ℕ → AdaptiveSizer → AdaptiveSizer
quiet zero s = s
quiet (suc n) s = quiet n (adjust s 0 (record { total = 0; count = 1 }))

quiet_at_floor : (n : ℕ) (s : AdaptiveSizer) → s.current ≡ s.min → (quiet n s).current ≡ s.min
unfolding quiet adjust under_pressure
quiet_at_floor zero s e = e
quiet_at_floor (suc n) s e =
    ground (arith, quiet_at_floor n (record s { idle_streak = s.idle_streak + 1 }) e)

abbrev rest : AdaptiveSizer → AdaptiveSizer
rest s = adjust s 0 (record { total = 0; count = 1 })

-- One observation without pressure, above the floor and within the cooldown.
rest_step :
    (s : AdaptiveSizer)
    → s.min < s.current
    → s.idle_streak ≤ 4
    → ((rest s).min ≡ s.min)
      × ((rest s).idle_streak ≤ 4)
      × ((rest s).current * 5 + s.idle_streak + 1 ≡ s.current * 5 + (rest s).idle_streak)
unfolding adjust under_pressure
rest_step s h k = ground arith

quiet_from :
    (n : ℕ) (s : AdaptiveSizer)
    → s.min ≤ s.current
    → s.idle_streak ≤ 4
    → (quiet n s).current ≡ larger s.min (s.current - (n + s.idle_streak) / 5)
unfolding quiet
quiet_from zero s h k = omega arith
quiet_from (suc n) s h k = elim (dec_lt s.min s.current) [
  | yes above ↦
      let r = rest_step s above k in
      omega (arith, quiet_from n (rest s) (omega arith) (omega arith))
  | no at ↦ omega (arith, quiet_at_floor (suc n) s (omega arith))
]

-- From a size within its limits and a fresh streak, `n` observations without pressure give back one
-- connection for every five of them, and never go below the floor.
quiet_lem :
    (n : ℕ) (s : AdaptiveSizer)
    → s.min ≤ s.current
    → s.idle_streak ≡ 0
    → (quiet n s).current ≡ larger s.min (s.current - n / cooldown_checks)
quiet_lem n s h z = omega (arith, quiet_from n s h (omega arith))

-- `n` observations with a caller waiting.
pub busy : ℕ → AdaptiveSizer → AdaptiveSizer
busy zero s = s
busy (suc n) s = busy n (adjust s 1 (record { total = 0; count = 1 }))

-- Under pressure the pool grows by one connection for each observation, up to the ceiling and no
-- further.
busy_lem :
    (n : ℕ) (s : AdaptiveSizer)
    → s.current ≤ s.max
    → (busy n s).current ≡ smaller s.max (s.current + n)
unfolding busy adjust under_pressure
busy_lem zero s h = omega arith
busy_lem (suc n) s h = elim (dec_lt s.current s.max) [
  | yes p ↦ ground (arith, busy_lem n (record s { current = s.current + 1; idle_streak = 0 }))
  | no p ↦ ground (arith, busy_lem n (record s { idle_streak = 0 }))
]
