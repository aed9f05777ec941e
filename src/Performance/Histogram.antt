-- ===== src/Performance/Histogram.antt =====
-- core/performance/histogram.py: the fixed-bucket `Histogram`. A value and a bucket bound are whole
-- numbers of millionths, so that both a duration in nanoseconds and one in milliseconds with
-- nanosecond resolution is exact; the rounding of floats is not modelled.
pub mod Counts
pub mod Percentile
use salesinfo_api_v.Base.{
  ℕ, zero, suc, ◌+◌, ◌*◌, ◌≤◌, ◌<◌, ◌≡◌, refl, Bool, true, false, ◌&&◌, arith, ltb, leb,
  if◌then◌else◌, List, [], ◌∷◌, ◌++◌, map, Option, none, some, length, replicate, min, max,
}

abbrev pub nanoseconds_per_millisecond : ℕ
nanoseconds_per_millisecond = 1_000_000

-- 0.5 ms to 10 s.
abbrev pub default_bucket_bounds : List ℕ
default_bucket_bounds =
    500_000 ∷ 1_000_000 ∷ 2_000_000 ∷ 5_000_000 ∷ 10_000_000 ∷ 25_000_000 ∷ 50_000_000 ∷ 100_000_000
    ∷ 250_000_000 ∷ 500_000_000 ∷ 1_000_000_000 ∷ 2_500_000_000 ∷ 5_000_000_000 ∷ 10_000_000_000
    ∷ []

pub record Histogram : Type 0 where
  pub bucket_bounds : List ℕ
  pub bucket_counts : List ℕ
  pub count : ℕ
  pub total : ℕ
  pub minimum : Option ℕ
  pub maximum : Option ℕ

-- `list(bounds) == sorted(bounds)`: no bound above the next.
unfoldable pub ascending : List ℕ → Bool
ascending [] = true
ascending (a ∷ []) = true
ascending (a ∷ b ∷ bs) = leb a b && ascending (b ∷ bs)

-- `none` is the HistogramError of `__post_init__`.
unfoldable pub init : List ℕ → Option Histogram
init bounds =
    if ascending bounds
    then some (record {
      bucket_bounds = bounds;
      bucket_counts = replicate (length bounds + 1) 0;
      count = 0;
      total = 0;
      minimum = none;
      maximum = none;
    })
    else none

-- `bisect_left(bounds, value / NANOSECONDS_PER_MILLISECOND)`: how many bounds lie below the value.
unfoldable pub bisect_left : List ℕ → ℕ → ℕ
bisect_left [] value = 0
bisect_left (b ∷ bs) value =
    if ltb (b * nanoseconds_per_millisecond) value then suc (bisect_left bs value) else 0

-- `counts[index] += 1`. Out of range it changes nothing, where Python would raise IndexError;
-- the lemmas in Counts show that `observe` never gets there.
unfoldable pub bump : List ℕ → ℕ → List ℕ
bump [] i = []
bump (c ∷ cs) zero = (c + 1) ∷ cs
bump (c ∷ cs) (suc i) = c ∷ bump cs i

abbrev pub at_most : Option ℕ → ℕ → ℕ
at_most none v = v
at_most (some m) v = min m v

abbrev pub at_least : Option ℕ → ℕ → ℕ
at_least none v = v
at_least (some m) v = max m v

unfoldable pub observe : Histogram → ℕ → Histogram
observe h value = record h {
  count = h.count + 1;
  total = h.total + value;
  minimum = some (at_most h.minimum value);
  maximum = some (at_least h.maximum value);
  bucket_counts = bump h.bucket_counts (bisect_left h.bucket_bounds value);
}

-- The running totals, in the order of the labels.
unfoldable pub running : ℕ → List ℕ → List ℕ
running r [] = []
running r (c ∷ cs) = (r + c) ∷ running (r + c) cs

unfoldable pub cumulative_counts : Histogram → List ℕ
cumulative_counts h = running 0 h.bucket_counts

unfoldable pub observe_all : Histogram → List ℕ → Histogram
observe_all h [] = h
observe_all h (v ∷ vs) = observe_all (observe h v) vs
