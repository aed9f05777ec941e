-- ===== src/Performance/Histogram/Counts.antt =====
-- What the buckets of a histogram hold after any stream of observations.
use native.Mathlib.Numerals.{add-one}
use salesinfo_api_v.Base.{
  ℕ, zero, suc, ◌+◌, ◌*◌, ◌≤◌, ◌<◌, ◌≡◌, refl, ap, ◌∙◌, sym, true, arith, ltb, if◌then◌else◌, List,
  [], ◌∷◌, ◌++◌, map, some, length, replicate, inl, inr, Bool-cases, All,
}
use salesinfo_api_v.Performance.Histogram.{
  Histogram, nanoseconds_per_millisecond, ascending, init, bisect_left, bump, observe, observe_all,
  running, cumulative_counts,
}

abbrev pub Ascending : List ℕ → Type 0
Ascending [] = Unit {0}
Ascending (b ∷ bs) = All (λ c. b ≤ c) bs × Ascending bs

All-le : (a b : ℕ) (bs : List ℕ) → a ≤ b → All (λ c. b ≤ c) bs → All (λ c. a ≤ c) bs
All-le a b [] h p = tt
All-le a b (c ∷ bs) h p = (omega arith, All-le a b bs h p.1)

ascending_sound : (bs : List ℕ) → ascending bs ≡ true → Ascending bs
unfolding ascending
ascending_sound [] h = tt
ascending_sound (a ∷ []) h = (tt, tt)
ascending_sound (a ∷ b ∷ bs) h =
    let le : a ≤ b = ground arith in
    let rest : Ascending (b ∷ bs) = ascending_sound (b ∷ bs) (ground arith) in
    ((le, All-le a b bs le rest.0), rest)

-- How many of the values are at most the bound, in milliseconds, of a bucket.
unfoldable pub count_within : ℕ → List ℕ → ℕ
count_within b [] = 0
count_within b (v ∷ vs) =
    (if ltb (b * nanoseconds_per_millisecond) v then 0 else 1) + count_within b vs

-- The index that `observe` writes to is one of the counters: Python raises no IndexError.
bisect_left-lt : (bs : List ℕ) (v : ℕ) → bisect_left bs v < length bs + 1
unfolding bisect_left
bisect_left-lt [] v = omega arith
bisect_left-lt (b ∷ bs) v = ground (arith, bisect_left-lt bs v)

pub length-bump : (cs : List ℕ) (i : ℕ) → length (bump cs i) ≡ length cs
unfolding bump
length-bump [] i = refl
length-bump (c ∷ cs) zero = refl
length-bump (c ∷ cs) (suc i) = ap suc (length-bump cs i)

-- One more observation in each running total from its bucket on.
step : List ℕ → ℕ → List ℕ → List ℕ
step bs v [] = []
step [] v (t ∷ ts) = (t + 1) ∷ step [] v ts
step (b ∷ bs) v (t ∷ ts) =
    (t + (if ltb (b * nanoseconds_per_millisecond) v then 0 else 1)) ∷ step bs v ts

-- Every bound of the rest is at least the value.
running-All :
    (bs cs : List ℕ) (r v : ℕ)
    → All (λ b. v ≤ b * nanoseconds_per_millisecond) bs
    → running (r + 1) cs ≡ step bs v (running r cs)
unfolding running step
running-All bs [] r v h = refl
running-All [] (c ∷ cs) r v h = ground (arith, running-All [] cs (r + c) v tt)
running-All (b ∷ bs) (c ∷ cs) r v h = ground (arith, running-All bs cs (r + c) v h.1)

scale :
    (b v : ℕ) (bs : List ℕ)
    → v ≤ b * nanoseconds_per_millisecond
    → All (λ c. b ≤ c) bs
    → All (λ c. v ≤ c * nanoseconds_per_millisecond) bs
scale b v [] h a = tt
scale b v (c ∷ bs) h a = (omega arith, scale b v bs h a.1)

running-bump :
    (bs cs : List ℕ) (r v : ℕ)
    → Ascending bs
    → length cs ≡ length bs + 1
    → running r (bump cs (bisect_left bs v)) ≡ step bs v (running r cs)
unfolding running bump bisect_left step
running-bump bs [] r v a e = absurd (omega arith)
running-bump [] (c ∷ cs) r v a e = ground (arith, running-All [] cs (r + c) v tt)
running-bump (b ∷ bs) (c ∷ cs) r v a e =
    elim (Bool-cases (ltb (b * nanoseconds_per_millisecond) v)) [
      | inl past ↦ rw past (ground (arith, running-bump bs cs (r + c) v a.1 (omega arith)))
      | inr here ↦
          rw here (ground (arith, running-All bs cs (r + c) v (scale b v bs (ground arith) a.0)))
    ]

-- The running totals after the values `vs`, from those before.
tallies : List ℕ → List ℕ → List ℕ → List ℕ
tallies bs vs [] = []
tallies [] vs (t ∷ ts) = (t + length vs) ∷ tallies [] vs ts
tallies (b ∷ bs) vs (t ∷ ts) = (t + count_within b vs) ∷ tallies bs vs ts

tallies-nil : (bs ts : List ℕ) → tallies bs [] ts ≡ ts
unfolding tallies count_within
tallies-nil bs [] = refl
tallies-nil [] (t ∷ ts) = ground (arith, tallies-nil [] ts)
tallies-nil (b ∷ bs) (t ∷ ts) = ground (arith, tallies-nil bs ts)

tallies-step :
    (bs : List ℕ) (v : ℕ) (vs ts : List ℕ) → tallies bs vs (step bs v ts) ≡ tallies bs (v ∷ vs) ts
unfolding tallies count_within step
tallies-step bs v vs [] = refl
tallies-step [] v vs (t ∷ ts) = ground (arith, tallies-step [] v vs ts)
tallies-step (b ∷ bs) v vs (t ∷ ts) = ground (arith, tallies-step bs v vs ts)

-- The shape that `__post_init__` sets up and every observation keeps.
pub record IsShaped (h : Histogram) : Type 0 where
  pub sorted : Ascending h.bucket_bounds
  pub row : length h.bucket_counts ≡ length h.bucket_bounds + 1

observe-IsShaped : (h : Histogram) (v : ℕ) → IsShaped h → IsShaped (observe h v)
unfolding observe
observe-IsShaped h v s = record {
  sorted = s.sorted;
  row = omega (arith, s.row, length-bump h.bucket_counts (bisect_left h.bucket_bounds v));
}

observe_all-tallies :
    (h : Histogram) (vs : List ℕ)
    → IsShaped h
    → cumulative_counts (observe_all h vs) ≡ tallies h.bucket_bounds vs (cumulative_counts h)
unfolding observe_all cumulative_counts
observe_all-tallies h [] s = sym (tallies-nil h.bucket_bounds (running 0 h.bucket_counts))
observe_all-tallies h (v ∷ vs) s =
    observe_all-tallies (observe h v) vs (observe-IsShaped h v s)
    ∙ unfold observe in
      (ap (tallies h.bucket_bounds vs)
          (running-bump h.bucket_bounds h.bucket_counts 0 v s.sorted s.row)
        ∙ tallies-step h.bucket_bounds v vs (running 0 h.bucket_counts))

length-zeros : (n : ℕ) → length (replicate n (zero)) ≡ n
length-zeros zero = refl
length-zeros (suc n) = ap suc (length-zeros n)

init-IsShaped : (bs : List ℕ) (h : Histogram) → init bs ≡ some h → IsShaped h
unfolding init
init-IsShaped bs h e = elim (Bool-cases (ascending bs)) [
  | inl up ↦ ground (arith, ascending_sound bs up, length-zeros (length bs + 1))
  | inr down ↦ ground arith
]

tallies-zeros :
    (bs vs : List ℕ)
    → tallies bs vs (running 0 (replicate (suc (length bs)) 0))
      ≡ map (λ b. count_within b vs) bs ++ length vs ∷ []
unfolding tallies running
tallies-zeros [] vs = ground arith
tallies-zeros (b ∷ bs) vs = ground (arith, tallies-zeros bs vs)

init_fields :
    (bs : List ℕ) (h : Histogram)
    → init bs ≡ some h
    → (h.bucket_bounds ≡ bs) × (h.bucket_counts ≡ replicate (length bs + 1) 0)
unfolding init
init_fields bs h e = ground arith

-- For a histogram whose bounds `__post_init__` accepts, after any values the cumulative count at
-- each bound is the number of values that are at most that bound in milliseconds, and the last
-- one, at +Inf, is the number of all values.
pub cumulative_counts-observe_all :
    (bs vs : List ℕ) (h : Histogram)
    → init bs ≡ some h
    → cumulative_counts (observe_all h vs) ≡ map (λ b. count_within b vs) bs ++ length vs ∷ []
unfolding cumulative_counts
cumulative_counts-observe_all bs vs h e =
    let (bounds, zeros) = init_fields bs h e in
    observe_all-tallies h vs (init-IsShaped bs h e)
    ∙ rw (bounds, zeros, add-one) (tallies-zeros bs vs)
