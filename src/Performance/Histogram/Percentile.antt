-- ===== src/Performance/Histogram/Percentile.antt =====
-- `percentile_from_buckets` of core/performance/histogram.py, over exact fractions: a quantile is
-- `num / den`.
use salesinfo_api_v.Base.{
  ℕ, ◌+◌, ◌-◌, ◌*◌, ◌≤◌, ◌<◌, ◌≡◌, ◌⊎◌, inl, inr, refl, arith, leb, ◌==◌, if◌then◌else◌, List, [],
  ◌∷◌, ◌++◌, map, some, length, Bool-cases, leb→le,
}
use salesinfo_api_v.Performance.Histogram.{Histogram, init, observe_all, running, cumulative_counts}
use salesinfo_api_v.Performance.Histogram.Counts.{count_within, cumulative_counts-observe_all}

pub record Quantile : Type 0 where
  pub num : ℕ
  pub den : ℕ

-- `between lower bound n d` is `lower + n / d * (bound - lower)`; `mismatch` is the ValueError of a
-- strict `zip`.
pub data Estimate : Type 0 where
  nothing mismatch : Estimate
  exactly beyond : ℕ → Estimate
  between : ℕ → ℕ → ℕ → ℕ → Estimate

abbrev pub sum : List ℕ → ℕ
sum [] = 0
sum (c ∷ cs) = c + sum cs

-- The loop over the bounds and all counts but the last. `rank` is the target rank times `den`.
unfoldable pub walk : ℕ → ℕ → List ℕ → List ℕ → ℕ → ℕ → Estimate
walk rank den [] (c ∷ []) run lower = beyond lower
walk rank den (b ∷ bs) (c ∷ d ∷ cs) run lower =
    let rest = walk rank den bs (d ∷ cs) (run + c) b in
    if leb rank ((run + c) * den)
    then (if c == 0 then exactly b else between lower b (rank - run * den) (c * den))
    else rest
walk rank den _ _ run lower = mismatch

unfoldable pub percentile_from_buckets : List ℕ → List ℕ → Quantile → Estimate
unfolding walk
percentile_from_buckets bounds counts q =
    if sum counts == 0 then nothing else walk (q.num * sum counts) q.den bounds counts 0 0

-- Where the target rank lies: the bucket that the estimate is taken from.
abbrev pub Locates : Quantile → List ℕ → Estimate → Type 0
Locates q vs nothing = vs ≡ []
Locates q vs mismatch = ⊥
Locates q vs (exactly b) = q.num * length vs ≤ count_within b vs * q.den
Locates q vs (beyond lower) = (lower ≡ 0) ⊎ (count_within lower vs * q.den < q.num * length vs)
Locates q vs (between lower b n d) =
    (q.num * length vs ≤ count_within b vs * q.den)
    × ((lower ≡ 0) ⊎ (count_within lower vs * q.den < q.num * length vs))
    × (n ≤ d)

-- The last running total is the sum.
running-sum : (run n : ℕ) (cs xs : List ℕ) → running run cs ≡ xs ++ n ∷ [] → run + sum cs ≡ n
unfolding running
running-sum run n [] [] h = cc
running-sum run n [] (x ∷ xs) h = cc
running-sum run n (c ∷ []) [] h = ground (arith, h)
running-sum run n (c ∷ d ∷ cs) [] h = cc
running-sum run n (c ∷ cs) (x ∷ xs) h =
    let rest : running (run + c) cs ≡ xs ++ n ∷ [] = cc in
    omega (arith, running-sum (run + c) n cs xs rest)

length-eq-zero : {A : Type 0} (xs : List A) → length xs ≡ 0 → xs ≡ []
length-eq-zero [] h = refl
length-eq-zero (x ∷ xs) h = absurd (omega arith)

-- What is left of the rank is at most the count of the bucket.
share-le : (rank run c den : ℕ) → rank ≤ (run + c) * den → rank - run * den ≤ c * den
share-le rank run c den h = grind arith

module _ (q : Quantile) (vs : List ℕ) where
  -- The ranks up to the lower bound are below the target.
  abbrev Passed : ℕ → ℕ → Type 0
  Passed run lower = (lower ≡ 0) ⊎ (run ≡ count_within lower vs) × (run * q.den < q.num * length vs)

  lower_lem :
      (run lower : ℕ)
      → Passed run lower
      → (lower ≡ 0) ⊎ (count_within lower vs * q.den < q.num * length vs)
  lower_lem run lower (inl start) = inl start
  lower_lem run lower (inr (same, below)) = inr (rw (← same) below)

  walk-Locates :
      (bs cs : List ℕ) (run lower : ℕ)
      → running run cs ≡ map (λ b. count_within b vs) bs ++ length vs ∷ []
      → Passed run lower
      → Locates q vs (walk (q.num * length vs) q.den bs cs run lower)
  unfolding walk running
  walk-Locates [] [] run lower totals p = cc
  walk-Locates [] (c ∷ []) run lower totals p = lower_lem run lower p
  walk-Locates [] (c ∷ d ∷ cs) run lower totals p = cc
  walk-Locates (b ∷ bs) [] run lower totals p = cc
  walk-Locates (b ∷ []) (c ∷ []) run lower totals p = cc
  walk-Locates (b ∷ b' ∷ bs) (c ∷ []) run lower totals p = cc
  walk-Locates (b ∷ bs) (c ∷ d ∷ cs) run lower totals p =
      let here : run + c ≡ count_within b vs = cc in
      let rest : running (run + c) (d ∷ cs) ≡ map (λ b. count_within b vs) bs ++ length vs ∷ [] =
        cc in
      elim (Bool-cases (leb (q.num * length vs) ((run + c) * q.den))) [
        | inl found ↦
            let upper : q.num * length vs ≤ count_within b vs * q.den =
              rw (← here) (leb→le _ _ found) in
            elim (Bool-cases (c == 0)) [
              | inl empty ↦ rw (found, empty) upper
              | inr filled ↦
                  rw (found, filled)
                    (
                      upper,
                      lower_lem run lower p,
                      share-le (q.num * length vs) run c q.den (leb→le _ _ found),
                    )
            ]
        | inr further ↦
            let below : (run + c) * q.den < q.num * length vs = ground (arith, further) in
            rw further (walk-Locates bs (d ∷ cs) (run + c) b rest (inr (here, below)))
      ]

  -- After any values, for a histogram whose bounds `__post_init__` accepts, and a quantile of the values:
  -- `percentile_from_buckets` gives none only if there are no values, and never raises. Else its estimate
  -- lies between two bounds: the values up to the upper one reach the rank of the quantile, and those up to
  -- the lower one do not, unless it is 0. An estimate at the last bound says the latter, and one at a bound
  -- itself the former.
  pub percentile_from_buckets-Locates :
      (bs : List ℕ) (h : Histogram)
      → init bs ≡ some h
      → Locates q vs (percentile_from_buckets bs (observe_all h vs).bucket_counts q)
  unfolding percentile_from_buckets cumulative_counts
  percentile_from_buckets-Locates bs h e =
      let counts = (observe_all h vs).bucket_counts in
      let totals : running 0 counts ≡ map (λ b. count_within b vs) bs ++ length vs ∷ [] =
        cumulative_counts-observe_all bs vs h e in
      let all : sum counts ≡ length vs = omega (arith, running-sum 0 (length vs) counts _ totals) in
      elim (Bool-cases (sum counts == 0)) [
        | inl empty ↦ rw empty (length-eq-zero vs (ground (arith, all, empty)))
        | inr some_there ↦ rw (some_there, all) (walk-Locates bs counts 0 0 totals (inl refl))
      ]
