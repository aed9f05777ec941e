-- ===== src/Performance/Merge/Combine.antt =====
-- Two histograms of core/performance/histogram.py that core/performance/dashboard/merge.py puts together.
use salesinfo_api_v.Base.{
  ℕ, zero, suc, ◌+◌, ◌≡◌, refl, ap, ◌∙◌, arith, true, List, [], ◌∷◌, ◌++◌, Option, none, some,
  length, replicate, min, max, inl, inr, Option-cases,
}
use salesinfo_api_v.Performance.Histogram.{
  Histogram, init, bump, bisect_left, observe, observe_all, at_most, at_least,
}
use salesinfo_api_v.Performance.Histogram.Counts.{length-bump}
use salesinfo_api_v.Performance.Merge.{same_bounds, zip_add, extreme, combined, combine}

abbrev pub fresh : List ℕ → Histogram
fresh bs = record {
  bucket_bounds = bs;
  bucket_counts = replicate (length bs + 1) 0;
  count = 0;
  total = 0;
  minimum = none;
  maximum = none;
}

pub init_eq : (bs : List ℕ) (h : Histogram) → init bs ≡ some h → h ≡ fresh bs
unfolding init
init_eq bs h e = ground (arith, e)

same_bounds_refl : (bs : List ℕ) → same_bounds bs bs ≡ true
same_bounds_refl [] = refl
same_bounds_refl (b ∷ bs) = ground (arith, same_bounds_refl bs)

zip_add-zeros : (n : ℕ) (xs : List ℕ) → length xs ≡ n → zip_add xs (replicate n 0) ≡ some xs
unfolding zip_add
zip_add-zeros zero [] h = refl
zip_add-zeros (suc n) [] h = absurd (omega (arith, h))
zip_add-zeros zero (x ∷ xs) h = absurd (omega (arith, h))
zip_add-zeros (suc n) (x ∷ xs) h =
    let rest : length xs ≡ n = omega (arith, h) in ground (arith, zip_add-zeros n xs rest)

zip_add-bump :
    (xs ys zs : List ℕ) (i : ℕ)
    → zip_add xs ys ≡ some zs
    → zip_add xs (bump ys i) ≡ some (bump zs i)
unfolding zip_add bump
zip_add-bump [] [] zs i h = ground (arith, h)
zip_add-bump [] (y ∷ ys) zs i h = cc
zip_add-bump (x ∷ xs) [] zs i h = cc
zip_add-bump (x ∷ xs) (y ∷ ys) zs zero h = elim (Option-cases (zip_add xs ys)) [
  | inl short ↦ absurd (ground (arith, rw (short, zip_add) at h))
  | inr (ws, rest) ↦
      let whole : (x + y) ∷ ws ≡ zs = ground (arith, h, rest) in rw (← whole, rest) (ground arith)
]
zip_add-bump (x ∷ xs) (y ∷ ys) zs (suc i) h = elim (Option-cases (zip_add xs ys)) [
  | inl short ↦ absurd (ground (arith, rw (short, zip_add) at h))
  | inr (ws, rest) ↦
      let whole : (x + y) ∷ ws ≡ zs = ground (arith, h, rest) in
      rw (← whole, zip_add-bump xs ys ws i rest) refl
]

extreme_min :
    (a b : Option ℕ) (v : ℕ)
    → extreme min a (some (at_most b v)) ≡ some (at_most (extreme min a b) v)
extreme_min none none v = refl
extreme_min none (some b) v = refl
extreme_min (some a) none v = refl
extreme_min (some a) (some b) v = ground arith

extreme_max :
    (a b : Option ℕ) (v : ℕ)
    → extreme max a (some (at_least b v)) ≡ some (at_least (extreme max a b) v)
extreme_max none none v = refl
extreme_max none (some b) v = refl
extreme_max (some a) none v = refl
extreme_max (some a) (some b) v = ground arith

combine_lem :
    (a b : Histogram) (zs : List ℕ)
    → a.bucket_bounds ≡ b.bucket_bounds
    → zip_add a.bucket_counts b.bucket_counts ≡ some zs
    → combine a b ≡ some (combined a b zs)
unfolding combine
combine_lem a b zs same sums =
    let alike : same_bounds a.bucket_bounds b.bucket_bounds ≡ true =
      rw same (same_bounds_refl b.bucket_bounds) in
    rw (alike, sums) refl

-- One more value in the second histogram is one more in the two together.
combined-observe :
    (a b : Histogram) (zs : List ℕ) (v : ℕ)
    → a.bucket_bounds ≡ b.bucket_bounds
    → combined a (observe b v) (bump zs (bisect_left b.bucket_bounds v))
      ≡ observe (combined a b zs) v
unfolding observe
combined-observe a b zs v same =
    ground (arith, same, extreme_min a.minimum b.minimum v, extreme_max a.maximum b.maximum v)

combine-observe_all :
    (a b : Histogram) (zs vs : List ℕ)
    → a.bucket_bounds ≡ b.bucket_bounds
    → zip_add a.bucket_counts b.bucket_counts ≡ some zs
    → combine a (observe_all b vs) ≡ some (observe_all (combined a b zs) vs)
unfolding observe_all
combine-observe_all a b zs [] same sums = combine_lem a b zs same sums
combine-observe_all a b zs (v ∷ vs) same sums =
    let more = bump zs (bisect_left b.bucket_bounds v) in
    let added : zip_add a.bucket_counts (observe b v).bucket_counts ≡ some more =
      unfold observe in
      zip_add-bump a.bucket_counts b.bucket_counts zs (bisect_left b.bucket_bounds v) sums in
    let bounds : a.bucket_bounds ≡ (observe b v).bucket_bounds = unfold observe in same in
    combine-observe_all a (observe b v) more vs bounds added
    ∙ ap (λ c. some (observe_all c vs)) (combined-observe a b zs v same)

observe_all-append :
    (h : Histogram) (vs ws : List ℕ) → observe_all (observe_all h vs) ws ≡ observe_all h (vs ++ ws)
unfolding observe_all
observe_all-append h [] ws = refl
observe_all-append h (v ∷ vs) ws = observe_all-append (observe h v) vs ws

-- Observations keep the bounds and the number of buckets.
pub Fits-observe_all :
    (bs : List ℕ) (h : Histogram) (vs : List ℕ)
    → h.bucket_bounds ≡ bs
    → length h.bucket_counts ≡ length bs + 1
    → ((observe_all h vs).bucket_bounds ≡ bs)
      × (length (observe_all h vs).bucket_counts ≡ length bs + 1)
unfolding observe_all observe
Fits-observe_all bs h [] bounds row = (bounds, row)
Fits-observe_all bs h (v ∷ vs) bounds row =
    Fits-observe_all bs (observe h v) vs bounds
      (length-bump h.bucket_counts (bisect_left h.bucket_bounds v) ∙ row)

pub length-zeros : (n : ℕ) → length (replicate n (zero)) ≡ n
length-zeros zero = refl
length-zeros (suc n) = ap suc (length-zeros n)

-- Two histograms with the same bounds, put together, are one that has seen the values of both.
pub combine_lists :
    (bs vs ws : List ℕ)
    → combine (observe_all (fresh bs) vs) (observe_all (fresh bs) ws)
      ≡ some (observe_all (fresh bs) (vs ++ ws))
combine_lists bs vs ws =
    let a = observe_all (fresh bs) vs in
    let (bounds, row) = Fits-observe_all bs (fresh bs) vs refl (length-zeros (length bs + 1)) in
    let zeros : zip_add a.bucket_counts (fresh bs).bucket_counts ≡ some a.bucket_counts =
      zip_add-zeros (length bs + 1) a.bucket_counts row in
    let nothing_new : combined a (fresh bs) a.bucket_counts ≡ a = ground arith in
    combine-observe_all a (fresh bs) a.bucket_counts ws bounds zeros
    ∙ ap (λ c. some (observe_all c ws)) nothing_new
    ∙ ap some (observe_all-append (fresh bs) vs ws)
