-- ===== src/Performance/Merge/Fleet.antt =====
-- The merged histograms of core/performance/dashboard/merge.py are those of one process that would have
-- seen what all workers saw.
use salesinfo_api_v.Base.{
  ℕ, ◌+◌, ◌≡◌, refl, sym, ap, ◌∙◌, List, [], ◌∷◌, ◌++◌, append_assoc, map, Option, none, some, ite,
  inl, inr, Option-cases, if_pos, if_neg, Bool, length, take,
}
use salesinfo_api_v.Base.Dict.{lookup, assign, lookup-assign}
use salesinfo_api_v.Performance.Histogram.{Histogram, init, observe_all}
use salesinfo_api_v.Performance.Histogram.Percentile.{
  Quantile, Locates, percentile_from_buckets, percentile_from_buckets-Locates,
}
use mathlib.Core.Option
use salesinfo_api_v.Performance.Merge.Combine.{
  fresh, init_eq, combine_lists, Fits-observe_all, length-zeros,
}
use salesinfo_api_v.Performance.Merge.{
  Snapshot, Merged, start, merge_histogram, merge_histograms, merge_snapshot, merge_snapshots,
  added, merge_performance_summaries, Summary, result,
}

-- What two processes saw, where either may have seen nothing.
abbrev pub join : Option (List ℕ) → Option (List ℕ) → Option (List ℕ)
join none b = b
join (some vs) none = some vs
join (some vs) (some ws) = some (vs ++ ws)

join-none : (a : Option (List ℕ)) → join a none ≡ a
join-none none = refl
join-none (some vs) = refl

join_assoc : (a b c : Option (List ℕ)) → join (join a b) c ≡ join a (join b c)
join_assoc none b c = refl
join_assoc (some vs) none c = refl
join_assoc (some vs) (some ws) none = refl
join_assoc (some vs) (some ws) (some us) = ap some (append_assoc vs ws us)

abbrev pub seen : List ℕ → Option (List ℕ) → Option Histogram
seen bs none = none
seen bs (some vs) = some (observe_all (fresh bs) vs)

module _ {K : Type 0} (dec_key : Discrete K) where
  -- The values under a key, in the order of the entries.
  abbrev pub values_of : K → List (K × List ℕ) → Option (List ℕ)
  values_of k [] = none
  values_of k (w ∷ ws) = join (ite (dec_key w.0 k) (some w.1) none) (values_of k ws)

  values_of-append :
      (k : K) (us ws : List (K × List ℕ))
      → values_of k (us ++ ws) ≡ join (values_of k us) (values_of k ws)
  values_of-append k [] ws = refl
  values_of-append k (u ∷ us) ws =
      ap (join (ite (dec_key u.0 k) (some u.1) none)) (values_of-append k us ws)
      ∙ sym (join_assoc (ite (dec_key u.0 k) (some u.1) none) (values_of k us) (values_of k ws))

-- What a worker observed under each key, as its snapshot shows it.
abbrev pub observed : {K : Type 0} → List ℕ → K × List ℕ → K × Histogram
observed bs w = (w.0, observe_all (fresh bs) w.1)

module _ {N T : Type 0} (dec_key : Discrete (N × T)) (bs : List ℕ) where
  -- The dictionary has under each key what was seen so far.
  abbrev Tracks : List ((N × T) × Histogram) → (N × T → Option (List ℕ)) → Type 0
  Tracks d had = (k : N × T) → lookup dec_key k d ≡ seen bs (had k)

  Tracks-assign :
      (d : List ((N × T) × Histogram)) (had : N × T → Option (List ℕ)) (w : (N × T) × List ℕ)
      (vs : List ℕ)
      → Tracks d had
      → join (had w.0) (some w.1) ≡ some vs
      → Tracks
          (assign dec_key w.0 (observe_all (fresh bs) vs) d)
          (λ k. join (had k) (ite (dec_key w.0 k) (some w.1) none))
  Tracks-assign d had w vs tracks both k =
      let found = lookup-assign dec_key w.0 k (observe_all (fresh bs) vs) d in
      elim (dec_key w.0 k) [
        | yes here ↦
            found
            ∙ if_pos (dec_key w.0 k) here (some (observe_all (fresh bs) vs)) (lookup dec_key k d)
            ∙ ap (seen bs) (
                sym (
                  ap (join (had k)) (if_pos (dec_key w.0 k) here (some w.1) none)
                  ∙ ap (λ j. join (had j) (some w.1)) (sym here)
                  ∙ both))
        | no other ↦
            found
            ∙ if_neg (dec_key w.0 k) other (some (observe_all (fresh bs) vs)) (lookup dec_key k d)
            ∙ tracks k
            ∙ ap (seen bs) (
                sym (
                  ap (join (had k)) (if_neg (dec_key w.0 k) other (some w.1) none)
                  ∙ join-none (had k)))
      ]

  merge_histogram-Tracks :
      (d : List ((N × T) × Histogram)) (had : N × T → Option (List ℕ)) (w : (N × T) × List ℕ)
      → Tracks d had
      → (next : List ((N × T) × Histogram)) × (merge_histogram dec_key d (observed bs w)
          ≡ some next)
        × Tracks next (λ k. join (had k) (ite (dec_key w.0 k) (some w.1) none))
  unfolding merge_histogram
  merge_histogram-Tracks d had w tracks = elim (Option-cases (had w.0)) [
    | inl new ↦
        let absent : lookup dec_key w.0 d ≡ none = tracks w.0 ∙ ap (seen bs) new in
        (
          assign dec_key w.0 (observe_all (fresh bs) w.1) d,
          rw (absent, merge_histogram) refl,
          Tracks-assign d had w w.1 tracks (ap (λ o. join o (some w.1)) new),
        )
    | inr (vs, old) ↦
        let there : lookup dec_key w.0 d ≡ some (observe_all (fresh bs) vs) =
          tracks w.0 ∙ ap (seen bs) old in
        (
          assign dec_key w.0 (observe_all (fresh bs) (vs ++ w.1)) d,
          rw (there, merge_histogram, combine_lists) refl,
          Tracks-assign d had w (vs ++ w.1) tracks (ap (λ o. join o (some w.1)) old),
        )
  ]

  merge_histograms-Tracks :
      (d : List ((N × T) × Histogram)) (had : N × T → Option (List ℕ))
      (ws : List ((N × T) × List ℕ))
      → Tracks d had
      → (last : List ((N × T) × Histogram)) × (merge_histograms dec_key d (map (observed bs) ws)
          ≡ some last)
        × Tracks last (λ k. join (had k) (values_of dec_key k ws))
  unfolding merge_histograms
  merge_histograms-Tracks d had [] tracks =
      (d, refl, λ k. tracks k ∙ ap (seen bs) (sym (join-none (had k))))
  merge_histograms-Tracks d had (w ∷ ws) tracks =
      let (next, first, now) = merge_histogram-Tracks d had w tracks in
      let (last, rest, all) = merge_histograms-Tracks next _ ws now in
      (
        last,
        rw (first, merge_histograms) rest,
        λ k.
            all k
            ∙ ap (seen bs)
                (join_assoc (had k) (ite (dec_key w.0 k) (some w.1) none) (values_of dec_key k ws)),
      )

-- The snapshot of a worker that observed the values under their keys.
abbrev pub snapshot_of :
    {N T R : Type 0} → List ℕ → Snapshot N T R × List ((N × T) × List ℕ) → Snapshot N T R
snapshot_of bs w = record w.0 { histograms = map (observed bs) w.1 }

-- What all workers observed, one worker after another.
abbrev pub all_observed : {A K : Type 0} → List (A × List (K × List ℕ)) → List (K × List ℕ)
all_observed [] = []
all_observed (w ∷ ws) = w.1 ++ all_observed ws

seen_lem :
    (bs : List ℕ) (h : Histogram)
    → h ≡ fresh bs
    → (o : Option (List ℕ)) → seen bs o ≡ Option.map (observe_all h) o
seen_lem bs h same none = refl
seen_lem bs h same (some vs) = ap (λ g. some (observe_all g vs)) (sym same)

bounds_kept :
    (bs : List ℕ) (h : Histogram) (vs : List ℕ)
    → h ≡ fresh bs
    → (observe_all h vs).bucket_bounds ≡ bs
bounds_kept bs h vs same =
    ap (λ g. (observe_all g vs).bucket_bounds) same
    ∙ (Fits-observe_all bs (fresh bs) vs refl (length-zeros (length bs + 1))).0

module _ {N T R : Type 0} (dec_key : Discrete (N × T)) (is_host_level : N → Bool)
    (bs : List ℕ) where
  merge_snapshots-Tracks :
      (m : Merged N T R) (had : N × T → Option (List ℕ))
      (ws : List (Snapshot N T R × List ((N × T) × List ℕ)))
      → Tracks dec_key bs m.histograms had
      → (last : Merged N T R) × (merge_snapshots dec_key is_host_level m (map (snapshot_of bs) ws)
          ≡ some last)
        × Tracks dec_key bs last.histograms
            (λ k. join (had k) (values_of dec_key k (all_observed ws)))
  unfolding merge_snapshots merge_snapshot
  merge_snapshots-Tracks m had [] tracks =
      (m, refl, λ k. tracks k ∙ ap (seen bs) (sym (join-none (had k))))
  merge_snapshots-Tracks m had (w ∷ ws) tracks =
      let (next, first, now) = merge_histograms-Tracks dec_key bs m.histograms had w.1 tracks in
      let step = added dec_key is_host_level m (snapshot_of bs w) next in
      let (last, rest, all) = merge_snapshots-Tracks step _ ws now in
      (
        last,
        rw (first, merge_snapshots) rest,
        λ k.
            all k
            ∙ ap (seen bs) (
                join_assoc (had k) (values_of dec_key k w.1) (values_of dec_key k (all_observed ws))
                ∙ ap (join (had k)) (sym (values_of-append dec_key k w.1 (all_observed ws)))),
      )

  -- If every worker's histograms have the bounds `bs`, which `__post_init__` accepts, the merge of the
  -- snapshots raises nothing, and under each key it has the histogram of one process that has seen, one
  -- worker after another, all values that the workers saw under it, and none under any other key. Whatever
  -- the quantile, the estimate from its buckets lies where the rank of the quantile lies among all these
  -- values.
  pub merge_performance_summaries_lem :
      (h : Histogram) (ws : List (Snapshot N T R × List ((N × T) × List ℕ))) (recent_limit : ℕ)
      → init bs ≡ some h
      → (out : Summary N T R) × (merge_performance_summaries dec_key is_host_level
            (map (snapshot_of bs) ws)
            recent_limit
          ≡ some out)
        × ((k : N × T)
            → lookup dec_key k out.merged.histograms
              ≡ Option.map (observe_all h) (values_of dec_key k (all_observed ws)))
        × ((k : N × T) (vs : List ℕ) (q : Quantile)
            → values_of dec_key k (all_observed ws) ≡ some vs
            → (merged : Histogram) × (lookup dec_key k out.merged.histograms ≡ some merged)
              × Locates q vs (percentile_from_buckets merged.bucket_bounds merged.bucket_counts q))
  unfolding merge_performance_summaries
  merge_performance_summaries_lem h ws recent_limit e =
      let (m, run, tracks) =
        merge_snapshots-Tracks start (λ k. none) ws (λ k. unfold lookup in refl) in
      let found = λ (k : N × T).
        tracks k ∙ seen_lem bs h (init_eq bs h e) (values_of dec_key k (all_observed ws)) in
      (
        record {
          merged = m;
          histograms = map result m.histograms;
          recent_requests = take recent_limit m.recent_requests;
          worker_count = length (map (snapshot_of bs) ws);
        },
        rw (run, merge_performance_summaries) refl,
        found,
        λ k vs q some_seen. (
          observe_all h vs,
          found k ∙ ap (Option.map (observe_all h)) some_seen,
          rw (bounds_kept bs h vs (init_eq bs h e)) (percentile_from_buckets-Locates q vs bs h e),
        ),
      )
