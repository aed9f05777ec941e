-- ===== src/Performance/Registry/Newest.antt =====
-- The history of core/performance/registry.py is the newest part of all recorded profiles.
use salesinfo_api_v.Base.{
  ℕ, ◌-◌, ◌≤◌, ◌<◌, ◌≡◌, ◌≢◌, refl, sym, ap, ◌∙◌, arith, true, if◌then◌else◌, List, [], ◌∷◌, ◌++◌,
  map, some, inl, inr, Bool-cases, All, if_neg, length, drop, length-append, append-nil,
  append_assoc, subst,
}
use salesinfo_api_v.Performance.Registry.Windows.{
  drop_nil, newest, All-drop, length-newest, newest_room, newest_full,
}
use salesinfo_api_v.Base.Dict.{lookup, assign, delete}
use salesinfo_api_v.Performance.Aggregator.{Aggregator, empty, ingest}
use salesinfo_api_v.Performance.Registry.{
  Profile, Registry, init, is_full, append, first_id, evicted_id, forget, retain,
  record_completed_request, record_all,
}

module _ {I N T : Type 0} where
  -- The index that a history should have.
  abbrev pub index : List (Profile I N T) → List (I × Profile I N T)
  index history = map (λ p. (p.request_id, p)) history

  abbrev Unseen : I → List (Profile I N T) → Type 0
  Unseen request_id = All (λ q. q.request_id ≢ request_id)

  -- No id comes twice.
  abbrev pub IsDistinct : List (Profile I N T) → Type 0
  IsDistinct [] = Unit
  IsDistinct (p ∷ profiles) = Unseen p.request_id profiles × IsDistinct profiles

  -- All that a registry of length `n` has of the profiles `acc`.
  record IsNewest (n : ℕ) (acc : List (Profile I N T)) (r : Registry I N T) : Type 0 where
    bound : r.max_request_history ≡ n
    history : r.history ≡ newest n acc
    by_id : r.history_by_id ≡ index r.history
    total : r.total_requests_recorded ≡ length acc

module _ {I N T : Type 0} (dec : Discrete I) where
  assign-index :
      (p : Profile I N T) (history : List (Profile I N T))
      → Unseen p.request_id history
      → assign dec p.request_id p (index history) ≡ index (history ++ p ∷ [])
  unfolding assign
  assign-index p [] u = refl
  assign-index p (q ∷ history) u =
      rw (if_neg _ u.0) (ap (◌∷◌ (q.request_id, q)) (assign-index p history u.1))

  forget-first :
      (p : Profile I N T) (history : List (Profile I N T))
      → 0 < length history
      → Unseen p.request_id history
      → forget dec (first_id history) p.request_id (index (history ++ p ∷ []))
        ≡ (index (drop 1 (history ++ p ∷ [])), true)
  unfolding forget lookup delete
  forget-first p [] lt u = absurd (omega (arith, lt))
  forget-first p (q ∷ history) lt u =
      let tail = index (history ++ p ∷ []) in
      let there : lookup dec q.request_id ((q.request_id, q) ∷ tail) ≡ some q = ground arith in
      let deleted : delete dec q.request_id ((q.request_id, q) ∷ tail) ≡ tail = ground arith in
      rw (if_neg _ u.0) (rw there (ap (λ d. (d, true)) deleted))

  retain-IsNewest :
      (n : ℕ) (acc : List (Profile I N T)) (r : Registry I N T) (p : Profile I N T)
      → 0 < n
      → Unseen p.request_id acc
      → IsNewest n acc r
      → IsNewest n (acc ++ p ∷ []) (retain dec r p).0 × ((retain dec r p).1 ≡ true)
  unfolding retain append evicted_id forget
  retain-IsNewest n acc r p positive u k =
      let bound = k.bound in
      let unseen : Unseen p.request_id r.history =
        subst (Unseen p.request_id) (sym k.history) (All-drop _ (length acc - n) acc u) in
      let added : assign dec p.request_id p r.history_by_id ≡ index (r.history ++ p ∷ []) =
        ap (λ d. assign dec p.request_id p d) k.by_id ∙ assign-index p r.history unseen in
      elim (Bool-cases (is_full r)) [
        | inl full ↦
            let long : n ≤ length r.history = ground (arith, full, bound) in
            let gone : forget dec (first_id r.history) p.request_id
                  (assign dec p.request_id p r.history_by_id)
                ≡ (index (drop 1 (r.history ++ p ∷ [])), true) =
              ap (forget dec (first_id r.history) p.request_id) added
              ∙ forget-first p r.history (omega (arith, long, positive)) unseen in
            let grown : newest n (acc ++ p ∷ []) ≡ drop 1 (r.history ++ p ∷ []) =
              newest_full n acc p positive (subst (λ h. n ≤ length h) k.history long)
              ∙ ap (λ h. drop 1 (h ++ p ∷ [])) (sym k.history) in
            rw full (
              rw gone (
                record {
                  bound = bound;
                  history = sym grown;
                  by_id = refl;
                  total = omega (arith, k.total, length-append acc (p ∷ []));
                },
                refl,
              ))
        | inr room ↦
            let short : length r.history < n = ground (arith, room, positive, bound) in
            let grown : newest n (acc ++ p ∷ []) ≡ r.history ++ p ∷ [] =
              newest_room n acc p (subst (λ h. length h < n) k.history short)
              ∙ ap (λ h. h ++ p ∷ []) (sym k.history) in
            rw room (
              record {
                bound = bound;
                history = sym grown;
                by_id = added;
                total = omega (arith, k.total, length-append acc (p ∷ []));
              },
              refl,
            )
      ]

module _ {I N T : Type 0} (dec : Discrete I) (dec_name : Discrete N)
    (dec_key : Discrete (N × T)) where
  -- The profiles whose points the aggregator takes, one batch after another.
  abbrev pub accepted : Aggregator N T → List (Profile I N T) → List (Profile I N T)
  accepted a [] = []
  accepted a (p ∷ profiles) =
      let rest = accepted (ingest dec_name dec_key a p.metric_points).0 profiles in
      if (ingest dec_name dec_key a p.metric_points).1 then p ∷ rest else rest

  Unseen-snoc :
      (acc : List (Profile I N T)) (p : Profile I N T) (profiles : List (Profile I N T))
      → Unseen p.request_id profiles
      → All (λ x. Unseen x.request_id acc) profiles
      → All (λ x. Unseen x.request_id (acc ++ p ∷ [])) profiles
  Unseen-snoc acc p [] n u = tt
  Unseen-snoc acc p (x ∷ profiles) n u =
      (snoc acc u.0 (λ e. n.0 (sym e)), Unseen-snoc acc p profiles n.1 u.1)
    where
      snoc :
          (xs : List (Profile I N T))
          → Unseen x.request_id xs
          → (p.request_id ≢ x.request_id)
          → Unseen x.request_id (xs ++ p ∷ [])
      snoc [] a d = (d, tt)
      snoc (y ∷ xs) a d = (a.0, snoc xs a.1 d)

  record_all-IsNewest :
      (n : ℕ) (acc : List (Profile I N T)) (r : Registry I N T) (profiles : List (Profile I N T))
      → 0 < n
      → IsDistinct profiles
      → All (λ x. Unseen x.request_id acc) profiles
      → IsNewest n acc r
      → IsNewest n
          (acc ++ accepted r.aggregator profiles)
          (record_all dec dec_name dec_key r profiles)
  unfolding record_all record_completed_request retain
  record_all-IsNewest n acc r [] positive d u k = rw (append-nil acc) k
  record_all-IsNewest n acc r (p ∷ profiles) positive d u k =
      let g = ingest dec_name dec_key r.aggregator p.metric_points in
      let after : Registry I N T = record r { aggregator = g.0 } in
      let before : IsNewest n acc after = record {
        bound = k.bound;
        history = k.history;
        by_id = k.by_id;
        total = k.total;
      } in
      elim (Bool-cases g.1) [
        | inr raised ↦ rw raised (record_all-IsNewest n acc after profiles positive d.1 u.1 before)
        | inl taken ↦
            let next = retain-IsNewest dec n acc after p positive u.0 before in
            let done =
              record_all-IsNewest n (acc ++ p ∷ []) (retain dec after p).0 profiles positive d.1
                (Unseen-snoc acc p profiles d.0 u.1) next.0 in
            rw taken (
              subst
                (λ xs.
                  IsNewest n xs (record_all dec dec_name dec_key (retain dec after p).0 profiles))
                (append_assoc acc (p ∷ []) (accepted g.0 profiles)) done)
      ]

  -- With ids that do not repeat, the history of a new registry of length `n` > 0 is the newest `n` of the
  -- profiles whose points the aggregator took, in order; the index has exactly these under their
  -- ids; and the total counts all that were taken.
  pub record_all-init :
      (n : ℕ) (profiles : List (Profile I N T))
      → 0 < n
      → IsDistinct profiles
      → let r : Registry I N T = record_all dec dec_name dec_key (init n) profiles in
        let taken : List (Profile I N T) = accepted empty profiles in
        (r.history ≡ newest n taken)
        × (r.history_by_id ≡ index (newest n taken))
        × (r.total_requests_recorded ≡ length taken)
        × (length r.history ≤ n)
  record_all-init n profiles positive d =
      let r : Registry I N T = record_all dec dec_name dec_key (init n) profiles in
      let k : IsNewest n (accepted empty profiles) r =
        record_all-IsNewest n [] (init n) profiles positive d (none_seen profiles)
          (record { bound = refl; history = sym (drop_nil (0 - n)); by_id = refl; total = refl }) in
      (
        k.history,
        k.by_id ∙ ap index k.history,
        k.total,
        omega (arith, ap length k.history, length-newest n (accepted empty profiles)),
      )
    where
      none_seen : (ps : List (Profile I N T)) → All (λ x. Unseen {N = N} {T = T} x.request_id []) ps
      none_seen [] = tt
      none_seen (p ∷ ps) = (tt, none_seen ps)
