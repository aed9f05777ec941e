-- ===== src/Performance/AdaptiveSampler/Bounds.antt =====
-- The rate of core/performance/adaptive_sampler.py stays between its bounds.
use salesinfo_api_v.Base.{
  ℕ, ◌+◌, ◌-◌, ◌≡◌, arith, ltb, true, false, ◌||◌, List, [], ◌∷◌, inl, inr, Bool-cases,
}
use salesinfo_api_v.Performance.AdaptiveSampler.{
  Fraction, less, at_most, at_least, AdaptiveSamplerConfig, AdaptiveSampler, init, raised, eased,
  tolerated, actual_rate, next_rate, maybe_adjust, should_sample, escalate, is_bad, record_outcome,
}
use salesinfo_api_v.Performance.AdaptiveSampler.Escalation.{Event, begins, ends}

less_self : (a : Fraction) → less a a ≡ false
unfolding less
less_self a = ground arith

less_asym : (a b : Fraction) → less a b ≡ true → less b a ≡ false
unfolding less
less_asym a b h = ground (arith, h)

less-raised : (r m : Fraction) → less r m ≡ false → less (raised r) m ≡ false
unfolding less
less-raised r m h = grind (arith, h)

less-eased : (r m : Fraction) → less m r ≡ false → less m (eased r) ≡ false
unfolding less
less-eased r m h = grind (arith, h)

module _ (second : ℕ) (config : AdaptiveSamplerConfig) where
  -- Neither below the least rate nor above the greatest.
  pub record IsWithin (r : Fraction) : Type 0 where
    pub low : less r config.min_rate_percent ≡ false
    pub high : less config.max_rate_percent r ≡ false

  -- Requests that begin and end, one event after another.
  abbrev pub after_all : AdaptiveSampler → List Event → AdaptiveSampler
  after_all s [] = s
  after_all s (begins draw now ∷ events) =
      after_all (should_sample second config s draw now).0 events
  after_all s (ends status_code duration now ∷ events) =
      after_all (record_outcome second config s status_code duration now) events

  module _ (proper : less config.max_rate_percent config.min_rate_percent ≡ false) where
    max-IsWithin : IsWithin config.max_rate_percent
    max-IsWithin = record { low = proper; high = less_self config.max_rate_percent }

    at_most-IsWithin :
        (r : Fraction) → IsWithin r → IsWithin (at_most config.max_rate_percent (raised r))
    at_most-IsWithin r h = elim (Bool-cases (less (raised r) config.max_rate_percent)) [
      | inl below ↦ rw below (record {
        low = less-raised r config.min_rate_percent h.low;
        high = less_asym (raised r) config.max_rate_percent below;
      })
      | inr above ↦ rw above max-IsWithin
    ]

    at_least-IsWithin :
        (r : Fraction) → IsWithin r → IsWithin (at_least config.min_rate_percent (eased r))
    at_least-IsWithin r h = elim (Bool-cases (less config.min_rate_percent (eased r))) [
      | inl above ↦ rw above (record {
        low = less_asym config.min_rate_percent (eased r) above;
        high = less-eased r config.max_rate_percent h.high;
      })
      | inr below ↦ rw below (record { low = less_self config.min_rate_percent; high = proper })
    ]

    next_rate-IsWithin :
        (s : AdaptiveSampler) (elapsed : ℕ)
        → IsWithin s.rate_percent
        → IsWithin (next_rate second config s elapsed)
    next_rate-IsWithin s elapsed h =
        elim (Bool-cases
          (less (actual_rate second config s elapsed) config.target_samples_per_second)) [
            | inl few ↦ rw few (at_most-IsWithin s.rate_percent h)
            | inr enough ↦
                elim (Bool-cases (
                  less (tolerated config.target_samples_per_second)
                    (actual_rate second config s elapsed))) [
                      | inl many ↦ rw enough (rw many (at_least-IsWithin s.rate_percent h))
                      | inr fine ↦ rw enough (rw fine h)
                    ]
          ]

    maybe_adjust-IsWithin :
        (s : AdaptiveSampler) (now : ℕ)
        → IsWithin s.rate_percent
        → IsWithin (maybe_adjust second config s now).rate_percent
    unfolding maybe_adjust
    maybe_adjust-IsWithin s now h =
        elim (Bool-cases (ltb (now - s.window_start) config.adjustment_interval)) [
          | inl early ↦ rw early h
          | inr due ↦ rw due (next_rate-IsWithin s (now - s.window_start) h)
        ]

    should_sample-IsWithin :
        (s : AdaptiveSampler) (draw : Fraction) (now : ℕ)
        → IsWithin s.rate_percent
        → IsWithin (should_sample second config s draw now).0.rate_percent
    unfolding should_sample
    should_sample-IsWithin s draw now h =
        let counted : AdaptiveSampler = record s {
          total_requests = s.total_requests + 1;
          window_requests = s.window_requests + 1;
        } in
        let a = maybe_adjust second config counted now in
        let within = maybe_adjust-IsWithin counted now h in
        elim (Bool-cases (ltb now a.escalated_until || less draw a.rate_percent)) [
          | inl taken ↦ rw taken within
          | inr skipped ↦ rw skipped within
        ]

    record_outcome-IsWithin :
        (s : AdaptiveSampler) (status_code duration now : ℕ)
        → IsWithin s.rate_percent
        → IsWithin (record_outcome second config s status_code duration now).rate_percent
    unfolding record_outcome escalate
    record_outcome-IsWithin s status_code duration now h =
        elim (Bool-cases (is_bad second config status_code duration)) [
          | inl bad ↦ rw bad max-IsWithin
          | inr good ↦ rw good h
        ]

    after_all-IsWithin :
        (s : AdaptiveSampler) (events : List Event)
        → IsWithin s.rate_percent
        → IsWithin (after_all s events).rate_percent
    after_all-IsWithin s [] h = h
    after_all-IsWithin s (begins draw now ∷ events) h =
        after_all-IsWithin (should_sample second config s draw now).0 events
          (should_sample-IsWithin s draw now h)
    after_all-IsWithin s (ends status_code duration now ∷ events) h =
        after_all-IsWithin (record_outcome second config s status_code duration now) events
          (record_outcome-IsWithin s status_code duration now h)

    -- If the least rate is not above the greatest, the rate of a sampler stays between them, whatever requests
    -- begin and end, at whatever times.
    after_all-init-IsWithin :
        (now : ℕ) (events : List Event) → IsWithin (after_all (init config now) events).rate_percent
    after_all-init-IsWithin now events = after_all-IsWithin (init config now) events max-IsWithin
