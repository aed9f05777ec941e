-- ===== src/Performance/AdaptiveSampler/Escalation.antt =====
-- What a bad outcome does to the sampling of core/performance/adaptive_sampler.py.
use salesinfo_api_v.Base.{
  ℕ, ◌+◌, ◌-◌, ◌≤◌, ◌<◌, ◌≡◌, refl, arith, ltb, Bool, true, List, [], ◌∷◌, All, inl, inr,
  Bool-cases,
}
use salesinfo_api_v.Performance.AdaptiveSampler.{
  Fraction, AdaptiveSamplerConfig, AdaptiveSampler, maybe_adjust, should_sample, escalate, is_bad,
  record_outcome,
}

-- What happens, each at a time: a request begins, with what the random number generator gives for it, or
-- ends with a status and a duration.
pub data Event : Type 0 where
  begins : Fraction → ℕ → Event
  ends : (status_code duration : ℕ) → ℕ → Event

abbrev time : Event → ℕ
time (begins draw now) = now
time (ends status_code duration now) = now

-- In the order of time, from one time to before another.
abbrev pub IsOrdered : ℕ → List Event → ℕ → Type 0
IsOrdered before [] end = before ≤ end
IsOrdered before (e ∷ events) end =
    (before ≤ time e) × (time e < end) × IsOrdered (time e) events end

module _ (second : ℕ) (config : AdaptiveSamplerConfig) where
  -- The answers of `should_sample`.
  unfoldable pub samples : AdaptiveSampler → List Event → List Bool
  samples s [] = []
  samples s (begins draw now ∷ events) =
      let r = should_sample second config s draw now in r.1 ∷ samples r.0 events
  samples s (ends status_code duration now ∷ events) =
      samples (record_outcome second config s status_code duration now) events

  maybe_adjust-until :
      (s : AdaptiveSampler) (now : ℕ)
      → (maybe_adjust second config s now).escalated_until ≡ s.escalated_until
  unfolding maybe_adjust
  maybe_adjust-until s now =
      elim (Bool-cases (ltb (now - s.window_start) config.adjustment_interval)) [
        | inl early ↦ rw early refl
        | inr due ↦ rw due refl
      ]

  should_sample_lem :
      (s : AdaptiveSampler) (draw : Fraction) (now : ℕ)
      → now < s.escalated_until
      → ((should_sample second config s draw now).1 ≡ true)
        × ((should_sample second config s draw now).0.escalated_until ≡ s.escalated_until)
  unfolding should_sample
  should_sample_lem s draw now lt =
      let counted : AdaptiveSampler = record s {
        total_requests = s.total_requests + 1;
        window_requests = s.window_requests + 1;
      } in
      let same = maybe_adjust-until counted now in
      let escalated : ltb now (maybe_adjust second config counted now).escalated_until ≡ true =
        ground (arith, same, lt) in
      rw escalated (refl, same)

  record_outcome_later :
      (s : AdaptiveSampler) (status_code duration now bound : ℕ)
      → bound ≤ s.escalated_until
      → bound ≤ now + config.escalation
      → bound ≤ (record_outcome second config s status_code duration now).escalated_until
  unfolding record_outcome escalate
  record_outcome_later s status_code duration now bound le later =
      elim (Bool-cases (is_bad second config status_code duration)) [
        | inl bad ↦ rw bad later
        | inr good ↦ rw good le
      ]

  escalated_samples :
      (s : AdaptiveSampler) (before at : ℕ) (events : List Event)
      → at ≤ before
      → at + config.escalation ≤ s.escalated_until
      → IsOrdered before events (at + config.escalation)
      → All (λ sampled. sampled ≡ true) (samples s events)
  unfolding samples
  escalated_samples s before at [] le until o = tt
  escalated_samples s before at (begins draw now ∷ events) le until o =
      let (sampled, same) = should_sample_lem s draw now (omega (arith, o.1, until)) in
      (
        sampled,
        escalated_samples (should_sample second config s draw now).0 now at events
            (omega (arith, le, o.0)) (omega (arith, same, until)) o.2,
      )
  escalated_samples s before at (ends status_code duration now ∷ events) le until o =
      escalated_samples (record_outcome second config s status_code duration now) now at events
        (omega (arith, le, o.0))
        (record_outcome_later s status_code duration now (at + config.escalation) until
          (omega (arith, le, o.0)))
        o.2

  -- After a request that ended with a server error or was slow, every request that begins within the
  -- escalation time is sampled, whatever the random numbers and whatever else happens meanwhile.
  pub samples-record_outcome :
      (s : AdaptiveSampler) (status_code duration at : ℕ) (events : List Event)
      → is_bad second config status_code duration ≡ true
      → IsOrdered at events (at + config.escalation)
      → All
          (λ sampled. sampled ≡ true)
          (samples (record_outcome second config s status_code duration at) events)
  unfolding record_outcome escalate
  samples-record_outcome s status_code duration at events bad o =
      escalated_samples (record_outcome second config s status_code duration at) at at events
        (omega arith) (rw bad (omega arith)) o
