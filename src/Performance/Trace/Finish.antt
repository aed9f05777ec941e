-- ===== src/Performance/Trace/Finish.antt =====
-- `Trace.finish_all` of core/performance/trace.py ends.
use salesinfo_api_v.Base.{
  ℕ, zero, suc, ◌+◌, ◌≤◌, ◌≡◌, refl, arith, ltb, Bool, true, false, List, [], ◌∷◌, Option, none,
  some, length, inl, inr, Bool-cases, subst,
}
use salesinfo_api_v.Performance.Trace.{
  TraceNode, node, OpenNode, Trace, start, attach, is_finished, finish_current, finish, is_idle,
  finish_loop, finish_all,
}
use salesinfo_api_v.Performance.Trace.Durations.{
  IsTimed, IsTimed-later, finish-IsTimed, finish_ends,
}

-- The readings of the clock never go back.
abbrev pub IsClock : (ℕ → ℕ) → Type 0
IsClock clock = (i : ℕ) → clock i ≤ clock (i + 1)

module _ {A : Type 0} where
  -- A node was started.
  abbrev pub is_started : Option (TraceNode A) → List (OpenNode A) → Bool
  is_started none [] = false
  is_started none (o ∷ os) = true
  is_started (some t) os = true

  is_started-attach :
      (root : Option (TraceNode A)) (t : TraceNode A) (os : List (OpenNode A))
      → is_started (attach root t os).root (attach root t os).unfinished ≡ true
  is_started-attach root t [] = refl
  is_started-attach none t (p ∷ os) = refl
  is_started-attach (some r) t (p ∷ os) = refl

  is_started-push :
      (root : Option (TraceNode A)) (o : OpenNode A) (os : List (OpenNode A))
      → is_started root (o ∷ os) ≡ true
  is_started-push none o os = refl
  is_started-push (some t) o os = refl

  pub is_started-start :
      (t : Trace A) (label : A) (now : ℕ)
      → is_started t.root t.unfinished ≡ true
      → is_started (start t label now).0.root (start t label now).0.unfinished ≡ true
  unfolding start
  is_started-start t label now h = elim (Bool-cases (is_finished t.root t.unfinished)) [
    | inl over ↦ rw over h
    | inr active ↦ rw active (is_started-push t.root _ t.unfinished)
  ]

  pub is_started-finish :
      (t : Trace A) (now : ℕ)
      → is_started t.root t.unfinished ≡ true
      → is_started (finish t now).0.root (finish t now).0.unfinished ≡ true
  unfolding finish finish_current
  is_started-finish t now h = go t.root t.unfinished h
    where
      go :
          (root : Option (TraceNode A)) (os : List (OpenNode A))
          → is_started root os ≡ true
          → is_started (finish_current root os now).0.root (finish_current root os now).0.unfinished
            ≡ true
      go root [] e = e
      go root (o ∷ os) e = elim (Bool-cases (ltb now o.started_ns)) [
        | inl early ↦ rw early e
        | inr fine ↦ rw fine (is_started-attach root (node o.label o.started_ns now o.children) os)
      ]

  not_idle : (os : List (OpenNode A)) (n : ℕ) → length os ≡ suc n → is_idle os ≡ false
  not_idle [] n e = absurd (omega (arith, e))
  not_idle (o ∷ os) n e = refl

  -- What `finish_all` reaches.
  record IsClosed (t : Trace A) : Type 0 where
    idle : length t.unfinished ≡ 0
    started : is_started t.root t.unfinished ≡ true

  finish_loop_ends :
      (n : ℕ) (t : Trace A) (clock : ℕ → ℕ) (i : ℕ)
      → IsClock clock
      → IsTimed (clock i) t
      → length t.unfinished ≡ n
      → is_started t.root t.unfinished ≡ true
      → ((finish_loop n t clock i).1 ≡ true)
        × IsClosed (finish_loop n t clock i).0
        × IsTimed (clock (i + n)) (finish_loop n t clock i).0
  unfolding finish_loop
  finish_loop_ends zero t clock i mono h e s =
      let same : i ≡ i + 0 = omega arith in
      (refl, record { idle = e; started = s }, subst (λ j. IsTimed (clock j) t) same h)
  finish_loop_ends (suc n) t clock i mono h e s =
      let (ok, fewer) = finish_ends t n (clock i) (clock i) (omega arith) h e in
      let after = (finish t (clock i)).0 in
      let timed =
        IsTimed-later (clock i) (clock (i + 1)) after (mono i)
          (finish-IsTimed t (clock i) (clock i) (omega arith) h) in
      let (good, closed, end) =
        finish_loop_ends n after clock (i + 1) mono timed fewer (is_started-finish t (clock i) s) in
      let same : i + 1 + n ≡ i + suc n = omega arith in
      rw (not_idle t.unfinished n e) (
        rw ok (
          good,
          closed,
          subst (λ j. IsTimed (clock j) (finish_loop n after clock (i + 1)).0) same end,
        ))

  -- A trace that is closed has a root.
  closed_root :
      (root : Option (TraceNode A)) (os : List (OpenNode A))
      → length os ≡ 0
      → is_started root os ≡ true
      → (t : TraceNode A) × (root ≡ some t) × (os ≡ [])
  closed_root none [] e s = absurd (ground (arith, s))
  closed_root (some t) [] e s = (t, refl, refl)
  closed_root root (o ∷ os) e s = absurd (omega (arith, e))

  -- `finish_all` does not raise, and leaves a finished root.
  pub finish_all_ends :
      (t : Trace A) (clock : ℕ → ℕ) (i : ℕ)
      → IsClock clock
      → IsTimed (clock i) t
      → is_started t.root t.unfinished ≡ true
      → ((finish_all t clock i).1 ≡ true)
        × ((root : TraceNode A) × ((finish_all t clock i).0.root ≡ some root)
            × ((finish_all t clock i).0.unfinished ≡ []))
        × IsTimed (clock (i + length t.unfinished)) (finish_all t clock i).0
  unfolding finish_all
  finish_all_ends t clock i mono h s =
      let (ok, closed, timed) = finish_loop_ends (length t.unfinished) t clock i mono h refl s in
      (ok, closed_root _ _ closed.idle closed.started, timed)
