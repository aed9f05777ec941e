-- ===== src/Lifecycle/Order.antt =====
-- Which steps are started and stopped, and in which order.
use mathlib.Core.List.{reverse, reverse-cons}
use salesinfo_api_v.Base.{
  ◌≡◌, refl, ap, Bool, true, false, arith, List, [], ◌∷◌, ◌++◌, map, Option, String, ◌⊎◌, inl, inr,
  Option-cases, Bool-cases, if◌then◌else◌, All, All-append, append_assoc, append-nil, sym, ◌∙◌,
}
use salesinfo_api_v.Lifecycle.{
  ApplicationLifespan, cleared, Event, starts, stops, Outcome, register_all, start_all, start,
  stop_all, stop, lifespan_context,
}

module _ {S V : Type 0} (startup : S → Option (List (String × V))) (shutdown : S → Bool) where
  -- How a startup of the steps `ss` ends: the steps `done` are started, in order, and each was
  -- called; either they are all, or the next one was called and raised, and no later one was
  -- called.
  pub record Started (l : ApplicationLifespan S V) (ss : List S) (o : Outcome startup shutdown)
      : Type 0 where
    pub done : List S
    pub rest : List S
    pub split : ss ≡ done ++ rest
    pub started : o.0.started_steps ≡ l.started_steps ++ done
    pub called :
        ((o.2 ≡ true) × (rest ≡ []) × (o.1 ≡ map starts done))
        ⊎ ((o.2 ≡ false)
            × (s : S) × (later : List S) × (rest ≡ s ∷ later)
            × (o.1 ≡ map starts done ++ starts s ∷ []))

  extend :
      (l m : ApplicationLifespan S V) (s : S) (ss : List S) (o : Outcome startup shutdown)
      → m.started_steps ≡ l.started_steps ++ s ∷ []
      → Started m ss o
      → Started l (s ∷ ss) (o.0, starts s ∷ o.1, o.2)
  extend l m s ss o e t = record {
    done = s ∷ t.done;
    rest = t.rest;
    split = ap (◌∷◌ s) t.split;
    started = t.started ∙ rw e (append_assoc l.started_steps (s ∷ []) t.done);
    called = elim t.called [
      | inl (ok, none_left, calls) ↦ inl (ok, none_left, ap (◌∷◌ (starts s)) calls)
      | inr (raised, x, later, e', calls) ↦ inr (raised, x, later, e', ap (◌∷◌ (starts s)) calls)
    ];
  }

  pub start_all-Started :
      (l : ApplicationLifespan S V) (ss : List S) → Started l ss (start_all startup shutdown l ss)
  unfolding start_all
  start_all-Started l [] = record {
    done = [];
    rest = [];
    split = refl;
    started = sym (append-nil l.started_steps);
    called = inl (refl, refl, refl);
  }
  start_all-Started l (s ∷ ss) = elim (Option-cases (startup s)) [
    | inl raised ↦
        rw (raised, start_all)
          (record {
            done = [];
            rest = s ∷ ss;
            split = refl;
            started = sym (append-nil l.started_steps);
            called = inr (refl, s, ss, refl, refl);
          })
    | inr (rs, ok) ↦ elim (Bool-cases (register_all l.container rs).1) [
      | inl kept ↦
          let m = record l {
            container = (register_all l.container rs).0;
            started_steps = l.started_steps ++ s ∷ [];
          } in
          rw (ok, start_all, kept)
            (extend l m s ss (start_all startup shutdown m ss) refl (start_all-Started m ss))
      | inr refused ↦
          rw (ok, start_all, refused)
            (record {
              done = [];
              rest = s ∷ ss;
              split = refl;
              started = sym (append-nil l.started_steps);
              called = inr (refl, s, ss, refl, refl);
            })
    ]
  ]

  stop_all_lem :
      (ss : List S)
      → All (λ s. shutdown s ≡ true) ss
      → stop_all startup shutdown ss ≡ (map stops ss, true)
  unfolding stop_all
  stop_all_lem [] h = refl
  stop_all_lem (s ∷ ss) h = ground (arith, h.0, stop_all_lem ss h.1)

  stop_all_raised :
      (after earlier : List S) (s : S)
      → All (λ x. shutdown x ≡ true) after
      → shutdown s ≡ false
      → stop_all startup shutdown (after ++ s ∷ earlier) ≡ (map stops after ++ stops s ∷ [], false)
  unfolding stop_all
  stop_all_raised [] earlier s ok raises = rw raises
  stop_all_raised (x ∷ xs) earlier s ok raises =
      ground (arith, ok.0, stop_all_raised xs earlier s ok.1 raises)

  stop_from :
      (l : ApplicationLifespan S V) (events : List (Event S)) (ok : Bool)
      → stop_all startup shutdown (reverse l.started_steps) ≡ (events, ok)
      → stop startup shutdown l
        ≡ ((if ok then record l { started_steps = []; container = cleared } else l), events, ok)
  unfolding stop
  stop_from l events true q = ground (arith, q)
  stop_from l events false q = ground (arith, q)

  All-reverse {κ} : (P : S → Type κ) (ss : List S) → All P ss → All P (reverse ss)
  All-reverse P [] h = tt
  All-reverse P (s ∷ ss) h =
      rw (reverse-cons s ss) (All-append P (reverse ss) (s ∷ []) (All-reverse P ss h.1) (h.0, tt))

  -- A startup that returns has started every step, in order.
  completed :
      (l : ApplicationLifespan S V)
      → (start startup shutdown l).2 ≡ true
      → ((start startup shutdown l).0.started_steps ≡ l.started_steps ++ l.steps)
        × ((start startup shutdown l).1 ≡ map starts l.steps)
  unfolding start
  completed l ok =
      let t = start_all-Started l l.steps in
      elim t.called [
        | inl (_, none_left, calls) ↦
            let all : l.steps ≡ t.done = t.split ∙ rw none_left (append-nil t.done) in
            (t.started ∙ ap (◌++◌ l.started_steps) (sym all), calls ∙ ap (map starts) (sym all))
        | inr (raised, _, _, _, _) ↦ absurd (ground arith)
      ]

  -- If startup completes on a manager that has started nothing, the context has called every step's startup
  -- in order. If the serving phase returns and no step raises on shutdown, it then calls every step's
  -- shutdown in reverse order, and ends with nothing started and an empty container. If the serving phase
  -- raises or is cancelled, no step's shutdown is called, and every step stays started.
  pub lifespan_context_lem :
      (l : ApplicationLifespan S V)
      → l.started_steps ≡ []
      → (start startup shutdown l).2 ≡ true
      → All (λ s. shutdown s ≡ true) l.steps
      → (((lifespan_context startup shutdown true l).1
            ≡ map starts l.steps ++ map stops (reverse l.steps))
          × ((lifespan_context startup shutdown true l).2 ≡ true)
          × ((lifespan_context startup shutdown true l).0.started_steps ≡ [])
          × ((lifespan_context startup shutdown true l).0.container ≡ cleared))
        × (((lifespan_context startup shutdown false l).1 ≡ map starts l.steps)
            × ((lifespan_context startup shutdown false l).2 ≡ false)
            × ((lifespan_context startup shutdown false l).0.started_steps ≡ l.steps))
  unfolding lifespan_context
  lifespan_context_lem l e ok h =
      let (started, calls) = completed l ok in
      let all : (start startup shutdown l).0.started_steps ≡ l.steps =
        started ∙ ap (λ d. d ++ l.steps) e in
      let stopped =
        stop_all_lem (reverse l.steps) (All-reverse (λ s. shutdown s ≡ true) l.steps h) in
      let ended =
        stop_from (start startup shutdown l).0 (map stops (reverse l.steps)) true
          (rw all stopped) in
      (
        rw (ok, lifespan_context) (rw (ended, calls) (refl, refl, refl, refl)),
        rw (ok, lifespan_context) (calls, refl, all),
      )

  -- A startup that raises, in a step or in the registration of its objects, ends the context at
  -- once: the steps before it stay started, in order, and no step's shutdown is called.
  pub lifespan_context_raised :
      (serves : Bool) (l : ApplicationLifespan S V)
      → (start startup shutdown l).2 ≡ false
      → (done : List S) × (s : S) × (later : List S) × (l.steps ≡ done ++ s ∷ later)
        × ((lifespan_context startup shutdown serves l).0.started_steps ≡ l.started_steps ++ done)
        × ((lifespan_context startup shutdown serves l).1 ≡ map starts done ++ starts s ∷ [])
        × ((lifespan_context startup shutdown serves l).2 ≡ false)
  unfolding lifespan_context start
  lifespan_context_raised serves l raised =
      let t = start_all-Started l l.steps in
      elim t.called [
        | inl (ok, _, _) ↦ absurd (ground arith)
        | inr (_, s, later, next, calls) ↦ (
          t.done,
          s,
          later,
          t.split ∙ ap (◌++◌ t.done) next,
          rw (raised, lifespan_context) t.started,
          rw (raised, lifespan_context) calls,
          rw (raised, lifespan_context) raised,
        )
      ]

  -- A step that raises on shutdown ends it: the steps that were started before it are not stopped,
  -- and the manager still counts every step as started.
  stop_raised :
      (l : ApplicationLifespan S V) (after earlier : List S) (s : S)
      → reverse l.started_steps ≡ after ++ s ∷ earlier
      → All (λ x. shutdown x ≡ true) after
      → shutdown s ≡ false
      → stop startup shutdown l ≡ (l, map stops after ++ stops s ∷ [], false)
  stop_raised l after earlier s e ok raises =
      stop_from l (map stops after ++ stops s ∷ []) false
        (rw e (stop_all_raised after earlier s ok raises))
