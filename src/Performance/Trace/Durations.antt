-- ===== src/Performance/Trace/Durations.antt =====
-- How the durations of the nodes of a trace add up: core/performance/trace.py.
use salesinfo_api_v.Base.{
  ℕ, suc, ◌+◌, ◌-◌, ◌≤◌, ◌≡◌, refl, arith, ltb, true, false, List, [], ◌∷◌, Option, none, some,
  length, inl, inr, Bool-cases, subst,
}
use salesinfo_api_v.Performance.Trace.{
  TraceNode, node, Children, no_children, child, OpenNode, Trace, duration_ns, child_duration,
  add_child, is_finished, start, attach, finish_current, finish,
}

unfoldable mutual
  -- The exclusive durations of a node and of all nodes below it.
  pub total_exclusive : {A : Type 0} → TraceNode A → ℕ
  total_exclusive (node label started_ns finished_ns below) =
      finished_ns - started_ns - child_duration below + total_children below

  pub total_children : {A : Type 0} → Children A → ℕ
  total_children no_children = 0
  total_children (child t siblings) = total_exclusive t + total_children siblings

unfoldable mutual
  -- The children of each node fit into its own duration.
  pub IsNested : {A : Type 0} → TraceNode A → Type 0
  IsNested (node label started_ns finished_ns below) =
      (started_ns + child_duration below ≤ finished_ns) × AreNested below

  pub AreNested : {A : Type 0} → Children A → Type 0
  AreNested no_children = Unit
  AreNested (child t siblings) = IsNested t × AreNested siblings

mutual
  unfolding total_exclusive IsNested

  pub total_exclusive_lem :
      {A : Type 0} → (t : TraceNode A) → IsNested t → total_exclusive t ≡ duration_ns t
  total_exclusive_lem (node label started_ns finished_ns below) h =
      omega (arith, h.0, total_children_lem below h.1)

  total_children_lem :
      {A : Type 0} → (c : Children A) → AreNested c → total_children c ≡ child_duration c
  total_children_lem no_children h = refl
  total_children_lem (child t siblings) h =
      omega (arith, total_exclusive_lem t h.0, total_children_lem siblings h.1)

module _ {A : Type 0} where
  child_duration-add_child :
      (c : Children A) (t : TraceNode A)
      → child_duration (add_child c t) ≡ child_duration c + duration_ns t
  child_duration-add_child no_children t = omega arith
  child_duration-add_child (child s siblings) t = omega (arith, child_duration-add_child siblings t)

  add_child-AreNested :
      (c : Children A) (t : TraceNode A) → AreNested c → IsNested t → AreNested (add_child c t)
  unfolding IsNested
  add_child-AreNested no_children t a h = (h, tt)
  add_child-AreNested (child s siblings) t a h = (a.0, add_child-AreNested siblings t a.1 h)

  -- At the time `now`: each unfinished node has room for its finished children before its active child
  -- started, or before now.
  abbrev AreTimed : ℕ → List (OpenNode A) → Type 0
  AreTimed now [] = Unit
  AreTimed now (o ∷ ancestors) =
      (o.started_ns + child_duration o.children ≤ now)
      × AreNested o.children
      × AreTimed o.started_ns ancestors

  -- The root is finished exactly when no node is unfinished.
  abbrev IsRoot : Option (TraceNode A) → List (OpenNode A) → Type 0
  IsRoot none [] = Unit
  IsRoot none (o ∷ ancestors) = Unit
  IsRoot (some t) [] = IsNested t
  IsRoot (some t) (o ∷ ancestors) = ⊥

  pub record IsTimed (now : ℕ) (t : Trace A) : Type 0 where
    pub timed : AreTimed now t.unfinished
    pub rooted : IsRoot t.root t.unfinished

  later : (a b : ℕ) (os : List (OpenNode A)) → a ≤ b → AreTimed a os → AreTimed b os
  later a b [] le h = tt
  later a b (o ∷ ancestors) le h = (omega (arith, h.0, le), h.1, h.2)

  pub IsTimed-later : (a b : ℕ) (t : Trace A) → a ≤ b → IsTimed a t → IsTimed b t
  IsTimed-later a b t le h = record { timed = later a b t.unfinished le h.timed; rooted = h.rooted }

  -- The root of a trace without unfinished nodes.
  pub IsNested-root :
      (t : Trace A) (root : TraceNode A) (now : ℕ)
      → t.root ≡ some root
      → t.unfinished ≡ []
      → IsTimed now t
      → IsNested root
  IsNested-root t root now e idle h =
      subst (IsRoot (some root)) idle (subst (λ r. IsRoot r t.unfinished) e h.rooted)

  push-IsRoot :
      (root : Option (TraceNode A)) (o : OpenNode A) (os : List (OpenNode A))
      → is_finished root os ≡ false
      → IsRoot root os
      → IsRoot root (o ∷ os)
  push-IsRoot none o os e h = tt
  push-IsRoot (some t) o [] e h = absurd (ground (arith, e))
  push-IsRoot (some t) o (p ∷ os) e h = h

  pub start-IsTimed :
      (t : Trace A) (label : A) (before now : ℕ)
      → before ≤ now
      → IsTimed before t
      → IsTimed now (start t label now).0
  unfolding start IsNested
  start-IsTimed t label before now le h = elim (Bool-cases (is_finished t.root t.unfinished)) [
    | inl over ↦
        rw over (record { timed = later before now t.unfinished le h.timed; rooted = h.rooted })
    | inr active ↦ rw active (record {
      timed = (omega arith, tt, later before now t.unfinished le h.timed);
      rooted = push-IsRoot t.root _ t.unfinished active h.rooted;
    })
  ]

  attach-IsTimed :
      (root : Option (TraceNode A)) (o : OpenNode A) (os : List (OpenNode A)) (now : ℕ)
      → AreTimed now (o ∷ os)
      → IsRoot root (o ∷ os)
      → IsTimed now (attach root (node o.label o.started_ns now o.children) os)
  unfolding IsNested
  attach-IsTimed root o [] now h r = record { timed = tt; rooted = (h.0, h.1) }
  attach-IsTimed none o (p ∷ os) now h r = record {
    timed = (
      omega (
        arith,
        h.0,
        h.2.0,
        child_duration-add_child p.children (node o.label o.started_ns now o.children),
      ),
      add_child-AreNested p.children (node o.label o.started_ns now o.children) h.2.1 (h.0, h.1),
      h.2.2,
    );
    rooted = tt;
  }
  attach-IsTimed (some t) o (p ∷ os) now h r = absurd r

  length-attach :
      (root : Option (TraceNode A)) (t : TraceNode A) (os : List (OpenNode A))
      → length (attach root t os).unfinished ≡ length os
  length-attach root t [] = refl
  length-attach root t (p ∷ os) = refl

  finish_current-IsTimed :
      (root : Option (TraceNode A)) (os : List (OpenNode A)) (now : ℕ)
      → AreTimed now os
      → IsRoot root os
      → IsTimed now (finish_current root os now).0
  unfolding finish_current
  finish_current-IsTimed root [] now h r = record { timed = h; rooted = r }
  finish_current-IsTimed root (o ∷ os) now h r = elim (Bool-cases (ltb now o.started_ns)) [
    | inl early ↦ absurd (ground (arith, early, h.0))
    | inr fine ↦ rw fine (attach-IsTimed root o os now h r)
  ]

  finish_current_ends :
      (root : Option (TraceNode A)) (o : OpenNode A) (os : List (OpenNode A)) (now : ℕ)
      → AreTimed now (o ∷ os)
      → ((finish_current root (o ∷ os) now).1 ≡ true)
        × (length (finish_current root (o ∷ os) now).0.unfinished ≡ length os)
  unfolding finish_current
  finish_current_ends root o os now h = elim (Bool-cases (ltb now o.started_ns)) [
    | inl early ↦ absurd (ground (arith, early, h.0))
    | inr fine ↦ rw fine (refl, length-attach root (node o.label o.started_ns now o.children) os)
  ]

  pub finish-IsTimed :
      (t : Trace A) (before now : ℕ)
      → before ≤ now
      → IsTimed before t
      → IsTimed now (finish t now).0
  unfolding finish
  finish-IsTimed t before now le h =
      finish_current-IsTimed t.root t.unfinished now (later before now t.unfinished le h.timed)
        h.rooted

  pub finish_ends :
      (t : Trace A) (n before now : ℕ)
      → before ≤ now
      → IsTimed before t
      → length t.unfinished ≡ suc n
      → ((finish t now).1 ≡ true) × (length (finish t now).0.unfinished ≡ n)
  unfolding finish
  finish_ends t n before now le h e = go t.unfinished e (later before now t.unfinished le h.timed)
    where
      go :
          (os : List (OpenNode A))
          → length os ≡ suc n
          → AreTimed now os
          → ((finish_current t.root os now).1 ≡ true)
            × (length (finish_current t.root os now).0.unfinished ≡ n)
      go [] q a = absurd (omega (arith, q))
      go (o ∷ os) q a =
          let (ok, fewer) = finish_current_ends t.root o os now a in (ok, omega (arith, fewer, q))
