-- ===== src/Performance/Trace.antt =====
-- core/performance/trace.py, `Trace` and `TraceNode`. The nodes that are not finished are the active one and
-- its ancestors: they are a list, innermost first, and each has its finished children, oldest first. What
-- else a node has (name, stage, tags) is its label. Times are nanoseconds; each call reads the clock once.
pub mod Durations
pub mod Finish
use salesinfo_api_v.Base.{
  ℕ, zero, suc, length, ◌+◌, ◌-◌, ltb, Bool, true, false, if◌then◌else◌, List, [], ◌∷◌, Option,
  none, some,
}

mutual
  -- A finished node: label, started_ns, finished_ns, children.
  pub data TraceNode (A : Type 0) : Type 0 where
    node : A → (started_ns finished_ns : ℕ) → Children A → TraceNode A

  pub data Children (A : Type 0) : Type 0 where
    no_children : Children A
    child : TraceNode A → Children A → Children A

pub record OpenNode (A : Type 0) : Type 0 where
  pub label : A
  pub started_ns : ℕ
  pub children : Children A

-- `root`, once it is finished, and the unfinished nodes; `current` is the first of these.
pub record Trace (A : Type 0) : Type 0 where
  pub root : Option (TraceNode A)
  pub unfinished : List (OpenNode A)

abbrev pub init : {A : Type 0} → Trace A
init = record { root = none; unfinished = [] }

module _ {A : Type 0} where
  abbrev pub duration_ns : TraceNode A → ℕ
  duration_ns (node label started_ns finished_ns below) = finished_ns - started_ns

  -- `sum(child.duration_ns or 0 for child in self.children)`.
  abbrev pub child_duration : Children A → ℕ
  child_duration no_children = 0
  child_duration (child t siblings) = duration_ns t + child_duration siblings

  -- A subtraction stops at 0, as `max(0, ...)` does.
  abbrev pub exclusive_duration_ns : TraceNode A → ℕ
  exclusive_duration_ns (node label started_ns finished_ns below) =
      finished_ns - started_ns - child_duration below

  abbrev pub add_child : Children A → TraceNode A → Children A
  add_child no_children t = child t no_children
  add_child (child c siblings) t = child c (add_child siblings t)

  -- Whether the root is finished.
  abbrev pub is_finished : Option (TraceNode A) → List (OpenNode A) → Bool
  is_finished none unfinished = false
  is_finished (some t) [] = true
  is_finished (some t) (o ∷ ancestors) = false

  -- The trace, and false if the call raises, since the root is finished.
  unfoldable pub start : Trace A → A → ℕ → Trace A × Bool
  start t label now = if is_finished t.root t.unfinished then (t, false) else (
    record t {
      unfinished =
          record { label = label; started_ns = now; children = no_children } ∷ t.unfinished;
    },
    true,
  )

  -- A finished node becomes a child of its parent, or the root.
  abbrev pub attach : Option (TraceNode A) → TraceNode A → List (OpenNode A) → Trace A
  attach root t [] = record { root = some t; unfinished = [] }
  attach root t (parent ∷ ancestors) = record {
    root = root;
    unfinished = record parent { children = add_child parent.children t } ∷ ancestors;
  }

  -- The active node; false if there is none, or if the clock is before its start.
  unfoldable pub finish_current : Option (TraceNode A) → List (OpenNode A) → ℕ → Trace A × Bool
  finish_current root [] now = (record { root = root; unfinished = [] }, false)
  finish_current root (o ∷ ancestors) now =
      if ltb now o.started_ns
      then (record { root = root; unfinished = o ∷ ancestors }, false)
      else (attach root (node o.label o.started_ns now o.children) ancestors, true)

  unfoldable pub finish : Trace A → ℕ → Trace A × Bool
  finish t now = finish_current t.root t.unfinished now

  abbrev pub is_idle : List (OpenNode A) → Bool
  is_idle [] = true
  is_idle (o ∷ ancestors) = false

  -- The loop of `finish_all`; `clock i` is the next reading.
  unfoldable pub finish_loop : ℕ → Trace A → (ℕ → ℕ) → ℕ → Trace A × Bool
  finish_loop zero t clock i = (t, true)
  finish_loop (suc fuel) t clock i =
      let r = finish t (clock i) in
      let rest = finish_loop fuel r.0 clock (i + 1) in
      if is_idle t.unfinished then (t, true) else if r.1 then rest else (r.0, false)

  -- Each round finishes one node.
  unfoldable pub finish_all : Trace A → (ℕ → ℕ) → ℕ → Trace A × Bool
  finish_all t clock i = finish_loop (length t.unfinished) t clock i
