-- ===== src/Lifecycle.antt =====
-- core/app/lifecycle/manager.py and core/app/container.py: the steps of startup and shutdown. What
-- a step itself does is a parameter: `startup s` is the objects that it reports or `none` if it
-- raises, `shutdown s` is `false` if it raises. The synchronous and the asynchronous methods make
-- the same calls in the same order.
pub mod Order
use text.Mathlib.Text.{◌==◌ as str_eq}
use salesinfo_api_v.Base.{
  Bool, true, false, if◌then◌else◌, List, [], ◌∷◌, ◌++◌, map, Option, none, some, String,
}
use mathlib.Core.List.{reverse}

pub record Container (V : Type 0) : Type 0 where
  pub db_session : Option V
  pub application_state : Option V
  pub application_services : Option V
  pub performance_registry : Option V

abbrev pub cleared : {V : Type 0} → Container V
cleared = record {
  db_session = none;
  application_state = none;
  application_services = none;
  performance_registry = none;
}

-- `none` is the AttributeError of a name that is no field.
unfoldable pub register : {V : Type 0} → Container V → String → V → Option (Container V)
register c name service =
    if str_eq name "db_session"
    then some (record c { db_session = some service })
    else if str_eq name "application_state"
    then some (record c { application_state = some service })
    else if str_eq name "application_services"
    then some (record c { application_services = some service })
    else if str_eq name "performance_registry"
    then some (record c { performance_registry = some service })
    else none

-- `_register`: what was registered before a name is refused stays. `false` if it raises.
unfoldable pub register_all : {V : Type 0} → Container V → List (String × V) → Container V × Bool
register_all c [] = (c, true)
register_all c ((name, service) ∷ rest) = elim (register c name service) [
  | none ↦ (c, false)
  | some d ↦ register_all d rest
]

pub record ApplicationLifespan (S V : Type 0) : Type 0 where
  pub steps : List S
  pub started_steps : List S
  pub container : Container V

-- The calls that the manager makes.
pub data Event (S : Type 0) : Type 0 where
  starts stops : S → Event S

module _ {S V : Type 0} (startup : S → Option (List (String × V))) (shutdown : S → Bool) where
  -- The state, the calls made, and whether the method returned.
  abbrev pub Outcome : Type 0
  Outcome = ApplicationLifespan S V × List (Event S) × Bool

  abbrev after_call : Event S → Outcome → Outcome
  after_call e o = (o.0, e ∷ o.1, o.2)

  unfoldable pub start_all : ApplicationLifespan S V → List S → Outcome
  start_all l [] = (l, [], true)
  start_all l (s ∷ rest) = elim (startup s) [
    | none ↦ (l, starts s ∷ [], false)
    | some registrations ↦
        let r = register_all l.container registrations in
        elim r.1 [
          | true ↦ after_call (starts s) (
              start_all (record l { container = r.0; started_steps = l.started_steps ++ s ∷ [] })
                rest)
          | false ↦ (record l { container = r.0 }, starts s ∷ [], false)
        ]
  ]

  -- `startup_sync` and `startup_async`.
  unfoldable pub start : ApplicationLifespan S V → Outcome
  start l = start_all l l.steps

  unfoldable pub stop_all : List S → List (Event S) × Bool
  stop_all [] = ([], true)
  stop_all (s ∷ rest) = elim (shutdown s) [
    | true ↦ let r = stop_all rest in (stops s ∷ r.0, r.1)
    | false ↦ (stops s ∷ [], false)
  ]

  -- `shutdown_sync` and `shutdown_async`.
  unfoldable pub stop : ApplicationLifespan S V → Outcome
  stop l =
      let r = stop_all (reverse l.started_steps) in
      elim r.1 [
        | true ↦ (record l { started_steps = []; container = cleared }, r.0, true)
        | false ↦ (l, r.0, false)
      ]

  -- `lifespan_context`: the serving phase, the body at `yield`, stands between the two. It is skipped if
  -- startup raises, and `serves` is `false` if it raises or is cancelled itself.
  unfoldable pub lifespan_context : Bool → ApplicationLifespan S V → Outcome
  lifespan_context serves l =
      let up = start l in
      let down = stop up.0 in
      elim up.2 [
        | true ↦ if serves then (down.0, up.1 ++ down.1, down.2) else (up.0, up.1, false)
        | false ↦ up
      ]
