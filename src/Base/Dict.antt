-- ===== src/Base/Dict.antt =====
-- Python's insertion-ordered dictionary as an association list over keys with decidable equality:
-- `d.get(k)`, `d[k] = v`, `del d[k]`. An assignment to a key that is present keeps its place.
use Prim.Native.Nat.{◌+◌, ◌≤◌}
use mathlib.Core.Path.{◌≡◌, refl, sym}
use mathlib.Core.Logic.{◌≢◌, ite}
use mathlib.Core.Option.{Option, none, some}
use mathlib.Core.List.{List, [], ◌∷◌, ◌++◌, map}
use native.Mathlib.Omega.{arith}
use salesinfo_api_v.Base.Lists.{length}

module _ {ℓ} {K V : Type ℓ} where
  abbrev pub keys : List (K × V) → List K
  keys d = map (λ binding. binding.0) d

  -- The keys that differ from `k`, one by one.
  abbrev pub Absent : K → List (K × V) → Type ℓ
  Absent k [] = Unit
  Absent k (e ∷ d) = (e.0 ≢ k) × Absent k d

  -- No key stands twice.
  abbrev pub IsDict : List (K × V) → Type ℓ
  IsDict [] = Unit
  IsDict (e ∷ d) = Absent e.0 d × IsDict d

module _ {ℓ} {K V : Type ℓ} (dec : Discrete K) where
  unfoldable pub lookup : K → List (K × V) → Option V
  lookup k [] = none
  lookup k (e ∷ d) = ite (dec e.0 k) (some e.1) (lookup k d)

  unfoldable pub assign : K → V → List (K × V) → List (K × V)
  assign k v [] = (k, v) ∷ []
  assign k v (e ∷ d) = ite (dec e.0 k) ((k, v) ∷ d) (e ∷ assign k v d)

  unfoldable pub delete : K → List (K × V) → List (K × V)
  delete k [] = []
  delete k (e ∷ d) = ite (dec e.0 k) d (e ∷ delete k d)

  pub lookup-assign :
      (k j : K) (v : V) (d : List (K × V))
      → lookup j (assign k v d) ≡ ite (dec k j) (some v) (lookup j d)
  unfolding lookup assign
  lookup-assign k j v [] = refl
  lookup-assign k j v (e ∷ d) = ground (arith, lookup-assign k j v d)

  pub lookup-delete_ne : (k j : K) (d : List (K × V)) → k ≢ j → lookup j (delete k d) ≡ lookup j d
  unfolding lookup delete
  lookup-delete_ne k j [] h = refl
  lookup-delete_ne k j (e ∷ d) h = ground (arith, lookup-delete_ne k j d)

  pub lookup_of_Absent : (k : K) (d : List (K × V)) → Absent k d → lookup k d ≡ none
  unfolding lookup
  lookup_of_Absent k [] h = refl
  lookup_of_Absent k (e ∷ d) h = ground (arith, lookup_of_Absent k d h.1)

  pub Absent-lookup : (k : K) (d : List (K × V)) → lookup k d ≡ none → Absent k d
  unfolding lookup
  Absent-lookup k [] h = tt
  Absent-lookup k (e ∷ d) h = ground (arith, Absent-lookup k d)

  pub Absent-delete_self : (k : K) (d : List (K × V)) → IsDict d → Absent k (delete k d)
  unfolding delete
  Absent-delete_self k [] h = tt
  Absent-delete_self k (e ∷ d) h = ground (arith, Absent-delete_self k d h.1)

  pub Absent-delete : (k j : K) (d : List (K × V)) → Absent j d → Absent j (delete k d)
  unfolding delete
  Absent-delete k j [] h = tt
  Absent-delete k j (e ∷ d) h = ground (arith, Absent-delete k j d h.1)

  pub Absent-assign :
      (k j : K) (v : V) (d : List (K × V)) → k ≢ j → Absent j d → Absent j (assign k v d)
  unfolding assign
  Absent-assign k j v [] n h = (n, tt)
  Absent-assign k j v (e ∷ d) n h = ground (arith, Absent-assign k j v d n h.1)

  pub delete-IsDict : (k : K) (d : List (K × V)) → IsDict d → IsDict (delete k d)
  unfolding delete
  delete-IsDict k [] h = tt
  delete-IsDict k (e ∷ d) h = ground (arith, Absent-delete k e.0 d h.0, delete-IsDict k d h.1)

  pub assign-IsDict : (k : K) (v : V) (d : List (K × V)) → IsDict d → IsDict (assign k v d)
  unfolding assign
  assign-IsDict k v [] h = (tt, tt)
  assign-IsDict k v (e ∷ d) h = ground (arith, Absent-assign k e.0 v d, assign-IsDict k v d h.1)

  pub length-delete :
      (k : K) (d : List (K × V)) (v : V) → lookup k d ≡ some v → length (delete k d) + 1 ≡ length d
  unfolding lookup delete
  length-delete k [] v h = cc
  length-delete k (e ∷ d) v h = ground (arith, length-delete k d v)

  pub length-delete-le : (k : K) (d : List (K × V)) → length (delete k d) ≤ length d
  unfolding delete
  length-delete-le k [] = omega arith
  length-delete-le k (e ∷ d) = ground (arith, length-delete-le k d)

  pub length-assign_new :
      (k : K) (v : V) (d : List (K × V)) → lookup k d ≡ none → length (assign k v d) ≡ length d + 1
  unfolding lookup assign
  length-assign_new k v [] h = omega arith
  length-assign_new k v (e ∷ d) h = ground (arith, length-assign_new k v d)

  pub length-assign_old :
      (k : K) (v w : V) (d : List (K × V)) → lookup k d ≡ some w → length (assign k v d) ≡ length d
  unfolding lookup assign
  length-assign_old k v w [] h = cc
  length-assign_old k v w (e ∷ d) h = ground (arith, length-assign_old k v w d)

  pub assign_new :
      (k : K) (v : V) (d : List (K × V)) → lookup k d ≡ none → assign k v d ≡ d ++ (k, v) ∷ []
  unfolding lookup assign
  assign_new k v [] h = refl
  assign_new k v (e ∷ d) h = ground (arith, assign_new k v d)

  pub lookup-append :
      (k : K) (d f : List (K × V))
      → lookup k (d ++ f) ≡ elim (lookup k d) [ none ↦ lookup k f | some v ↦ some v ]
  unfolding lookup
  lookup-append k [] f = refl
  lookup-append k (e ∷ d) f = ground (arith, lookup-append k d f)

  -- An entry that is taken out and put last hides nothing but what stood under its key.
  pub lookup-move_last :
      (k j : K) (v : V) (d : List (K × V))
      → IsDict d
      → lookup j (delete k d ++ (k, v) ∷ []) ≡ ite (dec k j) (some v) (lookup j d)
  unfolding lookup delete
  lookup-move_last k j v [] h = refl
  lookup-move_last k j v (e ∷ d) h = ground (
    arith,
    lookup-append j d ((k, v) ∷ []),
    lookup_of_Absent e.0 d h.0,
    lookup-move_last k j v d h.1,
  )

module _ {ℓ} {K V : Type ℓ} where
  Absent-append : (k : K) (d f : List (K × V)) → Absent k d → Absent k f → Absent k (d ++ f)
  Absent-append k [] f a b = b
  Absent-append k (e ∷ d) f a b = (a.0, Absent-append k d f a.1 b)

  pub IsDict-append_new :
      (k : K) (v : V) (d : List (K × V)) → Absent k d → IsDict d → IsDict (d ++ (k, v) ∷ [])
  IsDict-append_new k v [] a h = (tt, tt)
  IsDict-append_new k v (e ∷ d) a h = (
    Absent-append e.0 d ((k, v) ∷ []) h.0 ((λ p. a.0 (sym p)), tt),
    IsDict-append_new k v d a.1 h.1,
  )
