-- ===== src/Pool/Async/Line.antt =====
-- The line of waiting coroutines: events in the order in which they came, none of them twice.
use salesinfo_api_v.Base.{
  ℕ, ◌≢◌, sym, arith, List, [], ◌∷◌, ◌++◌, All, All-append, append_assoc, subst,
}
use salesinfo_api_v.Pool.Async.{removed}

abbrev pub IsLine : List ℕ → Type 0
IsLine [] = Unit
IsLine (x ∷ xs) = All (λ y. y ≢ x) xs × IsLine xs

pub append-IsLine : (e : ℕ) (xs : List ℕ) → All (λ y. y ≢ e) xs → IsLine xs → IsLine (xs ++ e ∷ [])
append-IsLine e [] n l = (tt, tt)
append-IsLine e (x ∷ xs) n l =
    (All-append _ xs (e ∷ []) l.0 ((λ q. n.0 (sym q)), tt), append-IsLine e xs n.1 l.1)

All-removed : (P : ℕ → Type 0) (e : ℕ) (xs : List ℕ) → All P xs → All P (removed e xs)
unfolding removed
All-removed P e [] a = tt
All-removed P e (x ∷ xs) a = ground (arith, a.0, a.1, All-removed P e xs a.1)

All-append_removed :
    (P : ℕ → Type 0) (e : ℕ) (xs ys : List ℕ) → All P (xs ++ ys) → All P (xs ++ removed e ys)
All-append_removed P e [] ys a = All-removed P e ys a
All-append_removed P e (x ∷ xs) ys a = (a.0, All-append_removed P e xs ys a.1)

removed-IsLine_self : (e : ℕ) (ys : List ℕ) → IsLine ys → IsLine (removed e ys)
unfolding removed
removed-IsLine_self e [] l = tt
removed-IsLine_self e (y ∷ ys) l =
    ground (arith, l.0, l.1, All-removed (λ z. z ≢ y) e ys l.0, removed-IsLine_self e ys l.1)

-- Who leaves the line leaves the others in order.
pub removed-IsLine : (e : ℕ) (xs ys : List ℕ) → IsLine (xs ++ ys) → IsLine (xs ++ removed e ys)
removed-IsLine e [] ys l = removed-IsLine_self e ys l
removed-IsLine e (x ∷ xs) ys l =
    (All-append_removed (λ y. y ≢ x) e xs ys l.0, removed-IsLine e xs ys l.1)

-- The first of the line steps forward.
pub wake-IsLine : (w : ℕ) (xs ws : List ℕ) → IsLine (xs ++ w ∷ ws) → IsLine ((xs ++ w ∷ []) ++ ws)
wake-IsLine w [] ws l = l
wake-IsLine w (x ∷ xs) ws l =
    (subst (All (λ y. y ≢ x)) (sym (append_assoc xs (w ∷ []) ws)) l.0, wake-IsLine w xs ws l.1)
