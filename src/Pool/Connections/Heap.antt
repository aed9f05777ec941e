-- ===== src/Pool/Connections/Heap.antt =====
-- The heap of idle connections: its order, and the connections that it holds.
use salesinfo_api_v.Base.{
  ◌+◌, ◌≡◌, ◌≢◌, sym, true, false, arith, List, [], ◌∷◌, length, All, inl, inr, Bool-cases,
}
use salesinfo_api_v.Pool.Connections.{Idle, before, heappush}

pub length-heappush : (e : Idle) (xs : List Idle) → length (heappush e xs) ≡ length xs + 1
unfolding heappush
length-heappush e [] = omega arith
length-heappush e (x ∷ xs) = ground (arith, length-heappush e xs)

pub All-heappush {κ} :
    (P : Idle → Type κ) (e : Idle) (xs : List Idle) → P e → All P xs → All P (heappush e xs)
unfolding heappush
All-heappush P e [] p a = (p, a)
All-heappush P e (x ∷ xs) p a = elim (Bool-cases (before e x)) [
  | inl first ↦ rw first (p, a)
  | inr later ↦ rw later (a.0, All-heappush P e xs p a.1)
]

-- No entry stands before an earlier one.
abbrev pub IsHeap : List Idle → Type 0
IsHeap [] = Unit {0}
IsHeap (x ∷ xs) = All (λ y. before y x ≡ false) xs × IsHeap xs

before_trans : (a b c : Idle) → before b a ≡ false → before c b ≡ false → before c a ≡ false
before_trans a b c p q = ground arith

before_asym : (a b : Idle) → before a b ≡ true → before b a ≡ false
before_asym a b p = ground arith

All-before :
    (a b : Idle) (xs : List Idle)
    → before b a ≡ false
    → All (λ y. before y b ≡ false) xs
    → All (λ y. before y a ≡ false) xs
All-before a b [] p h = tt
All-before a b (x ∷ xs) p h = (before_trans a b x p h.0, All-before a b xs p h.1)

pub heappush-IsHeap : (e : Idle) (xs : List Idle) → IsHeap xs → IsHeap (heappush e xs)
unfolding heappush
heappush-IsHeap e [] h = (tt, tt)
heappush-IsHeap e (x ∷ xs) h = elim (Bool-cases (before e x)) [
  | inl first ↦
      let after = before_asym e x first in rw first ((after, All-before e x xs after h.0), h)
  | inr later ↦
      rw later (All-heappush (λ y. before y x ≡ false) e xs later h.0, heappush-IsHeap e xs h.1)
]

-- No connection stands in two entries.
abbrev pub Distinct : List Idle → Type 0
Distinct [] = Unit {0}
Distinct (x ∷ xs) = All (λ y. y.conn ≢ x.conn) xs × Distinct xs

pub heappush-Distinct :
    (e : Idle) (xs : List Idle)
    → All (λ y. y.conn ≢ e.conn) xs
    → Distinct xs
    → Distinct (heappush e xs)
unfolding heappush
heappush-Distinct e [] a d = (tt, tt)
heappush-Distinct e (x ∷ xs) a d = elim (Bool-cases (before e x)) [
  | inl first ↦ rw first (a, d)
  | inr later ↦ rw later (
    All-heappush (λ y. y.conn ≢ x.conn) e xs (λ q. a.0 (sym q)) d.0,
    heappush-Distinct e xs a.1 d.1,
  )
]
