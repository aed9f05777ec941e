-- ===== src/Pool/Slots.antt =====
-- The invariant that both pools keep: `_available`, `_in_use` and the sizer together.
use salesinfo_api_v.Base.{
  ℕ, suc, ◌+◌, ◌≤◌, ◌≡◌, ◌≢◌, sym, arith, List, [], ◌∷◌, Option, some, none, length, All, All-mono,
  ℕ_discrete,
}
use salesinfo_api_v.Base.Dict.{
  lookup, assign, delete, Absent, IsDict, delete-IsDict, assign-IsDict, length-delete,
  length-delete-le, length-assign_new, lookup_of_Absent, Absent-delete, Absent-delete_self,
  Absent-assign,
}
use salesinfo_api_v.Pool.Adaptive.{AdaptiveSizer, IsSized}
use salesinfo_api_v.Pool.Connections.{PoolConnection, Idle, heappush}
use salesinfo_api_v.Pool.Connections.Heap.{
  length-heappush, All-heappush, IsHeap, Distinct, heappush-IsHeap, heappush-Distinct,
}

-- The idle connections, the slots and the size are consistent: the size is within its limits, the
-- slots and the idle connections fit the ceiling, no connection is idle twice or both idle and in
-- use, and the heap is in order.
pub record Holds (lo hi : ℕ) (sizer : AdaptiveSizer) (available : List Idle)
    (in_use : List (ℕ × Option PoolConnection)) : Type 0 where
  pub sized : IsSized lo hi sizer
  pub slots : IsDict in_use
  pub fits : length available + length in_use ≤ hi
  pub distinct : Distinct available
  pub apart : All (λ e. Absent e.conn in_use) available
  pub ordered : IsHeap available

abbrev pub Slots : Type 0
Slots = List (ℕ × Option PoolConnection)

-- A pool without connections.
pub none_left-Holds :
    (lo hi : ℕ) (sizer : AdaptiveSizer) → IsSized lo hi sizer → Holds lo hi sizer [] []
none_left-Holds lo hi sizer v = record {
  sized = v;
  slots = tt;
  fits = omega arith;
  distinct = tt;
  apart = tt;
  ordered = tt;
}

apart-assign :
    (k : ℕ) (v : Option PoolConnection) (d : Slots) (xs : List Idle)
    → All (λ e. e.conn ≢ k) xs
    → All (λ e. Absent e.conn d) xs
    → All (λ e. Absent e.conn (assign ℕ_discrete k v d)) xs
apart-assign k v d [] n a = tt
apart-assign k v d (x ∷ xs) n a =
    (Absent-assign ℕ_discrete k x.conn v d (λ q. n.0 (sym q)) a.0, apart-assign k v d xs n.1 a.1)

apart-delete :
    (k : ℕ) (d : Slots) (xs : List Idle)
    → All (λ e. Absent e.conn d) xs
    → All (λ e. Absent e.conn (delete ℕ_discrete k d)) xs
apart-delete k d xs = All-mono _ _ xs (λ e. Absent-delete ℕ_discrete k e.conn d)

ne_of_lookup :
    (k j : ℕ) (v : Option PoolConnection) (d : Slots)
    → lookup ℕ_discrete k d ≡ some v
    → Absent j d
    → j ≢ k
ne_of_lookup k j v d e a q = ground (arith, lookup_of_Absent ℕ_discrete j d a)

pub idle-ne_of_lookup :
    (k : ℕ) (v : Option PoolConnection) (d : Slots) (xs : List Idle)
    → lookup ℕ_discrete k d ≡ some v
    → All (λ e. Absent e.conn d) xs
    → All (λ e. e.conn ≢ k) xs
idle-ne_of_lookup k v d xs e = All-mono _ _ xs (λ x. ne_of_lookup k x.conn v d e)

module _ (lo hi : ℕ) (s : AdaptiveSizer) where
  pub take_idle-Holds :
      (x : Idle) (xs : List Idle) (d : Slots) (v : Option PoolConnection)
      → Holds lo hi s (x ∷ xs) d
      → Holds lo hi s xs (assign ℕ_discrete x.conn v d)
  take_idle-Holds x xs d v h = record {
    sized = h.sized;
    slots = assign-IsDict ℕ_discrete x.conn v d h.slots;
    fits = omega (
      arith,
      h.fits,
      length-assign_new ℕ_discrete x.conn v d (lookup_of_Absent ℕ_discrete x.conn d h.apart.0),
    );
    distinct = h.distinct.1;
    apart = apart-assign x.conn v d xs h.distinct.0 h.apart.1;
    ordered = h.ordered.1;
  }

  -- A new key takes a slot; there is room for one more.
  pub fill-Holds :
      (xs : List Idle) (d : Slots) (k : ℕ) (v : Option PoolConnection)
      → Absent k d
      → All (λ e. e.conn ≢ k) xs
      → suc (length xs + length d) ≤ hi
      → Holds lo hi s xs d
      → Holds lo hi s xs (assign ℕ_discrete k v d)
  fill-Holds xs d k v new other room h = record {
    sized = h.sized;
    slots = assign-IsDict ℕ_discrete k v d h.slots;
    fits = omega (arith, length-assign_new ℕ_discrete k v d (lookup_of_Absent ℕ_discrete k d new));
    distinct = h.distinct;
    apart = apart-assign k v d xs other h.apart;
    ordered = h.ordered;
  }

  pub delete-Holds :
      (xs : List Idle) (d : Slots) (k : ℕ)
      → Holds lo hi s xs d
      → Holds lo hi s xs (delete ℕ_discrete k d)
  delete-Holds xs d k h = record {
    sized = h.sized;
    slots = delete-IsDict ℕ_discrete k d h.slots;
    fits = omega (arith, h.fits, length-delete-le ℕ_discrete k d);
    distinct = h.distinct;
    apart = apart-delete k d xs h.apart;
    ordered = h.ordered;
  }

  pub put_back-Holds :
      (xs : List Idle) (d : Slots) (e : Idle) (v : Option PoolConnection)
      → lookup ℕ_discrete e.conn d ≡ some v
      → Holds lo hi s xs d
      → Holds lo hi s (heappush e xs) (delete ℕ_discrete e.conn d)
  put_back-Holds xs d e v held h = record {
    sized = h.sized;
    slots = delete-IsDict ℕ_discrete e.conn d h.slots;
    fits = omega (arith, h.fits, length-delete ℕ_discrete e.conn d v held, length-heappush e xs);
    distinct = heappush-Distinct e xs (idle-ne_of_lookup e.conn v d xs held h.apart) h.distinct;
    apart =
        All-heappush _ e xs (Absent-delete_self ℕ_discrete e.conn d h.slots)
          (apart-delete e.conn d xs h.apart);
    ordered = heappush-IsHeap e xs h.ordered;
  }

  -- A reservation becomes the connection that was created under it.
  pub replace-Holds :
      (xs : List Idle) (d : Slots) (key conn : ℕ) (v : Option PoolConnection)
      → lookup ℕ_discrete key d ≡ some none
      → Absent conn d
      → All (λ e. e.conn ≢ conn) xs
      → Holds lo hi s xs d
      → Holds lo hi s xs (assign ℕ_discrete conn v (delete ℕ_discrete key d))
  replace-Holds xs d key conn v held new other h =
      fill-Holds xs (delete ℕ_discrete key d) conn v (Absent-delete ℕ_discrete key conn d new) other
        (omega (arith, h.fits, length-delete ℕ_discrete key d none held)) (delete-Holds xs d key h)
