-- ===== src/Caching/Coordinator/Tags.antt =====
-- What a write invalidates: `_tag_tables` and `invalidate_tables` of
-- core/caching/query_cache_coordinator.py.
use salesinfo_api_v.Base.{
  ℕ, ◌≡◌, refl, sym, subst, arith, true, ◌⊎◌, inl, inr, List, [], ◌∷◌, ◌++◌, none, some,
}
use salesinfo_api_v.Base.Dict.{
  lookup, assign, delete, Absent, IsDict, lookup-assign, lookup-delete_ne, lookup_of_Absent,
  Absent-delete, Absent-delete_self, delete-IsDict,
}
use salesinfo_api_v.Caching.Lru.{HybridQueryCache, get, hybrid_get, hybrid_invalidate, invalidate}
use salesinfo_api_v.Caching.Coordinator.{
  QueryCacheCoordinator, keys_or_none, add_key, tag_tables, pop_tables, invalidate_keys, drop_keys,
  invalidate_tables,
}

abbrev pub Has : {A : Type 0} → A → List A → Type 0
Has a [] = ⊥
Has a (x ∷ xs) = (x ≡ a) ⊎ Has a xs

Has-append_left : {A : Type 0} (a : A) (xs ys : List A) → Has a xs → Has a (xs ++ ys)
Has-append_left a [] ys h = absurd h
Has-append_left a (x ∷ xs) ys (inl e) = inl e
Has-append_left a (x ∷ xs) ys (inr h) = inr (Has-append_left a xs ys h)

Has-append_right : {A : Type 0} (a : A) (xs ys : List A) → Has a ys → Has a (xs ++ ys)
Has-append_right a [] ys h = h
Has-append_right a (x ∷ xs) ys h = inr (Has-append_right a xs ys h)

module _ {K T : Type 0} (dec_table : Discrete T) where
  -- The key stands under the table in the index.
  abbrev pub IsTagged : K → T → List (T × List K) → Type 0
  IsTagged key table index = Has key (keys_or_none (lookup dec_table table index))

  assign_tagged :
      (key : K) (t u : T) (index : List (T × List K))
      → (u ≡ t) ⊎ IsTagged key t index
      → IsTagged key t (assign dec_table u (key ∷ keys_or_none (lookup dec_table u index)) index)
  assign_tagged key t u index h =
      let old = keys_or_none (lookup dec_table u index) in
      elim (dec_table u t) [
        | yes same ↦
            let there : lookup dec_table t (assign dec_table u (key ∷ old) index)
                ≡ some (key ∷ old) =
              ground (arith, same, lookup-assign dec_table u t (key ∷ old) index) in
            subst (λ o. Has key (keys_or_none o)) (sym there) (inl refl)
        | no other ↦
            let there : lookup dec_table t (assign dec_table u (key ∷ old) index)
                ≡ lookup dec_table t index =
              ground (arith, other, lookup-assign dec_table u t (key ∷ old) index) in
            subst (λ o. Has key (keys_or_none o)) (sym there)
              (elim h [ inl same ↦ absurd (other same) | inr tagged ↦ tagged ])
      ]

  add_key_kept :
      (key : K) (t : T) (tables : List T) (index : List (T × List K))
      → IsTagged key t index
      → IsTagged key t (add_key dec_table key tables index)
  unfolding add_key
  add_key_kept key t [] index h = h
  add_key_kept key t (u ∷ tables) index h =
      add_key_kept key t tables _ (assign_tagged key t u index (inr h))

  add_key-IsTagged :
      (key : K) (t : T) (tables : List T) (index : List (T × List K))
      → Has t tables
      → IsTagged key t (add_key dec_table key tables index)
  unfolding add_key
  add_key-IsTagged key t [] index h = absurd h
  add_key-IsTagged key t (u ∷ tables) index (inl same) =
      add_key_kept key t tables _ (assign_tagged key t u index (inl same))
  add_key-IsTagged key t (u ∷ tables) index (inr later) = add_key-IsTagged key t tables _ later

  pop_tables-Has :
      (key : K) (t : T) (tables : List T) (index : List (T × List K))
      → Has t tables
      → IsTagged key t index
      → Has key (pop_tables dec_table tables index).0
  unfolding pop_tables
  pop_tables-Has key t [] index h g = absurd h
  pop_tables-Has key t (u ∷ tables) index h g =
      let old = keys_or_none (lookup dec_table u index) in
      let rest = (pop_tables dec_table tables (delete dec_table u index)).0 in
      elim (dec_table u t) [
        | yes same ↦ Has-append_left key old rest (subst (λ x. IsTagged key x index) (sym same) g)
        | no other ↦
            let later : Has t tables = elim h [ inl same ↦ absurd (other same) | inr l ↦ l ] in
            Has-append_right key old rest (
              pop_tables-Has key t tables (delete dec_table u index) later (
                subst (λ o. Has key (keys_or_none o))
                  (sym (lookup-delete_ne dec_table u t index other)) g))
      ]

module _ {K V : Type 0} (dec : Discrete K) where
  invalidate_keys_kept :
      (key : K) (keys : List K) (l1 : HybridQueryCache K V)
      → Absent key l1.store.cache
      → Absent key (invalidate_keys dec keys l1).store.cache
  unfolding invalidate_keys hybrid_invalidate invalidate
  invalidate_keys_kept key [] l1 a = a
  invalidate_keys_kept key (k ∷ keys) l1 a =
      invalidate_keys_kept key keys (hybrid_invalidate dec l1 k)
        (Absent-delete dec k key l1.store.cache a)

  invalidate_keys-Absent :
      (key : K) (keys : List K) (l1 : HybridQueryCache K V)
      → IsDict l1.store.cache
      → Has key keys
      → Absent key (invalidate_keys dec keys l1).store.cache
  unfolding invalidate_keys hybrid_invalidate invalidate
  invalidate_keys-Absent key [] l1 d h = absurd h
  invalidate_keys-Absent key (k ∷ keys) l1 d (inl same) =
      invalidate_keys_kept key keys (hybrid_invalidate dec l1 k) (
        subst (λ x. Absent x (delete dec k l1.store.cache)) same
          (Absent-delete_self dec k l1.store.cache d))
  invalidate_keys-Absent key (k ∷ keys) l1 d (inr later) =
      invalidate_keys-Absent key keys (hybrid_invalidate dec l1 k)
        (delete-IsDict dec k l1.store.cache d) later

  get-Absent :
      (c : HybridQueryCache K V) (key : K) (now : ℕ)
      → Absent key c.store.cache
      → (hybrid_get dec c key now).1 ≡ none
  unfolding hybrid_get get
  get-Absent c key now a =
      let gone : lookup dec key c.store.cache ≡ none = lookup_of_Absent dec key c.store.cache a in
      rw (gone, get) refl

module _ {K V T : Type 0} (dec : Discrete K) (dec_table : Discrete T) where
  dropped :
      (c : QueryCacheCoordinator K V T) (tables : List T) (key : K) (keys : List K)
      (index : List (T × List K)) (now : ℕ)
      → IsDict c.l1.store.cache
      → Has key keys
      → ((drop_keys dec dec_table c tables keys index).1 ≡ true)
        × ((hybrid_get dec (drop_keys dec dec_table c tables keys index).0.l1 key now).1 ≡ none)
        × ((drop_keys dec dec_table c tables keys index).2 ≡ tables)
  dropped c tables key [] index now d h = absurd h
  dropped c tables key (k ∷ keys) index now d h =
      (refl, get-Absent dec _ key now (invalidate_keys-Absent dec key (k ∷ keys) c.l1 d h), refl)

  tagged :
      (c : QueryCacheCoordinator K V T) (key : K) (t : T) (tables : List T)
      → Has t tables
      → IsTagged dec_table key t (tag_tables dec dec_table c key tables).table_keys
  unfolding tag_tables
  tagged c key t [] h = absurd h
  tagged c key t (u ∷ tables) h = add_key-IsTagged dec_table key t (u ∷ tables) c.table_keys h

  tag_tables-l1 :
      (c : QueryCacheCoordinator K V T) (key : K) (tables : List T)
      → (tag_tables dec dec_table c key tables).l1 ≡ c.l1
  unfolding tag_tables
  tag_tables-l1 c key [] = refl
  tag_tables-l1 c key (u ∷ tables) = refl

  invalidated :
      (c : QueryCacheCoordinator K V T) (key : K) (t : T) (written : List T) (now : ℕ)
      → IsDict c.l1.store.cache
      → IsTagged dec_table key t c.table_keys
      → Has t written
      → ((invalidate_tables dec dec_table c written).1 ≡ true)
        × ((hybrid_get dec (invalidate_tables dec dec_table c written).0.l1 key now).1 ≡ none)
        × ((invalidate_tables dec dec_table c written).2 ≡ written)
  unfolding invalidate_tables
  invalidated c key t [] now d g h = absurd h
  invalidated c key t (u ∷ written) now d g h =
      dropped c (u ∷ written) key _ _ now d
        (pop_tables-Has dec_table key t (u ∷ written) c.table_keys h g)

  -- A key that was just tagged with its tables is invalidated by a write to any of them: if the
  -- cache is a dictionary, `invalidate_tables` answers true, tells L2 all tables written, and
  -- leaves no value for the key in the cache.
  pub invalidate_tables-tag_tables :
      (c : QueryCacheCoordinator K V T) (key : K) (t : T) (tables written : List T) (now : ℕ)
      → IsDict c.l1.store.cache
      → Has t tables
      → Has t written
      → ((invalidate_tables dec dec_table (tag_tables dec dec_table c key tables) written).1 ≡ true)
        × ((hybrid_get dec
              (invalidate_tables dec dec_table (tag_tables dec dec_table c key tables) written).0.l1
              key
              now).1
            ≡ none)
        × ((invalidate_tables dec dec_table (tag_tables dec dec_table c key tables) written).2
            ≡ written)
  invalidate_tables-tag_tables c key t tables written now d g h =
      invalidated (tag_tables dec dec_table c key tables) key t written now
        (subst (λ l. IsDict l.store.cache) (sym (tag_tables-l1 c key tables)) d)
        (tagged c key t tables g) h
