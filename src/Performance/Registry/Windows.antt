-- ===== src/Performance/Registry/Windows.antt =====
-- The last elements of a list: what a bounded deque keeps. It models no code of its own.
use salesinfo_api_v.Base.{
  ℕ, zero, suc, ◌-◌, ◌≤◌, ◌<◌, ◌≡◌, refl, sym, ap, ◌∙◌, arith, List, [], ◌∷◌, ◌++◌, All, length,
  drop, length-append,
}

module _ {A : Type 0} where
  -- The last `n` of a list.
  abbrev pub newest : ℕ → List A → List A
  newest n xs = drop (length xs - n) xs

  pub drop_nil : (n : ℕ) → drop {A = A} n [] ≡ []
  drop_nil zero = refl
  drop_nil (suc n) = refl

  length-drop : (n : ℕ) (xs : List A) → length (drop n xs) ≡ length xs - n
  length-drop zero xs = omega arith
  length-drop (suc n) [] = omega arith
  length-drop (suc n) (x ∷ xs) = omega (arith, length-drop n xs)

  drop-append : (n : ℕ) (xs ys : List A) → n ≤ length xs → drop n (xs ++ ys) ≡ drop n xs ++ ys
  drop-append zero xs ys le = refl
  drop-append (suc n) [] ys le = absurd (omega (arith, le))
  drop-append (suc n) (x ∷ xs) ys le = drop-append n xs ys (omega (arith, le))

  drop-drop : (n : ℕ) (xs : List A) → drop 1 (drop n xs) ≡ drop (suc n) xs
  drop-drop zero [] = refl
  drop-drop zero (x ∷ xs) = refl
  drop-drop (suc n) [] = refl
  drop-drop (suc n) (x ∷ xs) = drop-drop n xs

  pub All-drop : (P : A → Type 0) (n : ℕ) (xs : List A) → All P xs → All P (drop n xs)
  All-drop P zero xs a = a
  All-drop P (suc n) [] a = tt
  All-drop P (suc n) (x ∷ xs) a = All-drop P n xs a.1

  pub length-newest : (n : ℕ) (xs : List A) → length (newest n xs) ≤ n
  length-newest n xs = omega (arith, length-drop (length xs - n) xs)

  -- One more: while there is room all are kept, and then the oldest goes.
  pub newest_room :
      (n : ℕ) (xs : List A) (x : A)
      → length (newest n xs) < n
      → newest n (xs ++ x ∷ []) ≡ newest n xs ++ x ∷ []
  newest_room n xs x lt =
      let none_yet : length xs - n ≡ 0 = omega (arith, lt, length-drop (length xs - n) xs) in
      let none_now : length (xs ++ x ∷ []) - n ≡ 0 =
        omega (arith, lt, length-drop (length xs - n) xs, length-append xs (x ∷ [])) in
      rw none_yet (rw none_now refl)

  pub newest_full :
      (n : ℕ) (xs : List A) (x : A)
      → 0 < n
      → n ≤ length (newest n xs)
      → newest n (xs ++ x ∷ []) ≡ drop 1 (newest n xs ++ x ∷ [])
  newest_full n xs x positive le =
      let enough : n ≤ length xs = omega (arith, le, length-drop (length xs - n) xs) in
      let one_more : length (xs ++ x ∷ []) - n ≡ suc (length xs - n) =
        omega (arith, enough, length-append xs (x ∷ [])) in
      rw one_more (
        sym (drop-drop (length xs - n) (xs ++ x ∷ []))
        ∙ ap (drop 1) (drop-append (length xs - n) xs (x ∷ []) (omega arith)))
