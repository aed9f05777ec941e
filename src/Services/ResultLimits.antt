-- ===== src/Services/ResultLimits.antt =====
-- `_apply_result_limits` of core/services/query_service.py. The length of a row's JSON text comes
-- from a library: it is the parameter `row_bytes`.
use salesinfo_api_v.Base.{
  ℕ, zero, suc, ◌+◌, ◌≤◌, ◌<◌, ◌≡◌, refl, ap, Bool, true, false, arith, ltb, leb, if◌then◌else◌,
  List, [], ◌∷◌, ◌++◌, length, take, drop, take-append-drop, length-take, inl, inr, Bool-cases, ◌⊎◌,
  length-append, leb→le, sym, ◌∙◌, append_assoc,
}

pub record QueryLimits : Type 0 where
  pub max_result_rows : ℕ
  pub max_result_bytes : ℕ

module _ {ℓ} {R : Type ℓ} (row_bytes : R → ℕ) where
  -- The loop, from the bytes counted so far: the rows kept, and whether it broke off.
  unfoldable pub within_bytes : ℕ → ℕ → List R → List R × Bool
  within_bytes max_bytes total [] = ([], false)
  within_bytes max_bytes total (row ∷ rows) =
      let rest = within_bytes max_bytes (total + row_bytes row) rows in
      if ltb max_bytes (total + row_bytes row) then ([], true) else (row ∷ rest.0, rest.1)

  unfoldable pub apply_result_limits : QueryLimits → List R → List R × Bool
  apply_result_limits limits rows =
      if leb (length rows) limits.max_result_rows
      then within_bytes limits.max_result_bytes 0 rows
      else (let kept = within_bytes limits.max_result_bytes 0 (take limits.max_result_rows rows) in
          (kept.0, true))

  abbrev pub total_bytes : List R → ℕ
  total_bytes [] = 0
  total_bytes (r ∷ rs) = row_bytes r + total_bytes rs

  -- What the loop keeps is a prefix within the bytes left; it broke off exactly if something is
  -- cut, and then the next row would not have fitted.
  pub record IsCut (max_bytes total : ℕ) (rows : List R) (out : List R × Bool) : Type ℓ where
    pub cut : List R
    pub prefix : rows ≡ out.0 ++ cut
    pub fits : total ≤ max_bytes → total + total_bytes out.0 ≤ max_bytes
    pub why :
        ((out.1 ≡ false) × (cut ≡ []))
        ⊎ ((out.1 ≡ true)
            × (r : R) × (rest : List R) × (cut ≡ r ∷ rest)
            × (max_bytes < total + total_bytes out.0 + row_bytes r))

  within_bytes-IsCut : (m t : ℕ) (rows : List R) → IsCut m t rows (within_bytes m t rows)
  unfolding within_bytes
  within_bytes-IsCut m t [] = record {
    cut = [];
    prefix = refl;
    fits = λ h. omega arith;
    why = inl (refl, refl);
  }
  within_bytes-IsCut m t (r ∷ rs) = elim (Bool-cases (ltb m (t + row_bytes r))) [
    | inl over ↦ rw over (record {
      cut = r ∷ rs;
      prefix = refl;
      fits = λ h. omega arith;
      why = inr (refl, r, rs, refl, ground arith);
    })
    | inr under ↦
        let k = within_bytes-IsCut m (t + row_bytes r) rs in
        rw under (record {
          cut = k.cut;
          prefix = ap (◌∷◌ r) k.prefix;
          fits = λ h. omega (arith, k.fits (ground arith));
          why = elim k.why [
            | inl (whole, none_cut) ↦ inl (whole, none_cut)
            | inr (broke, x, rest, e, over) ↦ inr (broke, x, rest, e, omega arith)
          ];
        })
  ]

  drop_cons :
      (n : ℕ) (rows : List R)
      → n < length rows
      → (r : R) × (rest : List R) × (drop n rows ≡ r ∷ rest)
  drop_cons n [] h = absurd (omega arith)
  drop_cons zero (r ∷ rs) h = (r, rs, refl)
  drop_cons (suc n) (r ∷ rs) h = drop_cons n rs (omega arith)

  -- What a limited result is, without the code.
  abbrev pub IsLimited : QueryLimits → List R → List R × Bool → Type ℓ
  IsLimited limits rows out =
      (cut : List R) × (rows ≡ out.0 ++ cut)
      × (length out.0 ≤ limits.max_result_rows)
      × (total_bytes out.0 ≤ limits.max_result_bytes)
      × (((out.1 ≡ false) × (cut ≡ []))
          ⊎ ((out.1 ≡ true)
              × (r : R) × (rest : List R) × (cut ≡ r ∷ rest)
              × ((limits.max_result_rows < length out.0 + 1)
                  ⊎ (limits.max_result_bytes < total_bytes out.0 + row_bytes r))))

  few_rows :
      (limits : QueryLimits) (rows : List R)
      → leb (length rows) limits.max_result_rows ≡ true
      → IsLimited limits rows (within_bytes limits.max_result_bytes 0 rows)
  few_rows limits rows few =
      let out = within_bytes limits.max_result_bytes 0 rows in
      let k = within_bytes-IsCut limits.max_result_bytes 0 rows in
      (
        k.cut,
        k.prefix,
        omega (arith, leb→le _ _ few, ap length k.prefix, length-append out.0 k.cut),
        omega (arith, k.fits (omega arith)),
        elim k.why [
          | inl whole ↦ inl whole
          | inr (broke, r, rest, e, over) ↦ inr (broke, r, rest, e, inr (omega arith))
        ],
      )

  many_rows :
      (limits : QueryLimits) (rows : List R)
      → leb (length rows) limits.max_result_rows ≡ false
      → IsLimited limits rows
          ((within_bytes limits.max_result_bytes 0 (take limits.max_result_rows rows)).0, true)
  many_rows limits rows many =
      let n = limits.max_result_rows in
      let out = within_bytes limits.max_result_bytes 0 (take n rows) in
      let k = within_bytes-IsCut limits.max_result_bytes 0 (take n rows) in
      let more : n < length rows = ground arith in
      let size = length-append out.0 k.cut in
      let taken : length (take n rows) ≡ n = omega (arith, length-take n rows) in
      let (r', rest', dropped) = drop_cons n rows more in
      (
        k.cut ++ drop n rows,
        sym (take-append-drop n rows)
            ∙ ap (λ t. t ++ drop n rows) k.prefix
            ∙ append_assoc out.0 k.cut (drop n rows),
        omega (arith, size, taken, ap length k.prefix),
        omega (arith, k.fits (omega arith)),
        elim k.why [
          | inl (_, whole) ↦ inr (
            refl,
            r',
            rest',
            rw (whole, dropped) refl,
            inl (omega (arith, size, taken, ap length k.prefix, ap length whole)),
          )
          | inr (_, r, rest, e, over) ↦
              inr (refl, r, rest ++ drop n rows, ap (λ c. c ++ drop n rows) e, inr (omega arith))
        ],
      )

  -- The rows returned are a prefix of those given, within both limits. The flag is false exactly if
  -- nothing is cut; if a row is cut, the next one would have passed the limit of rows or of bytes.
  pub apply_result_limits_lem :
      (limits : QueryLimits) (rows : List R)
      → IsLimited limits rows (apply_result_limits limits rows)
  unfolding apply_result_limits
  apply_result_limits_lem limits rows =
      elim (Bool-cases (leb (length rows) limits.max_result_rows)) [
        | inl few ↦ rw few (few_rows limits rows few)
        | inr many ↦ rw many (many_rows limits rows many)
      ]
