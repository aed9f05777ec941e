-- ===== src/Services/Placeholders/Literals.antt =====
-- `translate_qmark_placeholders` of core/db/adapters/postgresql.py on a text that is put together from string
-- literals and the code between them.
use salesinfo_api_v.Base.{
  ℕ, ◌≡◌, refl, sym, ap, ◌∙◌, arith, Bool, true, false, ◌==◌, if◌then◌else◌, List, [], ◌∷◌, ◌++◌,
  Bool-cases, inl, inr, All, append_assoc, map,
}
use salesinfo_api_v.Services.Placeholders.{
  quote, question_mark, percent_sign, letter_s, has_question_mark, translate_from,
  translate_qmark_placeholders,
}

-- A piece of a statement: code, or the value of a string literal.
pub data Piece : Type 0 where
  code literal : List ℕ → Piece

-- In a literal a quote is written twice.
abbrev pub escaped : List ℕ → List ℕ
escaped [] = []
escaped (ch ∷ value) =
    let rest = escaped value in if ch == quote then quote ∷ quote ∷ rest else ch ∷ rest

abbrev pub written : Piece → List ℕ
written (code text) = text
written (literal value) = quote ∷ (escaped value ++ quote ∷ [])

abbrev pub statement : List Piece → List ℕ
statement [] = []
statement (p ∷ ps) = written p ++ statement ps

-- `str.replace("?", "%s")`.
abbrev pub replaced : List ℕ → List ℕ
replaced [] = []
replaced (ch ∷ text) =
    let rest = replaced text in
    if ch == question_mark then percent_sign ∷ letter_s ∷ rest else ch ∷ rest

-- The reference: replace in the code, and leave the literals.
abbrev pub with_placeholders : Piece → Piece
with_placeholders (code text) = code (replaced text)
with_placeholders (literal value) = literal value

-- Code has no quote.
abbrev pub IsPiece : Piece → Type 0
IsPiece (code text) = All (λ ch. (ch == quote) ≡ false) text
IsPiece (literal value) = Unit

-- Inside a literal, a character that is no quote.
translate_from-inside :
    (ch : ℕ) (sql : List ℕ)
    → (ch == quote) ≡ false
    → translate_from true (ch ∷ sql) ≡ ch ∷ translate_from true sql
unfolding translate_from
translate_from-inside ch [] other = refl
translate_from-inside ch (after ∷ sql) other = rw other refl

-- At a quote inside a literal: outside and in again is the same as never out.
translate_from-quote :
    (ch : ℕ) (sql : List ℕ)
    → (ch == quote) ≡ true
    → translate_from true (ch ∷ sql) ≡ ch ∷ translate_from false sql
unfolding translate_from
translate_from-quote ch [] same = refl
translate_from-quote ch (after ∷ sql) same =
    let first : ch ≡ quote = ground (arith, same) in
    elim (Bool-cases (after == quote)) [
      | inl again ↦
          let second : after ≡ quote = ground (arith, again) in
          rw (same, again) (λ i. sym first i ∷ sym second i ∷ translate_from true sql)
      | inr other ↦ rw (same, other) refl
    ]

-- A text without a question mark is left as it is.
translate_from-unmarked :
    (in_string : Bool) (sql : List ℕ)
    → has_question_mark sql ≡ false
    → translate_from in_string sql ≡ sql
unfolding translate_from has_question_mark
translate_from-unmarked true [] h = refl
translate_from-unmarked false [] h = refl
translate_from-unmarked true (ch ∷ sql) h =
    let rest : has_question_mark sql ≡ false = ground (arith, h) in
    elim (Bool-cases (ch == quote)) [
      | inl same ↦
          translate_from-quote ch sql same ∙ ap (◌∷◌ ch) (translate_from-unmarked false sql rest)
      | inr other ↦
          translate_from-inside ch sql other ∙ ap (◌∷◌ ch) (translate_from-unmarked true sql rest)
    ]
translate_from-unmarked false (ch ∷ sql) h =
    let rest : has_question_mark sql ≡ false = ground (arith, h) in
    let unmarked : (ch == question_mark) ≡ false = ground (arith, h) in
    elim (Bool-cases (ch == quote)) [
      | inl same ↦ rw same (ap (◌∷◌ ch) (translate_from-unmarked true sql rest))
      | inr other ↦ rw (other, unmarked) (ap (◌∷◌ ch) (translate_from-unmarked false sql rest))
    ]

translate_from-code :
    (text sql : List ℕ)
    → All (λ ch. (ch == quote) ≡ false) text
    → translate_from false (text ++ sql) ≡ replaced text ++ translate_from false sql
unfolding translate_from
translate_from-code [] sql h = refl
translate_from-code (ch ∷ text) sql h =
    let rest = translate_from-code text sql h.1 in
    elim (Bool-cases (ch == question_mark)) [
      | inl marked ↦ rw (h.0, marked) (ap (λ t. percent_sign ∷ letter_s ∷ t) rest)
      | inr other ↦ rw (h.0, other) (ap (◌∷◌ ch) rest)
    ]

translate_from-escaped :
    (value sql : List ℕ)
    → translate_from true (escaped value ++ quote ∷ sql)
      ≡ escaped value ++ quote ∷ translate_from false sql
unfolding translate_from
translate_from-escaped [] sql = translate_from-quote quote sql refl
translate_from-escaped (ch ∷ value) sql =
    let rest = translate_from-escaped value sql in
    elim (Bool-cases (ch == quote)) [
      | inl same ↦ rw same (ap (λ t. quote ∷ quote ∷ t) rest)
      | inr other ↦
          rw other
            (translate_from-inside ch (escaped value ++ quote ∷ sql) other ∙ ap (◌∷◌ ch) rest)
    ]

translate_from-statement :
    (ps : List Piece)
    → All IsPiece ps
    → translate_from false (statement ps) ≡ statement (map with_placeholders ps)
unfolding translate_from
translate_from-statement [] h = refl
translate_from-statement (code text ∷ ps) h =
    translate_from-code text (statement ps) h.0
    ∙ ap (λ t. replaced text ++ t) (translate_from-statement ps h.1)
translate_from-statement (literal value ∷ ps) h =
    let joined = append_assoc (escaped value) (quote ∷ []) in
    ap (◌∷◌ quote) (
      ap (translate_from true) (joined (statement ps))
      ∙ translate_from-escaped value (statement ps)
      ∙ ap (λ t. escaped value ++ quote ∷ t) (translate_from-statement ps h.1)
      ∙ sym (joined (statement (map with_placeholders ps))))

-- However a statement is put together from string literals, quotes in them written twice, and code without
-- quotes: each `?` in the code, wherever it stands there, becomes `%s`, and all the rest, a `?` in a literal
-- included, is left as it is.
pub translate_qmark_placeholders_lem :
    (ps : List Piece)
    → All IsPiece ps
    → translate_qmark_placeholders (statement ps) ≡ statement (map with_placeholders ps)
unfolding translate_qmark_placeholders
translate_qmark_placeholders_lem ps h = elim (Bool-cases (has_question_mark (statement ps))) [
  | inl marked ↦ rw marked (translate_from-statement ps h)
  | inr unmarked ↦
      rw unmarked (
        sym (translate_from-unmarked false (statement ps) unmarked) ∙ translate_from-statement ps h)
]
