-- ===== src/Services/Placeholders.antt =====
-- `translate_qmark_placeholders` of core/db/adapters/postgresql.py. A text is the list of its code points.
pub mod Literals
use salesinfo_api_v.Base.{ℕ, Bool, true, false, ◌||◌, ◌==◌, if◌then◌else◌, List, [], ◌∷◌}

abbrev pub quote : ℕ
quote = 39

abbrev pub question_mark : ℕ
question_mark = 63

abbrev pub percent_sign : ℕ
percent_sign = 37

abbrev pub letter_s : ℕ
letter_s = 115

-- `"?" in sql`.
unfoldable pub has_question_mark : List ℕ → Bool
has_question_mark [] = false
has_question_mark (ch ∷ sql) = ch == question_mark || has_question_mark sql

-- The `while` loop from the state `in_string` on, with what is left of the text.
unfoldable pub translate_from : Bool → List ℕ → List ℕ
translate_from in_string [] = []
translate_from true (ch ∷ []) = ch ∷ []
translate_from true (ch ∷ after ∷ sql) =
    let past_both = translate_from true sql in
    let closed = translate_from false (after ∷ sql) in
    let inside = translate_from true (after ∷ sql) in
    if ch == quote
    then (if after == quote then quote ∷ quote ∷ past_both else ch ∷ closed)
    else ch ∷ inside
translate_from false (ch ∷ sql) =
    let opened = translate_from true sql in
    let outside = translate_from false sql in
    if ch == quote
    then ch ∷ opened
    else if ch == question_mark
    then percent_sign ∷ letter_s ∷ outside
    else ch ∷ outside

unfoldable pub translate_qmark_placeholders : List ℕ → List ℕ
unfolding has_question_mark translate_from
translate_qmark_placeholders sql =
    let translated = translate_from false sql in if has_question_mark sql then translated else sql
