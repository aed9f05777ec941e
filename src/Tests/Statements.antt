-- ===== src/Tests/Statements.antt =====
-- Placeholders of core/db/adapters/postgresql.py at concrete statements.
use salesinfo_api_v.Base.{◌≡◌, refl, List, [], ◌∷◌, map, ℕ}
use salesinfo_api_v.Services.Placeholders.{
  has_question_mark, translate_from, translate_qmark_placeholders,
}
use salesinfo_api_v.Services.Placeholders.Literals.{
  Piece, code, literal, statement, with_placeholders, translate_qmark_placeholders_lem,
}

-- `a=? AND b='it''s?' OR c=?`, without the spaces and words.
abbrev pieces : List Piece
pieces =
    code (b'a' ∷ b'=' ∷ b'?' ∷ b'&' ∷ b'b' ∷ b'=' ∷ [])
    ∷ literal (b'i' ∷ b't' ∷ 39 ∷ b's' ∷ b'?' ∷ [])
    ∷ code (b'|' ∷ b'c' ∷ b'=' ∷ b'?' ∷ [])
    ∷ []

abbrev text : List ℕ
text =
    b'a' ∷ b'=' ∷ b'?' ∷ b'&' ∷ b'b' ∷ b'=' ∷ 39 ∷ b'i' ∷ b't' ∷ 39 ∷ 39 ∷ b's' ∷ b'?' ∷ 39 ∷ b'|'
    ∷ b'c' ∷ b'=' ∷ b'?' ∷ []

text_test : statement pieces ≡ text
text_test = refl

translate_qmark_placeholders_lem_example :
    translate_qmark_placeholders (statement pieces) ≡ statement (map with_placeholders pieces)
translate_qmark_placeholders_lem_example = translate_qmark_placeholders_lem pieces (
  (refl, (refl, (refl, (refl, (refl, (refl, tt)))))),
  (tt, ((refl, (refl, (refl, (refl, tt)))), tt)),
)

translated_test :
    translate_qmark_placeholders text
    ≡ b'a' ∷ b'=' ∷ b'%' ∷ b's' ∷ b'&' ∷ b'b' ∷ b'=' ∷ 39 ∷ b'i' ∷ b't' ∷ 39 ∷ 39 ∷ b's' ∷ b'?' ∷ 39
      ∷ b'|' ∷ b'c' ∷ b'=' ∷ b'%' ∷ b's' ∷ []
unfolding translate_qmark_placeholders has_question_mark translate_from
translated_test = refl

-- `x--?`: a question mark in a comment.
comment_test :
    translate_qmark_placeholders (b'x' ∷ b'-' ∷ b'-' ∷ b'?' ∷ [])
    ≡ b'x' ∷ b'-' ∷ b'-' ∷ b'%' ∷ b's' ∷ []
unfolding translate_qmark_placeholders has_question_mark translate_from
comment_test = refl
