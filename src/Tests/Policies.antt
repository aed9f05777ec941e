-- ===== src/Tests/Policies.antt =====
-- The policy for SQL statements at concrete inputs. Statements and texts of scopes are lists of
-- word numbers: 1 is SELECT, 2 is WITH, 3 is DELETE, 10 is read and 11 is write.
use salesinfo_api_v.Base.{
  ℕ, ◌≡◌, refl, Bool, true, false, ◌⊎◌, List, [], ◌∷◌, map, Option, none, some, ite, ℕ_discrete,
}
use salesinfo_api_v.Services.SqlPolicy.{
  write, fast, expensive, Patterns, Words, Vocabulary, same_word, contains, first_keyword,
  classify_operation, words_of, granted, has_scope, authorized, IsRead, authorized_lem,
  classify_cost,
}

abbrev head_word : List ℕ → Option ℕ
head_word [] = none
head_word (w ∷ ws) = some w

abbrev is_empty : List ℕ → Bool
is_empty [] = true
is_empty (w ∷ ws) = false

abbrev first_or_zero : List ℕ → ℕ
first_or_zero [] = 0
first_or_zero (w ∷ ws) = w

abbrev names : Vocabulary ℕ
names = record { empty_word = 0; select_word = 1; with_word = 2; read_word = 10; write_word = 11 }

abbrev has_word : ℕ → List ℕ → Bool
has_word w [] = false
has_word w (x ∷ xs) = ite (ℕ_discrete w x) true (has_word w xs)

abbrev re : Patterns (List ℕ) ℕ
re = record {
  strip_comments = λ s. s;
  first_word = head_word;
  is_blank = is_empty;
  has_write_keyword = has_word 3;
  has_normal_marker = has_word 4;
  has_expensive_marker = has_word 5;
  has_limit = has_word 6;
  has_select_star = has_word 7;
}

abbrev text : Words (List ℕ) ℕ
text = record { split = map (λ w. w ∷ []); is_blank = is_empty; strip_lower = first_or_zero }

-- What the tests compute with.
code : Unit {0}
unfolding same_word contains first_keyword classify_operation words_of granted has_scope authorized
    classify_cost ℕ_discrete
code = tt

-- WITH ... DELETE, and the scopes read and write.
passes : authorized ℕ_discrete names re text true (2 ∷ 9 ∷ 3 ∷ []) (some (10 ∷ 11 ∷ [])) ≡ true
unfolding code
passes = refl

authorized_lem_example :
    IsRead ℕ_discrete names re (2 ∷ 9 ∷ 3 ∷ [])
    ⊎ (has_scope ℕ_discrete names text (some (10 ∷ 11 ∷ [])) 11 ≡ true)
authorized_lem_example =
    authorized_lem ℕ_discrete names re text (2 ∷ 9 ∷ 3 ∷ []) (some (10 ∷ 11 ∷ [])) passes

is_write : classify_operation ℕ_discrete names re (2 ∷ 9 ∷ 3 ∷ []) ≡ write
unfolding code
is_write = refl

no_words : words_of ℕ_discrete names text (text.split []) ≡ []
unfolding code
no_words = refl

cost_test : classify_cost re (1 ∷ 7 ∷ 4 ∷ []) ≡ expensive
unfolding code
cost_test = refl

limited_test : classify_cost re (1 ∷ 7 ∷ 6 ∷ []) ≡ fast
unfolding code
limited_test = refl
