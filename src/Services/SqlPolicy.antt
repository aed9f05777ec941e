-- ===== src/Services/SqlPolicy.antt =====
-- core/db/sql_policy.py, and the gate of `QueryService.run` in core/services/query_service.py. What
-- regular expressions and string functions give is a parameter: the leading word of a statement in
-- upper case, whether a pattern occurs, the parts between commas, their stripped and lower-cased
-- words.
use salesinfo_api_v.Base.{
  ◌≡◌, ◌≢◌, refl, arith, Bool, true, false, not, ◌&&◌, ◌||◌, ◌⊎◌, inl, inr, if◌then◌else◌, List, [],
  ◌∷◌, Option, none, some, ite,
}

pub data Operation : Type 0 where
  read write : Operation

pub data Cost : Type 0 where
  fast normal expensive : Cost

-- What the patterns find in a statement.
pub record Patterns (S W : Type 0) : Type 0 where
  pub strip_comments : S → S
  pub first_word : S → Option W
  pub is_blank : S → Bool
  pub has_write_keyword : S → Bool
  pub has_normal_marker : S → Bool
  pub has_expensive_marker : S → Bool
  pub has_limit : S → Bool
  pub has_select_star : S → Bool

-- How a text of scopes is taken apart.
pub record Words (S W : Type 0) : Type 0 where
  pub split : S → List S
  pub is_blank : S → Bool
  pub strip_lower : S → W

-- The words that the code names.
pub record Vocabulary (W : Type 0) : Type 0 where
  pub empty_word : W
  pub select_word : W
  pub with_word : W
  pub read_word : W
  pub write_word : W

module _ {W : Type 0} (dec : Discrete W) where
  unfoldable pub same_word : W → W → Bool
  same_word a b = ite (dec a b) true false

  unfoldable pub contains : W → List W → Bool
  contains w [] = false
  contains w (x ∷ xs) = same_word x w || contains w xs

abbrev pub or_else : {W : Type 0} → W → List W → List W
or_else w [] = w ∷ []
or_else w (x ∷ xs) = x ∷ xs

module _ {S W : Type 0} (dec : Discrete W) (names : Vocabulary W) where
  unfoldable pub first_keyword : Patterns S W → S → W
  first_keyword re sql = elim (re.first_word (re.strip_comments sql)) [
    | none ↦ names.empty_word
    | some word ↦ word
  ]

  unfoldable pub classify_operation : Patterns S W → S → Operation
  classify_operation re sql =
      let keyword = first_keyword re sql in
      if not (same_word dec keyword names.select_word || same_word dec keyword names.with_word)
      then write
      else (if same_word dec keyword names.with_word && re.has_write_keyword sql
          then write
          else read)

  -- The set comprehension: the parts that are not blank.
  unfoldable pub words_of : Words S W → List S → List W
  words_of text [] = []
  words_of text (part ∷ parts) =
      let rest = words_of text parts in
      if text.is_blank part then rest else text.strip_lower part ∷ rest

  -- The scopes granted; None is the text without parts.
  unfoldable pub granted : Words S W → Option S → List W
  granted text none = or_else names.read_word []
  granted text (some scopes) = or_else names.read_word (words_of text (text.split scopes))

  -- `required` is in lower case.
  unfoldable pub has_scope : Words S W → Option S → W → Bool
  has_scope text scopes required = contains dec required (granted text scopes)

  -- Whether `run` gets past its gate, or raises QueryAuthorizationError.
  unfoldable pub authorized : Patterns S W → Words S W → Bool → S → Option S → Bool
  authorized re text require_write_scope sql scopes = elim (classify_operation re sql) [
    | read ↦ true
    | write ↦ not require_write_scope || has_scope text scopes names.write_word
  ]

  -- How a statement that counts as a read begins.
  abbrev pub IsRead : Patterns S W → S → Type 0
  IsRead re sql =
      (first_keyword re sql ≡ names.select_word)
      ⊎ ((first_keyword re sql ≡ names.with_word) × (re.has_write_keyword sql ≡ false))

  read-IsRead : (re : Patterns S W) (sql : S) → classify_operation re sql ≡ read → IsRead re sql
  unfolding classify_operation same_word
  read-IsRead re sql h = ground (arith, h)

  -- If the write scope is required, a statement that gets past the gate of `run` begins with
  -- SELECT, or begins with WITH and has no writing keyword anywhere, or comes with the write scope.
  pub authorized_lem :
      (re : Patterns S W) (text : Words S W) (sql : S) (scopes : Option S)
      → authorized re text true sql scopes ≡ true
      → IsRead re sql ⊎ (has_scope text scopes names.write_word ≡ true)
  unfolding authorized
  authorized_lem re text sql scopes h =
      elim (classify_operation re sql)
          as (λ o.
            classify_operation re sql ≡ o
            → IsRead re sql ⊎ (has_scope text scopes names.write_word ≡ true)) [
              | read ↦ λ e. inl (read-IsRead re sql e)
              | write ↦ λ e. inr (ground (arith, rw (e, authorized) at h))
            ]
        refl

  -- Without any scopes, or with a text of blank scopes only, `run` raises for every write statement
  -- if the write scope is required and is not the same word as the read scope.
  authorized-words_of :
      (re : Patterns S W) (text : Words S W) (sql scopes : S)
      → names.read_word ≢ names.write_word
      → classify_operation re sql ≡ write
      → words_of text (text.split scopes) ≡ []
      → (authorized re text true sql none ≡ false)
        × (authorized re text true sql (some scopes) ≡ false)
  unfolding authorized has_scope granted contains same_word
  authorized-words_of re text sql scopes n w blank =
      (rw (w, authorized) (ground (arith, n)), rw (w, authorized) (rw (blank) (ground (arith, n))))

module _ {S W : Type 0} where
  unfoldable pub classify_cost : Patterns S W → S → Cost
  classify_cost re sql =
      let wide = re.has_select_star sql && not (re.has_limit sql) in
      if re.is_blank sql
      then fast
      else (if re.has_expensive_marker sql
          then expensive
          else (if re.has_normal_marker sql && wide
              then expensive
              else (if re.has_normal_marker sql || wide then normal else fast)))
