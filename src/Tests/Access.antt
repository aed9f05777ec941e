-- ===== src/Tests/Access.antt =====
-- Logins and requests at concrete inputs. Texts are numbers: 1 is admin, 2 is user, 10 is the
-- scope read and 11 the scope write; a statement is the number of its first word, 1 for SELECT and 3
-- for DELETE.
use salesinfo_api_v.Base.{
  ℕ, ◌+◌, subst, sym, ◌≡◌, refl, arith, ◌==◌, true, false, inr, [], ◌∷◌, Option, none, some,
  ℕ_discrete,
}
use salesinfo_api_v.Base.Dict.{lookup, assign, delete}
use salesinfo_api_v.Auth.Users.{User, RoleText, primary_role, same_text}
use salesinfo_api_v.Auth.Login.{whole_seconds, get_by_username, authenticate}
use salesinfo_api_v.Auth.Revocations.{
  Revocations, peek, fill, get_revoked_before, store, set_revoked_before, step, run,
}
use salesinfo_api_v.Auth.Revocations.Staleness.{Settles}
use salesinfo_api_v.Auth.Middleware.{
  Payload, UrlPath, Request, Identity, unauthorized, identified, ScopeText, owner_role, accepted,
  by_bearer, enforce_auth,
}
use salesinfo_api_v.Auth.Middleware.Access.{enforce_auth-store, enforce_auth-authorized}
use salesinfo_api_v.Services.SqlPolicy.{
  Patterns, Words, Vocabulary, same_word, contains, first_keyword, classify_operation, words_of,
  granted, has_scope, authorized, IsRead,
}
use salesinfo_api_v.Auth.ApiKeys.{
  KeyRow, KeyStore, same, find_active, validate, validate_api_key, validate_all, deactivate, evict,
  revoke_api_key, has_key, create, remove, delete_api_key,
}

abbrev roles : RoleText ℕ
roles = record { admin = 1; user = 2; is_empty = λ s. s == 0; first_part = λ s. s }

abbrev scope_texts : ScopeText ℕ
scope_texts = record { empty_text = 0; read = 10; read_write = 11 }

-- What the tests compute with.
code : Unit {0}
unfolding primary_role get_by_username authenticate lookup assign delete ℕ_discrete same_text peek
    fill get_revoked_before store set_revoked_before step run owner_role accepted by_bearer
    enforce_auth same_word contains first_keyword classify_operation words_of granted has_scope
    authorized same find_active validate validate_api_key validate_all
    salesinfo_api_v.Auth.ApiKeys.peek deactivate evict revoke_api_key remove delete_api_key has_key
    create
code = tt

abbrev asked : Revocations ℕ
asked = record { table = []; cache = (7, (none, 105)) ∷ []; ttl = 10 }

abbrev path : UrlPath
path = record { starts_api = true; starts_debug = false; starts_docs = false; is_public = false }

abbrev token : ℕ → Payload ℕ ℕ
token iat = record { user_id = 7; role = 2; iat = iat }

abbrev by_jwt : Payload ℕ ℕ → Option ℕ → Request ℕ ℕ
by_jwt p at = record {
  path = path;
  has_services = true;
  key = none;
  has_bearer = true;
  payload = some p;
  revoked_before = at;
  bearer_key = none;
  owner = none;
}

asked_lookup : lookup ℕ_discrete 7 asked.cache ≡ some (none, 105)
unfolding code
asked_lookup = refl

late_answer :
    some 100
    ≡ (get_revoked_before ℕ_discrete (run ℕ_discrete (store ℕ_discrete asked 7 100) []) 7 105 106).1
unfolding code
late_answer = refl

enforce_auth-store_example :
    enforce_auth ℕ_discrete roles scope_texts (by_jwt (token 90) (some 100)) ≡ unauthorized
enforce_auth-store_example =
    enforce_auth-store ℕ_discrete ℕ_discrete roles scope_texts (by_jwt (token 90) (some 100))
      (token 90) asked 100 105 105 106 [] refl refl refl refl (omega arith) (tt, tt)
      (subst (Settles 100 105) (sym asked_lookup) (inr (omega arith))) tt (omega arith) late_answer

abbrev names : Vocabulary ℕ
names = record { empty_word = 0; select_word = 1; with_word = 2; read_word = 10; write_word = 11 }

abbrev re : Patterns ℕ ℕ
re = record {
  strip_comments = λ s. s;
  first_word = λ s. some s;
  is_blank = λ s. s == 0;
  has_write_keyword = λ s. s == 3;
  has_normal_marker = λ s. s == 4;
  has_expensive_marker = λ s. s == 5;
  has_limit = λ s. s == 6;
  has_select_star = λ s. s == 7;
}

abbrev words : Words ℕ ℕ
words = record { split = λ s. s ∷ []; is_blank = λ s. s == 0; strip_lower = λ s. s }

abbrev reader : Identity ℕ ℕ
reader = record { user_id = 7; role = 2; scopes = 10 }

narrow : has_scope ℕ_discrete names words (some 10) 11 ≡ false
unfolding code
narrow = refl

reads :
    enforce_auth ℕ_discrete roles scope_texts (by_jwt (token 101) (some 100)) ≡ identified reader
unfolding code
reads = refl

select_passes : authorized ℕ_discrete names re words true 1 (some 10) ≡ true
unfolding code
select_passes = refl

delete_stops : authorized ℕ_discrete names re words true 3 (some 10) ≡ false
unfolding code
delete_stops = refl

enforce_auth-authorized_example : IsRead ℕ_discrete names re 1
enforce_auth-authorized_example =
    enforce_auth-authorized ℕ_discrete roles scope_texts ℕ_discrete names re words
      (by_jwt (token 101) (some 100)) (token 101) reader 1 narrow refl refl refl refl (omega arith)
      reads select_passes

-- User 7 logs in at 105, after a revocation at 103, with a clock of 10 units a second.
abbrev reader_row : ℕ × User ℕ
reader_row = (7, record { username = 70; roles = 2; role = 0; is_active = true })

abbrev password_hash : ℕ → ℕ
password_hash user_id = user_id + 50

abbrev login_token : ℕ → Payload ℕ ℕ
login_token now = record {
  user_id = 7;
  role = primary_role roles reader_row.1;
  iat = whole_seconds 10 now;
}

refused :
    enforce_auth ℕ_discrete roles scope_texts (by_jwt (login_token 105) (some 103)) ≡ unauthorized
unfolding code
refused = refl

taken :
    enforce_auth ℕ_discrete roles scope_texts (by_jwt (login_token 110) (some 103))
    ≡ identified reader
unfolding code
taken = refl
