-- ===== src/Credentials/Token.antt =====
-- The grammar of ingest tokens: INGEST_TOKEN_PATTERN, `parse_ingest_token` and `ingest_token` of
-- domain/ingestion.py. A text is the list of its ASCII codes.
use limnopulse.Prelude.{
  ℕ, zero, suc, ◌≡◌, refl, ◌↔◌, Bool, true, false, ◌&&◌, ◌||◌, Option, none, some, List, [], ◌∷◌,
  ◌++◌, if◌then◌else◌, leb, ◌==◌, length, Bool-cases, Option-cases, ==_iff, inl, inr, ap, ◌∙◌,
  arith,
}

abbrev pub Text : Type 0
Text = List ℕ

abbrev pub is_digit : ℕ → Bool
is_digit c = leb 48 c && leb c 57

-- `[0-9a-f]`
abbrev pub is_hex : ℕ → Bool
is_hex c = is_digit c || (leb 97 c && leb c 102)

-- `[A-Za-z0-9_-]`
abbrev pub is_base64url : ℕ → Bool
is_base64url c =
    is_digit c || (leb 65 c && leb c 90) || (leb 97 c && leb c 122) || c == 95 || c == 45

unfoldable pub all_of : (ℕ → Bool) → Text → Bool
all_of f [] = true
all_of f (c ∷ cs) = f c && all_of f cs

-- a literal of the pattern
unfoldable pub strip_prefix : Text → Text → Option Text
strip_prefix [] t = some t
strip_prefix (p ∷ ps) [] = none
strip_prefix (p ∷ ps) (c ∷ cs) = let rest = strip_prefix ps cs in if c == p then rest else none

abbrev pub cons_first : ℕ → Option (Text × Text) → Option (Text × Text)
cons_first c none = none
cons_first c (some (a, b)) = some (c ∷ a, b)

-- a group of a fixed length
unfoldable pub split_at : ℕ → Text → Option (Text × Text)
split_at zero t = some ([], t)
split_at (suc n) [] = none
split_at (suc n) (c ∷ cs) = cons_first c (split_at n cs)

-- `lpi_`, `ic_` and `_`
abbrev pub token_prefix : Text
token_prefix = 108 ∷ 112 ∷ 105 ∷ 95 ∷ []

abbrev pub id_prefix : Text
id_prefix = 105 ∷ 99 ∷ 95 ∷ []

abbrev pub separator : Text
separator = 95 ∷ []

abbrev pub is_hex_32 : Option Text → Bool
is_hex_32 none = false
is_hex_32 (some t) = length t == 32 && all_of is_hex t

-- `ic_[0-9a-f]{32}`
unfoldable pub is_token_id : Text → Bool
unfolding strip_prefix all_of
is_token_id t = is_hex_32 (strip_prefix id_prefix t)

-- `[A-Za-z0-9_-]{43}`
unfoldable pub is_token_secret : Text → Bool
unfolding all_of
is_token_secret t = length t == 43 && all_of is_base64url t

-- the second group, after the first
unfoldable pub parse_secret : Text → Option Text → Option (Text × Text)
unfolding is_token_id is_token_secret
parse_secret id none = none
parse_secret id (some secret) =
    if is_token_id id && is_token_secret secret then some (id, secret) else none

abbrev pub parse_groups : Option (Text × Text) → Option (Text × Text)
parse_groups none = none
parse_groups (some (id, rest)) = parse_secret id (strip_prefix separator rest)

abbrev pub parse_body : Option Text → Option (Text × Text)
parse_body none = none
parse_body (some rest) = parse_groups (split_at 35 rest)

-- `parse_ingest_token`
unfoldable pub parse_ingest_token : Text → Option (Text × Text)
unfolding parse_secret strip_prefix split_at
parse_ingest_token t = parse_body (strip_prefix token_prefix t)

-- `f"lpi_{ingest_credential_id}_{secret}"`
unfoldable pub token_text : Text → Text → Text
token_text id secret = token_prefix ++ (id ++ (separator ++ secret))

unfoldable pub same_text : Text → Text → Bool
same_text [] [] = true
same_text [] (d ∷ ds) = false
same_text (c ∷ cs) [] = false
same_text (c ∷ cs) (d ∷ ds) = c == d && same_text cs ds

-- the comparison of `ingest_token`
abbrev pub parses_to : Option (Text × Text) → Text → Text → Bool
parses_to none id secret = false
parses_to (some (i, s)) id secret = same_text i id && same_text s secret

-- `ingest_token`; `none` is its `ValueError`
unfoldable pub ingest_token : Text → Text → Option Text
unfolding same_text token_text parse_ingest_token
ingest_token id secret =
    if parses_to (parse_ingest_token (token_text id secret)) id secret
    then some (token_text id secret)
    else none

strip_prefix-append : (p t : Text) → strip_prefix p (p ++ t) ≡ some t
unfolding strip_prefix
strip_prefix-append [] t = refl
strip_prefix-append (c ∷ p) t = rw ((==_iff c c).1 refl) (strip_prefix-append p t)

strip_prefix-some : (p t r : Text) → strip_prefix p t ≡ some r → t ≡ p ++ r
unfolding strip_prefix
strip_prefix-some [] t r h = ground arith
strip_prefix-some (p ∷ ps) [] r h = ground arith
strip_prefix-some (p ∷ ps) (c ∷ cs) r h = elim (Bool-cases (c == p)) [
  | inl same ↦
      let rest = strip_prefix-some ps cs r (rw same at h) in let head = (==_iff c p).0 same in cc
  | inr other ↦ absurd (ground arith)
]

split_at-append : (a b : Text) → split_at (length a) (a ++ b) ≡ some (a, b)
unfolding split_at
split_at-append [] b = refl
split_at-append (c ∷ a) b = rw (split_at-append a b) refl

abbrev pub Joins : Text → Option (Text × Text) → Type 0
Joins t none = Unit
Joins t (some (a, b)) = t ≡ a ++ b

cons_first-Joins :
    (c : ℕ) (t : Text) (o : Option (Text × Text)) → Joins t o → Joins (c ∷ t) (cons_first c o)
cons_first-Joins c t none h = tt
cons_first-Joins c t (some (a, b)) h = ap (λ r. c ∷ r) h

split_at-Joins : (n : ℕ) (t : Text) → Joins t (split_at n t)
unfolding split_at
split_at-Joins zero t = refl
split_at-Joins (suc n) [] = tt
split_at-Joins (suc n) (c ∷ cs) = cons_first-Joins c cs (split_at n cs) (split_at-Joins n cs)

-- The id and the secret have their forms, and the text is the token of the two.
abbrev pub IsToken : Text → Text → Text → Type 0
IsToken t id secret =
    (is_token_id id ≡ true) × (is_token_secret secret ≡ true) × (t ≡ token_text id secret)

id_length : (id : Text) → is_token_id id ≡ true → length id ≡ 35
unfolding is_token_id
id_length id h = elim (Option-cases (strip_prefix id_prefix id)) [
  | inl none_left ↦ absurd (ground arith)
  | inr (r, left) ↦
      let e = strip_prefix-some id_prefix id r left in
      let n : length r ≡ 32 = ground arith in rw (e, n) refl
]

parse_secret-some :
    (x id secret : Text) (o : Option Text)
    → parse_secret x o ≡ some (id, secret)
    → (x ≡ id) × (o ≡ some secret) × (is_token_id id ≡ true) × (is_token_secret secret ≡ true)
unfolding parse_secret
parse_secret-some x id secret none h = ground arith
parse_secret-some x id secret (some y) h = ground arith

groups-IsToken :
    (t rest id secret : Text) (o : Option (Text × Text))
    → t ≡ token_prefix ++ rest
    → Joins rest o
    → parse_groups o ≡ some (id, secret)
    → IsToken t id secret
unfolding token_text
groups-IsToken t rest id secret none front joins h = ground arith
groups-IsToken t rest id secret (some (a, b)) front joins h =
    let (same, left, good, fine) = parse_secret-some a id secret (strip_prefix separator b) h in
    let e = strip_prefix-some separator b secret left in
    (good, fine, rw (front, joins, same, e) refl)

parsed-IsToken :
    (t id secret : Text) (o : Option Text)
    → strip_prefix token_prefix t ≡ o
    → parse_body o ≡ some (id, secret)
    → IsToken t id secret
parsed-IsToken t id secret none e h = ground arith
parsed-IsToken t id secret (some rest) e h =
    groups-IsToken t rest id secret (split_at 35 rest) (strip_prefix-some token_prefix t rest e)
      (split_at-Joins 35 rest) h

parse_ingest_token-text :
    (id secret : Text)
    → is_token_id id ≡ true
    → is_token_secret secret ≡ true
    → parse_ingest_token (token_text id secret) ≡ some (id, secret)
unfolding parse_ingest_token token_text parse_secret
parse_ingest_token-text id secret good fine =
    let split : split_at 35 (id ++ (separator ++ secret)) ≡ some (id, separator ++ secret) =
      rw (id_length id good) at (split_at-append id (separator ++ secret)) in
    let accepted : parse_secret id (some secret) ≡ some (id, secret) = rw (good, fine) refl in
    ap parse_body (strip_prefix-append token_prefix (id ++ (separator ++ secret)))
    ∙ ap parse_groups split
    ∙ ap (parse_secret id) (strip_prefix-append separator secret)
    ∙ accepted

-- The grammar of tokens is unambiguous, also where the secret contains `_`: a text parses to an id and
-- a secret exactly when these have their forms and the text is the token that is printed of them.
pub parse_ingest_token_iff :
    (t id secret : Text) → (parse_ingest_token t ≡ some (id, secret)) ↔ IsToken t id secret
unfolding parse_ingest_token
parse_ingest_token_iff t id secret = (
  parsed-IsToken t id secret (strip_prefix token_prefix t) refl,
  λ token. rw token.2 (parse_ingest_token-text id secret token.0 token.1),
)

same_text_self : (t : Text) → same_text t t ≡ true
unfolding same_text
same_text_self [] = refl
same_text_self (c ∷ cs) = rw ((==_iff c c).1 refl, same_text_self cs) refl

-- Where the id and the secret have their forms, their token is made, and parses to them.
pub ingest_token-some :
    (id secret : Text)
    → is_token_id id ≡ true
    → is_token_secret secret ≡ true
    → (ingest_token id secret ≡ some (token_text id secret))
      × (parse_ingest_token (token_text id secret) ≡ some (id, secret))
unfolding ingest_token
ingest_token-some id secret good fine =
    let parsed = parse_ingest_token-text id secret good fine in
    (rw (parsed, same_text_self id, same_text_self secret) refl, parsed)
