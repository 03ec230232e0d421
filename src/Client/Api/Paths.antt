-- ===== src/Client/Api/Paths.antt =====
-- The path of an address as texts between slashes, up to the query. The address is taken as it
-- stands: what `fetch` and the server make of fragments, dots and percent signs in it is left out,
-- and what is said of a server's routes is said of ids without such characters (`IsVerbatim`).
use Prim.Native.Char.{Char, code}
use native.Mathlib.Decide.{ℕ_discrete}
use text.Mathlib.TextLemmas.{nil-append, append-nil, cons-append}
use development_plan.Base.{
  String, ◌<>◌, ◌≡◌, ◌≢◌, refl, sym, ap, ◌∙◌, Bool, true, not, ◌&&◌, ◌||◌, All, List, [], ◌∷◌, ◌++◌,
  if◌then◌else◌, arith, Bool-cases, if_of_true, if_of_false, inl, inr,
}
use development_plan.Base.Booleans.{leb}
use development_plan.Mockup.Texts.{same_char, split, add_first}

-- What stands before the question mark.
unfoldable pub before_query : String → String
before_query String.[] = ""
before_query (String.◌∷◌ c s) =
    let rest = before_query s in if same_char c "?" then "" else String.◌∷◌ c rest

unfoldable pub segments : String → List String
segments url = split "/" (before_query url)

unfoldable pub lacks : Char → String → Bool
lacks c String.[] = true
lacks c (String.◌∷◌ d s) = not (same_char d c) && lacks c s

-- A text that stays one segment of a path.
abbrev pub IsPlain : String → Type 0
IsPlain s = (s ≢ "") × (lacks "/" s ≡ true) × (lacks "?" s ≡ true)

-- A letter, a digit, `-` or `_`.
abbrev pub is_unreserved : Char → Bool
is_unreserved c =
    (leb b'a' (code c) && leb (code c) b'z')
    || ((leb b'A' (code c) && leb (code c) b'Z')
        || ((leb b'0' (code c) && leb (code c) b'9') || (same_char c "-" || same_char c "_")))

abbrev pub all_unreserved : String → Bool
all_unreserved String.[] = true
all_unreserved (String.◌∷◌ c s) = is_unreserved c && all_unreserved s

-- An id that stays as it is when `fetch` parses the address and the server decodes the path: it is
-- not empty, and it consists of letters, digits, `-` and `_`.
abbrev pub IsVerbatim : String → Type 0
IsVerbatim s = IsPlain s × (all_unreserved s ≡ true)

pub All-IsPlain : (ids : List String) → All IsVerbatim ids → All IsPlain ids
All-IsPlain [] v = tt
All-IsPlain (id ∷ ids) (v, vs) = (v.0, All-IsPlain ids vs)

before_query-append :
    (s t : String) → lacks "?" s ≡ true → before_query (s <> t) ≡ s <> before_query t
unfolding before_query lacks
before_query-append String.[] t h = rw (nil-append t, nil-append (before_query t)) refl
before_query-append (String.◌∷◌ c s) t h = elim (Bool-cases (same_char c "?")) [
  | inl e ↦ absurd (ground (arith, e, h))
  | inr e ↦
      rw (cons-append c s t, cons-append c s (before_query t))
        (if_of_false _ _ e ∙ ap (String.◌∷◌ c) (before_query-append s t (ground (arith, e, h))))
]

before_query-plain : (s : String) → lacks "?" s ≡ true → before_query s ≡ s
unfolding before_query lacks
before_query-plain String.[] h = refl
before_query-plain (String.◌∷◌ c s) h = elim (Bool-cases (same_char c "?")) [
  | inl e ↦ absurd (ground (arith, e, h))
  | inr e ↦ if_of_false _ _ e ∙ ap (String.◌∷◌ c) (before_query-plain s (ground (arith, e, h)))
]

-- The segments of two texts in a row: the last of the first continues with the first of the second.
unfoldable glue : List String → List String → List String
glue [] ts = ts
glue (s ∷ []) [] = s ∷ []
glue (s ∷ []) (t ∷ ts) = (s <> t) ∷ ts
glue (s ∷ (r ∷ rs)) ts = s ∷ glue (r ∷ rs) ts

glue-add_first :
    (c : Char) (parts : List String) (t : String) (ts : List String)
    → add_first c (glue parts (t ∷ ts)) ≡ glue (add_first c parts) (t ∷ ts)
unfolding glue
glue-add_first c [] t ts = rw (cons-append c "" t, nil-append t) refl
glue-add_first c (s ∷ []) t ts = rw (cons-append c s t) refl
glue-add_first c (s ∷ (r ∷ rs)) t ts = refl

glue-separate : (parts ts : List String) → parts ≢ [] → glue ("" ∷ parts) ts ≡ "" ∷ glue parts ts
unfolding glue
glue-separate [] ts h = absurd (h refl)
glue-separate (s ∷ parts) ts h = refl

add_first-given : (c : Char) (parts : List String) → add_first c parts ≢ []
add_first-given c [] e = cc
add_first-given c (s ∷ parts) e = cc

split-given : (s : String) → split "/" s ≢ []
unfolding split
split-given String.[] e = cc
split-given (String.◌∷◌ c s) e = elim (Bool-cases (same_char c "/")) [
  | inl slash ↦ absurd (cons-given (sym (if_of_true _ _ slash) ∙ e))
  | inr other ↦ add_first-given c (split "/" s) (sym (if_of_false _ _ other) ∙ e)
]
  where
    cons-given : {r : String} {rs : List String} → (r ∷ rs) ≢ []
    cons-given p = cc

split-append :
    (s t u : String) (us : List String)
    → split "/" t ≡ u ∷ us
    → split "/" (s <> t) ≡ glue (split "/" s) (u ∷ us)
unfolding split glue
split-append String.[] t u us e = rw (nil-append t, nil-append u) e
split-append (String.◌∷◌ c s) t u us e = elim (Bool-cases (same_char c "/")) [
  | inl slash ↦ rw (cons-append c s t) (
      if_of_true _ _ slash
      ∙ ap (◌∷◌ "") (split-append s t u us e)
      ∙ sym (glue-separate (split "/" s) (u ∷ us) (split-given s))
      ∙ ap (λ parts. glue parts (u ∷ us)) (sym (if_of_true _ _ slash)))
  | inr other ↦ rw (cons-append c s t) (
      if_of_false _ _ other
      ∙ ap (add_first c) (split-append s t u us e)
      ∙ glue-add_first c (split "/" s) u us
      ∙ ap (λ parts. glue parts (u ∷ us)) (sym (if_of_false _ _ other)))
]

split-plain : (s : String) → lacks "/" s ≡ true → split "/" s ≡ s ∷ []
unfolding split lacks
split-plain String.[] h = refl
split-plain (String.◌∷◌ c s) h = elim (Bool-cases (same_char c "/")) [
  | inl e ↦ absurd (ground (arith, e, h))
  | inr e ↦ if_of_false _ _ e ∙ ap (add_first c) (split-plain s (ground (arith, e, h)))
]

glue-dirs :
    (dirs : List String) (t : String) (ts : List String)
    → glue (dirs ++ ("" ∷ [])) (t ∷ ts) ≡ dirs ++ (t ∷ ts)
unfolding glue
glue-dirs [] t ts = rw (nil-append t) refl
glue-dirs (s ∷ []) t ts = rw (nil-append t) refl
glue-dirs (s ∷ (r ∷ rs)) t ts = ap (◌∷◌ s) (glue-dirs (r ∷ rs) t ts)

lacks-append :
    (c : Char) (s t : String) → lacks c s ≡ true → lacks c t ≡ true → lacks c (s <> t) ≡ true
unfolding lacks
lacks-append c String.[] t h k = rw (nil-append t) k
lacks-append c (String.◌∷◌ d s) t h k = elim (Bool-cases (same_char d c)) [
  | inl e ↦ absurd (ground (arith, e, h))
  | inr e ↦
      let rest = lacks-append c s t (ground (arith, e, h)) k in
      rw (cons-append d s t) (ground (arith, e, rest))
]

-- An address that ends with an id.
pub segments-last :
    (address : String) (dirs : List String) (id : String)
    → lacks "?" address ≡ true
    → split "/" address ≡ dirs ++ ("" ∷ [])
    → IsPlain id
    → segments (address <> id) ≡ dirs ++ (id ∷ [])
unfolding segments
segments-last address dirs id plain e (given, slashless, queryless) =
    ap (split "/")
      (before_query-plain (address <> id) (lacks-append "?" address id plain queryless))
    ∙ split-append address id id [] (split-plain id slashless)
    ∙ ap (λ parts. glue parts (id ∷ [])) e
    ∙ glue-dirs dirs id []

-- An address with an id in the middle.
pub segments-middle :
    (address : String) (dirs : List String) (id action : String) (actions : List String)
    → lacks "?" address ≡ true
    → split "/" address ≡ dirs ++ ("" ∷ [])
    → split "/" (before_query action) ≡ "" ∷ actions
    → IsPlain id
    → segments (address <> id <> action) ≡ dirs ++ (id ∷ actions)
unfolding segments glue
segments-middle address dirs id action actions plain e a (given, slashless, queryless) =
    ap (split "/") (
      before_query-append address (id <> action) plain
      ∙ ap (λ s. address <> s) (before_query-append id action queryless))
    ∙ split-append address (id <> before_query action) id actions (
        split-append id (before_query action) "" actions a
        ∙ ap (λ parts. glue parts ("" ∷ actions)) (split-plain id slashless)
        ∙ ap (λ s. s ∷ actions) (append-nil id))
    ∙ ap (λ parts. glue parts (id ∷ actions)) e
    ∙ glue-dirs dirs id actions

-- What follows a question mark is not part of the path.
pub before_query-query :
    (path query : String) → lacks "?" path ≡ true → before_query (path <> ("?" <> query)) ≡ path
unfolding before_query same_char ℕ_discrete
before_query-query path query h =
    before_query-append path ("?" <> query) h
    ∙ ap (λ s. path <> before_query s) (cons-append "?" "" query)
    ∙ append-nil path
