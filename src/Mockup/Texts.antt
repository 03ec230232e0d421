-- ===== src/Mockup/Texts.antt =====
-- JavaScript's tests and cuts of texts that the preview server uses.
use Prim.Native.Char.{Char, code}
use text.Mathlib.TextLemmas.{nil-append, cons-append}
use mathlib.Core.Logic.{ite}
use native.Mathlib.Decide.{ℕ_discrete}
use development_plan.Base.{
  ℕ, zero, suc, String, ◌<>◌, ◌≡◌, Bool, true, false, ◌||◌, Option, none, some, List, [], ◌∷◌, ◌==◌,
  string_eq, if◌then◌else◌, ap, arith,
}

unfoldable pub same_char : Char → Char → Bool
unfolding ℕ_discrete
same_char c d = ite (ℕ_discrete (code c) (code d)) true false

-- What follows a prefix, if the text starts with it.
unfoldable pub after : String → String → Option String
after String.[] s = some s
after (String.◌∷◌ c p) String.[] = none
after (String.◌∷◌ c p) (String.◌∷◌ d s) =
    let rest = after p s in if same_char c d then rest else none

-- `s.startsWith(prefix)`
unfoldable pub starts_with : String → String → Bool
starts_with prefix s = elim (after prefix s) [ none ↦ false | some _ ↦ true ]

-- `s.endsWith(suffix)`
unfoldable pub ends_with : String → String → Bool
ends_with suffix String.[] = suffix == ""
ends_with suffix (String.◌∷◌ c s) =
    let rest = ends_with suffix s in String.◌∷◌ c s == suffix || rest

-- `s.includes(part)`
unfoldable pub includes : String → String → Bool
includes part String.[] = part == ""
includes part (String.◌∷◌ c s) =
    let rest = includes part s in starts_with part (String.◌∷◌ c s) || rest

-- `s.slice(n)`
unfoldable pub slice : ℕ → String → String
slice zero s = s
slice (suc n) String.[] = ""
slice (suc n) (String.◌∷◌ c s) = slice n s

abbrev pub add_first : Char → List String → List String
add_first c [] = String.◌∷◌ c "" ∷ []
add_first c (part ∷ parts) = String.◌∷◌ c part ∷ parts

-- `s.split(separator)`, at a single character
unfoldable pub split : Char → String → List String
split separator String.[] = "" ∷ []
split separator (String.◌∷◌ c s) =
    let parts = split separator s in if same_char c separator then "" ∷ parts else add_first c parts

-- `texts.join(separator)`
unfoldable pub join : String → List String → String
join separator [] = ""
join separator (s ∷ []) = s
join separator (s ∷ (t ∷ ts)) = s <> separator <> join separator (t ∷ ts)

pub same_char_refl : (c : Char) → same_char c c ≡ true
unfolding same_char
same_char_refl c = ground arith

-- A prefix is followed by what was put after it.
pub after-append : (p s : String) → after p (p <> s) ≡ some s
unfolding after
after-append String.[] s = ap some (nil-append s)
after-append (String.◌∷◌ c p) s = rw (cons-append c p s, same_char_refl c) (after-append p s)

abbrev pub length : String → ℕ
length String.[] = 0
length (String.◌∷◌ c s) = suc (length s)

-- A cut at the length of a prefix leaves what was put after it.
pub slice-append : (p s : String) → slice (length p) (p <> s) ≡ s
unfolding slice
slice-append String.[] s = nil-append s
slice-append (String.◌∷◌ c p) s = rw (cons-append c p s) (slice-append p s)
