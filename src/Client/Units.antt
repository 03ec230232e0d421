-- ===== src/Client/Units.antt =====
-- Texts as JavaScript has them, lists of UTF-16 code units, with the operations on them that
-- lib/api-client-react/src/custom-fetch.ts uses.
use Prim.Native.Char.{code}
use mathlib.Core.Logic.{ite}
use native.Mathlib.Decide.{ℕ_discrete}
use native.Mathlib.Decide.{dec_lt}
use development_plan.Base.{
  ℕ, String, Bool, true, false, ◌&&◌, ◌||◌, List, [], ◌∷◌, ◌++◌, take, length, if◌then◌else◌,
}
use development_plan.Client.{is_space}

abbrev pub Text : Type 0
Text = List ℕ

-- A literal, whose characters are one unit each.
abbrev pub units : String → Text
units String.[] = []
units (String.◌∷◌ c s) = code c ∷ units s

abbrev pub is_unit : ℕ → ℕ → Bool
is_unit c d = ite (ℕ_discrete c d) true false

abbrev pub is_empty : Text → Bool
is_empty [] = true
is_empty (_ ∷ _) = false

-- `a === b`
unfoldable pub same_text : Text → Text → Bool
unfolding ℕ_discrete
same_text [] [] = true
same_text [] (_ ∷ _) = false
same_text (_ ∷ _) [] = false
same_text (c ∷ a) (d ∷ b) = is_unit c d && same_text a b

-- `s.startsWith(prefix)`
unfoldable pub starts_with : Text → Text → Bool
unfolding ℕ_discrete
starts_with [] s = true
starts_with (c ∷ p) [] = false
starts_with (c ∷ p) (d ∷ s) = is_unit c d && starts_with p s

-- `s.endsWith(suffix)`
unfoldable pub ends_with : Text → Text → Bool
ends_with suffix [] = same_text suffix []
ends_with suffix (c ∷ s) = same_text suffix (c ∷ s) || ends_with suffix s

unfoldable pub trim_start : Text → Text
trim_start [] = []
trim_start (c ∷ s) = let rest = trim_start s in if is_space c then rest else c ∷ s

unfoldable pub trim_end : Text → Text
trim_end [] = []
trim_end (c ∷ s) = let rest = trim_end s in if is_empty rest && is_space c then [] else c ∷ rest

-- `s.trim()`
unfoldable pub trim : Text → Text
trim s = trim_end (trim_start s)

-- `s.split(";", 1)[0]`
unfoldable pub before_semicolon : Text → Text
unfolding ℕ_discrete
before_semicolon [] = []
before_semicolon (c ∷ s) = let rest = before_semicolon s in if is_unit c b';' then [] else c ∷ rest

-- `text.charCodeAt(0) === 0xfeff ? text.slice(1) : text`
unfoldable pub strip_bom : Text → Text
unfolding ℕ_discrete
strip_bom [] = []
strip_bom (c ∷ s) = if is_unit c 65279 then s else c ∷ s

-- `looksLikeJson`
unfoldable pub looks_like_json : Text → Bool
looks_like_json text =
    starts_with (units "{") (trim_start text) || starts_with (units "[") (trim_start text)

-- With `maxLength = 300`; the unit 8230 is the ellipsis.
unfoldable pub truncate : Text → Text
truncate text = ite (dec_lt 300 (length text)) (take 299 text ++ (8230 ∷ [])) text
