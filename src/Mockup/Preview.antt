-- ===== src/Mockup/Preview.antt =====
-- artifacts/mockup-sandbox/src/App.tsx: which mockup the address asks for, and how it is loaded.
pub mod Laws
use Prim.Native.Char.{Char, code}
use Prim.Native.String
use mathlib.Core.Logic.{ite}
use native.Mathlib.Decide.{ℕ_discrete}
use development_plan.Base.{
  ℕ, String, ◌<>◌, Bool, true, false, not, ◌&&◌, ◌||◌, Option, none, some, List, [], ◌∷◌, map, ◌==◌,
  string_eq, if◌then◌else◌,
}
use development_plan.Mockup.Texts.{after, starts_with, slice, split}

-- A value that a module exports: a function, or another value with its truth.
pub data Exported (C : Type 0) : Type 0 where
  function : C → Exported C
  other : (truthy : Bool) → Exported C

abbrev pub Module : Type 0 → Type 0
Module C = List (String × Exported C)

module _ {C : Type 0} where
  abbrev pub is_truthy : Exported C → Bool
  is_truthy (function c) = true
  is_truthy (other truthy) = truthy

  -- `mod[name]`, where a value that is false counts as none
  unfoldable pub exported : String → Module C → Option (Exported C)
  exported name [] = none
  exported name ((k, v) ∷ entries) =
      let rest = exported name entries in
      if k == name then (if is_truthy v then some v else none) else rest

  -- `fns[fns.length - 1]`
  unfoldable pub last_function : Module C → Option (Exported C)
  last_function [] = none
  last_function ((k, other truthy) ∷ entries) = last_function entries
  last_function ((k, function c) ∷ entries) = elim (last_function entries) [
    | none ↦ some (function c)
    | some v ↦ some v
  ]

  abbrev pub or_else : Option (Exported C) → Option (Exported C) → Option (Exported C)
  or_else none b = b
  or_else (some v) b = some v

  unfoldable pub resolve_component : Module C → String → Option (Exported C)
  resolve_component entries name = or_else (exported "default" entries) (
      or_else (exported "Preview" entries)
        (or_else (exported name entries) (last_function entries)))

-- `pathname.split("/").pop()`
abbrev pub last_part : List String → String
last_part [] = ""
last_part (part ∷ []) = part
last_part (part ∷ (next ∷ parts)) = last_part (next ∷ parts)

abbrev pub is_line_end : ℕ → Bool
is_line_end c =
    ite (ℕ_discrete c 10) true (
      ite (ℕ_discrete c 13) true
        (ite (ℕ_discrete c 8232) true (ite (ℕ_discrete c 8233) true false)))

-- All of it matches `.`
unfoldable pub is_line : String → Bool
unfolding ℕ_discrete
is_line String.[] = true
is_line (String.◌∷◌ c s) = not (is_line_end (code c)) && is_line s

-- `import.meta.env.BASE_URL.replace(/\/$/, "")`
unfoldable pub base_path : String → String
base_path String.[] = ""
base_path (String.◌∷◌ c s) =
    let rest = base_path s in if String.◌∷◌ c s == "/" then "" else String.◌∷◌ c rest

-- `|| "/"`
abbrev pub or_root : String → String
or_root s = if s == "" then "/" else s

-- The path below the base.
unfoldable pub local_path : String → String → String
local_path base pathname =
    if base == ""
    then pathname
    else elim (after base pathname) [ none ↦ pathname | some rest ↦ or_root rest ]

-- `(.+)$`, after the prefix
unfoldable pub match_rest : Option String → Option String
match_rest none = none
match_rest (some rest) = if not (rest == "") && is_line rest then some rest else none

-- `local.match(/^\/preview\/(.+)$/)`
unfoldable pub match_preview : String → Option String
match_preview path = match_rest (after "/preview/" path)

unfoldable pub preview_path : String → String → Option String
preview_path base_url pathname = match_preview (local_path (base_path base_url) pathname)

-- What is shown, and the error message.
pub data View (C : Type 0) : Type 0 where
  blank : View C
  component : Exported C → View C
  error : String → View C

-- How the import of a module ends.
pub data Outcome (C : Type 0) : Type 0 where
  loaded : Module C → Outcome C
  failed : String → Outcome C

module _ {C : Type 0} where
  -- What an outcome shows, if its load was not cancelled.
  unfoldable pub outcome_view : Char → String → Outcome C → View C
  outcome_view slash path (failed message) = error ("Failed to load preview.\n" <> message)
  outcome_view slash path (loaded entries) =
      elim (resolve_component entries (last_part (split slash path))) [
        | none ↦ error (
            "No exported React component found in " <> path
            <> ".tsx\n\nMake sure the file has at least one exported function component.")
        | some v ↦ component v
      ]

-- The effect's closures: each load with its path, and whether it was cancelled.
pub record Load : Type 0 where
  pub path : String
  pub cancelled : Bool

-- `path` is the prop, and `effect_path` the path for which the effect has run last.
pub record Renderer (C : Type 0) : Type 0 where
  pub path : String
  pub effect_path : String
  pub view : View C
  pub loads : List Load

abbrev pub cancel : Load → Load
cancel l = record l { cancelled = true }

module _ {C : Type 0} where
  -- A render with a new path: until the effect runs, the view and the loads are those before.
  unfoldable pub give_path : String → Renderer C → Renderer C
  give_path path r = record r { path = path }

  -- The effect runs, after the clean-up of the one before; `has_module` tells whether the path has a
  -- loader.
  unfoldable pub run_effect : (String → Bool) → Renderer C → Renderer C
  run_effect has_module r =
      let stopped = map cancel r.loads in
      if has_module ("./components/mockups/" <> r.path <> ".tsx")
      then record r {
        effect_path = r.path;
        view = blank;
        loads = record { path = r.path; cancelled = false } ∷ stopped;
      }
      else record r {
        effect_path = r.path;
        view = error ("No component found at " <> r.path <> ".tsx");
        loads = stopped;
      }

  -- A load ends.
  unfoldable pub end_load : Char → Load → Outcome C → Renderer C → Renderer C
  end_load slash load outcome r =
      if load.cancelled then r else record r { view = outcome_view slash load.path outcome }
