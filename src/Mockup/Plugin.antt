-- ===== src/Mockup/Plugin.antt =====
-- artifacts/mockup-sandbox/mockupPreviewPlugin.ts: which files are mockups, the module that is
-- generated from them, and `refresh` with the events that call it.
use Prim.Native.Char.{Char}
use mathlib.Core.Logic.{ite}
use native.Mathlib.Decide.{ℕ_discrete}
use development_plan.Base.{
  ℕ, String, ◌<>◌, Bool, true, false, not, ◌&&◌, ◌||◌, Option, some, List, [], ◌∷◌, map, ◌==◌,
  string_eq, if◌then◌else◌,
}
use development_plan.Mockup.Texts.{starts_with, ends_with, includes, slice, split, join}

abbrev pub mockups_dir : String
mockups_dir = "src/components/mockups"

abbrev pub generated_module : String
generated_module = "src/.generated/mockup-components.ts"

pub record DiscoveredComponent : Type 0 where
  pub glob_key : String
  pub import_path : String

-- Node's `path` (with its separator), fast-glob over the state of the disk below the
-- root, with what it ignores, and JSON.stringify.
pub record Node (Disk : Type 0) : Type 0 where
  pub join_paths : String → String → String
  pub relative : String → String → String
  pub posix_relative : String → String → String
  pub is_absolute : String → Bool
  pub sep : Char
  pub glob : String → List String → Disk → List String
  pub stringify : String → String

-- `segments.every((segment) => !segment.startsWith("_"))`
abbrev pub none_hidden : List String → Bool
none_hidden [] = true
none_hidden (segment ∷ segments) = not (starts_with "_" segment) && none_hidden segments

unfoldable pub should_auto_rescan : String → Bool
should_auto_rescan pathname =
    includes "/components/mockups/" pathname || includes "/.generated/mockup-components" pathname

module _ {Disk : Type 0} (node : Node Disk) where
  abbrev pub mockups_abs_dir : String → String
  mockups_abs_dir root = node.join_paths root mockups_dir

  unfoldable pub is_mockup_file : String → String → Bool
  is_mockup_file root absolute_path =
      let rel = node.relative (mockups_abs_dir root) absolute_path in
      not (starts_with ".." rel) && (not (node.is_absolute rel) && ends_with ".tsx" rel)

  unfoldable pub is_preview_target : String → Bool
  is_preview_target relative_to_mockups = none_hidden (split node.sep relative_to_mockups)

  -- `"src/".length` is 4.
  unfoldable pub discovered : String → DiscoveredComponent
  discovered f = record {
    glob_key = "./" <> slice 4 f;
    import_path = node.posix_relative "src/.generated" f;
  }

  unfoldable pub discover_components : Disk → List DiscoveredComponent
  discover_components disk =
      map discovered (node.glob (mockups_dir <> "/**/*.tsx") ("**/_*/**" ∷ "**/_*.tsx" ∷ []) disk)

  unfoldable pub entry : DiscoveredComponent → String
  entry c =
      "  " <> node.stringify c.glob_key <> ": () => import(" <> node.stringify c.import_path <> ")"

  unfoldable pub generate_source : List DiscoveredComponent → String
  generate_source components = join "\n" (
      "// This file is auto-generated by mockupPreviewPlugin.ts."
      ∷ "type ModuleMap = Record<string, () => Promise<Record<string, unknown>>>;"
      ∷ "export const modules: ModuleMap = {"
      ∷ join ",\n" (map entry components)
      ∷ "};"
      ∷ ""
      ∷ [])

-- Where a call of `refresh` stands: no call runs, one waits for the files to be read, or one has
-- the components and goes on when its promise resolves.
pub data Phase : Type 0 where
  resting : Phase
  scanning : Phase
  scanned : List DiscoveredComponent → Phase

-- The plugin's variables, and the generated file where it exists.
pub record Plugin : Type 0 where
  pub current_source : String
  pub refresh_in_flight : Bool
  pub refresh_queued : Bool
  pub phase : Phase
  pub written : Option String

abbrev pub fresh_plugin : Option String → Plugin
fresh_plugin file = record {
  current_source = "";
  refresh_in_flight = false;
  refresh_queued = false;
  phase = resting;
  written = file;
}

-- A call of `refresh`, up to its first wait.
unfoldable pub refresh : Plugin → Plugin
refresh p =
    if p.refresh_in_flight
    then record p { refresh_queued = true }
    else record p { refresh_in_flight = true; phase = scanning }

-- The files are read.
unfoldable pub scan : {Disk : Type 0} → Node Disk → Disk → Plugin → Plugin
scan node disk p = record p { phase = scanned (discover_components node disk) }

-- The `finally` block and the follow-up of a refresh that was queued.
unfoldable pub settle_refresh : Plugin → Plugin
unfolding refresh
settle_refresh p =
    let idle = record p { refresh_in_flight = false; phase = resting } in
    if p.refresh_queued then refresh (record idle { refresh_queued = false }) else idle

-- The rest of `refresh` with the components: the file is written if the source is another.
unfoldable pub resume : {Disk : Type 0} → Node Disk → List DiscoveredComponent → Plugin → Plugin
unfolding settle_refresh
resume node components p =
    let source = generate_source node components in
    settle_refresh (
      if source == p.current_source
      then p
      else record p { current_source = source; written = some source })

-- A throw of the scan: the `finally` block, and no follow-up.
unfoldable pub fail_scan : Plugin → Plugin
fail_scan p = record p { refresh_in_flight = false; phase = resting }

-- The writing throws after `currentSource` is set.
unfoldable pub fail_write : {Disk : Type 0} → Node Disk → List DiscoveredComponent → Plugin → Plugin
unfolding fail_scan
fail_write node components p =
    fail_scan (record p { current_source = generate_source node components })

module _ {Disk : Type 0} (node : Node Disk) (root : String) where
  -- The watcher's "add" and "unlink", and the end of a response.
  unfoldable pub on_add : String → Plugin → Plugin
  on_add file p =
      if is_mockup_file node root file
        && is_preview_target node (node.relative (mockups_abs_dir node root) file)
      then refresh p
      else p

  unfoldable pub on_unlink : String → Plugin → Plugin
  on_unlink file p = if is_mockup_file node root file then refresh p else p

unfoldable pub on_end : ℕ → String → Plugin → Plugin
unfolding ℕ_discrete
on_end status pathname p =
    if ite (ℕ_discrete status 404) true false && should_auto_rescan pathname then refresh p else p
