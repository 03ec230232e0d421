-- ===== src/Tests/MockupRuns.antt =====
-- Two mockups come and go while the preview server runs.
use package.text.Mathlib.TextEquality.{eq_iff}
use mathlib.Core.List.{Memᴰ}
use development_plan.Base.{
  String, ◌<>◌, ◌≡◌, ◌≢◌, refl, Bool, true, false, none, some, List, [], ◌∷◌, arith, ◌==◌,
  string_eq, if◌then◌else◌,
}
use development_plan.Mockup.Texts.{after, slice, starts_with, ends_with, join, same_char}
use development_plan.Mockup.Plugin.{
  Node, fresh_plugin, refresh, scan, resume, settle_refresh, discovered, discover_components,
  generate_source, entry, fail_write, is_mockup_file, on_unlink,
}
use development_plan.Mockup.Refresh.{
  World, first_world, Reached, start, changed, called, read, resumed, source_of, refresh-current,
}
use development_plan.Mockup.Refresh.Ends.{round, round-ends, resume-fail_write}
use development_plan.Mockup.Preview.{
  function, other, resolve_component, exported, last_function, base_path, preview_path, is_line,
  blank, loaded, Load, Renderer, Outcome, give_path, run_effect, end_load,
}
use development_plan.Mockup.Preview.Laws.{
  preview_path-append, opened, effected, ended, Shown, IsOwn, Shown-IsOwn,
}

-- The disk is the list of the mockups' files.
abbrev node : Node (List String)
node = record {
  join_paths = λ a b. a <> "/" <> b;
  relative = λ dir file. if dir == file then "" else "a.tsx";
  posix_relative = λ dir file. "../components/mockups/A.tsx";
  is_absolute = λ s. false;
  sep = "/";
  glob = λ pattern ignored disk. disk;
  stringify = λ s. "\"" <> s <> "\"";
}

abbrev file_a : String
file_a = "src/components/mockups/A.tsx"

abbrev w0 : World node
w0 = first_world node [] none

-- A change while the files are being read: the call is queued, and the files are read again.
abbrev w1 : World node
w1 = record w0 { unannounced = false; plugin = refresh w0.plugin }

abbrev w2 : World node
w2 = record w1 { plugin = scan node w1.disk w1.plugin }

abbrev w3 : World node
w3 = record w2 { disk = file_a ∷ []; unannounced = true }

abbrev w4 : World node
w4 = record w3 { unannounced = false; plugin = refresh w3.plugin }

abbrev w5 : World node
w5 = record w4 { plugin = resume node (discover_components node []) w4.plugin }

abbrev w6 : World node
w6 = record w5 { plugin = scan node w5.disk w5.plugin }

abbrev w7 : World node
w7 = record w6 { plugin = resume node (discover_components node (file_a ∷ [])) w6.plugin }

w7-Reached : Reached node w0 w7
unfolding refresh scan resume settle_refresh string_eq generate_source entry join
    discover_components discovered slice
w7-Reached = resumed (discover_components node (file_a ∷ [])) refl (
    read refl (
      resumed (discover_components node []) refl
        (called (changed (file_a ∷ []) (read refl (called start))))))

refresh-current_example : w7.plugin.written ≡ some (source_of node w7.disk)
unfolding refresh scan resume settle_refresh string_eq generate_source entry join
    discover_components discovered slice
refresh-current_example = refresh-current node [] none w7 w7-Reached refl refl

round-ends_example :
    ((round node [] w1.plugin).refresh_in_flight ≡ w1.plugin.refresh_queued)
    × ((round node [] (round node [] w1.plugin)).refresh_in_flight ≡ false)
round-ends_example = round-ends node [] w1.plugin

resume-fail_write_example :
    (round node [] (refresh (fail_write node (discover_components node []) w2.plugin))).written
    ≡ w2.plugin.written
resume-fail_write_example = resume-fail_write node [] [] w2.plugin refl

given : ◌≢◌ {A = String} "A" ""
given = ground (arith, eq_iff "A" "")

preview_path-append_example :
    preview_path "/sandbox/" (base_path "/sandbox/" <> ("/preview/" <> "A")) ≡ some "A"
unfolding is_line
preview_path-append_example = preview_path-append "/sandbox/" "A" given refl

abbrev has_a : String → Bool
has_a key = true

abbrev r0 : Renderer String
r0 = record { path = "A"; effect_path = "A"; view = blank; loads = [] }

abbrev r1 : Renderer String
r1 = run_effect has_a (give_path "B" (run_effect has_a r0))

abbrev late : Load
late = record { path = "A"; cancelled = true }

-- Each module exports a component with the name of its path.
abbrev Exports : String → Outcome String → Type 0
Exports path outcome = outcome ≡ loaded ((path, function path) ∷ [])

Shown-IsOwn_example :
    IsOwn "/" has_a Exports (end_load "/" late (loaded (("A", function "A") ∷ [])) r1)
unfolding run_effect give_path
Shown-IsOwn_example =
    Shown-IsOwn "/" has_a Exports (end_load "/" late (loaded (("A", function "A") ∷ [])) r1) (
      ended late (loaded (("A", function "A") ∷ [])) (Memᴰ.tail (Memᴰ.head refl)) refl
        (effected (Shown.given "B" (effected (opened "A")))))

-- A default export comes first, else the last function.
resolved :
    (resolve_component {C = String}
        (("x", function "one") ∷ ("y", other true) ∷ ("z", function "two") ∷ [])
        "w"
      ≡ some (function "two"))
    × (resolve_component {C = String}
          (("x", function "one") ∷ ("default", function "three") ∷ [])
          "x"
        ≡ some (function "three"))
unfolding resolve_component exported last_function string_eq
resolved = (refl, refl)

added : on_unlink node "/r" "/r/a" (fresh_plugin none) ≡ refresh (fresh_plugin none)
unfolding on_unlink is_mockup_file starts_with ends_with after same_char string_eq
added = refl
