-- ===== src/Mockup/Preview/Laws.antt =====
-- artifacts/mockup-sandbox/src/App.tsx: the addresses of previews, and loads that end late.
use Prim.Native.Char.{Char}
use text.Mathlib.TextLemmas.{nil-append, append-eq-nil_iff, append_assoc}
use text.Mathlib.TextEquality.{eq_iff}
use mathlib.Core.Logic.{if_neg}
use mathlib.Core.List.{Memᴰ}
use development_plan.Base.{
  String, ◌<>◌, ◌≡◌, ◌≢◌, ◌⊎◌, inl, inr, refl, sym, ap, ◌∙◌, subst, Bool, true, false, some, List,
  [], ◌∷◌, arith, Bool-cases, if_of_true, if_of_false, All, map, string_eq,
}
use development_plan.Mockup.Texts.{slice, after-append, slice-append}
use development_plan.Mockup.Plugin.{Node, discovered}
use development_plan.Mockup.Preview.{
  is_line, base_path, local_path, match_rest, match_preview, preview_path, blank, error, Outcome,
  outcome_view, Load, Renderer, cancel, give_path, run_effect, end_load,
}

abbrev preview : String
preview = "/preview/"

preview-given : preview ≢ ""
preview-given = ground (arith, eq_iff preview "")

local_path-append : (base rest : String) → rest ≢ "" → local_path base (base <> rest) ≡ rest
unfolding local_path string_eq
local_path-append base rest given = elim (string_eq.dec base "") [
  | yes e ↦ rw e (nil-append rest)
  | no n ↦ rw (if_neg _ n, after-append base rest) (rw (if_neg _ given) refl)
]

match_rest-some : (p : String) → p ≢ "" → is_line p ≡ true → match_rest (some p) ≡ some p
unfolding match_rest
match_rest-some p given line = rw line (ground (arith, given))

match_preview-append :
    (p : String) → p ≢ "" → is_line p ≡ true → match_preview (preview <> p) ≡ some p
unfolding match_preview
match_preview-append p given line =
    ap match_rest (after-append preview p) ∙ match_rest-some p given line

-- The address of a preview, below the base path of the server, asks for the mockup it names, where
-- the name is not empty and has no line end in it.
pub preview_path-append :
    (base_url p : String)
    → p ≢ ""
    → is_line p ≡ true
    → preview_path base_url (base_path base_url <> ("/preview/" <> p)) ≡ some p
unfolding preview_path
preview_path-append base_url p given line =
    ap match_preview (
      local_path-append (base_path base_url) (preview <> p)
        (λ e. preview-given ((append-eq-nil_iff {p = preview}).0 e).0))
    ∙ match_preview-append p given line

-- The plugin lists a mockup under the key by which the preview asks for it.
pub discovered-key :
    {Disk : Type 0} (node : Node Disk) (p : String)
    → (discovered node ("src/components/mockups/" <> (p <> ".tsx"))).glob_key
      ≡ "./components/mockups/" <> (p <> ".tsx")
unfolding discovered
discovered-key node p =
    let rest = "components/mockups/" <> (p <> ".tsx") in
    ap (λ f. "./" <> slice 4 f) (append_assoc "src/" "components/mockups/" (p <> ".tsx"))
    ∙ ap (λ s. "./" <> s) (slice-append "src/" rest)
    ∙ sym (append_assoc "./" "components/mockups/" (p <> ".tsx"))

abbrev IsLive : String → Load → Type 0
IsLive path l = l.cancelled ≡ false → l.path ≡ path

All-cancel : (path : String) (ls : List Load) → All (IsLive path) (map cancel ls)
All-cancel path [] = tt
All-cancel path (l ∷ ls) = (λ e. absurd (cc), All-cancel path ls)

All-Mem : (P : Load → Type 0) (l : Load) (ls : List Load) → All P ls → Memᴰ l ls → P l
All-Mem P l [] h m = elim m [ ]
All-Mem P l (x ∷ ls) (p, h) (Memᴰ.head e) = subst P (sym e) p
All-Mem P l (x ∷ ls) (p, h) (Memᴰ.tail m) = All-Mem P l ls h m

-- `Loads path outcome` tells that the import of the module of a path may end so.
module _ {C : Type 0} (slash : Char) (has_module : String → Bool)
    (Loads : String → Outcome C → Type 0) where
  -- What happens to a renderer: it is mounted, it is given a path, its effect runs, and loads end,
  -- each in its own time and as the module of its path does.
  pub data Shown : Renderer C → Type 0 where
    opened :
        (path : String)
        → Shown (record { path = path; effect_path = path; view = blank; loads = [] })
    given : {r : Renderer C} (path : String) → Shown r → Shown (give_path path r)
    effected : {r : Renderer C} → Shown r → Shown (run_effect has_module r)
    ended :
        {r : Renderer C} (load : Load) (outcome : Outcome C)
        → Memᴰ load r.loads
        → Loads load.path outcome
        → Shown r
        → Shown (end_load slash load outcome r)

  -- The view belongs to the path of the last effect.
  abbrev pub IsOwn : Renderer C → Type 0
  IsOwn r =
      (r.view ≡ blank)
      ⊎ ((r.view ≡ error ("No component found at " <> r.effect_path <> ".tsx"))
          ⊎ ((outcome : Outcome C) × Loads r.effect_path outcome
              × (r.view ≡ outcome_view slash r.effect_path outcome)))

  abbrev IsKept : Renderer C → Type 0
  IsKept r = IsOwn r × All (IsLive r.effect_path) r.loads

  run_effect-IsKept : (r : Renderer C) → IsKept (run_effect has_module r)
  unfolding run_effect
  run_effect-IsKept r =
      elim (Bool-cases (has_module ("./components/mockups/" <> r.path <> ".tsx"))) [
        | inl there ↦
            subst IsKept (sym (if_of_true _ _ there))
              (inl refl, (λ e. refl, All-cancel r.path r.loads))
        | inr missing ↦
            subst IsKept (sym (if_of_false _ _ missing)) (inr (inl refl), All-cancel r.path r.loads)
      ]

  end_load-IsKept :
      (load : Load) (outcome : Outcome C) (r : Renderer C)
      → Memᴰ load r.loads
      → Loads load.path outcome
      → IsKept r
      → IsKept (end_load slash load outcome r)
  unfolding end_load
  end_load-IsKept load outcome r m ends (own, live) = elim (Bool-cases load.cancelled) [
    | inl stopped ↦ subst IsKept (sym (if_of_true _ _ stopped)) (own, live)
    | inr running ↦
        let path = All-Mem (IsLive r.effect_path) load r.loads live m running in
        subst IsKept (sym (if_of_false _ _ running)) (
          inr (
              inr (
                outcome,
                subst (λ p. Loads p outcome) path ends,
                ap (λ p. outcome_view slash p outcome) path,
              )),
          live,
        )
  ]

  give_path-IsKept : (path : String) (r : Renderer C) → IsKept r → IsKept (give_path path r)
  unfolding give_path
  give_path-IsKept path r k = k

  -- In every order of renders, effects and ends of loads, what is shown belongs to the path for which
  -- the effect ran last, however late the loads of other paths end: it is nothing, or that this path
  -- has no module, or what an import of this path's own module shows.
  pub Shown-IsOwn : (r : Renderer C) → Shown r → IsOwn r
  Shown-IsOwn r h = (kept h).0
    where
      kept : {r : Renderer C} → Shown r → IsKept r
      kept (opened path) = (inl refl, tt)
      kept (given {r} path h) = give_path-IsKept path r (kept h)
      kept (effected {r} h) = run_effect-IsKept r
      kept (ended {r} load outcome m ends h) = end_load-IsKept load outcome r m ends (kept h)
