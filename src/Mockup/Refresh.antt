-- ===== src/Mockup/Refresh.antt =====
-- artifacts/mockup-sandbox/mockupPreviewPlugin.ts: calls of `refresh`, changes of the disk and the
-- waits of a running refresh, in any order.
pub mod Steps
pub mod Ends
use text.Mathlib.TextLemmas.{append-eq-nil_iff}
use text.Mathlib.TextEquality.{eq_iff}
use mathlib.Core.Logic.{if_pos, if_neg}
use development_plan.Base.{
  String, ◌<>◌, ◌≡◌, ◌≢◌, ◌⊎◌, inl, inr, refl, sym, ap, ◌∙◌, subst, Bool, true, false, Option, none,
  some, List, [], ◌∷◌, arith, Bool-cases, if_of_true, if_of_false, ◌==◌, string_eq, if◌then◌else◌,
}
use development_plan.Mockup.Texts.{join}
use development_plan.Mockup.Plugin.{
  Node, DiscoveredComponent, Plugin, Phase, resting, scanning, scanned, fresh_plugin, refresh, scan,
  resume, settle_refresh, fail_write, fail_scan, discover_components, generate_source,
}
use development_plan.Mockup.Refresh.Steps.{
  refresh-running, refresh-idle, settle_refresh-queued, settle_refresh-done, resume-same,
  resume-other,
}

abbrev heading : String
heading = "// This file is auto-generated by mockupPreviewPlugin.ts."

heading-given : heading ≢ ""
heading-given = ground (arith, eq_iff heading "")

module _ {Disk : Type 0} (node : Node Disk) where
  -- The disk, whether it has changed since `refresh` was last called, and the plugin.
  pub record World : Type 0 where
    pub disk : Disk
    pub unannounced : Bool
    pub plugin : Plugin

  abbrev pub first_world : Disk → Option String → World
  first_world disk file = record { disk = disk; unannounced = true; plugin = fresh_plugin file }

  pub data Reached (first : World) : World → Type 0 where
    start : Reached first first
    changed :
        {w : World} (d : Disk)
        → Reached first w
        → Reached first (record w { disk = d; unannounced = true })
    called :
        {w : World}
        → Reached first w
        → Reached first (record w { unannounced = false; plugin = refresh w.plugin })
    read :
        {w : World}
        → w.plugin.phase ≡ scanning
        → Reached first w
        → Reached first (record w { plugin = scan node w.disk w.plugin })
    resumed :
        {w : World} (c : List DiscoveredComponent)
        → w.plugin.phase ≡ scanned c
        → Reached first w
        → Reached first (record w { plugin = resume node c w.plugin })

  abbrev pub source_of : Disk → String
  source_of disk = generate_source node (discover_components node disk)

  -- Once something is generated, the file holds it.
  abbrev IsSaved : Plugin → Type 0
  IsSaved p = (p.current_source ≡ "") ⊎ (p.written ≡ some p.current_source)

  abbrev AtPhase : World → Phase → Type 0
  AtPhase w resting =
      (w.plugin.refresh_in_flight ≡ false)
      × (w.plugin.refresh_queued ≡ false)
      × (w.unannounced ≡ false → w.plugin.current_source ≡ source_of w.disk)
  AtPhase w scanning = w.plugin.refresh_in_flight ≡ true
  AtPhase w (scanned c) =
      (w.plugin.refresh_in_flight ≡ true)
      × ((w.plugin.refresh_queued ≡ true)
          ⊎ ((w.unannounced ≡ true) ⊎ (c ≡ discover_components node w.disk)))

  abbrev IsKept : World → Type 0
  IsKept w = IsSaved w.plugin × AtPhase w w.plugin.phase

  changed-AtPhase :
      (w : World) (d : Disk) (ph : Phase)
      → AtPhase w ph
      → AtPhase (record w { disk = d; unannounced = true }) ph
  changed-AtPhase w d resting (a, b, c) = (a, b, λ e. absurd (cc))
  changed-AtPhase w d scanning a = a
  changed-AtPhase w d (scanned c) (a, b) = (a, inr (inl refl))

  called-IsKept :
      (w : World) → IsKept w → IsKept (record w { unannounced = false; plugin = refresh w.plugin })
  called-IsKept w (saved, at) = elim (Bool-cases w.plugin.refresh_in_flight) [
    | inl flying ↦
        subst (λ p. IsKept (record w { unannounced = false; plugin = p }))
          (sym (refresh-running w.plugin flying)) (saved, queued w.plugin.phase flying at)
    | inr idle ↦
        subst (λ p. IsKept (record w { unannounced = false; plugin = p }))
          (sym (refresh-idle w.plugin idle)) (saved, refl)
  ]
    where
      queued :
          (ph : Phase)
          → w.plugin.refresh_in_flight ≡ true
          → AtPhase w ph
          → AtPhase
              (record w { unannounced = false; plugin = record w.plugin { refresh_queued = true } })
              ph
      queued resting flying (a, b, c) = absurd (cc)
      queued scanning flying a = a
      queued (scanned c) flying (a, b) = (a, inl refl)

  -- Why a listing will do: another scan follows, or a call is to come, or it is that of the disk.
  abbrev IsLatest : World → List DiscoveredComponent → Type 0
  IsLatest w c =
      (w.plugin.refresh_queued ≡ true)
      ⊎ ((w.unannounced ≡ true) ⊎ (c ≡ discover_components node w.disk))

  IsLatest-idle :
      (w : World) (c : List DiscoveredComponent)
      → IsLatest w c
      → w.plugin.refresh_queued ≡ false
      → w.unannounced ≡ false
      → c ≡ discover_components node w.disk
  IsLatest-idle w c (inl q) done announced = absurd (cc)
  IsLatest-idle w c (inr (inl u)) done announced = absurd (cc)
  IsLatest-idle w c (inr (inr e)) done announced = e

  settle-IsKept :
      (w : World) (c : List DiscoveredComponent)
      → IsSaved w.plugin
      → w.plugin.current_source ≡ generate_source node c
      → IsLatest w c
      → IsKept (record w { plugin = settle_refresh w.plugin })
  settle-IsKept w c saved current why = elim (Bool-cases w.plugin.refresh_queued) [
    | inl queued ↦
        subst (λ p. IsKept (record w { plugin = p })) (sym (settle_refresh-queued w.plugin queued))
          (saved, refl)
    | inr done ↦
        subst (λ p. IsKept (record w { plugin = p })) (sym (settle_refresh-done w.plugin done))
          (
            saved,
            (
              refl,
              done,
              λ announced.
                  current ∙ ap (generate_source node) (IsLatest-idle w c why done announced),
            ),
          )
  ]

  resume-IsKept :
      (w : World) (c : List DiscoveredComponent)
      → w.plugin.phase ≡ scanned c
      → IsKept w
      → IsKept (record w { plugin = resume node c w.plugin })
  resume-IsKept w c there (saved, at) =
      let (_, why) = subst (AtPhase w) there at in
      elim (string_eq.dec (generate_source node c) w.plugin.current_source) [
        | yes same ↦
            subst (λ p. IsKept (record w { plugin = p })) (sym (resume-same node c w.plugin same))
              (settle-IsKept w c saved (sym same) why)
        | no other ↦
            subst (λ p. IsKept (record w { plugin = p })) (sym (resume-other node c w.plugin other))
              (settle-IsKept
                (record w {
                  plugin = record w.plugin {
                    current_source = generate_source node c;
                    written = some (generate_source node c);
                  };
                })
                c (inr refl) refl why)
      ]

  Reached-IsKept :
      (disk : Disk) (file : Option String) {w : World}
      → Reached (first_world disk file) w
      → IsKept w
  unfolding scan
  Reached-IsKept disk file start = (inl refl, (refl, refl, λ e. absurd (cc)))
  Reached-IsKept disk file (changed {w} d h) =
      let (saved, at) = Reached-IsKept disk file h in (saved, changed-AtPhase w d w.plugin.phase at)
  Reached-IsKept disk file (called {w} h) = called-IsKept w (Reached-IsKept disk file h)
  Reached-IsKept disk file (read {w} there h) =
      let (saved, at) = Reached-IsKept disk file h in
      (saved, (subst (AtPhase w) there at, inr (inr refl)))
  Reached-IsKept disk file (resumed {w} c there h) =
      resume-IsKept w c there (Reached-IsKept disk file h)

  source-given : (c : List DiscoveredComponent) → generate_source node c ≢ ""
  unfolding generate_source join
  source-given c e = heading-given ((append-eq-nil_iff {p = heading}).0 e).0

  -- Whatever the order of changes, calls and waits: when no refresh is in flight and `refresh` has
  -- been called since the last change, the generated file holds the module of the mockups that are
  -- on the disk, if no scan and no write has thrown.
  pub refresh-current :
      (disk : Disk) (file : Option String) (w : World)
      → Reached (first_world disk file) w
      → w.plugin.refresh_in_flight ≡ false
      → w.unannounced ≡ false
      → w.plugin.written ≡ some (source_of w.disk)
  refresh-current disk file w h idle announced =
      let (saved, at) = Reached-IsKept disk file h in
      let current = go w.plugin.phase at in
      elim saved [
        | inl unset ↦ absurd (source-given _ (sym current ∙ unset))
        | inr kept ↦ kept ∙ ap some current
      ]
    where
      go : (ph : Phase) → AtPhase w ph → w.plugin.current_source ≡ source_of w.disk
      go resting (_, _, c) = c announced
      go scanning a = absurd (cc)
      go (scanned c) (a, _) = absurd (cc)
