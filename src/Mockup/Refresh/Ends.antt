-- ===== src/Mockup/Refresh/Ends.antt =====
-- artifacts/mockup-sandbox/mockupPreviewPlugin.ts: how a running `refresh` ends.
use development_plan.Base.{◌≡◌, inl, inr, refl, ap, ◌∙◌, false, some, List, Bool-cases, string_eq}
use development_plan.Mockup.Plugin.{
  Node, DiscoveredComponent, Plugin, refresh, scan, resume, settle_refresh, fail_write, fail_scan,
  discover_components, generate_source,
}
use development_plan.Mockup.Refresh.Steps.{
  settle_refresh-queued, settle_refresh-done, resume-same, resume-other,
}

module _ {Disk : Type 0} (node : Node Disk) where
  abbrev pub round : Disk → Plugin → Plugin
  round disk p = resume node (discover_components node disk) (scan node disk p)

  settle_refresh-ends :
      (p : Plugin)
      → ((settle_refresh p).refresh_in_flight ≡ p.refresh_queued)
        × ((settle_refresh p).refresh_queued ≡ false)
        × ((settle_refresh p).written ≡ p.written)
  settle_refresh-ends p = elim (Bool-cases p.refresh_queued) [
    | inl queued ↦ rw (settle_refresh-queued p queued, queued) (refl, refl, refl)
    | inr done ↦ rw (settle_refresh-done p done, done) (refl, refl, refl)
  ]

  resume-ends :
      (c : List DiscoveredComponent) (p : Plugin)
      → ((resume node c p).refresh_in_flight ≡ p.refresh_queued)
        × ((resume node c p).refresh_queued ≡ false)
  resume-ends c p = elim (string_eq.dec (generate_source node c) p.current_source) [
    | yes same ↦
        let (flies, done, _) = settle_refresh-ends p in rw (resume-same node c p same) (flies, done)
    | no other ↦
        let (flies, done, _) = settle_refresh-ends (record p {
          current_source = generate_source node c;
          written = some (generate_source node c);
        }) in
        rw (resume-other node c p other) (flies, done)
  ]

  -- A running refresh ends: where nothing calls it meanwhile, it scans once more only if a call was
  -- queued, and not a third time.
  pub round-ends :
      (disk : Disk) (p : Plugin)
      → ((round disk p).refresh_in_flight ≡ p.refresh_queued)
        × ((round disk (round disk p)).refresh_in_flight ≡ false)
  unfolding scan
  round-ends disk p =
      let (flies, done) = resume-ends (discover_components node disk) (scan node disk p) in
      let (flies', _) =
        resume-ends (discover_components node disk) (scan node disk (round disk p)) in
      (flies, flies' ∙ done)

  -- Where the write of a refresh has thrown, the next refresh that scans a disk with the same mockups
  -- leaves the generated file as it was before.
  pub resume-fail_write :
      (disk later : Disk) (p : Plugin)
      → discover_components node later ≡ discover_components node disk
      → (round later (refresh (fail_write node (discover_components node disk) p))).written
        ≡ p.written
  unfolding refresh scan fail_write fail_scan
  resume-fail_write disk later p same =
      let p' = scan node later (refresh (fail_write node (discover_components node disk) p)) in
      rw (resume-same node (discover_components node later) p' (ap (generate_source node) same))
        ((settle_refresh-ends p').2)
