-- ===== src/Mockup/Refresh/Steps.antt =====
-- artifacts/mockup-sandbox/mockupPreviewPlugin.ts: the branches of `refresh` as equations.
use mathlib.Core.Logic.{if_pos, if_neg}
use development_plan.Base.{
  ◌≡◌, ◌≢◌, refl, true, false, some, List, if_of_true, if_of_false, string_eq,
}
use development_plan.Mockup.Plugin.{
  Node, DiscoveredComponent, Plugin, resting, scanning, refresh, resume, settle_refresh,
  generate_source,
}

pub refresh-running :
    (p : Plugin) → p.refresh_in_flight ≡ true → refresh p ≡ record p { refresh_queued = true }
unfolding refresh
refresh-running p flying = if_of_true _ _ flying

pub refresh-idle :
    (p : Plugin)
    → p.refresh_in_flight ≡ false
    → refresh p ≡ record p { refresh_in_flight = true; phase = scanning }
unfolding refresh
refresh-idle p idle = if_of_false _ _ idle

pub settle_refresh-queued :
    (p : Plugin)
    → p.refresh_queued ≡ true
    → settle_refresh p
      ≡ record p { refresh_in_flight = true; refresh_queued = false; phase = scanning }
unfolding settle_refresh refresh
settle_refresh-queued p queued = if_of_true _ _ queued

pub settle_refresh-done :
    (p : Plugin)
    → p.refresh_queued ≡ false
    → settle_refresh p ≡ record p { refresh_in_flight = false; phase = resting }
unfolding settle_refresh
settle_refresh-done p done = if_of_false _ _ done

module _ {Disk : Type 0} (node : Node Disk) (c : List DiscoveredComponent) (p : Plugin) where
  pub resume-same : generate_source node c ≡ p.current_source → resume node c p ≡ settle_refresh p
  unfolding resume
  resume-same same = rw (if_pos _ same) refl

  pub resume-other :
      generate_source node c ≢ p.current_source
      → resume node c p
        ≡ settle_refresh (record p {
          current_source = generate_source node c;
          written = some (generate_source node c);
        })
  unfolding resume
  resume-other other = rw (if_neg _ other) refl
