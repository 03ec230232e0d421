-- ===== src/Toast/Laws.antt =====
-- artifacts/landvault-web/src/hooks/use-toast.ts: the states that are reached, and dismissals.
use development_plan.Base.{
  ℕ, String, ◌≡◌, ◌≢◌, refl, true, false, not, Option, none, some, List, [], ◌∷◌, keep, find, at,
  ◌==◌, string_eq, arith,
}
use development_plan.Toast.{
  ToasterToast, Toast, ToastChanges, dismiss_toast, Store, has, add_to_remove_queue,
  queue_dismissed, reducer, dispatch, toast, update, expire, render, subscribe, unmount,
}
use development_plan.Toast.Waiting.{
  IsOrderly, expire-IsOrderly, toast-IsOrderly, update-IsOrderly, dismiss-IsOrderly,
  render-IsOrderly, subscribe-IsOrderly, unmount-IsOrderly, has-add_same,
}

abbrev pub toast_key : {Node : Type 0} → ToasterToast Node → String
toast_key t = t.id

add_twice :
    (id : String) (ks : List String)
    → add_to_remove_queue id (add_to_remove_queue id ks) ≡ add_to_remove_queue id ks
unfolding add_to_remove_queue
add_twice id ks = ground arith

module _ {Node : Type 0} where
  abbrev pub initial : Store Node
  initial = record { toasts = []; timeouts = []; count = 0; mounting = []; shown = [] }

  -- What happens to the module from its start, in any order. An `update` may do all but close.
  pub data Reached (to_string : ℕ → String) : Store Node → Type 0 where
    start : Reached to_string initial
    toasted :
        {s : Store Node} (props : Toast Node)
        → Reached to_string s
        → Reached to_string (toast to_string props s)
    updated :
        {s : Store Node} (id : String) (c : ToastChanges Node)
        → c.is_open ≢ some (some false)
        → Reached to_string s
        → Reached to_string (update id c s)
    dismissed :
        {s : Store Node} (id : Option String)
        → Reached to_string s
        → Reached to_string (dispatch (dismiss_toast id) s)
    expired : {s : Store Node} (id : String) → Reached to_string s → Reached to_string (expire id s)
    rendered : {s : Store Node} → Reached to_string s → Reached to_string (render s)
    subscribed : {s : Store Node} → Reached to_string s → Reached to_string (subscribe s)
    unmounted :
        {s : Store Node} (index : ℕ) → Reached to_string s → Reached to_string (unmount index s)

  -- In every state that is reached, where `update` closes no toast: one toast at most is there, and
  -- every closed toast has a timer that is to remove it.
  pub Reached-IsOrderly :
      (to_string : ℕ → String) {s : Store Node} → Reached to_string s → IsOrderly s
  Reached-IsOrderly to_string start = record { waiting = tt; few = omega arith }
  Reached-IsOrderly to_string (toasted {s} props h) = toast-IsOrderly to_string props s
  Reached-IsOrderly to_string (updated {s} id c kept h) =
      update-IsOrderly id c s kept (Reached-IsOrderly to_string h)
  Reached-IsOrderly to_string (dismissed {s} id h) =
      dismiss-IsOrderly id s (Reached-IsOrderly to_string h)
  Reached-IsOrderly to_string (expired {s} id h) =
      expire-IsOrderly id s (Reached-IsOrderly to_string h)
  Reached-IsOrderly to_string (rendered {s} h) = render-IsOrderly s (Reached-IsOrderly to_string h)
  Reached-IsOrderly to_string (subscribed {s} h) =
      subscribe-IsOrderly s (Reached-IsOrderly to_string h)
  Reached-IsOrderly to_string (unmounted {s} index h) =
      unmount-IsOrderly index s (Reached-IsOrderly to_string h)

  find-keep_gone :
      (id : String) (ts : List (ToasterToast Node))
      → find (at toast_key id) (keep (λ t. not (t.id == id)) ts) ≡ none
  find-keep_gone id [] = refl
  find-keep_gone id (t ∷ ts) = ground (arith, find-keep_gone id ts)

  expire-gone :
      (id : String) (s : Store Node)
      → has id s.timeouts ≡ true
      → find (at toast_key id) (expire id s).toasts ≡ none
  unfolding expire dispatch reducer
  expire-gone id s set = rw set (find-keep_gone id s.toasts)

  dismiss-has :
      (id : String) (s : Store Node)
      → id ≢ ""
      → has id (dispatch (dismiss_toast (some id)) s).timeouts ≡ true
  unfolding dispatch reducer queue_dismissed
  dismiss-has id s given = ground (arith, has-add_same id s.timeouts)

  -- A toast that is dismissed by its id, which is not empty, is gone once its timer has run out.
  pub expire-dismiss :
      (id : String) (s : Store Node)
      → id ≢ ""
      → find (at toast_key id) (expire id (dispatch (dismiss_toast (some id)) s)).toasts ≡ none
  expire-dismiss id s given =
      expire-gone id (dispatch (dismiss_toast (some id)) s) (dismiss-has id s given)

  -- A second dismissal by the same id, which is not empty, sets no second timer.
  pub dismiss_twice :
      (id : String) (s : Store Node)
      → id ≢ ""
      → (dispatch (dismiss_toast (some id)) (dispatch (dismiss_toast (some id)) s)).timeouts
        ≡ (dispatch (dismiss_toast (some id)) s).timeouts
  unfolding dispatch reducer queue_dismissed
  dismiss_twice id s given = ground (arith, add_twice id s.timeouts)
