-- ===== src/Toast.antt =====
-- artifacts/landvault-web/src/hooks/use-toast.ts: the notifications of the web application, of
-- which one is shown at a time. The module's variables are one record: the notifications, the
-- timers that wait to remove one, the counter of ids, what each component that waits for its effect
-- has read at its first render, and what each component that listens was last told.
pub mod Waiting
pub mod Laws
use mathlib.Core.Option.{get_or}
use development_plan.Base.{
  ℕ, zero, suc, ◌+◌, ◌%◌, ◌++◌, String, Bool, true, false, not, ◌||◌, Option, none, some, List, [],
  ◌∷◌, map, keep, take, ◌==◌, string_eq, if◌then◌else◌,
}

abbrev pub toast_limit : ℕ
toast_limit = 1

-- The fields that the application sets. `Node` is a piece of the page. `onOpenChange` is no data: it
-- dismisses the toast by its id.
pub record ToasterToast (Node : Type 0) : Type 0 where
  pub id : String
  pub title : Option Node
  pub description : Option Node
  pub action : Option Node
  pub variant : Option String
  pub is_open : Option Bool

-- `Omit<ToasterToast, 'id'>`
pub record Toast (Node : Type 0) : Type 0 where
  pub title : Option Node
  pub description : Option Node
  pub action : Option Node
  pub variant : Option String

-- `Partial<ToasterToast>`: `none` is a key that is not there.
pub record ToastChanges (Node : Type 0) : Type 0 where
  pub id : Option String
  pub title : Option (Option Node)
  pub description : Option (Option Node)
  pub action : Option (Option Node)
  pub variant : Option (Option String)
  pub is_open : Option (Option Bool)

pub data Action (Node : Type 0) : Type 0 where
  add_toast : ToasterToast Node → Action Node
  update_toast : ToastChanges Node → Action Node
  dismiss_toast : Option String → Action Node
  remove_toast : Option String → Action Node

pub record Store (Node : Type 0) : Type 0 where
  pub toasts : List (ToasterToast Node)
  pub timeouts : List String
  pub count : ℕ
  pub mounting : List (List (ToasterToast Node))
  pub shown : List (List (ToasterToast Node))

-- `toastTimeouts.has(id)`
abbrev pub has : String → List String → Bool
has id [] = false
has id (k ∷ ks) = k == id || has id ks

-- A toast that waits for its removal already does not wait anew.
unfoldable pub add_to_remove_queue : String → List String → List String
add_to_remove_queue id timeouts = if has id timeouts then timeouts else id ∷ timeouts

-- `s === id`
abbrev pub is_named : Option String → String → Bool
is_named none s = false
is_named (some id) s = s == id

unfoldable pub is_undefined : Option String → Bool
is_undefined none = true
is_undefined (some _) = false

module _ {Node : Type 0} where
  -- `{ ...t, ...changes }`
  abbrev pub spread : ToastChanges Node → ToasterToast Node → ToasterToast Node
  spread c t = record {
    id = get_or c.id t.id;
    title = get_or c.title t.title;
    description = get_or c.description t.description;
    action = get_or c.action t.action;
    variant = get_or c.variant t.variant;
    is_open = get_or c.is_open t.is_open;
  }

  abbrev pub closed : ToasterToast Node → ToasterToast Node
  closed t = record t { is_open = some false }

  unfoldable pub queue_all : List (ToasterToast Node) → List String → List String
  queue_all [] timeouts = timeouts
  queue_all (t ∷ ts) timeouts = queue_all ts (add_to_remove_queue t.id timeouts)

  -- The side effect of `DISMISS_TOAST`: an id that is not empty is queued, else every toast.
  unfoldable pub queue_dismissed :
      Option String → List (ToasterToast Node) → List String → List String
  queue_dismissed none toasts timeouts = queue_all toasts timeouts
  queue_dismissed (some id) toasts timeouts =
      if id == "" then queue_all toasts timeouts else add_to_remove_queue id timeouts

  unfoldable pub reducer :
      List (ToasterToast Node) → Action Node → List String → List (ToasterToast Node) × List String
  unfolding is_undefined
  reducer toasts (add_toast t) timeouts = (take toast_limit (t ∷ toasts), timeouts)
  reducer toasts (update_toast c) timeouts =
      (map (λ t. if is_named c.id t.id then spread c t else t) toasts, timeouts)
  reducer toasts (dismiss_toast id) timeouts = (
    map (λ t. if is_named id t.id || is_undefined id then closed t else t) toasts,
    queue_dismissed id toasts timeouts,
  )
  reducer toasts (remove_toast none) timeouts = ([], timeouts)
  reducer toasts (remove_toast (some id)) timeouts = (keep (λ t. not (t.id == id)) toasts, timeouts)

  -- Every listener is told the new state.
  unfoldable pub dispatch : Action Node → Store Node → Store Node
  dispatch action store =
      let (toasts, timeouts) = reducer store.toasts action store.timeouts in
      record store { toasts = toasts; timeouts = timeouts; shown = map (λ _. toasts) store.shown }

-- `genId`, modulo `Number.MAX_SAFE_INTEGER`
abbrev pub next_count : ℕ → ℕ
next_count count = (count + 1) % 9007199254740991

module _ {Node : Type 0} (to_string : ℕ → String) where
  unfoldable pub toast : Toast Node → Store Node → Store Node
  toast props store =
      let count = next_count store.count in
      dispatch
        (add_toast (record {
          id = to_string count;
          title = props.title;
          description = props.description;
          action = props.action;
          variant = props.variant;
          is_open = some true;
        }))
        (record store { count = count })

module _ {Node : Type 0} where
  -- The function `update` that `toast` returns with an id.
  unfoldable pub update : String → ToastChanges Node → Store Node → Store Node
  update id props = dispatch (update_toast (record props { id = some id }))

  -- A timer that is set runs out.
  unfoldable pub expire : String → Store Node → Store Node
  expire id store =
      if has id store.timeouts
      then dispatch (remove_toast (some id))
          (record store { timeouts = keep (λ k. not (k == id)) store.timeouts })
      else store

  -- `useToast` in the first render of a component: `useState(memoryState)`
  unfoldable pub render : Store Node → Store Node
  render store = record store { mounting = store.mounting ++ (store.toasts ∷ []) }

  abbrev pub subscribe_first : List (List (ToasterToast Node)) → Store Node → Store Node
  subscribe_first [] store = store
  subscribe_first (state ∷ states) store = record store {
    mounting = states;
    shown = store.shown ++ (state ∷ []);
  }

  -- Its effect, later: `listeners.push(setState)`. The component keeps what it read.
  unfoldable pub subscribe : Store Node → Store Node
  subscribe store = subscribe_first store.mounting store

  -- `listeners.splice(index, 1)`
  unfoldable pub splice : ℕ → List (List (ToasterToast Node)) → List (List (ToasterToast Node))
  splice index [] = []
  splice zero (l ∷ ls) = ls
  splice (suc index) (l ∷ ls) = l ∷ splice index ls

  -- and its clean-up
  unfoldable pub unmount : ℕ → Store Node → Store Node
  unmount index store = record store { shown = splice index store.shown }
