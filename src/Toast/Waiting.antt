-- ===== src/Toast/Waiting.antt =====
-- artifacts/landvault-web/src/hooks/use-toast.ts: closed toasts and their timers, and the
-- number of toasts.
use development_plan.Base.{
  ℕ, suc, ◌≤◌, String, ◌≡◌, ◌≢◌, refl, Bool, true, false, not, ◌||◌, Option, none, some, List, [],
  ◌∷◌, map, keep, length, All, ◌==◌, string_eq, if◌then◌else◌, arith, Bool-cases, inl, inr, ap,
}
use development_plan.Base.RowLaws
use development_plan.Toast.{
  ToasterToast, Toast, ToastChanges, Action, add_toast, update_toast, dismiss_toast, remove_toast,
  Store, has, add_to_remove_queue, is_named, queue_all, queue_dismissed, reducer, dispatch, toast,
  update, expire, render, subscribe_first, subscribe, unmount, spread, closed, toast_limit,
  is_undefined,
}

has-add :
    (id k : String) (ks : List String) → has id ks ≡ true → has id (add_to_remove_queue k ks) ≡ true
unfolding add_to_remove_queue
has-add id k ks h = ground arith

pub has-add_same : (id : String) (ks : List String) → has id (add_to_remove_queue id ks) ≡ true
unfolding add_to_remove_queue
has-add_same id ks = ground arith

has-delete :
    (id k : String) (ks : List String)
    → k ≢ id
    → has k ks ≡ true
    → has k (keep (λ x. not (x == id)) ks) ≡ true
has-delete id k [] n h = h
has-delete id k (x ∷ xs) n h = ground (arith, has-delete id k xs n)

module _ {Node : Type 0} where
  has-queue_all :
      (id : String) (ts : List (ToasterToast Node)) (ks : List String)
      → has id ks ≡ true
      → has id (queue_all ts ks) ≡ true
  unfolding queue_all
  has-queue_all id [] ks h = h
  has-queue_all id (t ∷ ts) ks h = has-queue_all id ts _ (has-add id t.id ks h)

  -- All toasts wait once all are queued.
  pub queue_all_lem :
      (ts : List (ToasterToast Node)) (ks : List String)
      → All (λ t. has t.id (queue_all ts ks) ≡ true) ts
  unfolding queue_all
  queue_all_lem [] ks = tt
  queue_all_lem (t ∷ ts) ks = (has-queue_all t.id ts _ (has-add_same t.id ks), queue_all_lem ts _)

  has-queue_dismissed :
      (k : String) (id : Option String) (ts : List (ToasterToast Node)) (ks : List String)
      → has k ks ≡ true
      → has k (queue_dismissed id ts ks) ≡ true
  unfolding queue_dismissed
  has-queue_dismissed k none ts ks h = has-queue_all k ts ks h
  has-queue_dismissed k (some id) ts ks h =
      ground (arith, has-queue_all k ts ks h, has-add k id ks h)

  -- A closed toast has a timer that is to remove it.
  abbrev pub IsWaiting : List String → ToasterToast Node → Type 0
  IsWaiting timeouts t = t.is_open ≡ some false → has t.id timeouts ≡ true

  pub record IsOrderly (store : Store Node) : Type 0 where
    pub waiting : All (IsWaiting store.timeouts) store.toasts
    pub few : length store.toasts ≤ toast_limit

  length-map :
      (f : ToasterToast Node → ToasterToast Node) (ts : List (ToasterToast Node))
      → length (map f ts) ≡ length ts
  length-map f [] = refl
  length-map f (t ∷ ts) = ap suc (length-map f ts)

  length-keep :
      (test : ToasterToast Node → Bool) (ts : List (ToasterToast Node))
      → length (keep test ts) ≤ length ts
  length-keep test [] = omega arith
  length-keep test (t ∷ ts) = ground (arith, length-keep test ts)

  -- The toasts after an action: waiting, and not too many.
  abbrev Reduces : List (ToasterToast Node) → List String → Type 0
  Reduces ts timeouts = All (IsWaiting timeouts) ts × (length ts ≤ toast_limit)

  dispatch-IsOrderly :
      (a : Action Node) (store : Store Node)
      → (let (ts, ks) = reducer store.toasts a store.timeouts in Reduces ts ks)
      → IsOrderly (dispatch a store)
  unfolding dispatch
  dispatch-IsOrderly a store (waiting, few) = record { waiting = waiting; few = few }

  add-Reduces :
      (t : ToasterToast Node) (ts : List (ToasterToast Node)) (ks : List String)
      → t.is_open ≡ some true
      → (let (ts', ks') = reducer ts (add_toast t) ks in Reduces ts' ks')
  unfolding reducer
  add-Reduces t ts ks opened = ((λ e. cc, tt), omega arith)

  spread-IsWaiting :
      (c : ToastChanges Node) (ks : List String) (t : ToasterToast Node)
      → c.is_open ≢ some (some false)
      → IsWaiting ks t
      → IsWaiting ks (if is_named c.id t.id then spread c t else t)
  spread-IsWaiting c ks t kept w e = ground arith

  update-Reduces :
      (c : ToastChanges Node) (ts : List (ToasterToast Node)) (ks : List String)
      → c.is_open ≢ some (some false)
      → Reduces ts ks
      → (let (ts', ks') = reducer ts (update_toast c) ks in Reduces ts' ks')
  unfolding reducer
  update-Reduces c ts ks kept (waiting, few) = (
    RowLaws.All-map (IsWaiting ks) _ ts
        (RowLaws.All-imp (λ t w. spread-IsWaiting c ks t kept w) ts waiting),
    rw (length-map _ ts) few,
  )

  closed-IsWaiting :
      (id : Option String) (ts : List (ToasterToast Node)) (ks : List String)
      (t : ToasterToast Node)
      → IsWaiting ks t
      → has t.id (queue_all ts ks) ≡ true
      → IsWaiting
          (queue_dismissed id ts ks)
          (if is_named id t.id || is_undefined id then closed t else t)
  unfolding queue_dismissed is_undefined
  closed-IsWaiting none ts ks t w q e = q
  closed-IsWaiting (some id) ts ks t w q e = ground (arith, has-add_same id ks, has-add t.id id ks)

  dismiss-Reduces :
      (id : Option String) (ts : List (ToasterToast Node)) (ks : List String)
      → Reduces ts ks
      → (let (ts', ks') = reducer ts (dismiss_toast id) ks in Reduces ts' ks')
  unfolding reducer
  dismiss-Reduces id ts ks (waiting, few) = (
    RowLaws.All-map (IsWaiting (queue_dismissed id ts ks)) _ ts (
        RowLaws.All-imp₂ (λ t w q. closed-IsWaiting id ts ks t w q) ts waiting
          (queue_all_lem ts ks)),
    rw (length-map _ ts) few,
  )

  removed-IsWaiting :
      (id : String) (ks : List String) (t : ToasterToast Node)
      → not (t.id == id) ≡ true
      → IsWaiting ks t
      → IsWaiting (keep (λ k. not (k == id)) ks) t
  removed-IsWaiting id ks t other w e = has-delete id t.id ks (ground arith) (w e)

  pub expire-IsOrderly :
      (id : String) (store : Store Node) → IsOrderly store → IsOrderly (expire id store)
  unfolding expire reducer
  expire-IsOrderly id store k = elim (Bool-cases (has id store.timeouts)) [
    | inl set ↦ rw set (
        dispatch-IsOrderly (remove_toast (some id))
          (record store { timeouts = keep (λ k. not (k == id)) store.timeouts })
          (
            RowLaws.All-imp (λ t (other, w). removed-IsWaiting id store.timeouts t other w) _
                (RowLaws.All-keep (IsWaiting store.timeouts) _ store.toasts k.waiting),
            omega (arith, length-keep (λ t. not (t.id == id)) store.toasts, k.few),
          ))
    | inr unset ↦ rw unset k
  ]

  pub toast-IsOrderly :
      (to_string : ℕ → String) (props : Toast Node) (store : Store Node)
      → IsOrderly (toast to_string props store)
  unfolding toast
  toast-IsOrderly to_string props store =
      dispatch-IsOrderly _ _ (add-Reduces _ store.toasts store.timeouts refl)

  pub update-IsOrderly :
      (id : String) (c : ToastChanges Node) (store : Store Node)
      → c.is_open ≢ some (some false)
      → IsOrderly store
      → IsOrderly (update id c store)
  unfolding update
  update-IsOrderly id c store kept k =
      dispatch-IsOrderly _ store
        (update-Reduces _ store.toasts store.timeouts kept (k.waiting, k.few))

  pub dismiss-IsOrderly :
      (id : Option String) (store : Store Node)
      → IsOrderly store
      → IsOrderly (dispatch (dismiss_toast id) store)
  dismiss-IsOrderly id store k =
      dispatch-IsOrderly _ store (dismiss-Reduces id store.toasts store.timeouts (k.waiting, k.few))

  pub render-IsOrderly : (store : Store Node) → IsOrderly store → IsOrderly (render store)
  unfolding render
  render-IsOrderly store k = record { waiting = k.waiting; few = k.few }

  subscribe_first-IsOrderly :
      (states : List (List (ToasterToast Node))) (store : Store Node)
      → IsOrderly store
      → IsOrderly (subscribe_first states store)
  subscribe_first-IsOrderly [] store k = k
  subscribe_first-IsOrderly (state ∷ states) store k = record { waiting = k.waiting; few = k.few }

  pub subscribe-IsOrderly : (store : Store Node) → IsOrderly store → IsOrderly (subscribe store)
  unfolding subscribe
  subscribe-IsOrderly store k = subscribe_first-IsOrderly store.mounting store k

  pub unmount-IsOrderly :
      (index : ℕ) (store : Store Node) → IsOrderly store → IsOrderly (unmount index store)
  unfolding unmount
  unmount-IsOrderly index store k = record { waiting = k.waiting; few = k.few }
