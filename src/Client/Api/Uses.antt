-- ===== src/Client/Api/Uses.antt =====
-- lib/api-client-react/src/generated/api.ts: the hooks, over those of react-query.
pub mod Queries
pub mod Mutations
use development_plan.Base.{
  String, ◌≡◌, ◌≢◌, refl, sym, ap, ◌∙◌, subst, Bool, true, false, Option, none, some, List, [], ◌∷◌,
  ◌==◌, string_eq, if◌then◌else◌, Bool-cases, inl, inr, if_of_true, if_of_false, same-true,
  differ-false,
}
use development_plan.Client.Api.{Given}
use development_plan.Client.Api.Hooks.{QuerySettings, MutationSettings}

-- An object whose properties are read by getters, which see the state of react-query; `none` is
-- `undefined`.
abbrev pub Query : Type 0 → Type 0 → Type 0
Query S P = List (String × (S → Option P))

-- `useQuery` and `useMutation`; `of_key` is a key as the value of a property.
pub record ReactQuery (S P Result : Type 0) : Type 1 where
  pub use_query : QuerySettings → Query S P
  pub of_key : Given (List String) → P
  pub use_mutation : {Variables : Type 0} → MutationSettings Variables → Result

-- `query[name]`
unfoldable pub read : {S P : Type 0} → String → Query S P → S → Option P
read name [] state = none
read name ((key, getter) ∷ query) state =
    let rest = read name query state in if key == name then getter state else rest

-- `Object.keys(query)`
unfoldable pub keys : {S P : Type 0} → Query S P → List String
keys [] = []
keys ((key, getter) ∷ query) = key ∷ keys query

-- `Object.defineProperty` with a getter, which replaces a property that is there.
unfoldable pub define_property : {S P : Type 0} → String → (S → Option P) → Query S P → Query S P
define_property name getter [] = (name, getter) ∷ []
define_property name getter ((key, old) ∷ result) =
    let rest = define_property name getter result in
    if key == name then (name, getter) ∷ result else (key, old) ∷ rest

-- The loop of `withQueryKey` over the keys that are left.
unfoldable pub define_getters : {S P : Type 0} → Query S P → List String → Query S P → Query S P
define_getters query [] result = result
define_getters query (key ∷ keys) result = define_getters query keys (
    if key == "queryKey"
    then result
    else define_property key (λ state. read key query state) result)

unfoldable pub with_query_key : {S P : Type 0} → Query S P → P → Query S P
with_query_key query query_key =
    define_getters query (keys query) (("queryKey", λ state. some query_key) ∷ [])

abbrev is_key : String → List String → Bool
is_key name [] = false
is_key name (key ∷ keys) = if key == name then true else is_key name keys

choose-twice :
    {A : Type 0} (a b : Bool) (x y : A)
    → (if a then x else (if b then x else y)) ≡ (if (if b then true else a) then x else y)
choose-twice true true x y = refl
choose-twice true false x y = refl
choose-twice false true x y = refl
choose-twice false false x y = refl

module _ {S P : Type 0} where
  read-define_property :
      (name key : String) (getter : S → Option P) (result : Query S P) (state : S)
      → read name (define_property key getter result) state
        ≡ (if key == name then getter state else read name result state)
  unfolding read define_property
  read-define_property name key getter [] state = refl
  read-define_property name key getter ((k, old) ∷ result) state = elim (string_eq.dec k key) [
    | yes e ↦
        ap (λ q. read name q state) (if_of_true _ _ (same-true e))
        ∙ elim (Bool-cases (key == name)) [
          | inl here ↦ if_of_true _ _ here ∙ sym (if_of_true _ _ here)
          | inr there ↦
              if_of_false _ _ there
              ∙ sym (if_of_false _ _ (ap (λ x. x == name) e ∙ there))
              ∙ sym (if_of_false _ _ there)
        ]
    | no n ↦
        ap (λ q. read name q state) (if_of_false _ _ (differ-false n))
        ∙ elim (string_eq.dec k name) [
          | yes e ↦
              if_of_true _ _ (same-true e)
              ∙ sym (if_of_true _ _ (same-true e))
              ∙ sym (if_of_false _ _ (differ-false (λ same. n (e ∙ sym same))))
          | no m ↦
              if_of_false _ _ (differ-false m)
              ∙ read-define_property name key getter result state
              ∙ ap (λ old. if key == name then getter state else old)
                  (sym (if_of_false _ _ (differ-false m)))
        ]
  ]

  -- The getters do not touch "queryKey".
  read-define_getters-key :
      (query : Query S P) (ks : List String) (result : Query S P) (state : S)
      → read "queryKey" (define_getters query ks result) state ≡ read "queryKey" result state
  unfolding define_getters
  read-define_getters-key query [] result state = refl
  read-define_getters-key query (key ∷ ks) result state = elim (string_eq.dec key "queryKey") [
    | yes e ↦
        read-define_getters-key query ks _ state
        ∙ ap (λ q. read "queryKey" q state) (if_of_true _ _ (same-true e))
    | no n ↦
        read-define_getters-key query ks _ state
        ∙ ap (λ q. read "queryKey" q state) (if_of_false _ _ (differ-false n))
        ∙ read-define_property "queryKey" key (λ s. read key query s) result state
        ∙ if_of_false _ _ (differ-false n)
  ]

  -- One step of the loop, under another name.
  read-step :
      (name key : String) (query result : Query S P) (state : S)
      → name ≢ "queryKey"
      → read name
          (if key == "queryKey" then result else define_property key (λ s. read key query s) result)
          state
        ≡ (if key == name then read name query state else read name result state)
  read-step name key query result state m = elim (string_eq.dec key "queryKey") [
    | yes e ↦
        ap (λ q. read name q state) (if_of_true _ _ (same-true e))
        ∙ sym (if_of_false _ _ (differ-false (λ same. m (sym same ∙ e))))
    | no n ↦
        ap (λ q. read name q state) (if_of_false _ _ (differ-false n))
        ∙ read-define_property name key (λ s. read key query s) result state
        ∙ elim (string_eq.dec key name) [
          | yes e ↦
              if_of_true _ _ (same-true e)
              ∙ ap (λ k. read k query state) e
              ∙ sym (if_of_true _ _ (same-true e))
          | no there ↦
              if_of_false _ _ (differ-false there) ∙ sym (if_of_false _ _ (differ-false there))
        ]
  ]

  read-define_getters :
      (name : String) (query : Query S P) (ks : List String) (result : Query S P) (state : S)
      → name ≢ "queryKey"
      → read name (define_getters query ks result) state
        ≡ (if is_key name ks then read name query state else read name result state)
  unfolding define_getters
  read-define_getters name query [] result state n = refl
  read-define_getters name query (key ∷ ks) result state n =
      read-define_getters name query ks _ state n
      ∙ ap (λ x. if is_key name ks then read name query state else x)
          (read-step name key query result state n)
      ∙ choose-twice (is_key name ks) (key == name) (read name query state) (read name result state)

  read-keys :
      (name : String) (query : Query S P) (state : S)
      → (if is_key name (keys query) then read name query state else none) ≡ read name query state
  unfolding read keys
  read-keys name [] state = refl
  read-keys name ((key, getter) ∷ query) state = elim (Bool-cases (key == name)) [
    | inl here ↦ if_of_true _ _ (if_of_true _ _ here)
    | inr there ↦
        ap (λ b. if b then (if key == name then getter state else read name query state) else none)
          (if_of_false _ _ there)
        ∙ ap (λ x. if is_key name (keys query) then x else none) (if_of_false _ _ there)
        ∙ read-keys name query state
        ∙ sym (if_of_false _ _ there)
  ]

  -- What `withQueryKey` gives reads, in every state of react-query, as the query does under each name
  -- but "queryKey", where it reads as the key.
  pub read-with_query_key :
      (name : String) (query : Query S P) (query_key : P) (state : S)
      → read name (with_query_key query query_key) state
        ≡ (if name == "queryKey" then some query_key else read name query state)
  unfolding with_query_key read
  read-with_query_key name query query_key state = elim (string_eq.dec name "queryKey") [
    | yes e ↦
        ap
          (λ k.
            read k (define_getters query (keys query) (("queryKey", λ s. some query_key) ∷ []))
              state)
          e
        ∙ read-define_getters-key query (keys query) _ state
        ∙ if_of_true _ _ (same-true refl)
        ∙ sym (if_of_true _ _ (same-true e))
    | no n ↦
        read-define_getters name query (keys query) _ state n
        ∙ ap (λ x. if is_key name (keys query) then read name query state else x)
            (if_of_false _ _ (differ-false (λ same. n (sym same))))
        ∙ read-keys name query state
        ∙ sym (if_of_false _ _ (differ-false n))
  ]
