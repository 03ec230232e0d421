-- ===== src/Base/RowLaws.antt =====
-- Lemmas about rows: what a test keeps, and rows with unique keys under maps and filters.
use mathlib.Core.Option
use development_plan.Base.Equality.{string_eq, Bool-cases}
use development_plan.Base.Rows.{keep, count, find, All, at, HasUniqueKeys}
use Prim.Native.String.{String}
use mathlib.Core.Path.{◌≡◌, refl, sym, ap, ◌∙◌, subst}
use mathlib.Core.Logic.{◌≢◌, inl, inr}
use mathlib.Core.Bool.{Bool, true, false}
use mathlib.Core.Option.{Option, none, some}
use mathlib.Core.List.{List, [], ◌∷◌, map}
use native.Mathlib.Omega.{arith}

module _ {ℓ κ μ} {A : Type ℓ} {P : A → Type κ} {Q : A → Type μ} where
  pub All-imp : ((x : A) → P x → Q x) → (xs : List A) → All P xs → All Q xs
  All-imp f [] h = tt
  All-imp f (x ∷ xs) (p, h) = (f x p, All-imp f xs h)

module _ {ℓ κ μ ν} {A : Type ℓ} {P : A → Type κ} {Q : A → Type μ} {R : A → Type ν} where
  pub All-imp₂ : ((x : A) → P x → Q x → R x) → (xs : List A) → All P xs → All Q xs → All R xs
  All-imp₂ f [] h k = tt
  All-imp₂ f (x ∷ xs) (p, h) (q, k) = (f x p q, All-imp₂ f xs h k)

module _ {ℓ κ} {A : Type ℓ} (P : A → Type κ) where
  pub All-map {μ} :
      {B : Type μ} (f : B → A) (xs : List B) → All (λ x. P (f x)) xs → All P (map f xs)
  All-map f [] h = tt
  All-map f (x ∷ xs) (p, h) = (p, All-map f xs h)

  pub All-of-map {μ} :
      {B : Type μ} (f : B → A) (xs : List B) → All P (map f xs) → All (λ x. P (f x)) xs
  All-of-map f [] h = tt
  All-of-map f (x ∷ xs) (p, h) = (p, All-of-map f xs h)

  -- What is kept passes the test.
  pub All-keep :
      (test : A → Bool) (xs : List A) → All P xs → All (λ x. (test x ≡ true) × P x) (keep test xs)
  All-keep test [] h = tt
  All-keep test (x ∷ xs) (p, h) = ground (arith, All-keep test xs h)

  pub All-find : (test : A → Bool) (xs : List A) (y : A) → All P xs → find test xs ≡ some y → P y
  All-find test [] y h e = cc
  All-find test (x ∷ xs) y (p, h) e = elim (Bool-cases (test x)) [
    | inl here ↦ subst P (Option.some-injective _ _ (rw (here, find) at e)) p
    | inr later ↦ All-find test xs y h (rw (later, find) at e)
  ]

  pub All-of : ((x : A) → P x) → (xs : List A) → All P xs
  All-of f [] = tt
  All-of f (x ∷ xs) = (f x, All-of f xs)

module _ {ℓ} {A : Type ℓ} (test : A → Bool) where
  pub find-passes : (xs : List A) (y : A) → find test xs ≡ some y → test y ≡ true
  find-passes [] y e = cc
  find-passes (x ∷ xs) y e = ground (arith, find-passes xs y)

  pub count-eq-zero : (xs : List A) → All (λ x. test x ≡ false) xs → count test xs ≡ 0
  count-eq-zero [] h = refl
  count-eq-zero (x ∷ xs) (e, h) = rw e (omega (arith, count-eq-zero xs h))

  pub keep-All : (xs : List A) → All (λ x. test x ≡ true) xs → keep test xs ≡ xs
  keep-All [] h = refl
  keep-All (x ∷ xs) (e, h) = rw e (ap (λ r. x ∷ r) (keep-All xs h))

  -- A change that the test does not see keeps the count.
  pub count-map :
      (f : A → A) (xs : List A)
      → All (λ x. test (f x) ≡ test x) xs
      → count test (map f xs) ≡ count test xs
  count-map f [] h = refl
  count-map f (x ∷ xs) (e, h) = rw e (omega (arith, count-map f xs h))

  -- A filter that keeps all that passes the test keeps the count.
  pub count-keep :
      (other : A → Bool) (xs : List A)
      → All (λ x. test x ≡ true → other x ≡ true) xs
      → count test (keep other xs) ≡ count test xs
  count-keep other [] h = refl
  count-keep other (x ∷ xs) (e, h) = ground (arith, count-keep other xs h)

module _ {ℓ} {A : Type ℓ} (key : A → String) where
  pub find-key : (k : String) (xs : List A) (y : A) → find (at key k) xs ≡ some y → key y ≡ k
  find-key k [] y e = cc
  find-key k (x ∷ xs) y e = ground (arith, find-key k xs y)

  -- A key that is not found is the key of no row.
  pub All-absent : (k : String) (xs : List A) → find (at key k) xs ≡ none → All (λ x. key x ≢ k) xs
  All-absent k [] e = tt
  All-absent k (x ∷ xs) e = (λ same. ground arith, All-absent k xs (ground arith))

  -- Where keys are unique, the row that is found is the only one with its key.
  pub All-unique :
      (k : String) (xs : List A) (y : A)
      → HasUniqueKeys key xs
      → find (at key k) xs ≡ some y
      → All (λ x. key x ≡ k → x ≡ y) xs
  All-unique k [] y u e = tt
  All-unique k (x ∷ xs) y (fresh, u) e = elim (string_eq.dec (key x) k) [
    | yes p ↦ (
      λ _. ground arith,
      All-imp (λ z differs same. absurd (differs (same ∙ sym p))) xs (All-absent (key x) xs fresh),
    )
    | no n ↦ (λ same. absurd (n same), All-unique k xs y u (ground arith))
  ]

  module _ (f : A → A) (same : (x : A) → key (f x) ≡ key x) where
    pub find-map :
        (k : String) (xs : List A) → find (at key k) (map f xs) ≡ Option.map f (find (at key k) xs)
    find-map k [] = refl
    find-map k (x ∷ xs) = rw (same x) (ground (arith, find-map k xs))

    pub HasUniqueKeys-map : (xs : List A) → HasUniqueKeys key xs → HasUniqueKeys key (map f xs)
    HasUniqueKeys-map [] u = tt
    HasUniqueKeys-map (x ∷ xs) (fresh, u) =
        (rw (same x, find-map (key x) xs, fresh) refl, HasUniqueKeys-map xs u)

  pub find-keep_absent :
      (k : String) (test : A → Bool) (xs : List A)
      → find (at key k) xs ≡ none
      → find (at key k) (keep test xs) ≡ none
  find-keep_absent k test [] e = refl
  find-keep_absent k test (x ∷ xs) e = ground (arith, find-keep_absent k test xs)

  -- A filter that keeps the rows with a key keeps the one that is found.
  pub find-keep :
      (k : String) (test : A → Bool) (xs : List A)
      → All (λ x. key x ≡ k → test x ≡ true) xs
      → find (at key k) (keep test xs) ≡ find (at key k) xs
  find-keep k test [] h = refl
  find-keep k test (x ∷ xs) (passes, h) = ground (arith, passes, find-keep k test xs h)

  pub HasUniqueKeys-keep :
      (test : A → Bool) (xs : List A) → HasUniqueKeys key xs → HasUniqueKeys key (keep test xs)
  HasUniqueKeys-keep test [] u = tt
  HasUniqueKeys-keep test (x ∷ xs) (fresh, u) =
      ground (arith, HasUniqueKeys-keep test xs u, find-keep_absent (key x) test xs fresh)
