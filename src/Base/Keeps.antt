-- ===== src/Base/Keeps.antt =====
-- What an action keeps of its state, whether it ends or throws, by one rule for each part.
use development_plan.Base.Equality.{if◌then◌else◌}
use mathlib.Core.Path.{◌≡◌, refl}
use mathlib.Core.Bool.{Bool, true, false}
use development_plan.Base.Attempt.{
  Attempt, done, threw, Action, ◌>>=◌, ◌>>◌, return, attempt, query, statement, settle,
}

-- The state satisfies `P`, and a result `Q`.
abbrev Outcome : {S A : Type 0} → (S → Type 0) → (A → Type 0) → Attempt A × S → Type 0
Outcome P Q (done a, s) = P s × Q a
Outcome P Q (threw, s) = P s

pub record Keeps {S A : Type 0} (P : S → Type 0) (Q : A → Type 0) (m : Action S A) : Type 0 where
  pub outcome : (s : S) → P s → Outcome P Q (m s)

abbrev pub Anything : {A : Type 0} → A → Type 0
Anything a = Unit {0}

-- What holds of the state afterwards.
pub state-Keeps :
    {S A : Type 0} {P : S → Type 0} {Q : A → Type 0} {m : Action S A}
    → Keeps P Q m
    → (s : S) → P s
    → P (m s).1
state-Keeps {S} {A} {P} {Q} {m} k s p = go (m s) (k.outcome s p)
  where
    go : (r : Attempt A × S) → Outcome P Q r → P r.1
    go (done a, s') o = o.0
    go (threw, s') o = o

module _ {S : Type 0} {P : S → Type 0} where
  pub return-Keeps : {A : Type 0} (a : A) → Keeps P Anything (return a)
  return-Keeps a = record { outcome = λ s p. (p, tt) }

  pub query-Keeps : {A : Type 0} (q : S → Attempt A) → Keeps P Anything (query q)
  unfolding query
  query-Keeps {A} q = record { outcome = λ s p. go (q s) s p }
    where
      go : (t : Attempt A) (s : S) → P s → Outcome P Anything (t, s)
      go (done a) s p = (p, tt)
      go threw s p = p

  pub attempt-Keeps : {A : Type 0} (t : Attempt A) → Keeps P Anything (attempt t)
  unfolding attempt
  attempt-Keeps (done a) = record { outcome = λ s p. (p, tt) }
  attempt-Keeps threw = record { outcome = λ s p. p }

  pub statement-Keeps :
      {A : Type 0} (w : S → Attempt (A × S))
      → ((s s' : S) (a : A) → P s → w s ≡ done (a, s') → P s')
      → Keeps P Anything (statement w)
  unfolding statement
  statement-Keeps {A} w h = record { outcome = λ s p. go s p (w s) refl }
    where
      go : (s : S) → P s → (r : Attempt (A × S)) → w s ≡ r → Outcome P Anything (settle r s)
      go s p (done (a, s')) e = (h s s' a p e, tt)
      go s p threw e = p

  pub >>=-Keeps :
      {A B : Type 0} {Q : A → Type 0} {R : B → Type 0} {m : Action S A} {f : A → Action S B}
      → Keeps P Q m
      → ((a : A) → Q a → Keeps P R (f a))
      → Keeps P R (m >>= f)
  unfolding ◌>>=◌
  >>=-Keeps {A} {B} {Q} {R} {m} {f} km kf = record { outcome = λ s p. go (m s) (km.outcome s p) }
    where
      go :
          (r : Attempt A × S)
          → Outcome P Q r
          → Outcome P R (
              let (t, s') = r in
              elim t as (λ _. Attempt B × S) [ done a ↦ f a s' | threw ↦ (threw, s') ])
      go (done a, s') (p, q) = (kf a q).outcome s' p
      go (threw, s') p = p

  pub >>-Keeps :
      {B : Type 0} {R : B → Type 0} {m : Action S (Unit {0})} {k : Action S B}
      → Keeps P Anything m
      → Keeps P R k
      → Keeps P R (m >> k)
  unfolding ◌>>◌
  >>-Keeps km kk = >>=-Keeps km (λ _ _. kk)

  pub if-Keeps :
      {A : Type 0} {Q : A → Type 0} {m n : Action S A} (b : Bool)
      → Keeps P Q m
      → Keeps P Q n
      → Keeps P Q (if b then m else n)
  if-Keeps true km kn = km
  if-Keeps false km kn = kn
