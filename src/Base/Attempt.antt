-- ===== src/Base/Attempt.antt =====
-- Code that reads and changes a state and may throw. What was written before a throw stays written.
use mathlib.Core.Path.{◌≡◌, refl, ap}
use native.Mathlib.Omega.{arith}

pub data Attempt {ℓ} (A : Type ℓ) : Type ℓ where
  done : A → Attempt A
  threw : Attempt A

-- An `async` function over a state of type `S`.
abbrev pub Action : Type 0 → Type 0 → Type 0
Action S A = S → Attempt A × S

infixl 5 ◌>>=◌ ◌>>◌
unfoldable pub ◌>>=◌ : {S A B : Type 0} → Action S A → (A → Action S B) → Action S B
◌>>=◌ m f s = let (t, s') = m s in elim t [ done a ↦ f a s' | threw ↦ (threw, s') ]

unfoldable pub ◌>>◌ : {S B : Type 0} → Action S (Unit {0}) → Action S B → Action S B
unfolding ◌>>=◌
◌>>◌ m k = m >>= λ _. k

abbrev pub return : {S A : Type 0} → A → Action S A
return a s = (done a, s)

-- `.parse` of a schema: a value, or a throw.
unfoldable pub attempt : {S A : Type 0} → Attempt A → Action S A
attempt t s = (t, s)

-- A query leaves the state alone.
unfoldable pub query : {S A : Type 0} → (S → Attempt A) → Action S A
query q s = (q s, s)

abbrev pub settle : {S A : Type 0} → Attempt (A × S) → S → Attempt A × S
settle (done (a, s')) s = (done a, s')
settle threw s = (threw, s)

-- A statement that throws has changed nothing.
unfoldable pub statement : {S A : Type 0} → (S → Attempt (A × S)) → Action S A
statement w s = settle (w s) s

-- What a bind that ended without a throw has done first.
module _ {S : Type 0} where
  pub >>=-done :
      {A B : Type 0} (m : Action S A) (f : A → Action S B) (s : S) {b : B} {s'' : S}
      → (m >>= f) s ≡ (done b, s'')
      → (a : A) × (s' : S) × (m s ≡ (done a, s')) × (f a s' ≡ (done b, s''))
  unfolding ◌>>=◌
  >>=-done {A} m f s {b} {s''} e = go (m s) refl e
    where
      go :
          (r : Attempt A × S)
          → m s ≡ r
          → (let (t, s') = r in elim t [ done a ↦ f a s' | threw ↦ (threw, s') ]) ≡ (done b, s'')
          → (a : A) × (s' : S) × (m s ≡ (done a, s')) × (f a s' ≡ (done b, s''))
      go (done a, s') same e = (a, s', same, e)
      go (threw, s') same e = cc

  pub >>=-query :
      {A B : Type 0} (q : S → Attempt A) (f : A → Action S B) (s : S) {b : B} {s'' : S}
      → (query q >>= f) s ≡ (done b, s'')
      → (a : A) × (q s ≡ done a) × (f a s ≡ (done b, s''))
  unfolding ◌>>=◌ query
  >>=-query {A} q f s {b} {s''} e = go (q s) refl e
    where
      go :
          (r : Attempt A)
          → q s ≡ r
          → (elim r [ done a ↦ f a s | threw ↦ (threw, s) ]) ≡ (done b, s'')
          → (a : A) × (q s ≡ done a) × (f a s ≡ (done b, s''))
      go (done a) same e = (a, same, e)
      go threw same e = cc

  pub >>=-statement :
      {A B : Type 0} (w : S → Attempt (A × S)) (f : A → Action S B) (s : S) {b : B} {s'' : S}
      → (statement w >>= f) s ≡ (done b, s'')
      → (a : A) × (s' : S) × (w s ≡ done (a, s')) × (f a s' ≡ (done b, s''))
  unfolding ◌>>=◌ statement
  >>=-statement {A} w f s {b} {s''} e = go (w s) refl e
    where
      go :
          (r : Attempt (A × S))
          → w s ≡ r
          → (let (t, s') = settle r s in elim t [ done a ↦ f a s' | threw ↦ (threw, s') ])
            ≡ (done b, s'')
          → (a : A) × (s' : S) × (w s ≡ done (a, s')) × (f a s' ≡ (done b, s''))
      go (done (a, s')) same e = (a, s', same, e)
      go threw same e = cc

  pub >>=-attempt :
      {A B : Type 0} (t : Attempt A) (f : A → Action S B) (s : S) {b : B} {s'' : S}
      → (attempt t >>= f) s ≡ (done b, s'')
      → (a : A) × (t ≡ done a) × (f a s ≡ (done b, s''))
  unfolding ◌>>=◌ attempt
  >>=-attempt (done a) f s e = (a, refl, e)
  >>=-attempt threw f s e = cc

  pub return-done :
      {A : Type 0} (v : A) (s : S) {a : A} {s' : S} → return v s ≡ (done a, s') → (v ≡ a) × (s ≡ s')
  return-done v s e = (ground arith, ap (λ r. r.1) e)

  pub >>-done :
      {B : Type 0} (m : Action S (Unit {0})) (k : Action S B) (s : S) {b : B} {s'' : S}
      → (m >> k) s ≡ (done b, s'')
      → (s' : S) × (m s ≡ (done tt, s')) × (k s' ≡ (done b, s''))
  unfolding ◌>>◌
  >>-done m k s e = let (_, s', first, rest) = >>=-done m (λ _. k) s e in (s', first, rest)
