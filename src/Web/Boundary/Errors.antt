-- ===== src/Web/Boundary/Errors.antt =====
-- artifacts/landvault-web/src/components/error-boundary.tsx: which error the fallback shows.
use development_plan.Base.{
  String, ◌≡◌, ◌≢◌, ◌⊎◌, inl, inr, refl, sym, ap, subst, Option, none, some, List, [], ◌∷◌,
  string_eq, same-true, differ-false,
}
use development_plan.Base.Attempt.{Attempt, done, threw}
use development_plan.Web.Boundary.{
  Error, Thrown, Printing, to_error, Boundary, reset_error, Console, caught, render,
  component_did_update, commit, receive_props, Event, props, try_again, step, run, mounted,
}

-- The error that is kept is the last that the console was given, and was thrown where the
-- children are now.
abbrev pub IsOwn : Boundary → Console → Type 0
IsOwn b console =
    (b.error ≡ none)
    ⊎ ((e : Error) × (earlier : Console) × (b.error ≡ some e)
        × (console ≡ (e, b.reset_key) ∷ earlier))

abbrev Ends : Attempt (Boundary × Console) → String → Type 0
Ends r key =
    (r ≡ threw)
    ⊎ ((b : Boundary) × (console : Console) × (r ≡ done (b, console))
        × (b.reset_key ≡ key)
        × IsOwn b console)

abbrev at : Option Error → String → Boundary
at e key = record { error = e; reset_key = key }

none-some : {A : Type 0} {a : A} → none ≢ some a
none-some e = cc

same_run : {a b : Boundary × Console} → done a ≡ done b → a ≡ b
same_run e = cc

threw-done : {a : Boundary × Console} → threw ≢ done a
threw-done e = cc

module _ {Other : Type 0} (printing : Printing Other) where
  caught-Ends :
      (r : Attempt Error) (b : Boundary) (console : Console) → Ends (caught r b console) b.reset_key
  caught-Ends threw b console = inl refl
  caught-Ends (done e) b console = inr (
    record b { error = some e },
    (e, b.reset_key) ∷ console,
    refl,
    refl,
    inr (e, console, refl, refl),
  )

  render-Ends :
      (outcome : Option (Thrown Other)) (key : String) (console : Console)
      → Ends (render printing outcome (at none key) console) key
  unfolding render
  render-Ends none key console = inr (at none key, console, refl, refl, inl refl)
  render-Ends (some t) key console = caught-Ends (to_error printing t) (at none key) console

  -- An error of an earlier place does not matter: the update clears it.
  commit-Ends :
      (previous : String) (again : Option (Thrown Other)) (e : Option Error) (key : String)
      (console : Console)
      → (previous ≡ key → IsOwn (at e key) console)
      → Ends (commit printing previous again (at e key) console) key
  unfolding commit component_did_update reset_error
  commit-Ends previous again none key console own = inr (at none key, console, refl, refl, inl refl)
  commit-Ends previous again (some e) key console own = elim (string_eq.dec previous key) [
    | yes same ↦ inr (at (some e) key, console, rw (same-true same), refl, own same)
    | no moved ↦ rw (differ-false moved) (render-Ends again key console)
  ]

  after-Ends :
      (r : Attempt Error) (old : String) (again : Option (Thrown Other)) (key : String)
      (console : Console)
      → Ends
          (elim (caught r (at none key) console) [
            | threw ↦ threw
            | done (b', console') ↦ commit printing old again b' console'
          ])
          key
  after-Ends threw old again key console = inl refl
  after-Ends (done e) old again key console =
      commit-Ends old again (some e) key ((e, key) ∷ console) (λ same. inr (e, console, refl, refl))

  -- After new props the error is one of the place that they name.
  receive_props-Ends :
      (key : String) (first again : Option (Thrown Other)) (e : Option Error) (old : String)
      (console : Console)
      → IsOwn (at e old) console
      → Ends (receive_props printing key first again (at e old) console) key
  unfolding receive_props render
  receive_props-Ends key first again (some e) old console own =
      commit-Ends old again (some e) key console
        (λ same. subst (λ k. IsOwn (at (some e) k) console) same own)
  receive_props-Ends key none again none old console own =
      commit-Ends old again none key console (λ same. inl refl)
  receive_props-Ends key (some t) again none old console own =
      after-Ends (to_error printing t) old again key console

  abbrev key_after : Event Other → String → String
  key_after (props key first again) old = key
  key_after (try_again outcome) old = old

  step-Ends :
      (e : Event Other) (b : Boundary) (console : Console)
      → IsOwn b console
      → Ends (step printing e b console) (key_after e b.reset_key)
  unfolding step reset_error
  step-Ends (props key first again) b console own =
      receive_props-Ends key first again b.error b.reset_key console own
  step-Ends (try_again outcome) b console own = render-Ends outcome b.reset_key console

  run_from-IsOwn :
      (events : List (Event Other)) (b : Boundary) (console : Console) (b' : Boundary)
      (console' : Console)
      → IsOwn b console
      → run printing events b console ≡ done (b', console')
      → IsOwn b' console'
  unfolding run
  run_from-IsOwn [] b console b' console' own e =
      subst (λ (r : Boundary × Console). IsOwn r.0 r.1) (same_run e) own
  run_from-IsOwn (event ∷ events) b console b' console' own e =
      elim (step-Ends event b console own) [
        | inl lost ↦ absurd (threw-done (rw (run, lost) at e))
        | inr (b1, console1, stepped, _, own1) ↦
            run_from-IsOwn events b1 console1 b' console' own1 (rw (run, stepped) at e)
      ]

  -- Whatever the children throw, as the place changes and the visitor tries again: if a boundary
  -- goes on, then it shows the children, or the last error that the console was given, which they
  -- threw at the place where they are now.
  pub run-IsOwn :
      (events : List (Event Other)) (start : String) (b : Boundary) (console : Console)
      → run printing events (mounted start) [] ≡ done (b, console)
      → IsOwn b console
  unfolding mounted
  run-IsOwn events start b console e =
      run_from-IsOwn events (at none start) [] b console (inl refl) e

  abbrev Anew : Option (Thrown Other) → Boundary → Type 0
  Anew again b =
      (b.error ≡ none)
      ⊎ ((t : Thrown Other) × (e : Error) × (again ≡ some t)
          × (to_error printing t ≡ done e)
          × (b.error ≡ some e))

  caught-Anew :
      (t : Thrown Other) (r : Attempt Error) (key : String) (console : Console) (b' : Boundary)
      (console' : Console)
      → to_error printing t ≡ r
      → caught r (at none key) console ≡ done (b', console')
      → Anew (some t) b'
  caught-Anew t threw key console b' console' q e = absurd (threw-done e)
  caught-Anew t (done x) key console b' console' q e =
      inr (t, x, refl, q, ap (λ (r : Boundary × Console). r.0.error) (sym (same_run e)))

  render-Anew :
      (again : Option (Thrown Other)) (key : String) (console : Console) (b' : Boundary)
      (console' : Console)
      → render printing again (at none key) console ≡ done (b', console')
      → Anew again b'
  unfolding render
  render-Anew none key console b' console' e =
      inl (ap (λ (r : Boundary × Console). r.0.error) (sym (same_run e)))
  render-Anew (some t) key console b' console' e =
      caught-Anew t (to_error printing t) key console b' console' refl e

  commit-Anew :
      (previous : String) (again : Option (Thrown Other)) (x : Option Error) (key : String)
      (console : Console) (b' : Boundary) (console' : Console)
      → previous ≢ key
      → commit printing previous again (at x key) console ≡ done (b', console')
      → Anew again b'
  unfolding commit component_did_update reset_error
  commit-Anew previous again none key console b' console' moved e =
      inl (ap (λ (r : Boundary × Console). r.0.error) (sym (same_run e)))
  commit-Anew previous again (some x) key console b' console' moved e =
      render-Anew again key console b' console' (rw (differ-false moved) at e)

  after-Anew :
      (r : Attempt Error) (old : String) (again : Option (Thrown Other)) (key : String)
      (console : Console) (b' : Boundary) (console' : Console)
      → old ≢ key
      → (elim (caught r (at none key) console) [
        | threw ↦ threw
        | done (b1, console1) ↦ commit printing old again b1 console1
      ])
        ≡ done (b', console')
      → Anew again b'
  after-Anew threw old again key console b' console' moved e = absurd (threw-done e)
  after-Anew (done x) old again key console b' console' moved e =
      commit-Anew old again (some x) key ((x, key) ∷ console) b' console' moved e

  -- When the place changes, and the boundary goes on, an earlier error is gone: the children are
  -- shown, or an error that they threw when they were rendered a second time, at the new place.
  pub receive_props-Anew :
      (key : String) (first again : Option (Thrown Other)) (b : Boundary) (console : Console)
      (b' : Boundary) (console' : Console)
      → b.reset_key ≢ key
      → receive_props printing key first again b console ≡ done (b', console')
      → (b'.error ≡ none)
        ⊎ ((t : Thrown Other) × (e : Error) × (again ≡ some t)
            × (to_error printing t ≡ done e)
            × (b'.error ≡ some e))
  unfolding receive_props render
  receive_props-Anew key first again b console b' console' moved e = go b.error first e
    where
      go :
          (x : Option Error) (outcome : Option (Thrown Other))
          → receive_props printing key outcome again (at x b.reset_key) console
            ≡ done (b', console')
          → Anew again b'
      go (some x) outcome r = commit-Anew b.reset_key again (some x) key console b' console' moved r
      go none none r = commit-Anew b.reset_key again none key console b' console' moved r
      go none (some t) r =
          after-Anew (to_error printing t) b.reset_key again key console b' console' moved r
