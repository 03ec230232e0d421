-- ===== src/Server/Start.antt =====
-- artifacts/api-server/src/index.ts: the port that the server listens on.
use development_plan.Base.{
  ℕ, String, ◌≡◌, ◌≢◌, inl, inr, refl, sym, ◌∙◌, Bool, true, false, ◌||◌, Option, none, some, ◌==◌,
  string_eq, if◌then◌else◌, Bool-cases, if_of_true, if_of_false, same-true, differ-false, subst,
  arith,
}
use development_plan.Base.Attempt.{Attempt, done, threw}

-- JavaScript's numbers, as far as a port is read.
pub record Numbers (N : Type 0) : Type 0 where
  pub number : String → N
  pub is_nan : N → Bool
  pub is_at_most_zero : N → Bool

-- How the process ends up: it exits with a code, or it serves.
pub data Outcome (N : Type 0) : Type 0 where
  exited : ℕ → Outcome N
  listening : N → Outcome N

module _ {N : Type 0} (numbers : Numbers N) where
  -- The port, from the variable PORT.
  unfoldable pub read_port : Option String → Attempt N
  read_port none = threw
  read_port (some raw_port) =
      let port = numbers.number raw_port in
      if raw_port == ""
      then threw
      else if numbers.is_nan port || numbers.is_at_most_zero port
      then threw
      else done port

  -- The callback of `listen`, by whether it has an error.
  unfoldable pub listened : N → Bool → Outcome N
  listened port failed = if failed then exited 1 else listening port

  abbrev pub listen : Attempt N → Bool → Attempt (Outcome N)
  listen threw failed = threw
  listen (done port) failed = done (listened port failed)

  unfoldable pub start : Option String → Bool → Attempt (Outcome N)
  start raw_port failed = listen (read_port raw_port) failed

module _ {N : Type 0} where
  threw-done : {a : N} → threw ≢ done a
  threw-done e = cc

  done-eq : {a b : N} → done a ≡ done b → a ≡ b
  done-eq e = cc

  listen-done :
      (numbers : Numbers N) (port : Attempt N) (failed : Bool) (served : N)
      → listen numbers port failed ≡ done (listening served)
      → port ≡ done served
  unfolding listened
  listen-done numbers threw failed served e = cc
  listen-done numbers (done port) true served e = cc
  listen-done numbers (done port) false served e = ground (arith, e)

  -- A server that listens does so at the number of a variable that is there and not empty, a number
  -- that is not NaN and not at most zero.
  pub start-listens :
      (numbers : Numbers N) (raw_port : Option String) (failed : Bool) (port : N)
      → start numbers raw_port failed ≡ done (listening port)
      → (raw : String) × (raw_port ≡ some raw)
        × (raw ≢ "")
        × (port ≡ numbers.number raw)
        × ((numbers.is_nan port || numbers.is_at_most_zero port) ≡ false)
  unfolding start read_port
  start-listens numbers none failed port e = cc
  start-listens numbers (some raw) failed port e =
      let read = listen-done numbers (read_port numbers (some raw)) failed port e in
      elim (string_eq.dec raw "") [
        | yes empty ↦ absurd (threw-done (sym (if_of_true _ _ (same-true empty)) ∙ read))
        | no full ↦
            let rest = sym (if_of_false _ _ (differ-false full)) ∙ read in
            elim (Bool-cases (
              numbers.is_nan (numbers.number raw)
              || numbers.is_at_most_zero (numbers.number raw))) [
                | inl bad ↦ absurd (threw-done (sym (if_of_true _ _ bad) ∙ rest))
                | inr good ↦
                    let same = done-eq (sym (if_of_false _ _ good) ∙ rest) in
                    (
                      raw,
                      refl,
                      full,
                      sym same,
                      subst (λ n. (numbers.is_nan n || numbers.is_at_most_zero n) ≡ false) same
                          good,
                    )
              ]
      ]
