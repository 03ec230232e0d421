-- ===== src/Web/SignIn/Attempts.antt =====
-- artifacts/landvault-web/src/pages/sign-in.tsx: what a sign-in comes to.
use development_plan.Base.{
  ℕ, ◌+◌, String, ◌≡◌, refl, sym, ap, ◌∙◌, Bool, true, false, Option, none, some, List, [], ◌∷◌,
  ◌==◌, string_eq, if◌then◌else◌, length, Bool-cases, arith, inl, inr,
}
use development_plan.Base.Booleans.{false-true}
use development_plan.Web.SignIn.{
  Answer, accepted, rejected, refused, sign_in_with_password, Page, fresh_page, handle_submit,
  submitted, Reached, start, type_email, type_password, submit, answer,
}

-- Whether the page goes on after an answer.
abbrev pub passes : Answer → Bool
passes accepted = true
passes rejected = false
passes (refused message) = message == ""

-- The locations that the answers lead to.
abbrev pub destinations : List Answer → List String
destinations [] = []
destinations (a ∷ answered) =
    let rest = destinations answered in if passes a then "/" ∷ rest else rest

-- The message of an answer that does not let the visitor in.
abbrev pub message_of : Answer → Option String
message_of accepted = none
message_of rejected = none
message_of (refused message) = if message == "" then none else some message

abbrev pub last_message : List Answer → Option String
last_message [] = none
last_message (a ∷ answered) = message_of a

abbrev pub number : Bool → ℕ
number true = 1
number false = 0

pub record IsFaithful (page : Page) (pending : Bool) (asked : List (String × String))
    (answered : List Answer) : Type 0 where
  pub busy : pending ≡ true → page.is_submitting ≡ true
  pub cleared : pending ≡ true → page.error ≡ none
  pub one_by_one : length asked ≡ length answered + number pending
  pub moved : page.locations ≡ destinations answered
  pub told : pending ≡ false → page.error ≡ last_message answered

answered-IsFaithful :
    (a : Answer) (page : Page) (asked : List (String × String)) (answered : List Answer)
    → IsFaithful page true asked answered
    → IsFaithful (submitted (sign_in_with_password a) page) false asked (a ∷ answered)
unfolding submitted sign_in_with_password
answered-IsFaithful accepted page asked answered h = record {
  busy = λ e. cc;
  cleared = λ e. cc;
  one_by_one = ground (arith, h.one_by_one);
  moved = ap (λ rest. "/" ∷ rest) h.moved;
  told = λ e. h.cleared refl;
}
answered-IsFaithful rejected page asked answered h = record {
  busy = λ e. cc;
  cleared = λ e. cc;
  one_by_one = ground (arith, h.one_by_one);
  moved = h.moved;
  told = λ e. h.cleared refl;
}
answered-IsFaithful (refused message) page asked answered h = elim (Bool-cases (message == "")) [
  | inl empty ↦ record {
    busy = λ e. cc;
    cleared = λ e. cc;
    one_by_one = ground (arith, h.one_by_one);
    moved = rw empty (ap (λ rest. "/" ∷ rest) h.moved);
    told = λ e. rw empty (h.cleared refl);
  }
  | inr full ↦ record {
    busy = λ e. cc;
    cleared = λ e. cc;
    one_by_one = ground (arith, h.one_by_one);
    moved = rw full h.moved;
    told = λ e. rw full refl;
  }
]

-- Whatever the visitor types and submits, and whatever Supabase answers: one answer at most is to
-- come, and no submission is possible until it is there; the page goes to "/" once for each answer
-- without an error or with an error whose message is empty, and never else; and when no answer is to
-- come, it shows the message of the last answer, if that has one that is not empty.
pub Reached-IsFaithful :
    {page : Page} {pending : Bool} {asked : List (String × String)} {answered : List Answer}
    → Reached page pending asked answered
    → IsFaithful page pending asked answered
unfolding fresh_page handle_submit
Reached-IsFaithful start = record {
  busy = λ e. cc;
  cleared = λ e. refl;
  one_by_one = refl;
  moved = refl;
  told = λ e. refl;
}
Reached-IsFaithful (type_email text r) =
    let h = Reached-IsFaithful r in
    record {
      busy = h.busy;
      cleared = h.cleared;
      one_by_one = h.one_by_one;
      moved = h.moved;
      told = h.told;
    }
Reached-IsFaithful (type_password text r) =
    let h = Reached-IsFaithful r in
    record {
      busy = h.busy;
      cleared = h.cleared;
      one_by_one = h.one_by_one;
      moved = h.moved;
      told = h.told;
    }
Reached-IsFaithful (submit {page} {pending} {asked} {answered} r free) =
    let h = Reached-IsFaithful r in
    elim (Bool-cases pending) [
      | inl waits ↦ absurd (false-true (sym free ∙ h.busy waits))
      | inr idle ↦ record {
        busy = λ e. refl;
        cleared = λ e. refl;
        one_by_one =
            let count = h.one_by_one ∙ ap (λ p. length answered + number p) idle in omega arith;
        moved = h.moved;
        told = λ e. cc;
      }
    ]
Reached-IsFaithful (answer a r) = answered-IsFaithful a _ _ _ (Reached-IsFaithful r)
