-- ===== src/Web/SignIn.antt =====
-- artifacts/landvault-web/src: the page of the sign-in (pages/sign-in.tsx), and what it calls of
-- lib/auth-context.tsx.
pub mod Attempts
use development_plan.Base.{
  String, ◌≡◌, Bool, true, false, Option, none, some, List, [], ◌∷◌, ◌==◌, string_eq, if◌then◌else◌,
}
use development_plan.Base.Attempt.{Attempt, done, threw}

-- How Supabase ends a sign-in: with a session, with an error that has a message, or by a rejection.
pub data Answer : Type 0 where
  accepted rejected : Answer
  refused : String → Answer

-- `{ error: error?.message ?? null }`, or a rejection.
unfoldable pub sign_in_with_password : Answer → Attempt (Option String)
sign_in_with_password accepted = done none
sign_in_with_password (refused message) = done (some message)
sign_in_with_password rejected = threw

-- The state of the page, with the locations that it has set.
pub record Page : Type 0 where
  pub email : String
  pub password : String
  pub error : Option String
  pub is_submitting : Bool
  pub locations : List String

unfoldable pub fresh_page : Page
fresh_page = record {
  email = "";
  password = "";
  error = none;
  is_submitting = false;
  locations = [];
}

-- `handleSubmit` up to its wait.
unfoldable pub handle_submit : Page → Page
handle_submit page = record page { error = none; is_submitting = true }

-- The rest of it, by what the wait gives.
unfoldable pub submitted : Attempt (Option String) → Page → Page
submitted threw page = page
submitted (done none) page = record page { is_submitting = false; locations = "/" ∷ page.locations }
submitted (done (some sign_in_error)) page =
    if sign_in_error == ""
    then record page { is_submitting = false; locations = "/" ∷ page.locations }
    else record page { is_submitting = false; error = some sign_in_error }

-- What the visitor does and Supabase answers. A submission starts only where the button is not
-- disabled; `asked` are the email addresses and passwords that Supabase was asked for, and
-- `answered` its answers, the last first; the Boolean is whether an answer is still to come.
pub data Reached : Page → Bool → List (String × String) → List Answer → Type 0 where
  start : Reached fresh_page false [] []
  type_email :
      {page : Page} {pending : Bool} {asked : List (String × String)} {answered : List Answer}
      (text : String)
      → Reached page pending asked answered
      → Reached (record page { email = text }) pending asked answered
  type_password :
      {page : Page} {pending : Bool} {asked : List (String × String)} {answered : List Answer}
      (text : String)
      → Reached page pending asked answered
      → Reached (record page { password = text }) pending asked answered
  submit :
      {page : Page} {pending : Bool} {asked : List (String × String)} {answered : List Answer}
      → Reached page pending asked answered
      → page.is_submitting ≡ false
      → Reached (handle_submit page) true ((page.email, page.password) ∷ asked) answered
  answer :
      {page : Page} {asked : List (String × String)} {answered : List Answer} (a : Answer)
      → Reached page true asked answered
      → Reached (submitted (sign_in_with_password a) page) false asked (a ∷ answered)
