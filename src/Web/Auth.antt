-- ===== src/Web/Auth.antt =====
-- artifacts/landvault-web/src: the session that AuthProvider keeps (lib/auth-context.tsx), and the
-- gate that RequireAuth puts before a governed screen (components/require-auth.tsx).
pub mod Gate
use development_plan.Base.{String, Bool, true, false, Option, none, some, List, [], ◌∷◌}
use development_plan.Web.Start.{Session}

pub record Auth : Type 0 where
  pub session : Option Session
  pub is_loading : Bool

unfoldable pub fresh_auth : Auth
fresh_auth = record { session = none; is_loading = true }

-- What Supabase reports: `getSession` ends with what was stored or is rejected, and the session
-- changes by a sign-in, a sign-out or a refresh.
pub data Report : Type 0 where
  restored changed : Option Session → Report
  rejected : Report

unfoldable pub set_session : Option Session → Auth → Auth
set_session session auth = record auth { session = session }

unfoldable pub set_is_loading : Bool → Auth → Auth
set_is_loading loading auth = record auth { is_loading = loading }

-- The two callbacks of the effect; a rejection is handled nowhere.
unfoldable pub hear : Auth → Report → Auth
hear auth (restored session) = set_is_loading false (set_session session auth)
hear auth (changed session) = set_session session auth
hear auth rejected = auth

unfoldable pub hear_all : List Report → Auth → Auth
hear_all [] auth = auth
hear_all (r ∷ reports) auth = hear_all reports (hear auth r)

-- What is shown in place of a governed screen, or the screen.
pub data Shown : Type 0 where
  spinner children : Shown
  redirect : String → Shown

unfoldable pub require_auth : Auth → Shown
require_auth auth = elim auth.is_loading [
  | true ↦ spinner
  | false ↦ elim auth.session [ none ↦ redirect "/sign-in" | some session ↦ children ]
]
