-- ===== src/Client/Api/Operations/Auth.antt =====
-- lib/api-client-react/src/generated/api.ts: the calls of the functions in Auth.
use development_plan.Base.{String, Option, List, []}
use development_plan.Client.Api.{Runtime, RequestOptions, Sent}
use development_plan.Client.Api.Auth

-- A call by its function and arguments, ids first.
pub data AuthCall (Value : Type 0) : Type 0 where
  liveness_check : AuthCall Value
  readiness_check : AuthCall Value
  register_user : Value → AuthCall Value
  login : Value → AuthCall Value
  accept_invitation : Value → AuthCall Value
  accept_invitation_supabase : Value → AuthCall Value
  refresh_token : AuthCall Value
  logout : AuthCall Value
  get_current_user : AuthCall Value
  get_current_user_tenant : AuthCall Value

unfoldable pub sent :
    {Value : Type 0} → Runtime Value → AuthCall Value → Option RequestOptions → Sent
sent runtime liveness_check options = Auth.liveness_check options
sent runtime readiness_check options = Auth.readiness_check options
sent runtime (register_user body) options = Auth.register_user runtime body options
sent runtime (login body) options = Auth.login runtime body options
sent runtime (accept_invitation body) options = Auth.accept_invitation runtime body options
sent runtime (accept_invitation_supabase body) options =
    Auth.accept_invitation_supabase runtime body options
sent runtime refresh_token options = Auth.refresh_token options
sent runtime logout options = Auth.logout options
sent runtime get_current_user options = Auth.get_current_user options
sent runtime get_current_user_tenant options = Auth.get_current_user_tenant options

-- The name of the operation in the OpenAPI document.
unfoldable pub operation_id : {Value : Type 0} → AuthCall Value → String
operation_id liveness_check = "livenessCheck"
operation_id readiness_check = "readinessCheck"
operation_id (register_user _) = "registerUser"
operation_id (login _) = "login"
operation_id (accept_invitation _) = "acceptInvitation"
operation_id (accept_invitation_supabase _) = "acceptInvitationSupabase"
operation_id refresh_token = "refreshToken"
operation_id logout = "logout"
operation_id get_current_user = "getCurrentUser"
operation_id get_current_user_tenant = "getCurrentUserTenant"

unfoldable pub ids : {Value : Type 0} → AuthCall Value → List String
ids liveness_check = []
ids readiness_check = []
ids (register_user _) = []
ids (login _) = []
ids (accept_invitation _) = []
ids (accept_invitation_supabase _) = []
ids refresh_token = []
ids logout = []
ids get_current_user = []
ids get_current_user_tenant = []
