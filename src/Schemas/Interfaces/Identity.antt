-- ===== src/Schemas/Interfaces/Identity.antt =====
-- lib/api-client-react/src/generated/api.schemas.ts: the types of the sign-in, the tenants, the invitations and the delegations.
use development_plan.Base.{[], ◌∷◌}
use development_plan.Schemas.Types.{
  Shape, string, number, boolean, null, unknown, union, array, index, interface, required, optional,
  properties,
}

abbrev pub accept_invitation_request : Shape
accept_invitation_request = interface (
    properties (
      required "token" string
      ∷ required "password" string
      ∷ required "full_name" string
      ∷ optional "country" (union string null)
      ∷ []))

abbrev pub accept_invitation_supabase_request : Shape
accept_invitation_supabase_request = interface (
    properties (
      required "token" string
      ∷ required "full_name" string
      ∷ optional "country" (union string null)
      ∷ []))

abbrev pub assign_role_request : Shape
assign_role_request = interface (properties (required "role" string ∷ []))

abbrev pub create_delegation_request : Shape
create_delegation_request = interface (
    properties (
      required "delegate_user_id" string
      ∷ required "delegated_roles" (array string)
      ∷ optional "scope" string
      ∷ optional "expires_at" (union string null)
      ∷ []))

abbrev pub create_invitation_request : Shape
create_invitation_request =
    interface (properties (required "email" string ∷ required "role" string ∷ []))

abbrev pub delegation_summary_effective_response : Shape
delegation_summary_effective_response = interface (
    properties (
      required "delegation_id" string
      ∷ required "tenant_id" string
      ∷ required "delegator_user_id" string
      ∷ required "delegate_user_id" string
      ∷ required "delegated_roles" (array string)
      ∷ required "scope" string
      ∷ required "status" string
      ∷ optional "expires_at" (union string null)
      ∷ required "created_at" string
      ∷ required "updated_at" string
      ∷ optional "revoked_at" (union string null)
      ∷ optional "revoked_by" (union string null)
      ∷ required "effective" boolean
      ∷ optional "ineffective_reason" (union string null)
      ∷ []))

abbrev pub delegation_summary_response : Shape
delegation_summary_response = interface (
    properties (
      required "delegation_id" string
      ∷ required "tenant_id" string
      ∷ required "delegator_user_id" string
      ∷ required "delegate_user_id" string
      ∷ required "delegated_roles" (array string)
      ∷ required "scope" string
      ∷ required "status" string
      ∷ optional "expires_at" (union string null)
      ∷ required "created_at" string
      ∷ required "updated_at" string
      ∷ optional "revoked_at" (union string null)
      ∷ optional "revoked_by" (union string null)
      ∷ []))

abbrev pub extend_delegation_request : Shape
extend_delegation_request = interface (properties (optional "expires_at" (union string null) ∷ []))

abbrev pub invitation_created_response : Shape
invitation_created_response = interface (
    properties (
      required "invitation_id" string
      ∷ required "email" string
      ∷ required "role" string
      ∷ required "expires_at" string
      ∷ required "token" string
      ∷ []))

abbrev pub invitation_summary_response : Shape
invitation_summary_response = interface (
    properties (
      required "invitation_id" string
      ∷ required "email" string
      ∷ required "role" string
      ∷ required "status" string
      ∷ required "expires_at" string
      ∷ required "created_at" string
      ∷ []))

abbrev pub login_request : Shape
login_request = interface (properties (required "email" string ∷ required "password" string ∷ []))

abbrev pub register_request : Shape
register_request = interface (
    properties (
      required "email" string
      ∷ required "password" string
      ∷ required "full_name" string
      ∷ optional "country" (union string null)
      ∷ []))

abbrev pub role_assignment_response : Shape
role_assignment_response = interface (
    properties (
      required "user_id" string
      ∷ required "email" string
      ∷ required "full_name" string
      ∷ required "country" string
      ∷ required "tenant_id" string
      ∷ required "roles" (array string)
      ∷ required "account_status" string
      ∷ []))

abbrev pub user_view : Shape
user_view = interface (
    properties (
      required "user_id" string
      ∷ required "email" string
      ∷ required "full_name" string
      ∷ required "country" string
      ∷ required "tenant_id" string
      ∷ required "roles" (array string)
      ∷ required "account_status" string
      ∷ []))

abbrev pub supabase_invitation_accepted_response : Shape
supabase_invitation_accepted_response = interface (properties (required "user" user_view ∷ []))

abbrev pub suspend_tenant_request : Shape
suspend_tenant_request = interface (properties (required "reason" string ∷ []))

abbrev pub tenant_summary_response : Shape
tenant_summary_response = interface (
    properties (
      required "tenant_id" string
      ∷ required "name" string
      ∷ required "status" string
      ∷ optional "owner_user_id" (union string null)
      ∷ optional "suspension_reason" (union string null)
      ∷ required "created_at" string
      ∷ required "updated_at" string
      ∷ []))

abbrev pub token_response_user : Shape
token_response_user = index unknown

abbrev pub token_response : Shape
token_response = interface (
    properties (
      required "access_token" string
      ∷ required "token_type" string
      ∷ required "expires_in" number
      ∷ required "user" token_response_user
      ∷ []))

abbrev pub user_context_response : Shape
user_context_response = interface (
    properties (
      required "user_id" string
      ∷ optional "email" (union string null)
      ∷ optional "country" (union string null)
      ∷ optional "tenant_id" (union string null)
      ∷ optional "organization_id" (union string null)
      ∷ required "roles" (array string)
      ∷ []))

abbrev pub liveness_check200 : Shape
liveness_check200 = index string

abbrev pub readiness_check200 : Shape
readiness_check200 = index string
