-- ===== src/Schemas/Generated/Tenants.antt =====
-- lib/api-zod/src/generated/api.ts: roles, invitations and tenants.
use development_plan.Base.{[], ◌∷◌}
use development_plan.Schemas.Zod.{
  Schema, string, null, coerce_string, optional, describe, union, array, object, keys,
}

abbrev pub assign_role_params : Schema
assign_role_params = object (keys (("user_id", coerce_string) ∷ []))

abbrev pub assign_role_body : Schema
assign_role_body = object (keys (("role", string) ∷ []))

abbrev pub assign_role_response : Schema
assign_role_response = describe (
    object (
      keys (
        ("user_id", string)
        ∷ ("email", string)
        ∷ ("full_name", string)
        ∷ ("country", string)
        ∷ ("tenant_id", string)
        ∷ ("roles", array string)
        ∷ ("account_status", string)
        ∷ [])))

abbrev pub list_invitations_response_item : Schema
list_invitations_response_item = describe (
    object (
      keys (
        ("invitation_id", string)
        ∷ ("email", string)
        ∷ ("role", string)
        ∷ ("status", string)
        ∷ ("expires_at", string)
        ∷ ("created_at", string)
        ∷ [])))

abbrev pub list_invitations_response : Schema
list_invitations_response = array list_invitations_response_item

abbrev pub create_invitation_body : Schema
create_invitation_body = object (keys (("email", string) ∷ ("role", string) ∷ []))

abbrev pub create_invitation_response : Schema
create_invitation_response = describe (
    object (
      keys (
        ("invitation_id", string)
        ∷ ("email", string)
        ∷ ("role", string)
        ∷ ("expires_at", string)
        ∷ ("token", string)
        ∷ [])))

abbrev pub revoke_invitation_params : Schema
revoke_invitation_params = object (keys (("invitation_id", coerce_string) ∷ []))

abbrev pub revoke_invitation_response : Schema
revoke_invitation_response = describe (
    object (
      keys (
        ("invitation_id", string)
        ∷ ("email", string)
        ∷ ("role", string)
        ∷ ("status", string)
        ∷ ("expires_at", string)
        ∷ ("created_at", string)
        ∷ [])))

abbrev pub list_tenants_response_item : Schema
list_tenants_response_item = describe (
    object (
      keys (
        ("tenant_id", string)
        ∷ ("name", string)
        ∷ ("status", string)
        ∷ ("owner_user_id", optional (union string null))
        ∷ ("suspension_reason", optional (union string null))
        ∷ ("created_at", string)
        ∷ ("updated_at", string)
        ∷ [])))

abbrev pub list_tenants_response : Schema
list_tenants_response = array list_tenants_response_item

abbrev pub get_tenant_params : Schema
get_tenant_params = object (keys (("tenant_id", coerce_string) ∷ []))

abbrev pub get_tenant_response : Schema
get_tenant_response = describe (
    object (
      keys (
        ("tenant_id", string)
        ∷ ("name", string)
        ∷ ("status", string)
        ∷ ("owner_user_id", optional (union string null))
        ∷ ("suspension_reason", optional (union string null))
        ∷ ("created_at", string)
        ∷ ("updated_at", string)
        ∷ [])))

abbrev pub suspend_tenant_params : Schema
suspend_tenant_params = object (keys (("tenant_id", coerce_string) ∷ []))

abbrev pub suspend_tenant_body : Schema
suspend_tenant_body = object (keys (("reason", string) ∷ []))

abbrev pub suspend_tenant_response : Schema
suspend_tenant_response = describe (
    object (
      keys (
        ("tenant_id", string)
        ∷ ("name", string)
        ∷ ("status", string)
        ∷ ("owner_user_id", optional (union string null))
        ∷ ("suspension_reason", optional (union string null))
        ∷ ("created_at", string)
        ∷ ("updated_at", string)
        ∷ [])))

abbrev pub reactivate_tenant_params : Schema
reactivate_tenant_params = object (keys (("tenant_id", coerce_string) ∷ []))

abbrev pub reactivate_tenant_response : Schema
reactivate_tenant_response = describe (
    object (
      keys (
        ("tenant_id", string)
        ∷ ("name", string)
        ∷ ("status", string)
        ∷ ("owner_user_id", optional (union string null))
        ∷ ("suspension_reason", optional (union string null))
        ∷ ("created_at", string)
        ∷ ("updated_at", string)
        ∷ [])))

abbrev pub archive_tenant_params : Schema
archive_tenant_params = object (keys (("tenant_id", coerce_string) ∷ []))

abbrev pub archive_tenant_response : Schema
archive_tenant_response = describe (
    object (
      keys (
        ("tenant_id", string)
        ∷ ("name", string)
        ∷ ("status", string)
        ∷ ("owner_user_id", optional (union string null))
        ∷ ("suspension_reason", optional (union string null))
        ∷ ("created_at", string)
        ∷ ("updated_at", string)
        ∷ [])))
