-- ===== src/Schemas/Generated/Delegations.antt =====
-- lib/api-zod/src/generated/api.ts: the delegations of authority.
use development_plan.Base.{String, [], ◌∷◌}
use development_plan.Schemas.Zod.{
  Schema, string, boolean, null, coerce_string, optional, describe, default, union, array, object,
  keys,
}

abbrev pub list_delegations_response_item : Schema
list_delegations_response_item = describe (
    object (
      keys (
        ("delegation_id", string)
        ∷ ("tenant_id", string)
        ∷ ("delegator_user_id", string)
        ∷ ("delegate_user_id", string)
        ∷ ("delegated_roles", array string)
        ∷ ("scope", string)
        ∷ ("status", string)
        ∷ ("expires_at", optional (union string null))
        ∷ ("created_at", string)
        ∷ ("updated_at", string)
        ∷ ("revoked_at", optional (union string null))
        ∷ ("revoked_by", optional (union string null))
        ∷ ("effective", boolean)
        ∷ ("ineffective_reason", optional (union string null))
        ∷ [])))

abbrev pub list_delegations_response : Schema
list_delegations_response = array list_delegations_response_item

abbrev pub create_delegation_body_scope_default : String
create_delegation_body_scope_default = "tenant_governance"

abbrev pub create_delegation_body : Schema
create_delegation_body = object (
    keys (
      ("delegate_user_id", string)
      ∷ ("delegated_roles", array string)
      ∷ ("scope", default create_delegation_body_scope_default string)
      ∷ ("expires_at", optional (union string null))
      ∷ []))

abbrev pub create_delegation_response : Schema
create_delegation_response = describe (
    object (
      keys (
        ("delegation_id", string)
        ∷ ("tenant_id", string)
        ∷ ("delegator_user_id", string)
        ∷ ("delegate_user_id", string)
        ∷ ("delegated_roles", array string)
        ∷ ("scope", string)
        ∷ ("status", string)
        ∷ ("expires_at", optional (union string null))
        ∷ ("created_at", string)
        ∷ ("updated_at", string)
        ∷ ("revoked_at", optional (union string null))
        ∷ ("revoked_by", optional (union string null))
        ∷ [])))

abbrev pub get_delegation_params : Schema
get_delegation_params = object (keys (("delegation_id", coerce_string) ∷ []))

abbrev pub get_delegation_response : Schema
get_delegation_response = describe (
    object (
      keys (
        ("delegation_id", string)
        ∷ ("tenant_id", string)
        ∷ ("delegator_user_id", string)
        ∷ ("delegate_user_id", string)
        ∷ ("delegated_roles", array string)
        ∷ ("scope", string)
        ∷ ("status", string)
        ∷ ("expires_at", optional (union string null))
        ∷ ("created_at", string)
        ∷ ("updated_at", string)
        ∷ ("revoked_at", optional (union string null))
        ∷ ("revoked_by", optional (union string null))
        ∷ ("effective", boolean)
        ∷ ("ineffective_reason", optional (union string null))
        ∷ [])))

abbrev pub revoke_delegation_params : Schema
revoke_delegation_params = object (keys (("delegation_id", coerce_string) ∷ []))

abbrev pub revoke_delegation_response : Schema
revoke_delegation_response = describe (
    object (
      keys (
        ("delegation_id", string)
        ∷ ("tenant_id", string)
        ∷ ("delegator_user_id", string)
        ∷ ("delegate_user_id", string)
        ∷ ("delegated_roles", array string)
        ∷ ("scope", string)
        ∷ ("status", string)
        ∷ ("expires_at", optional (union string null))
        ∷ ("created_at", string)
        ∷ ("updated_at", string)
        ∷ ("revoked_at", optional (union string null))
        ∷ ("revoked_by", optional (union string null))
        ∷ [])))

abbrev pub extend_delegation_params : Schema
extend_delegation_params = object (keys (("delegation_id", coerce_string) ∷ []))

abbrev pub extend_delegation_body : Schema
extend_delegation_body = object (keys (("expires_at", optional (union string null)) ∷ []))

abbrev pub extend_delegation_response : Schema
extend_delegation_response = describe (
    object (
      keys (
        ("delegation_id", string)
        ∷ ("tenant_id", string)
        ∷ ("delegator_user_id", string)
        ∷ ("delegate_user_id", string)
        ∷ ("delegated_roles", array string)
        ∷ ("scope", string)
        ∷ ("status", string)
        ∷ ("expires_at", optional (union string null))
        ∷ ("created_at", string)
        ∷ ("updated_at", string)
        ∷ ("revoked_at", optional (union string null))
        ∷ ("revoked_by", optional (union string null))
        ∷ [])))
