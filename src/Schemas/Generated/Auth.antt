-- ===== src/Schemas/Generated/Auth.antt =====
-- lib/api-zod/src/generated/api.ts: the health checks, the sign-in and the current user.
use development_plan.Base.{[], ◌∷◌}
use development_plan.Schemas.Zod.{
  Schema, string, number, null, unknown, void, optional, describe, union, array, record_of, object,
  keys,
}

abbrev pub liveness_check_response : Schema
liveness_check_response = record_of string

abbrev pub readiness_check_response : Schema
readiness_check_response = record_of string

abbrev pub register_user_body : Schema
register_user_body = object (
    keys (
      ("email", string)
      ∷ ("password", string)
      ∷ ("full_name", string)
      ∷ ("country", optional (union string null))
      ∷ []))

abbrev pub register_user_response : Schema
register_user_response = object (
    keys (
      ("access_token", string)
      ∷ ("token_type", string)
      ∷ ("expires_in", number)
      ∷ ("user", record_of unknown)
      ∷ []))

abbrev pub login_body : Schema
login_body = object (keys (("email", string) ∷ ("password", string) ∷ []))

abbrev pub login_response : Schema
login_response = object (
    keys (
      ("access_token", string)
      ∷ ("token_type", string)
      ∷ ("expires_in", number)
      ∷ ("user", record_of unknown)
      ∷ []))

abbrev pub accept_invitation_body : Schema
accept_invitation_body = object (
    keys (
      ("token", string)
      ∷ ("password", string)
      ∷ ("full_name", string)
      ∷ ("country", optional (union string null))
      ∷ []))

abbrev pub accept_invitation_response : Schema
accept_invitation_response = object (
    keys (
      ("access_token", string)
      ∷ ("token_type", string)
      ∷ ("expires_in", number)
      ∷ ("user", record_of unknown)
      ∷ []))

abbrev pub accept_invitation_supabase_body : Schema
accept_invitation_supabase_body = describe (
    object (
      keys (
        ("token", string)
        ∷ ("full_name", string)
        ∷ ("country", optional (union string null))
        ∷ [])))

abbrev pub accept_invitation_supabase_response : Schema
accept_invitation_supabase_response = describe (
    object (
      keys (
        (
          "user",
          object (
              keys (
                ("user_id", string)
                ∷ ("email", string)
                ∷ ("full_name", string)
                ∷ ("country", string)
                ∷ ("tenant_id", string)
                ∷ ("roles", array string)
                ∷ ("account_status", string)
                ∷ [])),
        )
        ∷ [])))

abbrev pub refresh_token_header : Schema
refresh_token_header = object (keys (("x-refresh-token", optional (union string null)) ∷ []))

abbrev pub refresh_token_response : Schema
refresh_token_response = object (
    keys (
      ("access_token", string)
      ∷ ("token_type", string)
      ∷ ("expires_in", number)
      ∷ ("user", record_of unknown)
      ∷ []))

abbrev pub logout_response : Schema
logout_response = void

abbrev pub get_current_user_response : Schema
get_current_user_response = describe (
    object (
      keys (
        ("user_id", string)
        ∷ ("email", optional (union string null))
        ∷ ("country", optional (union string null))
        ∷ ("tenant_id", optional (union string null))
        ∷ ("organization_id", optional (union string null))
        ∷ ("roles", array string)
        ∷ [])))

abbrev pub get_current_user_tenant_response : Schema
get_current_user_tenant_response = describe (
    object (
      keys (
        ("tenant_id", string)
        ∷ ("name", string)
        ∷ ("status", string)
        ∷ ("owner_user_id", optional (union string null))
        ∷ ("suspension_reason", optional (union string null))
        ∷ ("created_at", string)
        ∷ ("updated_at", string)
        ∷ [])))
