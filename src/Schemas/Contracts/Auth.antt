-- ===== src/Schemas/Contracts/Auth.antt =====
-- The schemas of the health checks, the sign-in and the current user, with the types that the client gives to the same values.
use development_plan.Base.{refl, List, [], ◌∷◌, All, string_eq}
use development_plan.Schemas.Types.{Shape}
use development_plan.Schemas.Generated.Auth as Generated
use development_plan.Schemas.Interfaces.Identity
use development_plan.Schemas.Infer.{
  is_optional, infer, infer_entries, lacks_key, is_regular, are_regular, is_unlimited,
  are_unlimited,
}
use development_plan.Schemas.Agreement.{Contract, Agrees, IsUnlimited}

abbrev pub auth_contracts : List Contract
auth_contracts =
    record {
      operation = "livenessCheck";
      schema = Generated.liveness_check_response;
      shape = Identity.liveness_check200;
    }
    ∷ record {
      operation = "readinessCheck";
      schema = Generated.readiness_check_response;
      shape = Identity.readiness_check200;
    }
    ∷ record {
      operation = "registerUser";
      schema = Generated.register_user_body;
      shape = Identity.register_request;
    }
    ∷ record {
      operation = "registerUser";
      schema = Generated.register_user_response;
      shape = Identity.token_response;
    }
    ∷ record { operation = "login"; schema = Generated.login_body; shape = Identity.login_request }
    ∷ record {
      operation = "login";
      schema = Generated.login_response;
      shape = Identity.token_response;
    }
    ∷ record {
      operation = "acceptInvitation";
      schema = Generated.accept_invitation_body;
      shape = Identity.accept_invitation_request;
    }
    ∷ record {
      operation = "acceptInvitation";
      schema = Generated.accept_invitation_response;
      shape = Identity.token_response;
    }
    ∷ record {
      operation = "acceptInvitationSupabase";
      schema = Generated.accept_invitation_supabase_body;
      shape = Identity.accept_invitation_supabase_request;
    }
    ∷ record {
      operation = "acceptInvitationSupabase";
      schema = Generated.accept_invitation_supabase_response;
      shape = Identity.supabase_invitation_accepted_response;
    }
    ∷ record {
      operation = "refreshToken";
      schema = Generated.refresh_token_response;
      shape = Identity.token_response;
    }
    ∷ record { operation = "logout"; schema = Generated.logout_response; shape = Shape.void }
    ∷ record {
      operation = "getCurrentUser";
      schema = Generated.get_current_user_response;
      shape = Identity.user_context_response;
    }
    ∷ record {
      operation = "getCurrentUserTenant";
      schema = Generated.get_current_user_tenant_response;
      shape = Identity.tenant_summary_response;
    }
    ∷ []

pub auth_contracts-Agree : All Agrees auth_contracts
unfolding infer infer_entries is_optional is_regular are_regular lacks_key string_eq
auth_contracts-Agree = (
  (refl, refl, refl),
  (
    (refl, refl, refl),
    (
      (refl, refl, refl),
      (
        (refl, refl, refl),
        (
          (refl, refl, refl),
          (
            (refl, refl, refl),
            (
              (refl, refl, refl),
              (
                (refl, refl, refl),
                (
                  (refl, refl, refl),
                  (
                    (refl, refl, refl),
                    (
                      (refl, refl, refl),
                      ((refl, refl, refl), ((refl, refl, refl), ((refl, refl, refl), tt))),
                    ),
                  ),
                ),
              ),
            ),
          ),
        ),
      ),
    ),
  ),
)

pub auth_contracts-AreUnlimited : All IsUnlimited auth_contracts
unfolding is_unlimited are_unlimited
auth_contracts-AreUnlimited = (
  refl,
  (
    refl,
    (
      refl,
      (refl, (refl, (refl, (refl, (refl, (refl, (refl, (refl, (refl, (refl, (refl, tt))))))))))),
    ),
  ),
)
