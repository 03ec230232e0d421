-- ===== src/Schemas/Contracts/Tenants.antt =====
-- The schemas of roles, invitations and tenants, with the types that the client gives to the same values.
use development_plan.Base.{refl, List, [], ◌∷◌, All, string_eq}
use development_plan.Schemas.Types.{Shape}
use development_plan.Schemas.Generated.Tenants as Generated
use development_plan.Schemas.Interfaces.Identity
use development_plan.Schemas.Infer.{
  is_optional, infer, infer_entries, lacks_key, is_regular, are_regular, is_unlimited,
  are_unlimited,
}
use development_plan.Schemas.Agreement.{Contract, Agrees, IsUnlimited}

abbrev pub tenant_contracts : List Contract
tenant_contracts =
    record {
      operation = "assignRole";
      schema = Generated.assign_role_body;
      shape = Identity.assign_role_request;
    }
    ∷ record {
      operation = "assignRole";
      schema = Generated.assign_role_response;
      shape = Identity.role_assignment_response;
    }
    ∷ record {
      operation = "listInvitations";
      schema = Generated.list_invitations_response;
      shape = Shape.array Identity.invitation_summary_response;
    }
    ∷ record {
      operation = "createInvitation";
      schema = Generated.create_invitation_body;
      shape = Identity.create_invitation_request;
    }
    ∷ record {
      operation = "createInvitation";
      schema = Generated.create_invitation_response;
      shape = Identity.invitation_created_response;
    }
    ∷ record {
      operation = "revokeInvitation";
      schema = Generated.revoke_invitation_response;
      shape = Identity.invitation_summary_response;
    }
    ∷ record {
      operation = "listTenants";
      schema = Generated.list_tenants_response;
      shape = Shape.array Identity.tenant_summary_response;
    }
    ∷ record {
      operation = "getTenant";
      schema = Generated.get_tenant_response;
      shape = Identity.tenant_summary_response;
    }
    ∷ record {
      operation = "suspendTenant";
      schema = Generated.suspend_tenant_body;
      shape = Identity.suspend_tenant_request;
    }
    ∷ record {
      operation = "suspendTenant";
      schema = Generated.suspend_tenant_response;
      shape = Identity.tenant_summary_response;
    }
    ∷ record {
      operation = "reactivateTenant";
      schema = Generated.reactivate_tenant_response;
      shape = Identity.tenant_summary_response;
    }
    ∷ record {
      operation = "archiveTenant";
      schema = Generated.archive_tenant_response;
      shape = Identity.tenant_summary_response;
    }
    ∷ []

pub tenant_contracts-Agree : All Agrees tenant_contracts
unfolding infer infer_entries is_optional is_regular are_regular lacks_key string_eq
tenant_contracts-Agree = (
  (refl, refl, refl),
  (
    (refl, refl, refl),
    (
      (refl, refl, refl),
      (
        (refl, refl, refl),
        (
          (refl, refl, refl),
          (
            (refl, refl, refl),
            (
              (refl, refl, refl),
              (
                (refl, refl, refl),
                (
                  (refl, refl, refl),
                  ((refl, refl, refl), ((refl, refl, refl), ((refl, refl, refl), tt))),
                ),
              ),
            ),
          ),
        ),
      ),
    ),
  ),
)

pub tenant_contracts-AreUnlimited : All IsUnlimited tenant_contracts
unfolding is_unlimited are_unlimited
tenant_contracts-AreUnlimited = (
  refl,
  (refl, (refl, (refl, (refl, (refl, (refl, (refl, (refl, (refl, (refl, (refl, tt))))))))))),
)
