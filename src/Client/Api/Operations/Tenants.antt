-- ===== src/Client/Api/Operations/Tenants.antt =====
-- lib/api-client-react/src/generated/api.ts: the calls of the functions in Tenants.
use development_plan.Base.{String, Option, List, [], ◌∷◌}
use development_plan.Client.Api.{Runtime, RequestOptions, Sent}
use development_plan.Client.Api.Tenants

-- A call by its function and arguments, ids first.
pub data TenantCall (Value : Type 0) : Type 0 where
  assign_role : String → Value → TenantCall Value
  list_invitations : TenantCall Value
  create_invitation : Value → TenantCall Value
  revoke_invitation : String → TenantCall Value
  list_tenants : TenantCall Value
  get_tenant : String → TenantCall Value
  suspend_tenant : String → Value → TenantCall Value
  reactivate_tenant : String → TenantCall Value
  archive_tenant : String → TenantCall Value

unfoldable pub sent :
    {Value : Type 0} → Runtime Value → TenantCall Value → Option RequestOptions → Sent
sent runtime (assign_role user_id body) options = Tenants.assign_role runtime user_id body options
sent runtime list_invitations options = Tenants.list_invitations options
sent runtime (create_invitation body) options = Tenants.create_invitation runtime body options
sent runtime (revoke_invitation invitation_id) options =
    Tenants.revoke_invitation invitation_id options
sent runtime list_tenants options = Tenants.list_tenants options
sent runtime (get_tenant tenant_id) options = Tenants.get_tenant tenant_id options
sent runtime (suspend_tenant tenant_id body) options =
    Tenants.suspend_tenant runtime tenant_id body options
sent runtime (reactivate_tenant tenant_id) options = Tenants.reactivate_tenant tenant_id options
sent runtime (archive_tenant tenant_id) options = Tenants.archive_tenant tenant_id options

-- The name of the operation in the OpenAPI document.
unfoldable pub operation_id : {Value : Type 0} → TenantCall Value → String
operation_id (assign_role _ _) = "assignRole"
operation_id list_invitations = "listInvitations"
operation_id (create_invitation _) = "createInvitation"
operation_id (revoke_invitation _) = "revokeInvitation"
operation_id list_tenants = "listTenants"
operation_id (get_tenant _) = "getTenant"
operation_id (suspend_tenant _ _) = "suspendTenant"
operation_id (reactivate_tenant _) = "reactivateTenant"
operation_id (archive_tenant _) = "archiveTenant"

unfoldable pub ids : {Value : Type 0} → TenantCall Value → List String
ids (assign_role user_id _) = user_id ∷ []
ids list_invitations = []
ids (create_invitation _) = []
ids (revoke_invitation invitation_id) = invitation_id ∷ []
ids list_tenants = []
ids (get_tenant tenant_id) = tenant_id ∷ []
ids (suspend_tenant tenant_id _) = tenant_id ∷ []
ids (reactivate_tenant tenant_id) = tenant_id ∷ []
ids (archive_tenant tenant_id) = tenant_id ∷ []
