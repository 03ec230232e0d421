-- ===== src/Client/Api/Queries.antt =====
-- lib/api-client-react/src/generated/api.ts: the queries, and the keys by which react-query keeps
-- their answers.
use development_plan.Base.{String, ◌≡◌, refl, sym, ap, ◌∙◌, Option, none, some, [], ◌∷◌, All}
use development_plan.Client.Api.{value, Runtime, IdValue, printed, with_method}
use development_plan.Client.Api.Hooks.{
  QuerySettings, QueryArguments, query_options, query_of, or_key, overridden,
}
use development_plan.Client.Api.Auth
use development_plan.Client.Api.Tenants
use development_plan.Client.Api.Delegations
use development_plan.Client.Api.Parcels
use development_plan.Client.Api.Evidence
use development_plan.Client.Api.Operations.Auth as AuthCalls
use development_plan.Client.Api.Operations.Tenants as TenantCalls
use development_plan.Client.Api.Operations.Delegations as DelegationCalls
use development_plan.Client.Api.Operations.Parcels as ParcelCalls
use development_plan.Client.Api.Operations.Evidence as EvidenceCalls
use development_plan.Client.Api.Operations.{
  Operation, sent, operation_id, ids, auth, tenant, delegation, parcel, evidence,
}
use development_plan.Client.Api.Paths.{segments, IsPlain}
use development_plan.Client.Api.Routes.{find_route, routes, find_request-method}
use development_plan.Client.Api.Routing.{plain-routed}

pub data Query : Type 0 where
  liveness_check : Query
  readiness_check : Query
  get_current_user : Query
  get_current_user_tenant : Query
  list_invitations : Query
  list_tenants : Query
  get_tenant : IdValue → Query
  list_delegations : Query
  get_delegation : IdValue → Query
  list_parcels : Query
  get_parcel : IdValue → Query
  get_active_parcel_geometry : IdValue → Query
  list_parcel_evidence : IdValue → Query

-- `getXQueryOptions`
unfoldable pub settings : Query → Option QueryArguments → QuerySettings
settings liveness_check arguments = Auth.get_liveness_check_query_options arguments
settings readiness_check arguments = Auth.get_readiness_check_query_options arguments
settings get_current_user arguments = Auth.get_get_current_user_query_options arguments
settings get_current_user_tenant arguments =
    Auth.get_get_current_user_tenant_query_options arguments
settings list_invitations arguments = Tenants.get_list_invitations_query_options arguments
settings list_tenants arguments = Tenants.get_list_tenants_query_options arguments
settings (get_tenant tenant_id) arguments = Tenants.get_get_tenant_query_options tenant_id arguments
settings list_delegations arguments = Delegations.get_list_delegations_query_options arguments
settings (get_delegation delegation_id) arguments =
    Delegations.get_get_delegation_query_options delegation_id arguments
settings list_parcels arguments = Parcels.get_list_parcels_query_options arguments
settings (get_parcel parcel_id) arguments = Parcels.get_get_parcel_query_options parcel_id arguments
settings (get_active_parcel_geometry parcel_id) arguments =
    Parcels.get_get_active_parcel_geometry_query_options parcel_id arguments
settings (list_parcel_evidence parcel_id) arguments =
    Evidence.get_list_parcel_evidence_query_options parcel_id arguments

-- The call that a query stands for.
unfoldable pub operation : {Value : Type 0} → Query → Operation Value
operation liveness_check = auth AuthCalls.liveness_check
operation readiness_check = auth AuthCalls.readiness_check
operation get_current_user = auth AuthCalls.get_current_user
operation get_current_user_tenant = auth AuthCalls.get_current_user_tenant
operation list_invitations = tenant TenantCalls.list_invitations
operation list_tenants = tenant TenantCalls.list_tenants
operation (get_tenant tenant_id) = tenant (TenantCalls.get_tenant (printed tenant_id))
operation list_delegations = delegation DelegationCalls.list_delegations
operation (get_delegation delegation_id) =
    delegation (DelegationCalls.get_delegation (printed delegation_id))
operation list_parcels = parcel ParcelCalls.list_parcels
operation (get_parcel parcel_id) = parcel (ParcelCalls.get_parcel (printed parcel_id))
operation (get_active_parcel_geometry parcel_id) =
    parcel (ParcelCalls.get_active_parcel_geometry (printed parcel_id))
operation (list_parcel_evidence parcel_id) =
    evidence (EvidenceCalls.list_parcel_evidence (printed parcel_id))

-- The default key of a query is the address of its call, and the call is a GET.
settings-key :
    {Value : Type 0} (runtime : Runtime Value) (q : Query)
    → let request = sent runtime (operation q) none in
      ((settings q none).query_key ≡ value (request.url ∷ []))
      × (request.options.method ≡ some "GET")
unfolding settings operation sent query_options query_of or_key overridden with_method
    AuthCalls.sent TenantCalls.sent DelegationCalls.sent ParcelCalls.sent EvidenceCalls.sent
    Auth.get_liveness_check_query_options Auth.get_liveness_check_query_key Auth.liveness_check
    Auth.get_liveness_check_url Auth.get_readiness_check_query_options
    Auth.get_readiness_check_query_key Auth.readiness_check Auth.get_readiness_check_url
    Auth.get_get_current_user_query_options Auth.get_get_current_user_query_key
    Auth.get_current_user Auth.get_get_current_user_url
    Auth.get_get_current_user_tenant_query_options Auth.get_get_current_user_tenant_query_key
    Auth.get_current_user_tenant Auth.get_get_current_user_tenant_url
    Tenants.get_list_invitations_query_options Tenants.get_list_invitations_query_key
    Tenants.list_invitations Tenants.get_list_invitations_url Tenants.get_list_tenants_query_options
    Tenants.get_list_tenants_query_key Tenants.list_tenants Tenants.get_list_tenants_url
    Tenants.get_get_tenant_query_options Tenants.get_get_tenant_query_key Tenants.get_tenant
    Tenants.get_get_tenant_url Delegations.get_list_delegations_query_options
    Delegations.get_list_delegations_query_key Delegations.list_delegations
    Delegations.get_list_delegations_url Delegations.get_get_delegation_query_options
    Delegations.get_get_delegation_query_key Delegations.get_delegation
    Delegations.get_get_delegation_url Parcels.get_list_parcels_query_options
    Parcels.get_list_parcels_query_key Parcels.list_parcels Parcels.get_list_parcels_url
    Parcels.get_get_parcel_query_options Parcels.get_get_parcel_query_key Parcels.get_parcel
    Parcels.get_get_parcel_url Parcels.get_get_active_parcel_geometry_query_options
    Parcels.get_get_active_parcel_geometry_query_key Parcels.get_active_parcel_geometry
    Parcels.get_get_active_parcel_geometry_url Evidence.get_list_parcel_evidence_query_options
    Evidence.get_list_parcel_evidence_query_key Evidence.list_parcel_evidence
    Evidence.get_list_parcel_evidence_url
settings-key runtime liveness_check = (refl, refl)
settings-key runtime readiness_check = (refl, refl)
settings-key runtime get_current_user = (refl, refl)
settings-key runtime get_current_user_tenant = (refl, refl)
settings-key runtime list_invitations = (refl, refl)
settings-key runtime list_tenants = (refl, refl)
settings-key runtime (get_tenant _) = (refl, refl)
settings-key runtime list_delegations = (refl, refl)
settings-key runtime (get_delegation _) = (refl, refl)
settings-key runtime list_parcels = (refl, refl)
settings-key runtime (get_parcel _) = (refl, refl)
settings-key runtime (get_active_parcel_geometry _) = (refl, refl)
settings-key runtime (list_parcel_evidence _) = (refl, refl)

key-url : {a b : String} → value (a ∷ []) ≡ value (b ∷ []) → a ≡ b
key-url e = cc

same-route : {A : Type 0} {a b : A} → some a ≡ some b → a ≡ b
same-route e = cc

-- Queries whose default keys agree are the same operation at the same ids, where the ids are not
-- empty and have no slash or question mark in them: no query is given the answer of another.
pub settings-decide :
    {Value : Type 0} (runtime : Runtime Value) (q r : Query)
    → All IsPlain (ids {Value = Value} (operation q))
    → All IsPlain (ids {Value = Value} (operation r))
    → (settings q none).query_key ≡ (settings r none).query_key
    → (operation_id {Value = Value} (operation q) ≡ operation_id {Value = Value} (operation r))
      × (ids {Value = Value} (operation q) ≡ ids {Value = Value} (operation r))
settings-decide {Value} runtime q r plain_q plain_r e =
    let (key_q, get_q) = settings-key runtime q in
    let (key_r, get_r) = settings-key runtime r in
    let same = key-url (sym key_q ∙ e ∙ key_r) in
    let found = same-route (
      sym (plain-routed runtime (operation q) none plain_q)
      ∙ find_request-method (sent runtime (operation q) none) "GET" get_q
      ∙ ap (λ url. find_route routes "GET" (segments url)) same
      ∙ sym (find_request-method (sent runtime (operation r) none) "GET" get_r)
      ∙ plain-routed runtime (operation r) none plain_r) in
    (ap (λ f. f.0) found, ap (λ f. f.1) found)
