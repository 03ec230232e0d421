-- ===== src/Client/Api/Forms.antt =====
-- lib/api-client-react/src/generated/api.ts: what the requests of all its functions have in common.
use text.Mathlib.TextLemmas.{cons-append}
use development_plan.Base.{
  String, ◌<>◌, ◌≡◌, ◌⊎◌, inl, inr, refl, ap, ◌∙◌, true, Option, none, some, string_eq,
}
use development_plan.Client.{is_relative}
use development_plan.Client.Api.{
  Runtime, RequestOptions, Sent, spread, with_method, with_json, with_body,
}
use development_plan.Client.Api.Auth
use development_plan.Client.Api.Tenants
use development_plan.Client.Api.Delegations
use development_plan.Client.Api.Parcels
use development_plan.Client.Api.Evidence
use development_plan.Client.Api.Operations.{
  Operation, sent, auth, tenant, delegation, parcel, evidence,
}
use development_plan.Client.Api.Operations.Auth as AuthCalls
use development_plan.Client.Api.Operations.Tenants as TenantCalls
use development_plan.Client.Api.Operations.Delegations as DelegationCalls
use development_plan.Client.Api.Operations.Parcels as ParcelCalls
use development_plan.Client.Api.Operations.Evidence as EvidenceCalls
use development_plan.Client.Api.Routing.Evidence.{upload_url-cases}

-- A request that only reads: it has the body that the caller's options have.
abbrev pub Reads : Option RequestOptions → Sent → Type 0
Reads options s = (s.options.method ≡ some "GET") × (s.options.body ≡ (spread options).body)

abbrev pub Writes : Sent → Type 0
Writes s =
    (s.options.method ≡ some "POST")
    ⊎ (s.options.method ≡ some "PATCH")
    ⊎ (s.options.method ≡ some "PUT")

abbrev pub IsFormed : Option RequestOptions → Sent → Type 0
IsFormed options s = (is_relative s.url ≡ true) × (Reads options s ⊎ Writes s)

relative_append : (s t : String) → is_relative s ≡ true → is_relative (s <> t) ≡ true
unfolding is_relative
relative_append String.[] t h = cc
relative_append (String.◌∷◌ c s) t h = rw (cons-append c s t) h

reading :
    (url : String) (options : Option RequestOptions)
    → is_relative url ≡ true
    → IsFormed options (record { url = url; options = with_method "GET" options })
unfolding with_method spread
reading url none relative = (relative, inl (refl, refl))
reading url (some options) relative = (relative, inl (refl, refl))

posting :
    (url : String) (options : Option RequestOptions)
    → is_relative url ≡ true
    → IsFormed options (record { url = url; options = with_method "POST" options })
unfolding with_method
posting url options relative = (relative, inr (inl refl))

auth-IsFormed :
    {Value : Type 0} (runtime : Runtime Value) (call : AuthCalls.AuthCall Value)
    (options : Option RequestOptions)
    → IsFormed options (AuthCalls.sent runtime call options)
unfolding AuthCalls.sent is_relative with_json with_body Auth.liveness_check
    Auth.get_liveness_check_url Auth.readiness_check Auth.get_readiness_check_url Auth.register_user
    Auth.get_register_user_url Auth.login Auth.get_login_url Auth.accept_invitation
    Auth.get_accept_invitation_url Auth.accept_invitation_supabase
    Auth.get_accept_invitation_supabase_url Auth.refresh_token Auth.get_refresh_token_url
    Auth.logout Auth.get_logout_url Auth.get_current_user Auth.get_get_current_user_url
    Auth.get_current_user_tenant Auth.get_get_current_user_tenant_url
auth-IsFormed runtime AuthCalls.liveness_check options = reading ("/health/live") options refl
auth-IsFormed runtime AuthCalls.readiness_check options = reading ("/health/ready") options refl
auth-IsFormed runtime (AuthCalls.register_user _) options = (refl, inr (inl refl))
auth-IsFormed runtime (AuthCalls.login _) options = (refl, inr (inl refl))
auth-IsFormed runtime (AuthCalls.accept_invitation _) options = (refl, inr (inl refl))
auth-IsFormed runtime (AuthCalls.accept_invitation_supabase _) options = (refl, inr (inl refl))
auth-IsFormed runtime AuthCalls.refresh_token options = posting ("/v1/auth/refresh") options refl
auth-IsFormed runtime AuthCalls.logout options = posting ("/v1/auth/logout") options refl
auth-IsFormed runtime AuthCalls.get_current_user options = reading ("/v1/auth/me") options refl
auth-IsFormed runtime AuthCalls.get_current_user_tenant options =
    reading ("/v1/auth/me/tenant") options refl

tenant-IsFormed :
    {Value : Type 0} (runtime : Runtime Value) (call : TenantCalls.TenantCall Value)
    (options : Option RequestOptions)
    → IsFormed options (TenantCalls.sent runtime call options)
unfolding TenantCalls.sent is_relative with_json with_body Tenants.assign_role
    Tenants.get_assign_role_url Tenants.list_invitations Tenants.get_list_invitations_url
    Tenants.create_invitation Tenants.get_create_invitation_url Tenants.revoke_invitation
    Tenants.get_revoke_invitation_url Tenants.list_tenants Tenants.get_list_tenants_url
    Tenants.get_tenant Tenants.get_get_tenant_url Tenants.suspend_tenant
    Tenants.get_suspend_tenant_url Tenants.reactivate_tenant Tenants.get_reactivate_tenant_url
    Tenants.archive_tenant Tenants.get_archive_tenant_url
tenant-IsFormed runtime (TenantCalls.assign_role user_id _) options =
    ((relative_append "/v1/admin/users/" (user_id <> "/roles") refl), inr (inl refl))
tenant-IsFormed runtime TenantCalls.list_invitations options =
    reading ("/v1/admin/invitations") options refl
tenant-IsFormed runtime (TenantCalls.create_invitation _) options = (refl, inr (inl refl))
tenant-IsFormed runtime (TenantCalls.revoke_invitation invitation_id) options =
    posting ("/v1/admin/invitations/" <> invitation_id <> "/revoke") options
      (relative_append "/v1/admin/invitations/" (invitation_id <> "/revoke") refl)
tenant-IsFormed runtime TenantCalls.list_tenants options =
    reading ("/v1/admin/tenants") options refl
tenant-IsFormed runtime (TenantCalls.get_tenant tenant_id) options =
    reading ("/v1/admin/tenants/" <> tenant_id) options
      (relative_append "/v1/admin/tenants/" tenant_id refl)
tenant-IsFormed runtime (TenantCalls.suspend_tenant tenant_id _) options =
    ((relative_append "/v1/admin/tenants/" (tenant_id <> "/suspend") refl), inr (inl refl))
tenant-IsFormed runtime (TenantCalls.reactivate_tenant tenant_id) options =
    posting ("/v1/admin/tenants/" <> tenant_id <> "/reactivate") options
      (relative_append "/v1/admin/tenants/" (tenant_id <> "/reactivate") refl)
tenant-IsFormed runtime (TenantCalls.archive_tenant tenant_id) options =
    posting ("/v1/admin/tenants/" <> tenant_id <> "/archive") options
      (relative_append "/v1/admin/tenants/" (tenant_id <> "/archive") refl)

delegation-IsFormed :
    {Value : Type 0} (runtime : Runtime Value) (call : DelegationCalls.DelegationCall Value)
    (options : Option RequestOptions)
    → IsFormed options (DelegationCalls.sent runtime call options)
unfolding DelegationCalls.sent is_relative with_json with_body Delegations.list_delegations
    Delegations.get_list_delegations_url Delegations.create_delegation
    Delegations.get_create_delegation_url Delegations.get_delegation
    Delegations.get_get_delegation_url Delegations.revoke_delegation
    Delegations.get_revoke_delegation_url Delegations.extend_delegation
    Delegations.get_extend_delegation_url
delegation-IsFormed runtime DelegationCalls.list_delegations options =
    reading ("/v1/admin/delegations") options refl
delegation-IsFormed runtime (DelegationCalls.create_delegation _) options = (refl, inr (inl refl))
delegation-IsFormed runtime (DelegationCalls.get_delegation delegation_id) options =
    reading ("/v1/admin/delegations/" <> delegation_id) options
      (relative_append "/v1/admin/delegations/" delegation_id refl)
delegation-IsFormed runtime (DelegationCalls.revoke_delegation delegation_id) options =
    posting ("/v1/admin/delegations/" <> delegation_id <> "/revoke") options
      (relative_append "/v1/admin/delegations/" (delegation_id <> "/revoke") refl)
delegation-IsFormed runtime (DelegationCalls.extend_delegation delegation_id _) options =
    ((relative_append "/v1/admin/delegations/" (delegation_id <> "/extend") refl), inr (inl refl))

parcel-IsFormed :
    {Value : Type 0} (runtime : Runtime Value) (call : ParcelCalls.ParcelCall Value)
    (options : Option RequestOptions)
    → IsFormed options (ParcelCalls.sent runtime call options)
unfolding ParcelCalls.sent is_relative with_json with_body Parcels.list_parcels
    Parcels.get_list_parcels_url Parcels.create_parcel Parcels.get_create_parcel_url
    Parcels.update_parcel Parcels.get_update_parcel_url Parcels.get_parcel
    Parcels.get_get_parcel_url Parcels.archive_parcel Parcels.get_archive_parcel_url
    Parcels.set_parcel_geometry_reference Parcels.get_set_parcel_geometry_reference_url
    Parcels.submit_parcel_geometry Parcels.get_submit_parcel_geometry_url
    Parcels.get_active_parcel_geometry Parcels.get_get_active_parcel_geometry_url
parcel-IsFormed runtime ParcelCalls.list_parcels options = reading ("/v1/parcels") options refl
parcel-IsFormed runtime (ParcelCalls.create_parcel _) options = (refl, inr (inl refl))
parcel-IsFormed runtime (ParcelCalls.update_parcel parcel_id _) options =
    ((relative_append "/v1/parcels/" parcel_id refl), inr (inr (inl refl)))
parcel-IsFormed runtime (ParcelCalls.get_parcel parcel_id) options =
    reading ("/v1/parcels/" <> parcel_id) options (relative_append "/v1/parcels/" parcel_id refl)
parcel-IsFormed runtime (ParcelCalls.archive_parcel parcel_id) options =
    posting ("/v1/parcels/" <> parcel_id <> "/archive") options
      (relative_append "/v1/parcels/" (parcel_id <> "/archive") refl)
parcel-IsFormed runtime (ParcelCalls.set_parcel_geometry_reference parcel_id _) options =
    ((relative_append "/v1/parcels/" (parcel_id <> "/geometry") refl), inr (inr (inr refl)))
parcel-IsFormed runtime (ParcelCalls.submit_parcel_geometry parcel_id _) options =
    ((relative_append "/v1/spatial/parcels/" (parcel_id <> "/geometry") refl), inr (inr (inr refl)))
parcel-IsFormed runtime (ParcelCalls.get_active_parcel_geometry parcel_id) options =
    reading ("/v1/spatial/parcels/" <> parcel_id <> "/geometry") options
      (relative_append "/v1/spatial/parcels/" (parcel_id <> "/geometry") refl)

upload-relative :
    {Value : Type 0} (runtime : Runtime Value) (parcel_id : String)
    (params : Evidence.UploadParcelEvidenceParams)
    → is_relative (Evidence.get_upload_parcel_evidence_url runtime parcel_id params) ≡ true
unfolding is_relative
upload-relative runtime parcel_id params = elim (upload_url-cases runtime parcel_id params) [
  | inl e ↦ ap is_relative e ∙ relative_append "/v1/parcels/" (parcel_id <> "/evidence") refl
  | inr e ↦
      ap is_relative e
      ∙ relative_append "/v1/parcels/"
          (parcel_id
            <> ("/evidence" <> ("?" <> runtime.search_params (Evidence.normalized_params params))))
          refl
]

evidence-IsFormed :
    {Value : Type 0} (runtime : Runtime Value) (call : EvidenceCalls.EvidenceCall Value)
    (options : Option RequestOptions)
    → IsFormed options (EvidenceCalls.sent runtime call options)
unfolding EvidenceCalls.sent is_relative with_json with_body Evidence.upload_parcel_evidence
    Evidence.list_parcel_evidence Evidence.get_list_parcel_evidence_url
    Evidence.record_evidence_attribution Evidence.get_record_evidence_attribution_url
    Evidence.correct_evidence_attribution Evidence.get_correct_evidence_attribution_url
evidence-IsFormed runtime (EvidenceCalls.upload_parcel_evidence parcel_id body params) options =
    (upload-relative runtime parcel_id params, inr (inl refl))
evidence-IsFormed runtime (EvidenceCalls.list_parcel_evidence parcel_id) options =
    reading ("/v1/parcels/" <> parcel_id <> "/evidence") options
      (relative_append "/v1/parcels/" (parcel_id <> "/evidence") refl)
evidence-IsFormed runtime (EvidenceCalls.record_evidence_attribution evidence_id _) options =
    ((relative_append "/v1/evidence/" (evidence_id <> "/attributions") refl), inr (inl refl))
evidence-IsFormed runtime (EvidenceCalls.correct_evidence_attribution attribution_id _) options = (
  (relative_append "/v1/evidence/attributions/" (attribution_id <> "/corrections") refl),
  inr (inl refl),
)

pub sent-IsFormed :
    {Value : Type 0} (runtime : Runtime Value) (operation : Operation Value)
    (options : Option RequestOptions)
    → IsFormed options (sent runtime operation options)
unfolding sent
sent-IsFormed runtime (auth c) options = auth-IsFormed runtime c options
sent-IsFormed runtime (tenant c) options = tenant-IsFormed runtime c options
sent-IsFormed runtime (delegation c) options = delegation-IsFormed runtime c options
sent-IsFormed runtime (parcel c) options = parcel-IsFormed runtime c options
sent-IsFormed runtime (evidence c) options = evidence-IsFormed runtime c options
