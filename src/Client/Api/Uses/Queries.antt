-- ===== src/Client/Api/Uses/Queries.antt =====
-- lib/api-client-react/src/generated/api.ts: the hooks that ask.
use development_plan.Base.{Option}
use development_plan.Client.Api.{IdValue}
use development_plan.Client.Api.Hooks.{QueryArguments, QuerySettings}
use development_plan.Client.Api.Auth.{
  get_liveness_check_query_options, get_readiness_check_query_options,
  get_get_current_user_query_options, get_get_current_user_tenant_query_options,
}
use development_plan.Client.Api.Delegations.{
  get_list_delegations_query_options, get_get_delegation_query_options,
}
use development_plan.Client.Api.Evidence.{get_list_parcel_evidence_query_options}
use development_plan.Client.Api.Parcels.{
  get_list_parcels_query_options, get_get_parcel_query_options,
  get_get_active_parcel_geometry_query_options,
}
use development_plan.Client.Api.Tenants.{
  get_list_invitations_query_options, get_list_tenants_query_options, get_get_tenant_query_options,
}
use development_plan.Client.Api.Uses.{Query, ReactQuery, with_query_key}

module _ {S P Result : Type 0} (react_query : ReactQuery S P Result) where
  -- What every hook does with its settings.
  abbrev used : QuerySettings → Query S P
  used settings =
      with_query_key (react_query.use_query settings) (react_query.of_key settings.query_key)

  unfoldable pub use_liveness_check : Option QueryArguments → Query S P
  use_liveness_check arguments = used (get_liveness_check_query_options arguments)

  unfoldable pub use_readiness_check : Option QueryArguments → Query S P
  use_readiness_check arguments = used (get_readiness_check_query_options arguments)

  unfoldable pub use_get_current_user : Option QueryArguments → Query S P
  use_get_current_user arguments = used (get_get_current_user_query_options arguments)

  unfoldable pub use_get_current_user_tenant : Option QueryArguments → Query S P
  use_get_current_user_tenant arguments = used (get_get_current_user_tenant_query_options arguments)

  unfoldable pub use_list_delegations : Option QueryArguments → Query S P
  use_list_delegations arguments = used (get_list_delegations_query_options arguments)

  unfoldable pub use_get_delegation : IdValue → Option QueryArguments → Query S P
  use_get_delegation delegation_id arguments =
      used (get_get_delegation_query_options delegation_id arguments)

  unfoldable pub use_list_parcel_evidence : IdValue → Option QueryArguments → Query S P
  use_list_parcel_evidence parcel_id arguments =
      used (get_list_parcel_evidence_query_options parcel_id arguments)

  unfoldable pub use_list_parcels : Option QueryArguments → Query S P
  use_list_parcels arguments = used (get_list_parcels_query_options arguments)

  unfoldable pub use_get_parcel : IdValue → Option QueryArguments → Query S P
  use_get_parcel parcel_id arguments = used (get_get_parcel_query_options parcel_id arguments)

  unfoldable pub use_get_active_parcel_geometry : IdValue → Option QueryArguments → Query S P
  use_get_active_parcel_geometry parcel_id arguments =
      used (get_get_active_parcel_geometry_query_options parcel_id arguments)

  unfoldable pub use_list_invitations : Option QueryArguments → Query S P
  use_list_invitations arguments = used (get_list_invitations_query_options arguments)

  unfoldable pub use_list_tenants : Option QueryArguments → Query S P
  use_list_tenants arguments = used (get_list_tenants_query_options arguments)

  unfoldable pub use_get_tenant : IdValue → Option QueryArguments → Query S P
  use_get_tenant tenant_id arguments = used (get_get_tenant_query_options tenant_id arguments)
