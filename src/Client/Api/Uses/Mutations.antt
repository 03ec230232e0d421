-- ===== src/Client/Api/Uses/Mutations.antt =====
-- lib/api-client-react/src/generated/api.ts: the hooks that change.
use development_plan.Base.{String, Option}
use development_plan.Client.{Body}
use development_plan.Client.Api.{Runtime}
use development_plan.Client.Api.Evidence.{UploadParcelEvidenceParams}
use development_plan.Client.Api.Hooks.{MutationArguments}
use development_plan.Client.Api.Auth.{
  get_register_user_mutation_options, get_login_mutation_options,
  get_accept_invitation_mutation_options, get_accept_invitation_supabase_mutation_options,
  get_refresh_token_mutation_options, get_logout_mutation_options,
}
use development_plan.Client.Api.Delegations.{
  get_create_delegation_mutation_options, get_revoke_delegation_mutation_options,
  get_extend_delegation_mutation_options,
}
use development_plan.Client.Api.Evidence.{
  get_upload_parcel_evidence_mutation_options, get_record_evidence_attribution_mutation_options,
  get_correct_evidence_attribution_mutation_options,
}
use development_plan.Client.Api.Parcels.{
  get_create_parcel_mutation_options, get_update_parcel_mutation_options,
  get_archive_parcel_mutation_options, get_set_parcel_geometry_reference_mutation_options,
  get_submit_parcel_geometry_mutation_options,
}
use development_plan.Client.Api.Tenants.{
  get_assign_role_mutation_options, get_create_invitation_mutation_options,
  get_revoke_invitation_mutation_options, get_suspend_tenant_mutation_options,
  get_reactivate_tenant_mutation_options, get_archive_tenant_mutation_options,
}
use development_plan.Client.Api.Uses.{ReactQuery}

module _ {S P Result : Type 0} (react_query : ReactQuery S P Result) where
  unfoldable pub use_register_user :
      {Value : Type 0} → Runtime Value → Option (MutationArguments (Value)) → Result
  use_register_user runtime arguments =
      react_query.use_mutation (get_register_user_mutation_options runtime arguments)

  unfoldable pub use_login :
      {Value : Type 0} → Runtime Value → Option (MutationArguments (Value)) → Result
  use_login runtime arguments =
      react_query.use_mutation (get_login_mutation_options runtime arguments)

  unfoldable pub use_accept_invitation :
      {Value : Type 0} → Runtime Value → Option (MutationArguments (Value)) → Result
  use_accept_invitation runtime arguments =
      react_query.use_mutation (get_accept_invitation_mutation_options runtime arguments)

  unfoldable pub use_accept_invitation_supabase :
      {Value : Type 0} → Runtime Value → Option (MutationArguments (Value)) → Result
  use_accept_invitation_supabase runtime arguments =
      react_query.use_mutation (get_accept_invitation_supabase_mutation_options runtime arguments)

  unfoldable pub use_refresh_token : Option (MutationArguments (Unit {0})) → Result
  use_refresh_token arguments =
      react_query.use_mutation (get_refresh_token_mutation_options arguments)

  unfoldable pub use_logout : Option (MutationArguments (Unit {0})) → Result
  use_logout arguments = react_query.use_mutation (get_logout_mutation_options arguments)

  unfoldable pub use_create_delegation :
      {Value : Type 0} → Runtime Value → Option (MutationArguments (Value)) → Result
  use_create_delegation runtime arguments =
      react_query.use_mutation (get_create_delegation_mutation_options runtime arguments)

  unfoldable pub use_revoke_delegation : Option (MutationArguments (String)) → Result
  use_revoke_delegation arguments =
      react_query.use_mutation (get_revoke_delegation_mutation_options arguments)

  unfoldable pub use_extend_delegation :
      {Value : Type 0} → Runtime Value → Option (MutationArguments (String × Value)) → Result
  use_extend_delegation runtime arguments =
      react_query.use_mutation (get_extend_delegation_mutation_options runtime arguments)

  unfoldable pub use_upload_parcel_evidence :
      {Value : Type 0}
      → Runtime Value
      → Option (MutationArguments (String × Body × UploadParcelEvidenceParams))
      → Result
  use_upload_parcel_evidence runtime arguments =
      react_query.use_mutation (get_upload_parcel_evidence_mutation_options runtime arguments)

  unfoldable pub use_record_evidence_attribution :
      {Value : Type 0} → Runtime Value → Option (MutationArguments (String × Value)) → Result
  use_record_evidence_attribution runtime arguments =
      react_query.use_mutation (get_record_evidence_attribution_mutation_options runtime arguments)

  unfoldable pub use_correct_evidence_attribution :
      {Value : Type 0} → Runtime Value → Option (MutationArguments (String × Value)) → Result
  use_correct_evidence_attribution runtime arguments =
      react_query.use_mutation (get_correct_evidence_attribution_mutation_options runtime arguments)

  unfoldable pub use_create_parcel :
      {Value : Type 0} → Runtime Value → Option (MutationArguments (Value)) → Result
  use_create_parcel runtime arguments =
      react_query.use_mutation (get_create_parcel_mutation_options runtime arguments)

  unfoldable pub use_update_parcel :
      {Value : Type 0} → Runtime Value → Option (MutationArguments (String × Value)) → Result
  use_update_parcel runtime arguments =
      react_query.use_mutation (get_update_parcel_mutation_options runtime arguments)

  unfoldable pub use_archive_parcel : Option (MutationArguments (String)) → Result
  use_archive_parcel arguments =
      react_query.use_mutation (get_archive_parcel_mutation_options arguments)

  unfoldable pub use_set_parcel_geometry_reference :
      {Value : Type 0} → Runtime Value → Option (MutationArguments (String × Value)) → Result
  use_set_parcel_geometry_reference runtime arguments =
      react_query.use_mutation
        (get_set_parcel_geometry_reference_mutation_options runtime arguments)

  unfoldable pub use_submit_parcel_geometry :
      {Value : Type 0} → Runtime Value → Option (MutationArguments (String × Value)) → Result
  use_submit_parcel_geometry runtime arguments =
      react_query.use_mutation (get_submit_parcel_geometry_mutation_options runtime arguments)

  unfoldable pub use_assign_role :
      {Value : Type 0} → Runtime Value → Option (MutationArguments (String × Value)) → Result
  use_assign_role runtime arguments =
      react_query.use_mutation (get_assign_role_mutation_options runtime arguments)

  unfoldable pub use_create_invitation :
      {Value : Type 0} → Runtime Value → Option (MutationArguments (Value)) → Result
  use_create_invitation runtime arguments =
      react_query.use_mutation (get_create_invitation_mutation_options runtime arguments)

  unfoldable pub use_revoke_invitation : Option (MutationArguments (String)) → Result
  use_revoke_invitation arguments =
      react_query.use_mutation (get_revoke_invitation_mutation_options arguments)

  unfoldable pub use_suspend_tenant :
      {Value : Type 0} → Runtime Value → Option (MutationArguments (String × Value)) → Result
  use_suspend_tenant runtime arguments =
      react_query.use_mutation (get_suspend_tenant_mutation_options runtime arguments)

  unfoldable pub use_reactivate_tenant : Option (MutationArguments (String)) → Result
  use_reactivate_tenant arguments =
      react_query.use_mutation (get_reactivate_tenant_mutation_options arguments)

  unfoldable pub use_archive_tenant : Option (MutationArguments (String)) → Result
  use_archive_tenant arguments =
      react_query.use_mutation (get_archive_tenant_mutation_options arguments)
