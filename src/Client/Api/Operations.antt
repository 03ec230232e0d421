-- ===== src/Client/Api/Operations.antt =====
-- lib/api-client-react/src/generated/api.ts: its operations as one type, for what holds of them all.
pub mod Auth
pub mod Tenants
pub mod Delegations
pub mod Parcels
pub mod Evidence
use development_plan.Base.{String, Option, List}
use development_plan.Client.Api.{Runtime, RequestOptions, Sent}
use development_plan.Client.Api.Operations.Auth.{AuthCall}
use development_plan.Client.Api.Operations.Tenants.{TenantCall}
use development_plan.Client.Api.Operations.Delegations.{DelegationCall}
use development_plan.Client.Api.Operations.Parcels.{ParcelCall}
use development_plan.Client.Api.Operations.Evidence.{EvidenceCall}

pub data Operation (Value : Type 0) : Type 0 where
  auth : AuthCall Value → Operation Value
  tenant : TenantCall Value → Operation Value
  delegation : DelegationCall Value → Operation Value
  parcel : ParcelCall Value → Operation Value
  evidence : EvidenceCall Value → Operation Value

unfoldable pub sent :
    {Value : Type 0} → Runtime Value → Operation Value → Option RequestOptions → Sent
sent runtime (auth c) options = Auth.sent runtime c options
sent runtime (tenant c) options = Tenants.sent runtime c options
sent runtime (delegation c) options = Delegations.sent runtime c options
sent runtime (parcel c) options = Parcels.sent runtime c options
sent runtime (evidence c) options = Evidence.sent runtime c options

unfoldable pub operation_id : {Value : Type 0} → Operation Value → String
operation_id (auth c) = Auth.operation_id c
operation_id (tenant c) = Tenants.operation_id c
operation_id (delegation c) = Delegations.operation_id c
operation_id (parcel c) = Parcels.operation_id c
operation_id (evidence c) = Evidence.operation_id c

unfoldable pub ids : {Value : Type 0} → Operation Value → List String
ids (auth c) = Auth.ids c
ids (tenant c) = Tenants.ids c
ids (delegation c) = Delegations.ids c
ids (parcel c) = Parcels.ids c
ids (evidence c) = Evidence.ids c
