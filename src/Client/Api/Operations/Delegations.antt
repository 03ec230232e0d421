-- ===== src/Client/Api/Operations/Delegations.antt =====
-- lib/api-client-react/src/generated/api.ts: the calls of the functions in Delegations.
use development_plan.Base.{String, Option, List, [], ◌∷◌}
use development_plan.Client.Api.{Runtime, RequestOptions, Sent}
use development_plan.Client.Api.Delegations

-- A call by its function and arguments, ids first.
pub data DelegationCall (Value : Type 0) : Type 0 where
  list_delegations : DelegationCall Value
  create_delegation : Value → DelegationCall Value
  get_delegation : String → DelegationCall Value
  revoke_delegation : String → DelegationCall Value
  extend_delegation : String → Value → DelegationCall Value

unfoldable pub sent :
    {Value : Type 0} → Runtime Value → DelegationCall Value → Option RequestOptions → Sent
sent runtime list_delegations options = Delegations.list_delegations options
sent runtime (create_delegation body) options = Delegations.create_delegation runtime body options
sent runtime (get_delegation delegation_id) options =
    Delegations.get_delegation delegation_id options
sent runtime (revoke_delegation delegation_id) options =
    Delegations.revoke_delegation delegation_id options
sent runtime (extend_delegation delegation_id body) options =
    Delegations.extend_delegation runtime delegation_id body options

-- The name of the operation in the OpenAPI document.
unfoldable pub operation_id : {Value : Type 0} → DelegationCall Value → String
operation_id list_delegations = "listDelegations"
operation_id (create_delegation _) = "createDelegation"
operation_id (get_delegation _) = "getDelegation"
operation_id (revoke_delegation _) = "revokeDelegation"
operation_id (extend_delegation _ _) = "extendDelegation"

unfoldable pub ids : {Value : Type 0} → DelegationCall Value → List String
ids list_delegations = []
ids (create_delegation _) = []
ids (get_delegation delegation_id) = delegation_id ∷ []
ids (revoke_delegation delegation_id) = delegation_id ∷ []
ids (extend_delegation delegation_id _) = delegation_id ∷ []
