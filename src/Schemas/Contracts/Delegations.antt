-- ===== src/Schemas/Contracts/Delegations.antt =====
-- The schemas of the delegations of authority, with the types that the client gives to the same values.
use development_plan.Base.{refl, List, [], ◌∷◌, All, string_eq}
use development_plan.Schemas.Types.{Shape}
use development_plan.Schemas.Generated.Delegations as Generated
use development_plan.Schemas.Interfaces.Identity
use development_plan.Schemas.Infer.{
  is_optional, infer, infer_entries, lacks_key, is_regular, are_regular, is_unlimited,
  are_unlimited,
}
use development_plan.Schemas.Agreement.{Contract, Agrees, IsUnlimited}

abbrev pub delegation_contracts : List Contract
delegation_contracts =
    record {
      operation = "listDelegations";
      schema = Generated.list_delegations_response;
      shape = Shape.array Identity.delegation_summary_effective_response;
    }
    ∷ record {
      operation = "createDelegation";
      schema = Generated.create_delegation_body;
      shape = Identity.create_delegation_request;
    }
    ∷ record {
      operation = "createDelegation";
      schema = Generated.create_delegation_response;
      shape = Identity.delegation_summary_response;
    }
    ∷ record {
      operation = "getDelegation";
      schema = Generated.get_delegation_response;
      shape = Identity.delegation_summary_effective_response;
    }
    ∷ record {
      operation = "revokeDelegation";
      schema = Generated.revoke_delegation_response;
      shape = Identity.delegation_summary_response;
    }
    ∷ record {
      operation = "extendDelegation";
      schema = Generated.extend_delegation_body;
      shape = Identity.extend_delegation_request;
    }
    ∷ record {
      operation = "extendDelegation";
      schema = Generated.extend_delegation_response;
      shape = Identity.delegation_summary_response;
    }
    ∷ []

pub delegation_contracts-Agree : All Agrees delegation_contracts
unfolding infer infer_entries is_optional is_regular are_regular lacks_key string_eq
delegation_contracts-Agree = (
  (refl, refl, refl),
  (
    (refl, refl, refl),
    (
      (refl, refl, refl),
      ((refl, refl, refl), ((refl, refl, refl), ((refl, refl, refl), ((refl, refl, refl), tt)))),
    ),
  ),
)

pub delegation_contracts-AreUnlimited : All IsUnlimited delegation_contracts
unfolding is_unlimited are_unlimited
delegation_contracts-AreUnlimited = (refl, (refl, (refl, (refl, (refl, (refl, (refl, tt)))))))
