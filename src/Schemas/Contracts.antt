-- ===== src/Schemas/Contracts.antt =====
-- lib/api-zod/src/generated/api.ts against lib/api-client-react/src/generated/api.schemas.ts, for
-- the body and the answer of every operation.
pub mod Auth
pub mod Tenants
pub mod Delegations
pub mod Parcels
pub mod Evidence
use mathlib.Core.List.{Memᴰ}
use development_plan.Base.{
  String, ◌≡◌, ◌↔◌, refl, sym, ap, ◌∙◌, subst, Bool, true, false, Option, none, some, List, [], ◌∷◌,
  ◌++◌, All, ◌&&◌, ◌||◌,
}
use development_plan.Schemas.Values.{Value, is_undefined}
use development_plan.Schemas.Zod.{Schema, Zod, IsZod}
use development_plan.Schemas.Types.{Shape, or_undefined, has_type}
use development_plan.Schemas.Infer.{is_optional, infer, is_regular, is_unlimited}
use development_plan.Schemas.Infer.Parsing.{Typed, typed, plain-Typed}
use development_plan.Schemas.Infer.Accepting.{typed_by, accepts}
use development_plan.Schemas.Infer.Outcomes.{is_some}
use development_plan.Schemas.Agreement.{Contract, Agrees, IsUnlimited}
use development_plan.Schemas.Contracts.Auth.{
  auth_contracts, auth_contracts-Agree, auth_contracts-AreUnlimited,
}
use development_plan.Schemas.Contracts.Tenants.{
  tenant_contracts, tenant_contracts-Agree, tenant_contracts-AreUnlimited,
}
use development_plan.Schemas.Contracts.Delegations.{
  delegation_contracts, delegation_contracts-Agree, delegation_contracts-AreUnlimited,
}
use development_plan.Schemas.Contracts.Parcels.{
  parcel_contracts, parcel_contracts-Agree, parcel_contracts-AreUnlimited,
}
use development_plan.Schemas.Contracts.Evidence.{
  evidence_contracts, evidence_contracts-Agree, evidence_contracts-AreUnlimited, query_contracts,
  query_contracts-Agree,
}

-- The bodies and the answers of all operations.
abbrev pub body_contracts : List Contract
body_contracts =
    auth_contracts ++ tenant_contracts ++ delegation_contracts ++ parcel_contracts
    ++ evidence_contracts

-- The parameters of a query as well.
abbrev pub contracts : List Contract
contracts = body_contracts ++ query_contracts

All-append : {A : Type 0} (P : A → Type 0) (xs ys : List A) → All P xs → All P ys → All P (xs ++ ys)
All-append P [] ys h k = k
All-append P (x ∷ xs) ys h k = (h.0, All-append P xs ys h.1 k)

All-Mem : {A : Type 0} (P : A → Type 0) (x : A) (xs : List A) → All P xs → Memᴰ x xs → P x
All-Mem P x [] h m = elim m [ ]
All-Mem P x (y ∷ ys) h (Memᴰ.head e) = subst P (sym e) h.0
All-Mem P x (y ∷ ys) h (Memᴰ.tail m) = All-Mem P x ys h.1 m

pub Mem-append : {A : Type 0} (x : A) (xs ys : List A) → Memᴰ x ys → Memᴰ x (xs ++ ys)
Mem-append x [] ys m = m
Mem-append x (y ∷ xs) ys m = Memᴰ.tail (Mem-append x xs ys m)

joined :
    (P : Contract → Type 0)
    → All P auth_contracts
    → All P tenant_contracts
    → All P delegation_contracts
    → All P parcel_contracts
    → All P evidence_contracts
    → All P body_contracts
joined P a t d p e =
    All-append P auth_contracts
      (tenant_contracts ++ (delegation_contracts ++ (parcel_contracts ++ evidence_contracts))) a
      (All-append P tenant_contracts
        (delegation_contracts ++ (parcel_contracts ++ evidence_contracts)) t
        (All-append P delegation_contracts (parcel_contracts ++ evidence_contracts) d
          (All-append P parcel_contracts evidence_contracts p e)))

body_contracts-Agree : All Agrees body_contracts
body_contracts-Agree =
    joined Agrees auth_contracts-Agree tenant_contracts-Agree delegation_contracts-Agree
      parcel_contracts-Agree evidence_contracts-Agree

contracts-Agree : All Agrees contracts
contracts-Agree =
    All-append Agrees body_contracts query_contracts body_contracts-Agree query_contracts-Agree

body_contracts-AreUnlimited : All IsUnlimited body_contracts
body_contracts-AreUnlimited =
    joined IsUnlimited auth_contracts-AreUnlimited tenant_contracts-AreUnlimited
      delegation_contracts-AreUnlimited parcel_contracts-AreUnlimited
      evidence_contracts-AreUnlimited

-- With a zod that parses as it documents: for every operation, whatever the schema of its body, of
-- its answer or of its query lets through has the type that the client gives it.
pub parsed-typed :
    {N : Type 0} (z : Zod N) (laws : IsZod z) (c : Contract) (v w : Value N)
    → Memᴰ c contracts
    → z.parse c.schema v ≡ some w
    → has_type c.shape w ≡ true
parsed-typed z laws c v w m e =
    let (same, regular, plain) = All-Mem Agrees c contracts contracts-Agree m in
    ap (λ a. has_type a w) (sym same)
    ∙ plain-Typed c.schema w plain (typed z laws c.schema v w regular e)

-- With a zod that parses as it documents: for every operation, the schema of its body or of its
-- answer accepts exactly the values that have the type that the client gives it.
pub typed-accepted :
    {N : Type 0} (z : Zod N) (laws : IsZod z) (c : Contract) (v : Value N)
    → Memᴰ c body_contracts
    → is_some (z.parse c.schema v) ≡ has_type c.shape v
typed-accepted z laws c v m =
    let (same, regular, plain) = All-Mem Agrees c body_contracts body_contracts-Agree m in
    let unlimited = All-Mem IsUnlimited c body_contracts body_contracts-AreUnlimited m in
    accepts z laws c.schema v regular unlimited
    ∙ ap (λ b. (b && is_undefined v) || has_type (infer c.schema) v) plain
    ∙ ap (λ a. has_type a v) same
