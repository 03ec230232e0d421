-- ===== src/Client/Api/Routing.antt =====
-- lib/api-client-react/src/generated/api.ts against the routes of backend/app.
mod Ids
mod Auth
mod Tenants
mod Delegations
mod Parcels
pub mod Evidence
use development_plan.Base.{◌≡◌, Option, some, All}
use development_plan.Client.Api.{Runtime, RequestOptions}
use development_plan.Client.Api.Operations.{
  Operation, sent, operation_id, ids, auth, tenant, delegation, parcel, evidence,
}
use development_plan.Client.Api.Paths.{IsPlain, IsVerbatim, All-IsPlain}
use development_plan.Client.Api.Routes.{find_request}
use development_plan.Client.Api.Routing.Auth.{auth-routed}
use development_plan.Client.Api.Routing.Tenants.{tenant-routed}
use development_plan.Client.Api.Routing.Delegations.{delegation-routed}
use development_plan.Client.Api.Routing.Parcels.{parcel-routed}
use development_plan.Client.Api.Routing.Evidence.{evidence-routed}

-- The same of ids that only stay one segment of the path.
pub plain-routed :
    {Value : Type 0} (runtime : Runtime Value) (operation : Operation Value)
    (options : Option RequestOptions)
    → All IsPlain (ids operation)
    → find_request (sent runtime operation options) ≡ some (operation_id operation, ids operation)
unfolding sent operation_id ids
plain-routed runtime (auth c) options plain = auth-routed runtime c options plain
plain-routed runtime (tenant c) options plain = tenant-routed runtime c options plain
plain-routed runtime (delegation c) options plain = delegation-routed runtime c options plain
plain-routed runtime (parcel c) options plain = parcel-routed runtime c options plain
plain-routed runtime (evidence c) options plain = evidence-routed runtime c options plain

-- Every request of the client whose ids are not empty and consist of letters, digits, `-` and `_` is
-- one that the server routes: the first route that fits its method and path is the operation's own,
-- and takes the ids as its parameters.
pub request-routed :
    {Value : Type 0} (runtime : Runtime Value) (operation : Operation Value)
    (options : Option RequestOptions)
    → All IsVerbatim (ids operation)
    → find_request (sent runtime operation options) ≡ some (operation_id operation, ids operation)
request-routed runtime operation options verbatim =
    plain-routed runtime operation options (All-IsPlain (ids operation) verbatim)
