-- ===== src/Web/NewParcel/Submission.antt =====
-- artifacts/landvault-web/src/pages/parcels/new.tsx against lib/api-zod: what the form sends.
use mathlib.Core.List.{Memᴰ}
use development_plan.Base.{
  String, ◌≡◌, inl, inr, refl, sym, ap, ◌∙◌, ◌++◌, ◌||◌, Bool, true, Option, none, some, string_eq,
  Option-cases,
}
use development_plan.Schemas.Values.{Value, Fields, get}
use development_plan.Base.Booleans.{and-both}
use development_plan.Schemas.Zod.{parse_entries, Zod, IsZod}
use development_plan.Schemas.Types.{
  is_string, is_number, is_null, or_undefined, has_type, has_properties,
}
use development_plan.Schemas.Infer.{lacks_key}
use development_plan.Schemas.Infer.Steps.{map-some}
use development_plan.Schemas.Generated.Parcels.{create_parcel_body}
use development_plan.Schemas.Interfaces.Registry.{create_parcel_request}
use development_plan.Schemas.Agreement.{Contract}
use development_plan.Schemas.Infer.Outcomes.{is_some}
use development_plan.Schemas.Contracts.{body_contracts, Mem-append, typed-accepted}
use development_plan.Schemas.Contracts.Auth.{auth_contracts}
use development_plan.Schemas.Contracts.Tenants.{tenant_contracts}
use development_plan.Schemas.Contracts.Delegations.{delegation_contracts}
use development_plan.Schemas.Contracts.Parcels.{parcel_contracts}
use development_plan.Schemas.Contracts.Evidence.{evidence_contracts}
use development_plan.Schemas.Zod.Loops.{none-some, some-eq}
use development_plan.Client.Api.{Runtime, Sent}
use development_plan.Client.Api.Parcels.{create_parcel}
use development_plan.Web.NewParcel.{form_schema, on_submit}
use development_plan.Web.NewParcel.Fields.{
  form_keys, IsText, IsArea, IsContact, IsComplete, form_keys-IsComplete, object-parsed,
}

abbrev creation : Contract
creation = record {
  operation = "createParcel";
  schema = create_parcel_body;
  shape = create_parcel_request;
}

creation-is_contract : Memᴰ creation body_contracts
creation-is_contract =
    Mem-append creation auth_contracts
      (tenant_contracts ++ (delegation_contracts ++ (parcel_contracts ++ evidence_contracts)))
      (Mem-append creation tenant_contracts
        (delegation_contracts ++ (parcel_contracts ++ evidence_contracts))
        (Mem-append creation delegation_contracts (parcel_contracts ++ evidence_contracts)
          (Memᴰ.tail (Memᴰ.head refl))))

module _ {N : Type 0} (z : Zod N) (laws : IsZod z) where
  -- An optional text or null of the client's type.
  abbrev text_or_null : Value N → Bool
  text_or_null v = or_undefined true v (is_string (λ s. true) v || is_null v)

  undefined_fits : (v : Value N) → v ≡ Value.undefined → text_or_null v ≡ true
  undefined_fits v e = ap text_or_null e

  text_fits : (v w : Value N) → IsText z laws v w → text_or_null w ≡ true
  text_fits v w (s, _, same, _) = ap text_or_null same

  contact_fits : (v w : Value N) → IsContact z laws v w → text_or_null w ≡ true
  contact_fits v w (_, inl missing) = ap text_or_null missing
  contact_fits v w (_, inr (s, same)) = ap text_or_null same

  area_fits :
      (v w : Value N) → IsArea z laws v w → or_undefined true w (is_number w || is_null w) ≡ true
  area_fits v w (n, _, same, _) = ap (λ x. or_undefined true x (is_number x || is_null x)) same

  -- What the form sends has the type CreateParcelRequest.
  complete-has_type :
      (given out : Fields N)
      → IsComplete z laws given out
      → has_type create_parcel_request (Value.object out) ≡ true
  unfolding has_type has_properties lacks_key string_eq
  complete-has_type given out h =
      let missing : (name : String)
          → lacks_key name form_keys ≡ true
          → text_or_null (get name out) ≡ true =
        λ name lack. undefined_fits (get name out) (h.no_more name lack) in
      and-both (missing "country_code" refl) (
        and-both (missing "title" refl) (
          and-both (text_fits _ _ h.address) (
            and-both (text_fits _ _ h.state) (
              and-both (text_fits _ _ h.lga) (
                and-both (missing "ward" refl) (
                  and-both (missing "community" refl) (
                    and-both (text_fits _ _ h.land_use) (
                      and-both (area_fits _ _ h.size) (
                        and-both (missing "ownership_type" refl) (
                          and-both (text_fits _ _ h.owner)
                            (and-both (contact_fits _ _ h.contact) refl)))))))))))

  -- With a zod that parses as it documents: a call that the form makes sends an object with what its
  -- fields hold, the area as a number of at least 1, the contact a text or left out, the others texts
  -- that are not empty, and nothing else; and the schema of the API for the body accepts it.
  pub on_submit-IsComplete :
      (runtime : Runtime (Value N)) (fields : Value N) (sent : Sent)
      → on_submit z runtime fields ≡ some sent
      → (given : Fields N) × (out : Fields N) × (fields ≡ Value.object given)
        × (sent ≡ create_parcel runtime (Value.object out) none)
        × IsComplete z laws given out
        × (is_some (z.parse create_parcel_body (Value.object out)) ≡ true)
  unfolding on_submit
  on_submit-IsComplete runtime fields sent e =
      let send : Option (Value N) → Option Sent =
        λ o. elim o [ none ↦ none | some d ↦ some (create_parcel runtime d none) ] in
      elim (Option-cases (z.parse form_schema fields)) [
        | inl refused ↦ absurd (none-some (sym (ap send refused) ∙ e))
        | inr (d, parsed) ↦
            let (given, object, made) = object-parsed z laws fields d parsed in
            let (out, each, same) =
              map-some Value.object (parse_entries z.parse form_keys given) d made in
            let complete = form_keys-IsComplete z laws given out each in
            (
              given,
              out,
              object,
              sym (some-eq (sym (ap send (parsed ∙ ap some (sym same))) ∙ e)),
              complete,
              typed-accepted z laws creation (Value.object out) creation-is_contract
                  ∙ complete-has_type given out complete,
            )
      ]
