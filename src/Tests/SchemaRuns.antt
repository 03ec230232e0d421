-- ===== src/Tests/SchemaRuns.antt =====
-- What the schemas of requests let through and refuse.
use mathlib.Core.List.{Memᴰ}
use development_plan.Base.{ℕ, ◌≡◌, refl, true, some, string_eq}
use development_plan.Schemas.Values.{Value, Fields, get, has}
use development_plan.Schemas.Types.{has_type}
use development_plan.Schemas.Generated.Auth.{register_user_body}
use development_plan.Schemas.Interfaces.Identity.{register_request}
use development_plan.Schemas.Agreement.{Contract}
use development_plan.Schemas.Infer.Outcomes.{is_some}
use development_plan.Schemas.Contracts.{body_contracts, contracts, parsed-typed, typed-accepted}
use development_plan.Tests.SampleZod.{sample_zod, sample_zod-IsZod, parse, parse_each}

abbrev pub registration : Contract
registration = record {
  operation = "registerUser";
  schema = register_user_body;
  shape = register_request;
}

abbrev given : Value ℕ
given = Value.object (
    Fields.field "email" (Value.string "ada@example.com") (
      Fields.field "password" (Value.string "secret") (
        Fields.field "role" (Value.string "admin")
          (Fields.field "full_name" (Value.string "Ada") Fields.end))))

-- The unknown key is gone.
abbrev received : Value ℕ
received = Value.object (
    Fields.field "email" (Value.string "ada@example.com") (
      Fields.field "password" (Value.string "secret")
        (Fields.field "full_name" (Value.string "Ada") Fields.end)))

given-parsed : sample_zod.parse registration.schema given ≡ some received
unfolding parse parse_each get has string_eq
given-parsed = refl

registration-is_contract : Memᴰ registration contracts
registration-is_contract = Memᴰ.tail (Memᴰ.tail (Memᴰ.head refl))

registration-is_body : Memᴰ registration body_contracts
registration-is_body = Memᴰ.tail (Memᴰ.tail (Memᴰ.head refl))

parsed-typed_example : has_type registration.shape received ≡ true
parsed-typed_example =
    parsed-typed sample_zod sample_zod-IsZod registration given received registration-is_contract
      given-parsed

typed-accepted_example :
    is_some (sample_zod.parse registration.schema given) ≡ has_type registration.shape given
typed-accepted_example =
    typed-accepted sample_zod sample_zod-IsZod registration given registration-is_body
