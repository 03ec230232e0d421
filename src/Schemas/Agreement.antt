-- ===== src/Schemas/Agreement.antt =====
-- When a schema of lib/api-zod and a type of the client agree.
use development_plan.Base.{String, ◌≡◌, false, true}
use development_plan.Schemas.Zod.{Schema}
use development_plan.Schemas.Types.{Shape}
use development_plan.Schemas.Infer.{is_optional, infer, is_regular, is_unlimited}

-- What a body or an answer of an operation is by both.
pub record Contract : Type 0 where
  pub operation : String
  pub schema : Schema
  pub shape : Shape

abbrev pub Agrees : Contract → Type 0
Agrees c =
    (infer c.schema ≡ c.shape) × (is_regular c.schema ≡ true) × (is_optional c.schema ≡ false)

abbrev pub IsUnlimited : Contract → Type 0
IsUnlimited c = is_unlimited c.schema ≡ true
