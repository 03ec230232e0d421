-- ===== src/Schemas/Infer.antt =====
-- The type of the values that a schema lets through, as TypeScript infers it of zod's own types.
pub mod Steps
pub mod Keys
pub mod Parsing
pub mod Outcomes
pub mod Accepting
use development_plan.Base.{String, Bool, true, false, not, ◌&&◌, ◌==◌, string_eq, if◌then◌else◌}
use development_plan.Schemas.Zod.{Schema, Entries}
use development_plan.Schemas.Types.{Shape, Properties}

-- Whether a key with this schema may be left out.
unfoldable pub is_optional : Schema → Bool
is_optional (Schema.optional s) = true
is_optional (Schema.default text s) = true
is_optional (Schema.describe s) = is_optional s
is_optional _ = false

unfoldable mutual
  pub infer : Schema → Shape
  infer Schema.string = Shape.string
  infer Schema.number = Shape.number
  infer Schema.boolean = Shape.boolean
  infer Schema.null = Shape.null
  infer Schema.unknown = Shape.unknown
  infer Schema.void = Shape.void
  infer Schema.coerce_string = Shape.string
  infer Schema.coerce_number = Shape.number
  infer (Schema.enum texts) = Shape.literals texts
  infer (Schema.min n s) = infer s
  infer (Schema.at_least n s) = infer s
  infer (Schema.max n s) = infer s
  infer (Schema.optional s) = infer s
  infer (Schema.describe s) = infer s
  infer (Schema.default text s) = infer s
  infer (Schema.union s t) = Shape.union (infer s) (infer t)
  infer (Schema.array s) = Shape.array (infer s)
  infer (Schema.record_of s) = Shape.index (infer s)
  infer (Schema.object es) = Shape.interface (infer_entries es)

  pub infer_entries : Entries → Properties
  infer_entries Entries.nothing = Properties.nothing
  infer_entries (Entries.entry name s es) =
      Properties.property name (is_optional s) (infer s) (infer_entries es)

unfoldable pub lacks_key : String → Entries → Bool
lacks_key name Entries.nothing = true
lacks_key name (Entries.entry k s es) =
    let rest = lacks_key name es in if k == name then false else rest

abbrev pub is_string_schema : Schema → Bool
is_string_schema Schema.string = true
is_string_schema _ = false

-- A schema whose keys differ, with optional schemas at keys alone and default texts of plain texts.
unfoldable mutual
  pub is_regular : Schema → Bool
  is_regular (Schema.min n s) = not (is_optional s) && is_regular s
  is_regular (Schema.at_least n s) = not (is_optional s) && is_regular s
  is_regular (Schema.max n s) = not (is_optional s) && is_regular s
  is_regular (Schema.optional s) = not (is_optional s) && is_regular s
  is_regular (Schema.describe s) = is_regular s
  is_regular (Schema.default text s) = is_string_schema s
  is_regular (Schema.union s t) =
      (not (is_optional s) && is_regular s) && (not (is_optional t) && is_regular t)
  is_regular (Schema.array s) = not (is_optional s) && is_regular s
  is_regular (Schema.record_of s) = not (is_optional s) && is_regular s
  is_regular (Schema.object es) = are_regular es
  is_regular _ = true

  pub are_regular : Entries → Bool
  are_regular Entries.nothing = true
  are_regular (Entries.entry name s es) = (lacks_key name es && is_regular s) && are_regular es

-- A schema with no limit on lengths and no conversion.
unfoldable mutual
  pub is_unlimited : Schema → Bool
  is_unlimited Schema.coerce_string = false
  is_unlimited Schema.coerce_number = false
  is_unlimited (Schema.min n s) = false
  is_unlimited (Schema.at_least n s) = false
  is_unlimited (Schema.max n s) = false
  is_unlimited (Schema.optional s) = is_unlimited s
  is_unlimited (Schema.describe s) = is_unlimited s
  is_unlimited (Schema.default text s) = is_unlimited s
  is_unlimited (Schema.union s t) = is_unlimited s && is_unlimited t
  is_unlimited (Schema.array s) = is_unlimited s
  is_unlimited (Schema.record_of s) = is_unlimited s
  is_unlimited (Schema.object es) = are_unlimited es
  is_unlimited _ = true

  pub are_unlimited : Entries → Bool
  are_unlimited Entries.nothing = true
  are_unlimited (Entries.entry name s es) = is_unlimited s && are_unlimited es
