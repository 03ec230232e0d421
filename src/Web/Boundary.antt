-- ===== src/Web/Boundary.antt =====
-- artifacts/landvault-web/src/components/error-boundary.tsx: the error that ErrorBoundary keeps.
pub mod Errors
use development_plan.Base.{
  String, Bool, true, false, not, ◌&&◌, Option, none, some, List, [], ◌∷◌, ◌==◌, string_eq,
  if◌then◌else◌,
}
use development_plan.Base.Attempt.{Attempt, done, threw}

-- An object of class Error, by its message.
pub record Error : Type 0 where
  pub message : String

-- A value that is thrown; `Other` is the type of those that are neither errors nor texts.
pub data Thrown (Other : Type 0) : Type 0 where
  error : Error → Thrown Other
  text : String → Thrown Other
  other : Other → Thrown Other

-- `JSON.stringify`, which gives undefined for some values, and `String`; both may throw.
pub record Printing (Other : Type 0) : Type 0 where
  pub stringify : Other → Attempt (Option String)
  pub to_string : Other → Attempt String

-- `new Error(message)`
abbrev pub new_error : Option String → Error
new_error none = record { message = "" }
new_error (some message) = record { message = message }

unfoldable pub printed_error : Attempt String → Attempt Error
printed_error threw = threw
printed_error (done s) = done (new_error (some s))

unfoldable pub to_error : {Other : Type 0} → Printing Other → Thrown Other → Attempt Error
to_error printing (error e) = done e
to_error printing (text s) = done (new_error (some s))
to_error printing (other value) = elim (printing.stringify value) [
  | done s ↦ done (new_error s)
  | threw ↦ printed_error (printing.to_string value)
]

-- The state, with the key of the current props.
pub record Boundary : Type 0 where
  pub error : Option Error
  pub reset_key : String

unfoldable pub mounted : String → Boundary
mounted key = record { error = none; reset_key = key }

unfoldable pub reset_error : Boundary → Boundary
reset_error b = record b { error = none }

-- What the console is given: the error, and where the children were when they threw it.
abbrev pub Console : Type 0
Console = List (Error × String)

abbrev pub caught : Attempt Error → Boundary → Console → Attempt (Boundary × Console)
caught threw b console = threw
caught (done e) b console = done (record b { error = some e }, (e, b.reset_key) ∷ console)

-- The children are rendered, unless an error is kept: getDerivedStateFromError and componentDidCatch.
unfoldable pub render :
    {Other : Type 0}
    → Printing Other
    → Option (Thrown Other)
    → Boundary
    → Console
    → Attempt (Boundary × Console)
render printing outcome b console = elim b.error [
  | some e ↦ done (b, console)
  | none ↦ elim outcome [
    | none ↦ done (b, console)
    | some t ↦ caught (to_error printing t) b console
  ]
]

abbrev pub is_caught : Option Error → Bool
is_caught none = false
is_caught (some e) = true

unfoldable pub component_did_update : String → Boundary → Boundary
component_did_update previous b =
    if is_caught b.error && not (previous == b.reset_key) then reset_error b else b

-- After a rendering: componentDidUpdate, and the rendering that its reset asks for.
unfoldable pub commit :
    {Other : Type 0}
    → Printing Other
    → String
    → Option (Thrown Other)
    → Boundary
    → Console
    → Attempt (Boundary × Console)
commit printing previous again b console =
    let updated = component_did_update previous b in
    if is_caught b.error && not (is_caught updated.error)
    then render printing again updated console
    else done (updated, console)

-- New props. The outcomes are what the children throw in the first rendering and in the second.
unfoldable pub receive_props :
    {Other : Type 0}
    → Printing Other
    → String
    → Option (Thrown Other)
    → Option (Thrown Other)
    → Boundary
    → Console
    → Attempt (Boundary × Console)
receive_props printing key first again b console =
    elim (render printing first (record b { reset_key = key }) console) [
      | threw ↦ threw
      | done (b', console') ↦ commit printing b.reset_key again b' console'
    ]

-- What happens to a boundary: new props, or a press of "Try again".
pub data Event (Other : Type 0) : Type 0 where
  props : String → Option (Thrown Other) → Option (Thrown Other) → Event Other
  try_again : Option (Thrown Other) → Event Other

unfoldable pub step :
    {Other : Type 0}
    → Printing Other
    → Event Other
    → Boundary
    → Console
    → Attempt (Boundary × Console)
step printing (props key first again) b console = receive_props printing key first again b console
step printing (try_again outcome) b console = render printing outcome (reset_error b) console

unfoldable pub run :
    {Other : Type 0}
    → Printing Other
    → List (Event Other)
    → Boundary
    → Console
    → Attempt (Boundary × Console)
run printing [] b console = done (b, console)
run printing (e ∷ events) b console = elim (step printing e b console) [
  | threw ↦ threw
  | done (b', console') ↦ run printing events b' console'
]
