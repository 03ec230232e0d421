-- ===== src/Web/Detail/Upload/Requests.antt =====
-- artifacts/landvault-web/src/pages/parcels/detail.tsx: which files are sent.
use development_plan.Base.{
  ℕ, ◌+◌, ◌≤◌, String, ◌≡◌, ◌≢◌, refl, sym, ap, ◌∙◌, Bool, true, false, ◌||◌, Option, none, some,
  List, [], ◌∷◌, ◌==◌, string_eq, length, All, arith, same-true, subst,
}
use development_plan.Base.Booleans.{leb-true, false-true}
use development_plan.Base.Attempt.{Attempt, done}
use development_plan.Client.{
  Headers, File, of_file, Call, Platform, Settings, get_header, prepare, text,
}
use development_plan.Client.Laws.{last_value}
use development_plan.Client.Calls.{prepare-IsMade, prepare-explicit}
use development_plan.Client.Api.{
  HeadersInit, Runtime, Sent, IdValue, read_options, with_body, typed_headers, own_properties,
  spread, set_property,
}
use development_plan.Client.Api.Evidence.{upload_parcel_evidence}
use development_plan.Web.Detail.Upload.{
  Card, fresh_card, max_upload_bytes, exceeds, is_none, is_disabled, upload_options, mutation_fn,
  on_success, on_error, Reached, start, set_open, set_file, set_evidence_type, set_basis, mutate,
  succeed, fail,
}

-- A request that uploads a file within the limit, with a description.
pub record IsUpload {Value : Type 0} (runtime : Runtime Value) (parcel_id : String)
    (request : Attempt Sent) : Type 0 where
  pub file : File
  pub evidence_type : String
  pub basis : String
  pub sent :
      request
      ≡ done (
          upload_parcel_evidence runtime parcel_id
            (of_file file)
            (("filename", IdValue.id file.name)
              ∷ ("evidence_type", IdValue.id evidence_type)
              ∷ ("basis", IdValue.id basis)
              ∷ [])
            (some (upload_options file)))
  pub within : file.size ≤ max_upload_bytes
  pub described : basis ≢ ""

or-none : (a b : Bool) → (a || b) ≡ false → (a ≡ false) × (b ≡ false)
or-none true b e = cc
or-none false b e = (refl, e)

abbrev pub number : Bool → ℕ
number true = 1
number false = 0

module _ {Value : Type 0} (runtime : Runtime Value) (parcel_id : String) where
  file_cases :
      (card : Card) (file : Option File)
      → card.file ≡ file
      → is_none file ≡ false
      → exceeds file ≡ false
      → card.basis ≢ ""
      → IsUpload runtime parcel_id (mutation_fn runtime parcel_id card)
  unfolding mutation_fn exceeds
  file_cases card none given there within described = cc
  file_cases card (some file) given there within described = record {
    file = file;
    evidence_type = card.evidence_type;
    basis = card.basis;
    sent = rw given refl;
    within = leb-true file.size max_upload_bytes (ground (arith, within));
    described = described;
  }

  -- An enabled button sends such a request.
  enabled-IsUpload :
      (card : Card)
      → is_disabled card ≡ false
      → IsUpload runtime parcel_id (mutation_fn runtime parcel_id card) × (card.is_pending ≡ false)
  unfolding is_disabled
  enabled-IsUpload card e =
      let (a, b) =
        or-none (is_none card.file || exceeds card.file) (card.basis == "" || card.is_pending) e in
      let (there, within) = or-none (is_none card.file) (exceeds card.file) a in
      let (described, idle) = or-none (card.basis == "") card.is_pending b in
      (
        file_cases card card.file refl there within
            (λ empty. false-true (sym described ∙ same-true empty)),
        idle,
      )

  -- Whatever the visitor picks and types, and whatever is answered: every request of the card uploads
  -- a file of 10 MiB at most, with a description that is not empty, and one at most is to be answered.
  pub Reached-IsUpload :
      {card : Card} {requests : List (Attempt Sent)} {answered : ℕ}
      → Reached runtime parcel_id card requests answered
      → All (IsUpload runtime parcel_id) requests
        × (length requests ≡ answered + number card.is_pending)
  unfolding fresh_card on_success on_error
  Reached-IsUpload start = (tt, refl)
  Reached-IsUpload (set_open o r) = Reached-IsUpload r
  Reached-IsUpload (set_file o r) = Reached-IsUpload r
  Reached-IsUpload (set_evidence_type o r) = Reached-IsUpload r
  Reached-IsUpload (set_basis o r) = Reached-IsUpload r
  Reached-IsUpload (mutate {card} {requests} {answered} r e) =
      let (all, count) = Reached-IsUpload r in
      let (upload, idle) = enabled-IsUpload card e in
      let counted = count ∙ ap (λ p. answered + number p) idle in ((upload, all), omega arith)
  Reached-IsUpload (succeed {card} {requests} {answered} r pending) =
      let (all, count) = Reached-IsUpload r in
      let counted = count ∙ ap (λ p. answered + number p) pending in (all, omega arith)
  Reached-IsUpload (fail {card} {requests} {answered} r pending) =
      let (all, count) = Reached-IsUpload r in
      let counted = count ∙ ap (λ p. answered + number p) pending in (all, omega arith)

  abbrev pub upload_of : File → List (String × IdValue) → Sent
  upload_of file params =
      upload_parcel_evidence runtime parcel_id (of_file file) params (some (upload_options file))

  upload_of-headers :
      (platform : Platform) (settings : Settings) (file : File) (params : List (String × IdValue))
      (headers : Headers) (call : Call)
      → runtime.new_headers (HeadersInit.object (("Content-Type", file.type) ∷ [])) ≡ done headers
      → last_value "content-type" headers ≡ some file.type
      → prepare platform settings
          (text (upload_of file params).url)
          (read_options runtime (upload_of file params).options)
        ≡ done call
      → (get_header "content-type" call.headers ≡ some file.type)
        × (call.body ≡ some (of_file file))
  unfolding upload_parcel_evidence upload_options with_body typed_headers own_properties spread
      set_property read_options string_eq
  upload_of-headers platform settings file params headers call made_headers typed made =
      let sent = upload_of file params in
      (
        prepare-explicit platform settings (text sent.url) (read_options runtime sent.options) call
            headers "content-type" file.type (ap some made_headers) typed made,
        (prepare-IsMade platform settings (text sent.url) (read_options runtime sent.options) call
            made).body,
      )

  sent_file :
      (card : Card) (file : File) (sent : Sent)
      → card.file ≡ some file
      → mutation_fn runtime parcel_id card ≡ done sent
      → upload_of file (
          ("filename", IdValue.id file.name)
          ∷ ("evidence_type", IdValue.id card.evidence_type)
          ∷ ("basis", IdValue.id card.basis)
          ∷ [])
        ≡ sent
  unfolding mutation_fn
  sent_file card file sent given e = done_same (rw given at e)
    where
      done_same : {a b : Sent} → done a ≡ done b → a ≡ b
      done_same p = cc

  -- Where `new Headers` gives the file's type under the name of the content type in lower case: what
  -- the card sends, if it comes to a call of `fetch`, has the type of the chosen file as its content
  -- type, and the file as its body, whatever the settings of the client and the token getter are.
  pub mutation_fn-typed :
      (platform : Platform) (settings : Settings) (card : Card) (file : File) (sent : Sent)
      (headers : Headers) (call : Call)
      → card.file ≡ some file
      → mutation_fn runtime parcel_id card ≡ done sent
      → runtime.new_headers (HeadersInit.object (("Content-Type", file.type) ∷ [])) ≡ done headers
      → last_value "content-type" headers ≡ some file.type
      → prepare platform settings (text sent.url) (read_options runtime sent.options) ≡ done call
      → (get_header "content-type" call.headers ≡ some file.type)
        × (call.body ≡ some (of_file file))
  mutation_fn-typed platform settings card file sent headers call given e built typed made =
      upload_of-headers platform settings file _ headers call built typed (
        subst
          (λ s. prepare platform settings (text s.url) (read_options runtime s.options) ≡ done call)
          (sym (sent_file card file sent given e)) made)
