-- ===== src/Client/Reply/Laws.antt =====
-- lib/api-client-react/src/custom-fetch.ts: when `customFetch` returns, what it throws, and how
-- long a message is.
use mathlib.Core.Logic.{if_neg, if_pos}
use native.Mathlib.Decide.{dec_lt}
use development_plan.Base.{
  ℕ, zero, suc, ◌+◌, ◌≤◌, ◌<◌, String, ◌≡◌, ◌≢◌, ◌⊎◌, inl, inr, refl, sym, ap, ◌∙◌, true, false,
  Option, none, some, [], ◌∷◌, ◌++◌, arith, Bool-cases, if_of_true, if_of_false, length, take,
  string_eq,
}
use development_plan.Client.{ResponseType}
use development_plan.Client.Units.{Text, is_empty, truncate, strip_bom, trim}
use development_plan.Client.Reply.{
  Value, null, string, other, Settled, resolved, rejected, Response, Runtime, RequestInfo,
  api_error, returns, throws, has_no_body, parse_success_body, parse_error_body, receive,
  new_api_error, json_of, json_from, parsed, fail_with, or_url, read_blob, read_text, is_binary,
  error_value, build_error_message, get_media_type,
}

length-take : (n : ℕ) (s : Text) → length (take n s) ≤ n
length-take zero s = omega arith
length-take (suc n) [] = omega arith
length-take (suc n) (c ∷ s) = omega (arith, length-take n s)

length-append : (a b : Text) → length (a ++ b) ≡ length a + length b
length-append [] b = omega arith
length-append (c ∷ a) b = omega (arith, length-append a b)

-- A text that is cut to fit into a message has at most 300 units, and a text that fits stays.
pub length-truncate :
    (s : Text) → (length (truncate s) ≤ 300) × ((truncate s ≡ s) ⊎ (300 < length s))
unfolding truncate
length-truncate s = elim (dec_lt 300 (length s)) [
  | yes long ↦
      rw (if_pos _ long)
        (omega (arith, length-append (take 299 s) (8230 ∷ []), length-take 299 s), inr long)
  | no short ↦ rw (if_neg _ short) (omega (arith, short), inl refl)
]

module _ {V : Type 0} (rt : Runtime V) where
  -- `customFetch` returns a value only where the response is ok.
  pub receive-ok :
      (response : Response V) (type_of : ResponseType) (info : RequestInfo) (v : Value V)
      → receive rt response type_of info ≡ returns v
      → response.ok ≡ true
  unfolding receive
  receive-ok response type_of info v e = elim (Bool-cases response.ok) [
    | inl good ↦ good
    | inr bad ↦
        absurd (go (parse_error_body rt response info.method) (sym (if_of_false _ _ bad) ∙ e))
  ]
    where
      go : (s : Settled (Value V)) → fail_with rt response info s ≢ returns v
      go rejected p = cc
      go (resolved x) p = cc

  read_blob-resolved :
      (b : Option (Settled V)) (t : Settled Text) (raw : Text)
      → b ≢ some rejected
      → t ≡ resolved raw
      → (v : Value V) × (read_blob rt b t ≡ resolved v)
  read_blob-resolved none t raw whole readable = (string raw, ap (read_text rt string) readable)
  read_blob-resolved (some rejected) t raw whole readable = absurd (whole refl)
  read_blob-resolved (some (resolved v)) t raw whole readable = (other v, refl)

  parse_error_body-resolved :
      (response : Response V) (method : String) (raw : Text)
      → response.text ≡ resolved raw
      → response.blob ≢ some rejected
      → (v : Value V) × (parse_error_body rt response method ≡ resolved v)
  unfolding parse_error_body
  parse_error_body-resolved response method raw readable whole =
      elim (Bool-cases (has_no_body response method)) [
        | inl empty ↦ (null, if_of_true _ _ empty)
        | inr full ↦ elim (Bool-cases (is_binary rt (get_media_type rt response))) [
          | inl binary ↦
              let (v, e) = read_blob-resolved response.blob response.text raw whole readable in
              (v, if_of_false _ _ full ∙ if_of_true _ _ binary ∙ e)
          | inr written ↦ (
            error_value rt (get_media_type rt response) raw,
            if_of_false _ _ full
                ∙ if_of_false _ _ written
                ∙ ap (read_text rt (error_value rt (get_media_type rt response))) readable,
          )
        ]
      ]

  -- A response that is not ok, and whose text and blob can be read, is always thrown as an ApiError
  -- with the status of the response and the method of the request: no failure to parse its body
  -- hides it.
  pub receive-error :
      (response : Response V) (type_of : ResponseType) (info : RequestInfo) (raw : Text)
      → response.ok ≡ false
      → response.text ≡ resolved raw
      → response.blob ≢ some rejected
      → (v : Value V) × (url : Text) × (receive rt response type_of info
          ≡ throws
              (api_error response.status v info.method url (build_error_message rt response v)))
  unfolding receive new_api_error
  receive-error response type_of info raw bad readable whole =
      let (v, e) = parse_error_body-resolved response info.method raw readable whole in
      (v, or_url response info, if_of_false _ _ bad ∙ ap (fail_with rt response info) e)

  -- Where the request was a HEAD, or the status is 204, 205 or 304, or the length is given as 0, or
  -- there is no body, an ok response gives null, whatever type was asked for.
  pub receive-empty :
      (response : Response V) (type_of : ResponseType) (info : RequestInfo)
      → response.ok ≡ true
      → has_no_body response info.method ≡ true
      → receive rt response type_of info ≡ returns null
  unfolding receive parse_success_body
  receive-empty response type_of info good empty = if_of_true _ _ good ∙ if_of_true _ _ empty

  parsed-raw :
      (response : Response V) (info : RequestInfo) (raw raw' : Text) (o : Option (Value V))
      (v : Value V)
      → parsed rt response info raw o ≡ returns v
      → parsed rt response info raw' o ≡ returns v
  parsed-raw response info raw raw' none v e = absurd (cc)
  parsed-raw response info raw raw' (some x) v e = e

  json_from-raw :
      (response : Response V) (info : RequestInfo) (raw raw' s : Text) (v : Value V)
      → json_from rt response info raw s ≡ returns v
      → json_from rt response info raw' s ≡ returns v
  unfolding json_from
  json_from-raw response info raw raw' s v e = elim (Bool-cases (is_empty (trim s))) [
    | inl empty ↦ if_of_true _ _ empty ∙ sym (if_of_true _ _ empty) ∙ e
    | inr given ↦
        if_of_false _ _ given
        ∙ parsed-raw response info raw raw' (rt.parse s) v (sym (if_of_false _ _ given) ∙ e)
  ]

  -- A byte order mark before a JSON text that has none of its own changes nothing.
  pub json_of-bom :
      (response : Response V) (info : RequestInfo) (raw : Text) (v : Value V)
      → strip_bom raw ≡ raw
      → json_of rt response info raw ≡ returns v
      → json_of rt response info (65279 ∷ raw) ≡ returns v
  unfolding strip_bom
  json_of-bom response info raw v plain e =
      json_from-raw response info raw (65279 ∷ raw) raw v
        (ap (json_from rt response info raw) (sym plain) ∙ e)
