-- ===== src/Tests/Samples.antt =====
-- A runtime and a contract for runs of the server in memory: bodies arrive parsed, an empty status
-- is refused, and a response is sent as it is.
use mathlib.Core.Option.{some-injective}
use development_plan.Base.{
  subst, ℕ, String, ◌≡◌, ◌≢◌, none, some, List, false, arith, ◌==◌, string_eq, if◌then◌else◌,
}
use development_plan.Base.Attempt.{done}
use development_plan.Server.Schema.{Optional}
use development_plan.Server.Contract.{
  Parsed, success, failure, Runtime, Contract, ParcelQuery, CreateParcelBody, UpdateParcelBody,
  AddEvidenceBody, UpdateEvidenceBody, ParcelShape, ParcelPage, EvidenceShape, DashboardStats,
}
use development_plan.Server.Consistency.{HasStatuses}

abbrev pub runtime : Runtime ℕ
runtime = record {
  number_to_string = λ n. "1200";
  to_number = λ s. 1200;
  integer_to_string = λ n. "2026";
  to_iso_string = λ n. "2026-01-01T00:00:00.000Z";
  round = λ n. n;
  ilike = λ s pattern. false;
}

pub data Posted : Type 0 where
  asks : ParcelQuery → Posted
  creates : CreateParcelBody ℕ → Posted
  updates : UpdateParcelBody ℕ → Posted
  files : AddEvidenceBody → Posted
  reviews : UpdateEvidenceBody → Posted

pub data Sent : Type 0 where
  parcel : ParcelShape ℕ → Sent
  page : ParcelPage ℕ → Sent
  document : EvidenceShape → Sent
  documents : List EvidenceShape → Sent
  stats : DashboardStats ℕ → Sent
  healthy : String → Sent

abbrev pub asked : Posted → Parsed ParcelQuery
asked (asks q) = success q
asked _ = failure "query"

abbrev pub created : Posted → Parsed (CreateParcelBody ℕ)
created (creates d) = success d
created _ = failure "body"

-- `z.enum([...])` on the status
abbrev non_empty : {A : Type 0} → Optional String → A → Parsed A
non_empty none d = success d
non_empty (some s) d = if s == "" then failure "status" else success d

abbrev updated : Posted → Parsed (UpdateParcelBody ℕ)
updated (updates d) = non_empty d.status d
updated _ = failure "body"

abbrev pub filed : Posted → Parsed AddEvidenceBody
filed (files d) = success d
filed _ = failure "body"

abbrev reviewed : Posted → Parsed UpdateEvidenceBody
reviewed (reviews d) = non_empty d.status d
reviewed _ = failure "body"

abbrev pub contract : Contract ℕ
contract = record {
  Json = Posted;
  Reply = Sent;
  list_parcels_query = asked;
  list_parcels_response = λ p. done (page p);
  create_parcel_body = created;
  create_parcel_response = λ p. done (parcel p);
  get_parcel_response = λ p. done (parcel p);
  update_parcel_params = λ _. success tt;
  update_parcel_body = updated;
  update_parcel_response = λ p. done (parcel p);
  delete_parcel_params = λ _. success tt;
  list_evidence_params = λ _. success tt;
  list_evidence_response = λ es. done (documents es);
  add_evidence_params = λ _. success tt;
  add_evidence_body = filed;
  add_evidence_response = λ e. done (document e);
  update_evidence_params = λ _. success tt;
  update_evidence_body = reviewed;
  update_evidence_response = λ e. done (document e);
  delete_evidence_params = λ _. success tt;
  health_check_response = λ s. done (healthy s);
  dashboard_response = λ d. done (stats d);
}

non_empty_lem :
    {A : Type 0} (status : Optional String) (d e : A)
    → non_empty status d ≡ success e
    → (d ≡ e) × (status ≢ some "")
non_empty_lem none d e h = (cc, λ q. cc)
non_empty_lem (some s) d e h = elim (string_eq.dec s "") [
  | yes p ↦ absurd (ground arith)
  | no n ↦ (ground arith, λ q. n (some-injective _ _ q))
]

pub contract-HasStatuses : HasStatuses contract
contract-HasStatuses = record {
  parcel_stated = λ j d e. parcel_given j d e;
  evidence_stated = λ j d e. evidence_given j d e;
}
  where
    parcel_given :
        (j : Posted) (d : UpdateParcelBody ℕ) → updated j ≡ success d → d.status ≢ some ""
    parcel_given (updates b) d e =
        let (same, valid) = non_empty_lem b.status b d e in
        subst (λ x. x.status ≢ some "") same valid
    parcel_given (asks q) d e = absurd (cc)
    parcel_given (creates q) d e = absurd (cc)
    parcel_given (files q) d e = absurd (cc)
    parcel_given (reviews q) d e = absurd (cc)

    evidence_given :
        (j : Posted) (d : UpdateEvidenceBody) → reviewed j ≡ success d → d.status ≢ some ""
    evidence_given (reviews b) d e =
        let (same, valid) = non_empty_lem b.status b d e in
        subst (λ x. x.status ≢ some "") same valid
    evidence_given (asks q) d e = absurd (cc)
    evidence_given (creates q) d e = absurd (cc)
    evidence_given (files q) d e = absurd (cc)
    evidence_given (updates q) d e = absurd (cc)
