-- ===== src/Server/Database/Memory.antt =====
-- A database in memory that meets the assumptions, for runs at concrete data.
use development_plan.Base.{
  ℕ, zero, suc, ◌+◌, String, ◌<>◌, ◌≡◌, refl, not, Option, none, some, List, [], ◌∷◌, map, keep,
  count, find, take, drop, arith, ap, string_eq, sym, ◌∙◌, subst, if◌then◌else◌, ◌==◌,
}
use development_plan.Base.Attempt.{Attempt, done, threw}
use development_plan.Server.Schema.{
  Parcel, stored_parcel, new_parcel, ParcelChanges, stored_changes, Evidence, new_evidence,
  EvidenceChanges,
}
use development_plan.Server.Database.{
  Database, IsLawful, has_id, is_evidence, belongs_to, changed_parcel, changed_evidence,
}

-- The two tables, and a counter from which ids and times are drawn.
pub record Tables : Type 0 where
  pub parcels : List (Parcel ℕ)
  pub evidence : List Evidence
  pub ticks : ℕ

abbrev pub empty_tables : Tables
empty_tables = record { parcels = []; evidence = []; ticks = 0 }

abbrev id_at : ℕ → String
id_at zero = "id"
id_at (suc n) = id_at n <> "'"

-- A row is added unless its key is taken.
abbrev insert_row : Tables → Parcel ℕ → Attempt (Parcel ℕ × Tables)
insert_row t p = elim (find (has_id p.id) t.parcels) [
  | none ↦ done (p, record t { parcels = p ∷ t.parcels; ticks = t.ticks + 1 })
  | some _ ↦ threw
]

abbrev insert_document : Tables → Evidence → Attempt (Evidence × Tables)
insert_document t e = elim (find (is_evidence e.id) t.evidence) [
  | none ↦ done (e, record t { evidence = e ∷ t.evidence; ticks = t.ticks + 1 })
  | some _ ↦ threw
]

abbrev cascade : String → Option (Parcel ℕ) → List Evidence → List Evidence
cascade id none es = es
cascade id (some _) es = keep (λ e. not (belongs_to id e)) es

-- Two decimals after a whole number.
-- The id of the first row, which may be written in upper case.
abbrev pub canonical : String → String
canonical s = if s == "ID" then "id" else s

abbrev pub fixed : String → String
fixed s = s <> ".00"

abbrev change_rows : ParcelChanges ℕ → String → Tables → Tables
change_rows c id t = record t {
  parcels = map (changed_parcel (stored_changes fixed c) id t.ticks) t.parcels;
  ticks = t.ticks + 1;
}

abbrev change_documents : EvidenceChanges → String → Tables → Tables
change_documents c id t = record t { evidence = map (changed_evidence c id) t.evidence }

abbrev total_trust : List (Parcel ℕ) → ℕ
total_trust [] = 0
total_trust (p ∷ ps) = p.trust_score + total_trust ps

abbrev pub memory : Database ℕ
memory = record {
  State = Tables;
  parcels = λ t. t.parcels;
  evidence = λ t. t.evidence;
  read_uuid = canonical;
  read_numeric = fixed;
  find_parcel = λ id t. done (find (has_id id) t.parcels);
  select_parcels = λ test limit offset t. done (take limit (drop offset (keep test t.parcels)));
  count_parcels = λ test t. done (count test t.parcels);
  average_trust = λ t. done (total_trust t.parcels);
  insert_parcel =
      λ v t. insert_row t (new_parcel (stored_parcel fixed v) (id_at t.ticks) t.ticks t.ticks);
  update_parcel =
      λ c id t. done (find (has_id id) (change_rows c id t).parcels, change_rows c id t);
  delete_parcel = λ id t.
      let found = find (has_id id) t.parcels in
      done (
        found,
        record t {
          parcels = keep (λ p. not (has_id id p)) t.parcels;
          evidence = cascade id found t.evidence;
        },
      );
  select_evidence = λ test t. done (keep test t.evidence);
  count_evidence = λ test t. done (count test t.evidence);
  insert_evidence = λ v t. insert_document t (new_evidence v (id_at t.ticks) t.ticks);
  update_evidence = λ c id t.
      done (find (is_evidence id) (change_documents c id t).evidence, change_documents c id t);
  delete_evidence = λ id t. done (
    find (is_evidence id) t.evidence,
    record t { evidence = keep (λ e. not (is_evidence id e)) t.evidence },
  );
}

done-injective : {A : Type 0} (a b : A) → done a ≡ done b → a ≡ b
done-injective a b e = cc

insert_row_lem :
    (t : Tables) (p r : Parcel ℕ) (t' : Tables)
    → insert_row t p ≡ done (r, t')
    → (r ≡ p)
      × (find (has_id p.id) t.parcels ≡ none)
      × (t'.parcels ≡ r ∷ t.parcels)
      × (t'.evidence ≡ t.evidence)
insert_row_lem t p r t' e = ground arith

insert_document_lem :
    (t : Tables) (d r : Evidence) (t' : Tables)
    → insert_document t d ≡ done (r, t')
    → (r ≡ d)
      × (find (is_evidence d.id) t.evidence ≡ none)
      × (t'.evidence ≡ r ∷ t.evidence)
      × (t'.parcels ≡ t.parcels)
insert_document_lem t d r t' e = ground arith

cascade_lem :
    (id : String) (r : Option (Parcel ℕ)) (es : List Evidence)
    → cascade id r es ≡ elim r [ none ↦ es | some _ ↦ keep (λ e. not (belongs_to id e)) es ]
cascade_lem id none es = refl
cascade_lem id (some p) es = refl

-- It meets every assumption.
pub memory-IsLawful : IsLawful memory
memory-IsLawful = record {
  find_parcel_lem = λ id s r e. sym (done-injective _ _ e);
  count_parcels_lem = λ test s n e. sym (done-injective _ _ e);
  count_evidence_lem = λ test s n e. sym (done-injective _ _ e);
  insert_parcel_lem = λ v s r s' e.
      let (made, fresh, rows, same) = insert_row_lem s _ r s' e in
      (
        s.ticks,
        s.ticks,
        made
            ∙ ap (λ i. new_parcel (stored_parcel fixed v) i s.ticks s.ticks)
                (sym (ap (λ p. p.id) made)),
        subst (λ i. find (has_id i) s.parcels ≡ none) (sym (ap (λ p. p.id) made)) fresh,
        rows,
        same,
      );
  update_parcel_lem = λ c id s r s' e.
      let both = done-injective _ _ e in
      (
        s.ticks,
        ap (λ x. x.1.parcels) (sym both),
        ap (λ x. x.0) (sym both) ∙ ap (λ x. find (has_id id) x.1.parcels) both,
        ap (λ x. x.1.evidence) (sym both),
      );
  delete_parcel_lem = λ id s r s' e.
      let both = done-injective _ _ e in
      (
        ap (λ x. x.0) (sym both),
        ap (λ x. x.1.parcels) (sym both),
        ap (λ x. x.1.evidence) (sym both)
            ∙ ap (λ q. cascade id q s.evidence) (ap (λ x. x.0) both)
            ∙ cascade_lem id r s.evidence,
      );
  insert_evidence_lem = λ v s r s' e.
      let (made, fresh, rows, same) = insert_document_lem s _ r s' e in
      (
        s.ticks,
        made ∙ ap (λ i. new_evidence v i s.ticks) (sym (ap (λ d. d.id) made)),
        subst (λ i. find (is_evidence i) s.evidence ≡ none) (sym (ap (λ d. d.id) made)) fresh,
        rows,
        same,
      );
  update_evidence_lem = λ c id s r s' e.
      let both = done-injective _ _ e in
      (
        ap (λ x. x.1.evidence) (sym both),
        ap (λ x. x.0) (sym both) ∙ ap (λ x. find (is_evidence id) x.1.evidence) both,
        ap (λ x. x.1.parcels) (sym both),
      );
  delete_evidence_lem = λ id s r s' e.
      let both = done-injective _ _ e in
      (
        ap (λ x. x.0) (sym both),
        ap (λ x. x.1.evidence) (sym both),
        ap (λ x. x.1.parcels) (sym both),
      );
}
