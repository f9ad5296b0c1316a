-- ===== src/Knowledge/Catalog.antt =====
-- internal/catalog/catalog.go: what the tests are, without the bars that they must meet.
use storage_cert_harness.Common.{
  ℕ, suc, String, ◌≡◌, refl, ◌≢◌, ◌↔◌, not, ◌||◌, List, [], ◌∷◌, Option, none, some, arith, ◌==◌,
  eq_iff, if◌then◌else◌, All, is_some, Pairs,
}
use storage_cert_harness.Core.{Sla, Check, ParamSpec, Provenance}
use storage_cert_harness.Knowledge.Records.{
  Invalid, numeric_bar, supported, All-iff, validate_doc, validate_doc_iff,
}

-- `catalog.TR`
pub record Entry : Type 0 where
  pub id : String
  pub title : String
  pub description : String
  pub category : String
  pub partner_level : ℕ
  pub verified : String
  pub automation_tool : String
  pub sla_status : String
  pub sla_count : ℕ
  pub checks_status : String
  pub checks_count : ℕ
  pub params : List (String × ParamSpec)
  pub sla : List Sla
  pub checks : List Check

pub record Doc : Type 0 where
  pub schema_version : String
  pub provenance : Provenance
  pub test_requirements : List Entry

-- The inner loop: the first descriptor that carries a bar.
no_bar : String → ℕ → List Sla → Option Invalid
no_bar id j [] = none
no_bar id j (s ∷ ss) =
    let rest = no_bar id (suc j) ss in
    if is_some s.value || not (s.operator == "") then some (numeric_bar id j s.metric) else rest

unfoldable pub check_entry : Entry → Option Invalid
unfolding no_bar
check_entry c = no_bar c.id 0 c.sla

unfoldable pub validate : Doc → Option Invalid
unfolding check_entry
validate d = validate_doc (λ c. c.id) check_entry d.schema_version d.test_requirements

-- No descriptor of the record carries a value or an operator.
abbrev pub IsBarless : Entry → Type 0
IsBarless c = All (λ s. (s.value ≡ none) × (s.operator ≡ "")) c.sla

no_bar_iff :
    (id : String) (j : ℕ) (ss : List Sla)
    → (no_bar id j ss ≡ none) ↔ All (λ s. (s.value ≡ none) × (s.operator ≡ "")) ss
unfolding no_bar
no_bar_iff id j [] = (λ h. tt, λ h. refl)
no_bar_iff id j (s ∷ ss) =
    let rest = no_bar_iff id (suc j) ss in
    let step : (no_bar id j (s ∷ ss) ≡ none)
        ↔ ((s.value ≡ none) × (s.operator ≡ "") × (no_bar id (suc j) ss ≡ none)) =
      ground (arith, eq_iff s.operator "") in
    (
      λ h. let (v, o, later) = step.0 h in ((v, o), rest.0 later),
      λ ((v, o), later). step.1 (v, o, rest.1 later),
    )

check_entry_iff : (c : Entry) → (check_entry c ≡ none) ↔ IsBarless c
unfolding check_entry
check_entry_iff c = no_bar_iff c.id 0 c.sla

-- A catalog is accepted exactly if its version is the supported one, every record has an id that no
-- other has, and no descriptor carries a value or an operator: no bar is ever published with it.
pub validate-IsBarless :
    (d : Doc)
    → (validate d ≡ none) ↔ (
        (d.schema_version ≡ supported)
        × All (λ c. (c.id ≢ "") × IsBarless c) d.test_requirements
        × Pairs (λ a b. a.id ≢ b.id) d.test_requirements)
unfolding validate
validate-IsBarless d =
    let doc = validate_doc_iff (λ c. c.id) check_entry d.schema_version d.test_requirements in
    let each =
      All-iff {P = λ (c : Entry). (c.id ≢ "") × (check_entry c ≡ none)}
        {Q = λ (c : Entry). (c.id ≢ "") × IsBarless c} d.test_requirements
        (λ c. (λ (n, h). (n, (check_entry_iff c).0 h), λ (n, h). (n, (check_entry_iff c).1 h))) in
    (
      λ h. let (v, sound, distinct) = doc.0 h in (v, each.0 sound, distinct),
      λ (v, sound, distinct). doc.1 (v, each.1 sound, distinct),
    )
