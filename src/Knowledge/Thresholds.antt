-- ===== src/Knowledge/Thresholds.antt =====
-- internal/thresholds/thresholds.go: the bars, by requirement.
use storage_cert_harness.Common.{
  ℕ, suc, String, ◌≡◌, refl, ◌≢◌, ◌↔◌, Bool, true, ◌||◌, List, [], ◌∷◌, Option, none, some, arith,
  ◌==◌, eq_iff, if◌then◌else◌, All, Pairs,
}
use storage_cert_harness.Core.{Sla, Provenance}
use storage_cert_harness.Knowledge.Records.{
  Invalid, missing_metric, unknown_operator, supported, All-iff, validate_doc, validate_doc_iff,
}

-- `thresholds.TR`
pub record Bars : Type 0 where
  pub id : String
  pub sla : List Sla

pub record Doc : Type 0 where
  pub schema_version : String
  pub provenance : Provenance
  pub test_requirements : List Bars

-- The cases of the `switch` on the operator.
abbrev pub known_operator : String → Bool
known_operator op = op == "<=" || op == "<" || op == ">=" || op == ">" || op == "=="

check_bars : String → ℕ → List Sla → Option Invalid
check_bars id j [] = none
check_bars id j (s ∷ ss) =
    let rest = check_bars id (suc j) ss in
    if s.metric == ""
    then some (missing_metric id j)
    else if known_operator s.operator
    then rest
    else some (unknown_operator id j s.metric s.operator)

unfoldable pub check_record : Bars → Option Invalid
unfolding check_bars
check_record t = check_bars t.id 0 t.sla

unfoldable pub validate : Doc → Option Invalid
unfolding check_record
validate d = validate_doc (λ t. t.id) check_record d.schema_version d.test_requirements

-- Every bar names a metric and one of the five comparisons.
abbrev pub IsGradable : Bars → Type 0
IsGradable t = All (λ s. (s.metric ≢ "") × (known_operator s.operator ≡ true)) t.sla

check_bars_iff :
    (id : String) (j : ℕ) (ss : List Sla)
    → (check_bars id j ss ≡ none)
      ↔ All (λ s. (s.metric ≢ "") × (known_operator s.operator ≡ true)) ss
unfolding check_bars
check_bars_iff id j [] = (λ h. tt, λ h. refl)
check_bars_iff id j (s ∷ ss) =
    let rest = check_bars_iff id (suc j) ss in
    let step : (check_bars id j (s ∷ ss) ≡ none) ↔ (
        (s.metric ≢ "") × (known_operator s.operator ≡ true) × (check_bars id (suc j) ss ≡ none)) =
      ground (arith, eq_iff s.metric "") in
    (
      λ h. let (m, o, later) = step.0 h in ((m, o), rest.0 later),
      λ ((m, o), later). step.1 (m, o, rest.1 later),
    )

check_record_iff : (t : Bars) → (check_record t ≡ none) ↔ IsGradable t
unfolding check_record
check_record_iff t = check_bars_iff t.id 0 t.sla

-- A thresholds file is accepted exactly if its version is the supported one, every record has an id that
-- no other has, and every bar names a metric and one of the five comparisons.
pub validate-IsGradable :
    (d : Doc)
    → (validate d ≡ none) ↔ (
        (d.schema_version ≡ supported)
        × All (λ t. (t.id ≢ "") × IsGradable t) d.test_requirements
        × Pairs (λ a b. a.id ≢ b.id) d.test_requirements)
unfolding validate
validate-IsGradable d =
    let doc = validate_doc_iff (λ t. t.id) check_record d.schema_version d.test_requirements in
    let each =
      All-iff {P = λ (t : Bars). (t.id ≢ "") × (check_record t ≡ none)}
        {Q = λ (t : Bars). (t.id ≢ "") × IsGradable t} d.test_requirements
        (λ t. (λ (n, h). (n, (check_record_iff t).0 h), λ (n, h). (n, (check_record_iff t).1 h))) in
    (
      λ h. let (v, sound, distinct) = doc.0 h in (v, each.0 sound, distinct),
      λ (v, sound, distinct). doc.1 (v, each.1 sound, distinct),
    )
