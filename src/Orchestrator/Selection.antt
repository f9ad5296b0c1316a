-- ===== src/Orchestrator/Selection.antt =====
-- internal/orchestrator/orchestrator.go, `SelectTRs`, `applyOverrides`, `ResolveExecutions`,
-- `missingRequiredParams` and `withoutTRs`, with the parts of internal/config/config.go that they read.
-- A map is an association list in which a key stands once.
pub mod Chosen
pub mod Resolved
pub mod Missing
use storage_cert_harness.Common.{
  ℕ, String, Bool, true, false, ◌&&◌, not, eqb, List, [], ◌∷◌, ◌++◌, Option, none, some, ◌==◌,
  str_lt, if◌then◌else◌, is_empty, is_some, lookup, copy, sort_by, any,
}
use storage_cert_harness.Core.{Params, ParamSpec, TestRequirement}

pub record Filter : Type 0 where
  pub tools : List String
  pub ids : List String
  pub partner_levels : List ℕ

pub record Variant : Type 0 where
  pub name : String
  pub params : Params

-- The fields of `Config` that the selection reads.
pub record Config : Type 0 where
  pub filter : Filter
  pub overrides : List (String × Params)
  pub variants : List (String × List Variant)

abbrev pub has : List String → String → Bool
has xs x = any (λ y. y == x) xs

abbrev pub has_level : List ℕ → ℕ → Bool
has_level xs x = any (λ y. eqb y x) xs

select_from : Filter → List TestRequirement → List TestRequirement → List TestRequirement
select_from f out [] = out
select_from f out (tr ∷ all) =
    let skipped = select_from f out all in
    let taken = select_from f (out ++ tr ∷ []) all in
    if not (is_empty f.ids) && not (has f.ids tr.id)
    then skipped
    else if not (is_empty f.tools) && not (has f.tools tr.automation_tool)
    then skipped
    else if not (is_empty f.partner_levels) && not (has_level f.partner_levels tr.partner_level)
    then skipped
    else taken

unfoldable pub select_trs : List TestRequirement → Filter → List TestRequirement
unfolding select_from
select_trs all f = select_from f [] all

missing_names : Params → List String → List (String × ParamSpec) → List String
missing_names params missing [] = missing
missing_names params missing ((name, spec) ∷ specs) =
    let skipped = missing_names params missing specs in
    let added = missing_names params (missing ++ name ∷ []) specs in
    if not spec.required then skipped else if is_some (lookup name params) then skipped else added

unfoldable pub missing_required_params : TestRequirement → List String
unfolding missing_names
missing_required_params tr = sort_by str_lt (missing_names tr.params [] tr.param_spec)

-- The parameters of a requirement with some given anew.
abbrev pub with_params : TestRequirement → Params → TestRequirement
with_params tr ov = record tr { params = copy (copy [] tr.params) ov }

override : TestRequirement → Option Params → TestRequirement
override tr none = tr
override tr (some ov) = if is_empty ov then tr else with_params tr ov

override_each : List (String × Params) → List TestRequirement → List TestRequirement
unfolding override
override_each overrides [] = []
override_each overrides (tr ∷ trs) =
    override tr (lookup tr.id overrides) ∷ override_each overrides trs

unfoldable pub apply_overrides :
    List TestRequirement → List (String × Params) → List TestRequirement
unfolding override_each
apply_overrides trs overrides = if is_empty overrides then trs else override_each overrides trs

-- `drop[tr.ID] = true` for each, and then the filter.
unfoldable pub without_trs : List TestRequirement → List TestRequirement → List TestRequirement
without_trs [] remove = []
without_trs (tr ∷ trs) remove =
    let rest = without_trs trs remove in
    if not (any (λ r. r.id == tr.id) remove) then tr ∷ rest else rest

pub data Resolution : Type 0 where
  resolved : List TestRequirement → Resolution
  unknown_tr : String → Resolution
  empty_variants : String → Resolution

-- A variant of a requirement: a copy with the variant's name and parameters.
abbrev pub as_variant : TestRequirement → Variant → TestRequirement
as_variant tr v = record (with_params tr v.params) { variant = v.name }

variants_of : TestRequirement → List TestRequirement → List Variant → List TestRequirement
variants_of tr out [] = out
variants_of tr out (v ∷ vs) = variants_of tr (out ++ as_variant tr v ∷ []) vs

resolve_from :
    List (String × List Variant) → List TestRequirement → List TestRequirement → Resolution
unfolding variants_of
resolve_from variants out [] = resolved out
resolve_from variants out (tr ∷ trs) = elim (lookup tr.id variants) [
  | none ↦ resolve_from variants (out ++ tr ∷ []) trs
  | some [] ↦ empty_variants tr.id
  | some (v ∷ vs) ↦ resolve_from variants (variants_of tr out (v ∷ vs)) trs
]

-- The first id of the variants that the catalog does not have.
first_unknown : List TestRequirement → List (String × List Variant) → Option String
first_unknown trs [] = none
first_unknown trs ((id, vs) ∷ variants) =
    let rest = first_unknown trs variants in
    if not (any (λ tr. tr.id == id) trs) then some id else rest

unfoldable pub resolve_executions : List TestRequirement → Config → Resolution
unfolding resolve_from first_unknown
resolve_executions trs cfg = elim (first_unknown trs cfg.variants) [
  | some id ↦ unknown_tr id
  | none ↦ resolve_from cfg.variants [] (apply_overrides (select_trs trs cfg.filter) cfg.overrides)
]
