-- ===== src/Plan/Accepted.antt =====
-- Which plans are accepted, and what an accepted plan runs.
use storage_cert_harness.Common.{
  String, ◌≡◌, refl, ◌∙◌, ◌≢◌, ◌↔◌, inl, inr, true, false, List, [], ◌∷◌, none, arith, eq_iff,
  if◌then◌else◌, is_empty, keep, All, Bool-cases, is_negative,
}
use storage_cert_harness.Core.{TestRequirement}
use storage_cert_harness.Orchestrator.Selection.{Variant, Filter, has, select_trs}
use storage_cert_harness.Orchestrator.Selection.Chosen.{admits, select_trs-keep}
use storage_cert_harness.Knowledge.Records.{Fresh, Distinct, Fresh-cons, all-Fresh}
use storage_cert_harness.Plan.{
  Plan, is_variant_name, validate_names, validate_variants, selects_nothing, validate, filter_of,
}

-- Every variant of an entry has a valid name, and no two the same.
abbrev pub AreNamed : List Variant → Type 0
AreNamed vs = All (λ v. is_variant_name v.name ≡ true) vs × Distinct (λ v. v.name) vs

validate_names_iff :
    (id : String) (seen : List String) (vs : List Variant)
    → (validate_names id seen vs ≡ none) ↔ (
        All (λ v. is_variant_name v.name ≡ true) vs
        × Fresh (λ v. v.name) seen vs
        × Distinct (λ v. v.name) vs)
unfolding validate_names
validate_names_iff id seen [] = (λ h. (tt, tt, tt), λ h. refl)
validate_names_iff id seen (v ∷ vs) =
    let rest = validate_names_iff id (v.name ∷ seen) vs in
    let split = Fresh-cons (λ v. v.name) v.name seen vs in
    let step : (validate_names id seen (v ∷ vs) ≡ none) ↔ (
        (is_variant_name v.name ≡ true)
        × (has seen v.name ≡ false)
        × (validate_names id (v.name ∷ seen) vs ≡ none)) =
      ground arith in
    (
      λ h.
          let (valid, new, later) = step.0 h in
          let (all_valid, fresh, distinct) = rest.0 later in
          let (apart, old) = split.0 fresh in ((valid, all_valid), (new, old), (apart, distinct)),
      λ ((valid, all_valid), (new, old), (apart, distinct)).
          step.1 (valid, new, rest.1 (all_valid, split.1 (apart, old), distinct)),
    )

-- An entry of the variants: it names a requirement and has variants, with valid names.
abbrev pub IsEntry : String × List Variant → Type 0
IsEntry e = (e.0 ≢ "") × (is_empty e.1 ≡ false) × AreNamed e.1

validate_variants_iff :
    (m : List (String × List Variant)) → (validate_variants m ≡ none) ↔ All IsEntry m
unfolding validate_variants
validate_variants_iff [] = (λ h. tt, λ h. refl)
validate_variants_iff ((id, vs) ∷ m) =
    let rest = validate_variants_iff m in
    let names = validate_names_iff id [] vs in
    let step : (validate_variants ((id, vs) ∷ m) ≡ none) ↔ (
        (id ≢ "")
        × (is_empty vs ≡ false)
        × (validate_names id [] vs ≡ none)
        × (validate_variants m ≡ none)) =
      ground (arith, eq_iff id "") in
    (
      λ h.
          let (named, some_there, valid, later) = step.0 h in
          let (v, fresh, d) = names.0 valid in ((named, some_there, (v, d)), rest.0 later),
      λ ((named, some_there, (v, d)), later).
          step.1 (named, some_there, names.1 (v, all-Fresh (λ v. v.name) vs, d), rest.1 later),
    )

-- A plan is accepted exactly if its version is "1", it has a name, every entry of its variants names a
-- requirement and has variants with valid names, no two the same, it selects something, and its
-- concurrency is not negative.
pub validate-IsEntry :
    (p : Plan)
    → (validate p ≡ none) ↔ (
        (p.schema_version ≡ "1")
        × (p.name ≢ "")
        × All IsEntry p.variants
        × (selects_nothing p.select ≡ false)
        × (is_negative p.concurrency ≡ false))
unfolding validate
validate-IsEntry p =
    let variants = validate_variants_iff p.variants in
    let step : (validate p ≡ none) ↔ (
        (p.schema_version ≡ "1")
        × (p.name ≢ "")
        × (validate_variants p.variants ≡ none)
        × (selects_nothing p.select ≡ false)
        × (is_negative p.concurrency ≡ false)) =
      ground (arith, eq_iff p.schema_version "1", eq_iff p.name "") in
    (
      λ h. let (v, n, m, s, c) = step.0 h in (v, n, variants.0 m, s, c),
      λ (v, n, m, s, c). step.1 (v, n, variants.1 m, s, c),
    )

keep_all :
    (f : Filter) (trs : List TestRequirement)
    → ((tr : TestRequirement) → admits f tr ≡ true)
    → keep (admits f) trs ≡ trs
keep_all f [] h = refl
keep_all f (tr ∷ trs) h = ground (arith, h tr, keep_all f trs h)

abbrev everything : Filter
everything = record { tools = []; ids = []; partner_levels = [] }

-- A plan that selects all runs every requirement of the catalog, whatever else its selector lists; any
-- other plan runs, in the catalog's order, those that each criterion of its selector with entries admits.
pub select_trs-filter_of :
    (p : Plan) (trs : List TestRequirement)
    → select_trs trs (filter_of p) ≡ (
        if p.select.all
        then trs
        else keep
            (admits (record {
              tools = p.select.tools;
              ids = p.select.ids;
              partner_levels = p.select.partner_levels;
            }))
            trs)
unfolding filter_of
select_trs-filter_of p trs = elim (Bool-cases p.select.all) [
  | inl t ↦ rw t (select_trs-keep trs _ ∙ keep_all everything trs (λ tr. refl))
  | inr f ↦ rw f (select_trs-keep trs _)
]
