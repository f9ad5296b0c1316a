-- ===== src/Orchestrator/Selection/Chosen.antt =====
-- Which requirements are selected, and with which parameters.
use mathlib.Core.List.{append-nil, append_assoc}
use storage_cert_harness.Common.{
  String, ◌≡◌, refl, sym, ap, ◌∙◌, Bool, ◌&&◌, ◌||◌, List, [], ◌∷◌, ◌++◌, map, Option, none, some,
  arith, is_empty, keep, lookup, copy, or_else, IsMap, lookup-copy, copy-IsMap, Bool-cases, inl,
  inr,
}
use storage_cert_harness.Core.{Params, TestRequirement}
use storage_cert_harness.Orchestrator.Selection.{
  Filter, Variant, has, has_level, select_from, select_trs, with_params, override, override_each,
  apply_overrides, as_variant,
}

-- Each criterion that is given admits the requirement.
abbrev pub admits : Filter → TestRequirement → Bool
admits f tr =
    (is_empty f.ids || has f.ids tr.id)
    && ((is_empty f.tools || has f.tools tr.automation_tool)
        && (is_empty f.partner_levels || has_level f.partner_levels tr.partner_level))

select_from-keep :
    (f : Filter) (out all : List TestRequirement)
    → select_from f out all ≡ out ++ keep (admits f) all
unfolding select_from
select_from-keep f out [] = sym (append-nil out)
select_from-keep f out (tr ∷ all) = elim (Bool-cases (admits f tr)) [
  | inl t ↦ rw t (
      ground (arith, t)
      ∙ select_from-keep f (out ++ tr ∷ []) all
      ∙ append_assoc out (tr ∷ []) (keep (admits f) all))
  | inr e ↦ rw e (ground (arith, e) ∙ select_from-keep f out all)
]

-- The requirements that every criterion of the filter admits are selected, in the catalog's order; a
-- criterion with no entries admits all.
pub select_trs-keep :
    (all : List TestRequirement) (f : Filter) → select_trs all f ≡ keep (admits f) all
unfolding select_trs
select_trs-keep all f = select_from-keep f [] all

-- The parameters that a plan gives for a requirement.
abbrev pub or_empty : Option Params → Params
or_empty none = []
or_empty (some ov) = ov

abbrev pub planned : List (String × Params) → String → Params
planned overrides id = or_empty (lookup id overrides)

-- No parameter stands twice: the maps are maps.
with_params_lem :
    (k : String) (tr : TestRequirement) (ov : Params)
    → IsMap tr.params
    → IsMap ov
    → lookup k (with_params tr ov).params ≡ or_else (lookup k ov) (lookup k tr.params)
with_params_lem k tr ov h g =
    lookup-copy k (copy [] tr.params) ov g
    ∙ ap (or_else (lookup k ov)) (lookup-copy k [] tr.params h ∙ ground arith)

-- The requirement as the plan runs it: the overriding parameters are copied over its own.
pub effective : List (String × Params) → TestRequirement → TestRequirement
unfolding override
effective overrides tr = override tr (lookup tr.id overrides)

effective_lem :
    (overrides : List (String × Params)) (k : String) (tr : TestRequirement)
    → IsMap tr.params
    → IsMap (planned overrides tr.id)
    → (lookup k (effective overrides tr).params
        ≡ or_else (lookup k (planned overrides tr.id)) (lookup k tr.params))
      × IsMap (effective overrides tr).params
unfolding effective override
effective_lem overrides k tr h g = overridden (lookup tr.id overrides) g
  where
    overridden :
        (o : Option Params)
        → IsMap (or_empty o)
        → (lookup k (override tr o).params ≡ or_else (lookup k (or_empty o)) (lookup k tr.params))
          × IsMap (override tr o).params
    overridden none g = (refl, h)
    overridden (some []) g = (refl, h)
    overridden (some (x ∷ ov)) g = (
      with_params_lem k tr (x ∷ ov) h g,
      copy-IsMap (copy [] tr.params) (x ∷ ov) (copy-IsMap [] tr.params tt),
    )

override_each-map :
    (overrides : List (String × Params)) (trs : List TestRequirement)
    → override_each overrides trs ≡ map (effective overrides) trs
unfolding override_each effective
override_each-map overrides [] = refl
override_each-map overrides (tr ∷ trs) =
    ap (λ l. effective overrides tr ∷ l) (override_each-map overrides trs)

effective-none : (trs : List TestRequirement) → map (effective []) trs ≡ trs
unfolding effective override
effective-none [] = refl
effective-none (tr ∷ trs) = ap (λ l. tr ∷ l) (effective-none trs)

-- A plan's overrides change the requirements one by one.
pub apply_overrides-map :
    (trs : List TestRequirement) (overrides : List (String × Params))
    → apply_overrides trs overrides ≡ map (effective overrides) trs
unfolding apply_overrides
apply_overrides-map trs [] = sym (effective-none trs)
apply_overrides-map trs (o ∷ os) = override_each-map (o ∷ os) trs

-- In a variant of a selected requirement each parameter comes from the variant, else from the plan's
-- overrides for the requirement, else from the catalog.
pub as_variant_precedence :
    (overrides : List (String × Params)) (tr : TestRequirement) (v : Variant) (k : String)
    → IsMap tr.params
    → IsMap (planned overrides tr.id)
    → IsMap v.params
    → lookup k (as_variant (effective overrides tr) v).params
      ≡ or_else
          (lookup k v.params)
          (or_else (lookup k (planned overrides tr.id)) (lookup k tr.params))
as_variant_precedence overrides tr v k h g f =
    let (same, still) = effective_lem overrides k tr h g in
    with_params_lem k (effective overrides tr) v.params still f
    ∙ ap (or_else (lookup k v.params)) same
