-- ===== src/Orchestrator/Selection/Resolved.antt =====
-- The executions that a configuration resolves to, and when it is refused.
use mathlib.Core.List.{append-nil, append_assoc}
use storage_cert_harness.Common.{
  String, ◌≡◌, refl, sym, ap, ◌∙◌, ◌↔◌, ◌⊎◌, Bool, true, false, List, [], ◌∷◌, ◌++◌, map, Option,
  none, some, arith, ◌==◌, any, all, keep, lookup, Option-cases, inl, inr, flat_map,
}
use storage_cert_harness.Core.{TestRequirement}
use storage_cert_harness.Orchestrator.Selection.{
  Variant, Config, as_variant, Resolution, resolved, empty_variants, variants_of, resolve_from,
  first_unknown, resolve_executions, select_trs, apply_overrides,
}
use storage_cert_harness.Orchestrator.Selection.Chosen.{
  admits, effective, select_trs-keep, apply_overrides-map,
}

-- The executions of one requirement: itself, or its variants.
abbrev expand_with : TestRequirement → Option (List Variant) → List TestRequirement
expand_with tr none = tr ∷ []
expand_with tr (some vs) = map (as_variant tr) vs

abbrev pub expand : List (String × List Variant) → TestRequirement → List TestRequirement
expand variants tr = expand_with tr (lookup tr.id variants)

abbrev is_usable : Option (List Variant) → Bool
is_usable (some []) = false
is_usable _ = true

-- The variants of the requirement, where it has any, are not an empty list.
abbrev pub expands : List (String × List Variant) → TestRequirement → Bool
expands variants tr = is_usable (lookup tr.id variants)

-- The catalog has the id of each entry of the variants.
abbrev pub names_known : List TestRequirement → List (String × List Variant) → Bool
names_known trs = all (λ e. any (λ tr. tr.id == e.0) trs)

variants_of-map :
    (tr : TestRequirement) (out : List TestRequirement) (vs : List Variant)
    → variants_of tr out vs ≡ out ++ map (as_variant tr) vs
unfolding variants_of
variants_of-map tr out [] = sym (append-nil out)
variants_of-map tr out (v ∷ vs) =
    variants_of-map tr (out ++ as_variant tr v ∷ []) vs
    ∙ append_assoc out (as_variant tr v ∷ []) (map (as_variant tr) vs)

first_unknown_iff :
    (trs : List TestRequirement) (variants : List (String × List Variant))
    → (first_unknown trs variants ≡ none) ↔ (names_known trs variants ≡ true)
unfolding first_unknown
first_unknown_iff trs [] = (λ h. refl, λ h. refl)
first_unknown_iff trs ((id, vs) ∷ variants) = ground (arith, first_unknown_iff trs variants)

module _ (variants : List (String × List Variant)) where
  abbrev go : List TestRequirement → List TestRequirement → Resolution
  go = resolve_from variants

  module _ (out : List TestRequirement) (tr : TestRequirement) (trs : List TestRequirement) where
    step_plain : lookup tr.id variants ≡ none → go out (tr ∷ trs) ≡ go (out ++ tr ∷ []) trs
    unfolding resolve_from
    step_plain n = ground (arith, n)

    step_empty : lookup tr.id variants ≡ some [] → go out (tr ∷ trs) ≡ empty_variants tr.id
    unfolding resolve_from
    step_empty n = ground (arith, n)

    step_variants :
        {v : Variant} {vs : List Variant}
        → lookup tr.id variants ≡ some (v ∷ vs)
        → go out (tr ∷ trs) ≡ go (out ++ map (as_variant tr) (v ∷ vs)) trs
    unfolding resolve_from
    step_variants {v} {vs} n =
        let shown : go out (tr ∷ trs) ≡ go (variants_of tr out (v ∷ vs)) trs = ground (arith, n) in
        shown ∙ ap (λ l. go l trs) (variants_of-map tr out (v ∷ vs))

  -- What the loop gives where each requirement expands.
  abbrev given : List TestRequirement → List TestRequirement → Resolution
  given out trs = resolved (out ++ flat_map (expand variants) trs)

  abbrev IsRefused : Resolution → Type 0
  IsRefused r = (id : String) × (r ≡ empty_variants id)

  resolve_from_lem :
      (out trs : List TestRequirement)
      → ((all (expands variants) trs ≡ true) × (go out trs ≡ given out trs))
        ⊎ ((all (expands variants) trs ≡ false) × IsRefused (go out trs))
  resolve_from_lem out [] = unfold resolve_from in inl (refl, ap resolved (sym (append-nil out)))
  resolve_from_lem out (tr ∷ trs) = elim (Option-cases (lookup tr.id variants)) [
    | inl n ↦ elim (resolve_from_lem (out ++ tr ∷ []) trs) [
      | inl (h, e) ↦ inl (
        rw n h,
        rw n (
            step_plain out tr trs n
            ∙ e
            ∙ ap resolved (append_assoc out (tr ∷ []) (flat_map (expand variants) trs))),
      )
      | inr (h, (id, e)) ↦ inr (rw n h, (id, step_plain out tr trs n ∙ e))
    ]
    | inr ([], n) ↦ inr (rw n refl, (tr.id, step_empty out tr trs n))
    | inr (v ∷ vs, n) ↦ elim (resolve_from_lem (out ++ map (as_variant tr) (v ∷ vs)) trs) [
      | inl (h, e) ↦ inl (
        rw n h,
        rw n (
            step_variants out tr trs n
            ∙ e
            ∙ ap resolved
                (append_assoc out (map (as_variant tr) (v ∷ vs)) (flat_map (expand variants) trs))),
      )
      | inr (h, (id, e)) ↦ inr (rw n h, (id, step_variants out tr trs n ∙ e))
    ]
  ]

-- The selected requirements with the plan's overrides.
abbrev pub planned_trs : List TestRequirement → Config → List TestRequirement
planned_trs trs cfg = map (effective cfg.overrides) (keep (admits cfg.filter) trs)

planned_trs_lem :
    (trs : List TestRequirement) (cfg : Config)
    → apply_overrides (select_trs trs cfg.filter) cfg.overrides ≡ planned_trs trs cfg
planned_trs_lem trs cfg =
    apply_overrides-map (select_trs trs cfg.filter) cfg.overrides
    ∙ ap (map (effective cfg.overrides)) (select_trs-keep trs cfg.filter)

-- A configuration resolves exactly if its variants name only requirements of the catalog and no
-- requirement that is planned has an empty list of variants; and then to the planned requirements, in
-- the catalog's order, each replaced by its variants where it has any.
pub resolve_executions_iff :
    (trs : List TestRequirement) (cfg : Config) (out : List TestRequirement)
    → (resolve_executions trs cfg ≡ resolved out) ↔ (
        (names_known trs cfg.variants ≡ true)
        × (all (expands cfg.variants) (planned_trs trs cfg) ≡ true)
        × (out ≡ flat_map (expand cfg.variants) (planned_trs trs cfg)))
unfolding resolve_executions
resolve_executions_iff trs cfg out =
    let known = first_unknown_iff trs cfg.variants in
    elim (Option-cases (first_unknown trs cfg.variants)) [
      | inl n ↦
          let first : resolve_executions trs cfg
              ≡ go cfg.variants [] (apply_overrides (select_trs trs cfg.filter) cfg.overrides) =
            ground (arith, n) in
          let e = first ∙ ap (go cfg.variants []) (planned_trs_lem trs cfg) in
          elim (resolve_from_lem cfg.variants [] (planned_trs trs cfg)) [
            | inl (h, g) ↦
                (λ r. (known.0 n, h, cc (e, g, r)), λ (a, b, c). e ∙ g ∙ ap resolved (sym c))
            | inr (h, (id, g)) ↦ (λ r. absurd (cc (e, g, r)), λ (a, b, c). absurd (cc (h, b)))
          ]
      | inr (id, s) ↦ (λ r. absurd (ground (arith, s, r)), λ (a, b, c). absurd (cc (s, known.1 a)))
    ]
