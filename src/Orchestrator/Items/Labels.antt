-- ===== src/Orchestrator/Items/Labels.antt =====
-- The items that the verdicts without a tool name are those that grading names.
use mathlib.Core.List.{append-nil, append_assoc}
use text.Mathlib.TextLemmas.{append_assoc as text_assoc}
use storage_cert_harness.Common.{
  String, ◌≡◌, refl, sym, ap, ◌∙◌, false, ◌&&◌, List, [], ◌∷◌, ◌++◌, map, arith, ◌<>◌,
  if◌then◌else◌, is_empty,
}
use storage_cert_harness.Core.{Outcome, Sla, Check, TestRequirement, TestResult, Verdict}
use storage_cert_harness.Grader.Runtime.{Runtime}
use storage_cert_harness.Grader.Bars.{metric_label, sla_item}
use storage_cert_harness.Grader.Sla.{grade_slas}
use storage_cert_harness.Grader.Sla.Verdicts.{identity, grade_slas-identity}
use storage_cert_harness.Grader.Checks.{grade_checks}
use storage_cert_harness.Grader.Checks.Verdicts.{grade_checks_items}
use storage_cert_harness.Orchestrator.Items.{
  item_verdict, sla_label, sla_verdicts, check_verdicts, item_verdicts,
}

abbrev pub check_label : Check → String
check_label c = "check:" <> c.id

-- The items of a requirement: its descriptors', then its checks', or one that stands for none.
abbrev pub labels : TestRequirement → List String
labels tr =
    if is_empty tr.slas && is_empty tr.checks
    then "(none)" ∷ []
    else map sla_item tr.slas ++ map check_label tr.checks

sla_label_lem : (s : Sla) → sla_label s ≡ sla_item s
unfolding sla_item metric_label
sla_label_lem s = ground (arith, text_assoc "sla:" s.metric ("@" <> s.percentile))

module _ (tr : TestRequirement) (outcome : Outcome) (reason : String) where
  abbrev each : List String → List Verdict
  each = map (item_verdict tr outcome reason)

  sla_verdicts-map :
      (out : List Verdict) (ss : List Sla)
      → sla_verdicts tr outcome reason out ss ≡ out ++ each (map sla_item ss)
  unfolding sla_verdicts
  sla_verdicts-map out [] = sym (append-nil out)
  sla_verdicts-map out (s ∷ ss) =
      sla_verdicts-map (out ++ item_verdict tr outcome reason (sla_label s) ∷ []) ss
      ∙ append_assoc out (item_verdict tr outcome reason (sla_label s) ∷ [])
          (each (map sla_item ss))
      ∙ ap (λ l. out ++ item_verdict tr outcome reason l ∷ each (map sla_item ss)) (sla_label_lem s)

  check_verdicts-map :
      (out : List Verdict) (cs : List Check)
      → check_verdicts tr outcome reason out cs ≡ out ++ each (map check_label cs)
  unfolding check_verdicts
  check_verdicts-map out [] = sym (append-nil out)
  check_verdicts-map out (c ∷ cs) =
      check_verdicts-map (out ++ item_verdict tr outcome reason (check_label c) ∷ []) cs
      ∙ append_assoc out (item_verdict tr outcome reason (check_label c) ∷ [])
          (each (map check_label cs))

  map_both :
      (ss : List Sla) (cs : List Check)
      → (if is_empty (each (map sla_item ss) ++ each (map check_label cs))
          then (each (map sla_item ss) ++ each (map check_label cs))
            ++ item_verdict tr outcome reason "(none)" ∷ []
          else each (map sla_item ss) ++ each (map check_label cs))
        ≡ each (
            if is_empty ss && is_empty cs
            then "(none)" ∷ []
            else map sla_item ss ++ map check_label cs)
  map_both [] [] = refl
  map_both [] (c ∷ cs) = refl
  map_both (s ∷ ss) cs = ap (λ l. item_verdict tr outcome reason (sla_item s) ∷ l) (both ss)
    where
      both :
          (ss : List Sla)
          → each (map sla_item ss) ++ each (map check_label cs)
            ≡ each (map sla_item ss ++ map check_label cs)
      both [] = refl
      both (s ∷ ss) = ap (λ l. item_verdict tr outcome reason (sla_item s) ∷ l) (both ss)

  -- There is one verdict with the outcome and the reason for each item of the requirement, and one that
  -- names "(none)" where it has no item.
  pub item_verdicts-map :
      item_verdicts tr outcome reason ≡ map (item_verdict tr outcome reason) (labels tr)
  unfolding item_verdicts
  item_verdicts-map =
      let all =
        check_verdicts-map (sla_verdicts tr outcome reason [] tr.slas) tr.checks
        ∙ ap (λ l. l ++ each (map check_label tr.checks)) (sla_verdicts-map [] tr.slas) in
      ap (λ out. if is_empty out then out ++ item_verdict tr outcome reason "(none)" ∷ [] else out)
        all
      ∙ map_both tr.slas tr.checks

map-append :
    {A : Type 0} {B : Type 0} (f : A → B) (xs ys : List A) → map f (xs ++ ys) ≡ map f xs ++ map f ys
map-append f [] ys = refl
map-append f (x ∷ xs) ys = ap (λ l. f x ∷ l) (map-append f xs ys)

map_items :
    {A : Type 0} {B : Type 0} {C : Type 0} (g : B → C) (f : A → B) (xs : List A)
    → map g (map f xs) ≡ map (λ x. g (f x)) xs
map_items g f [] = refl
map_items g f (x ∷ xs) = ap (λ l. g (f x) ∷ l) (map_items g f xs)

map_id : (xs : List String) → map (λ x. x) xs ≡ xs
map_id [] = refl
map_id (x ∷ xs) = ap (λ l. x ∷ l) (map_id xs)

-- Where a requirement has a descriptor or a check, the verdicts without a tool name exactly the items
-- that the built-in grading names, in the same order.
pub item_verdicts_items :
    (go : Runtime) (tr : TestRequirement) (res : TestResult) (outcome : Outcome) (reason : String)
    → (is_empty tr.slas && is_empty tr.checks) ≡ false
    → map (λ v. v.item) (item_verdicts tr outcome reason)
      ≡ map (λ v. v.item) (grade_slas go tr res ++ grade_checks tr res)
item_verdicts_items go tr res outcome reason some_item =
    let item : Verdict → String = λ v. v.item in
    let known =
      ap (λ b. if b then "(none)" ∷ [] else map sla_item tr.slas ++ map check_label tr.checks)
        some_item in
    let left =
      ap (map item) (item_verdicts-map tr outcome reason)
      ∙ map_items item (item_verdict tr outcome reason) (labels tr)
      ∙ map_id (labels tr)
      ∙ known in
    let slas =
      sym (map_items (λ p. p.1) (identity go tr res) (grade_slas go tr res))
      ∙ ap (map (λ p. p.1)) (grade_slas-identity go tr res)
      ∙ map_items (λ p. p.1) (λ d. (tr.id, sla_item d)) tr.slas in
    let right =
      map-append item (grade_slas go tr res) (grade_checks tr res)
      ∙ (λ i. slas i ++ grade_checks_items tr res i) in
    left ∙ sym right
