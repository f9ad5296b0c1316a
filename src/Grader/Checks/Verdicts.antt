-- ===== src/Grader/Checks/Verdicts.antt =====
-- What a graded check's verdict says.
use mathlib.Core.List.{append-nil, append_assoc}
use storage_cert_harness.Common.{
  ◌≡◌, sym, ◌∙◌, ◌≢◌, ◌↔◌, ◌⊎◌, List, [], ◌∷◌, ◌++◌, map, some, arith, eq_iff, lookup, refl, ◌<>◌,
  Option-cases, All,
}
use storage_cert_harness.Core.{Outcome, Check, TestRequirement, TestResult, Verdict}
use storage_cert_harness.Grader.Checks.{grade_check, grade_native, grade_from, grade_checks}

-- A check that is graded by its tool's outcome: it is automated and not a manual one.
abbrev pub IsAutomatic : Check → Type 0
IsAutomatic c = (c.status ≢ "to-be-validated") × (c.kind ≢ "manual")

module _ (tr : TestRequirement) (res : TestResult) where
  -- A check passes, or fails, exactly if it is automatic and its tool reported that outcome; it is
  -- skipped exactly if it has no automation yet, is a manual one, or its tool reported a skip; and it is
  -- an error exactly if it is automatic and its tool reported none of the three.
  pub grade_check_iff :
      (c : Check)
      → let o = (grade_check tr res c).outcome in
        let native = lookup c.id res.checks in
        ((o ≡ Outcome.pass) ↔ (IsAutomatic c × (native ≡ some Outcome.pass)))
        × ((o ≡ Outcome.fail) ↔ (IsAutomatic c × (native ≡ some Outcome.fail)))
        × ((o ≡ Outcome.skip)
            ↔ ((c.status ≡ "to-be-validated") ⊎ (c.kind ≡ "manual") ⊎ (native ≡ some Outcome.skip)))
        × ((o ≡ Outcome.error) ↔ (
            IsAutomatic c
            × (native ≢ some Outcome.pass)
            × (native ≢ some Outcome.fail)
            × (native ≢ some Outcome.skip)))
  unfolding grade_check
  grade_check_iff c =
      let native = lookup c.id res.checks in
      (
        (
          λ h. ground (arith, eq_iff c.status "to-be-validated", eq_iff c.kind "manual"),
          λ h. ground (arith, eq_iff c.status "to-be-validated", eq_iff c.kind "manual"),
        ),
        (
          λ h. ground (arith, eq_iff c.status "to-be-validated", eq_iff c.kind "manual"),
          λ h. ground (arith, eq_iff c.status "to-be-validated", eq_iff c.kind "manual"),
        ),
        (
          λ h. ground (arith, eq_iff c.status "to-be-validated", eq_iff c.kind "manual"),
          λ h. ground (arith, eq_iff c.status "to-be-validated", eq_iff c.kind "manual"),
        ),
        (
          λ h. ground (arith, eq_iff c.status "to-be-validated", eq_iff c.kind "manual"),
          λ h. ground (arith, eq_iff c.status "to-be-validated", eq_iff c.kind "manual"),
        ),
      )

  grade_from-map :
      (out : List Verdict) (cs : List Check)
      → grade_from tr res out cs ≡ out ++ map (grade_check tr res) cs
  unfolding grade_from
  grade_from-map out [] = sym (append-nil out)
  grade_from-map out (c ∷ cs) =
      grade_from-map (out ++ grade_check tr res c ∷ []) cs
      ∙ append_assoc out (grade_check tr res c ∷ []) (map (grade_check tr res) cs)

  -- The loop gives each check one verdict by itself, in the catalog's order.
  pub grade_checks-map : grade_checks tr res ≡ map (grade_check tr res) tr.checks
  unfolding grade_checks
  grade_checks-map = grade_from-map [] tr.checks

  grade_check_item : (c : Check) → (grade_check tr res c).item ≡ "check:" <> c.id
  unfolding grade_check grade_native
  grade_check_item c = ground (arith, Option-cases (lookup c.id res.checks))

  -- The graded checks name the checks' items, in the catalog's order.
  pub grade_checks_items :
      map (λ v. v.item) (grade_checks tr res) ≡ map (λ c. "check:" <> c.id) tr.checks
  grade_checks_items = rw grade_checks-map (each tr.checks)
    where
      each :
          (cs : List Check)
          → map (λ v. v.item) (map (grade_check tr res) cs) ≡ map (λ c. "check:" <> c.id) cs
      each [] = refl
      each (c ∷ cs) = λ i. grade_check_item c i ∷ each cs i

  grade_check_owner : (cs : List Check) → All (λ v. v.tr ≡ tr.id) (map (grade_check tr res) cs)
  unfolding grade_check grade_native
  grade_check_owner [] = tt
  grade_check_owner (c ∷ cs) =
      (ground (arith, Option-cases (lookup c.id res.checks)), grade_check_owner cs)

  -- Each verdict names the test requirement.
  pub grade_checks_owner : All (λ v. v.tr ≡ tr.id) (grade_checks tr res)
  grade_checks_owner = rw grade_checks-map (grade_check_owner tr.checks)
