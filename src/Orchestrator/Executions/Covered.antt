-- ===== src/Orchestrator/Executions/Covered.antt =====
-- Every execution of a tool has its verdicts.
use storage_cert_harness.Common.{
  ◌≡◌, Bool, false, ◌&&◌, ◌||◌, List, [], ◌∷◌, ◌++◌, arith, ◌<>◌, All, String, any, is_empty,
  Option-cases, inl, inr,
}
use storage_cert_harness.Core.{TestRequirement, Verdict}
use storage_cert_harness.Orchestrator.Items.Summary.{is_of}
use storage_cert_harness.Orchestrator.Pipeline.Verdicts.{
  Covers, IsBuiltIn, err_trs-Covers, run_job-Covers,
}
use storage_cert_harness.Orchestrator.Executions.Each.{run_tool_executions_has}
use storage_cert_harness.Orchestrator.Executions.{
  Env, World, Ran, asked, run_in, run_variant, run_tool_executions,
}

any-append : (p : Verdict → Bool) (xs ys : List Verdict) → any p (xs ++ ys) ≡ (any p xs || any p ys)
any-append p [] ys = cc
any-append p (x ∷ xs) ys = ground (arith, any-append p xs ys)

Covers-left : (tr : TestRequirement) (xs ys : List Verdict) → Covers tr xs → Covers tr (xs ++ ys)
Covers-left tr xs ys h = ground (arith, any-append (is_of tr) xs ys, h)

Covers-right : (tr : TestRequirement) (xs ys : List Verdict) → Covers tr ys → Covers tr (xs ++ ys)
Covers-right tr xs ys h = ground (arith, any-append (is_of tr) xs ys, h)

module _ {S : Type 0} (env : Env S) (tool : String) where
  -- The requirement has a descriptor or a check, and its tool, in any directory, grades it by the
  -- built-in rules.
  abbrev pub IsScored : TestRequirement → Type 0
  IsScored tr =
      ((is_empty tr.slas && is_empty tr.checks) ≡ false)
      × ((dir : String) → IsBuiltIn tr (env.tool_at dir tr))

  run_in-Covers :
      (dir : String) (r : Ran S) (tr : TestRequirement)
      → IsScored tr
      → Covers tr (run_in env tool dir r tr).verdicts
  unfolding run_in
  run_in-Covers dir r tr (has, own) =
      Covers-right tr r.verdicts _
        (run_job-Covers env.host tr has tool (env.tool_at dir tr) _ (own dir))

  run_in_keeps :
      (x : TestRequirement) (dir : String) (r : Ran S) (tr : TestRequirement)
      → Covers x r.verdicts
      → Covers x (run_in env tool dir r tr).verdicts
  unfolding run_in
  run_in_keeps x dir r tr h = Covers-left x r.verdicts _ h

  run_variant-Covers :
      (r : Ran S) (tr : TestRequirement)
      → IsScored tr
      → Covers tr (run_variant env tool r tr).verdicts
  unfolding run_variant
  run_variant-Covers r tr h =
      elim (Option-cases (env.mkdir_all (env.variant_dir tr) r.world.state).1) [
        | inl made ↦
            rw (made, run_variant) (run_in-Covers (env.variant_dir tr) (asked env tool r tr) tr h)
        | inr (e, unmade) ↦
            rw (unmade, run_variant)
              (Covers-right tr r.verdicts _
                (err_trs-Covers env.host tr h.0 ("variant workdir: " <> e)))
      ]

  run_variant_keeps :
      (x : TestRequirement) (r : Ran S) (tr : TestRequirement)
      → Covers x r.verdicts
      → Covers x (run_variant env tool r tr).verdicts
  unfolding run_variant
  run_variant_keeps x r tr h =
      elim (Option-cases (env.mkdir_all (env.variant_dir tr) r.world.state).1) [
        | inl made ↦
            rw (made, run_variant) (run_in_keeps x (env.variant_dir tr) (asked env tool r tr) tr h)
        | inr (e, unmade) ↦ rw (unmade, run_variant) (Covers-left x r.verdicts _ h)
      ]

  -- When a tool's executions have run, each of them that has a descriptor or a check, and is graded by
  -- the built-in rules, has a verdict, whatever its job meets: a failed stage, a missing tool, the time
  -- limit, a cancelled run, or a directory that cannot be made.
  pub run_tool_executions-Covers :
      (trs : List TestRequirement) (w : World S)
      → All IsScored trs
      → All (λ tr. Covers tr (run_tool_executions env tool trs w).verdicts) trs
  run_tool_executions-Covers =
      run_tool_executions_has env tool IsScored (λ tr r. Covers tr r.verdicts) run_in_keeps
        run_variant_keeps run_in-Covers run_variant-Covers
