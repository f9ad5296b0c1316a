-- ===== src/Orchestrator/Executions/Each.antt =====
-- What each execution establishes and the others keep holds of all of them in the end.
use storage_cert_harness.Common.{
  String, ◌≡◌, Bool, true, false, List, [], ◌∷◌, ◌==◌, if◌then◌else◌, All, All-mem, All-of_mem,
  Bool-cases, keep, keep-mem, inl, inr,
}
use mathlib.Core.List.{Memᴰ}
use mathlib.Core.List.Memᴰ
use storage_cert_harness.Core.{TestRequirement}
use storage_cert_harness.Orchestrator.Executions.{
  Env, World, Ran, run_in, run_variant, run_ordinary, run_variants, run_tool_executions,
}

module _ {S : Type 0} (env : Env S) (tool : String) (Starts : TestRequirement → Type 0)
    (P : TestRequirement → Ran S → Type 0)
    (run_in_keeps : (x : TestRequirement) (dir : String) (r : Ran S) (tr : TestRequirement)
      → P x r
      → P x (run_in env tool dir r tr))
    (run_variant_keeps : (x : TestRequirement) (r : Ran S) (tr : TestRequirement)
      → P x r
      → P x (run_variant env tool r tr))
    (run_in_has : (dir : String) (r : Ran S) (tr : TestRequirement)
      → Starts tr
      → P tr (run_in env tool dir r tr))
    (run_variant_has : (r : Ran S) (tr : TestRequirement)
      → Starts tr
      → P tr (run_variant env tool r tr)) where
  -- One turn of the loop over the variants.
  abbrev turn : Bool → Ran S → TestRequirement → Ran S
  turn plain r tr = if plain then r else run_variant env tool r tr

  turn_keeps :
      (plain : Bool) (x : TestRequirement) (r : Ran S) (tr : TestRequirement)
      → P x r
      → P x (turn plain r tr)
  turn_keeps true x r tr h = h
  turn_keeps false x r tr h = run_variant_keeps x r tr h

  run_ordinary_keeps :
      (x : TestRequirement) (r : Ran S) (trs : List TestRequirement)
      → P x r
      → P x (run_ordinary env tool r trs)
  unfolding run_ordinary
  run_ordinary_keeps x r [] h = h
  run_ordinary_keeps x r (tr ∷ trs) h =
      run_ordinary_keeps x (run_in env tool env.work_dir r tr) trs
        (run_in_keeps x env.work_dir r tr h)

  run_variants_keeps :
      (x : TestRequirement) (r : Ran S) (trs : List TestRequirement)
      → P x r
      → P x (run_variants env tool r trs)
  unfolding run_variants
  run_variants_keeps x r [] h = h
  run_variants_keeps x r (tr ∷ trs) h =
      run_variants_keeps x (turn (tr.variant == "") r tr) trs
        (turn_keeps (tr.variant == "") x r tr h)

  run_ordinary_has :
      {tr : TestRequirement} {trs : List TestRequirement} (r : Ran S)
      → Memᴰ tr trs
      → Starts tr
      → P tr (run_ordinary env tool r trs)
  unfolding run_ordinary
  run_ordinary_has {trs = []} r m h = absurd (Memᴰ.not-nil m)
  run_ordinary_has {tr} {trs = x ∷ trs} r (Memᴰ.head e) h =
      run_ordinary_keeps tr (run_in env tool env.work_dir r x) trs
        (rw (← e) (run_in_has env.work_dir r tr h))
  run_ordinary_has {tr} {trs = x ∷ trs} r (Memᴰ.tail m) h =
      run_ordinary_has (run_in env tool env.work_dir r x) m h

  run_variants_has :
      {tr : TestRequirement} {trs : List TestRequirement} (r : Ran S)
      → Memᴰ tr trs
      → (tr.variant == "") ≡ false
      → Starts tr
      → P tr (run_variants env tool r trs)
  unfolding run_variants
  run_variants_has {trs = []} r m named h = absurd (Memᴰ.not-nil m)
  run_variants_has {tr} {trs = x ∷ trs} r (Memᴰ.head e) named h =
      let this : P tr (turn (tr.variant == "") r tr) = rw named (run_variant_has r tr h) in
      run_variants_keeps tr (turn (x.variant == "") r x) trs (rw (← e) this)
  run_variants_has {tr} {trs = x ∷ trs} r (Memᴰ.tail m) named h =
      run_variants_has (turn (x.variant == "") r x) m named h

  pub run_tool_executions_has :
      (trs : List TestRequirement) (w : World S)
      → All Starts trs
      → All (λ tr. P tr (run_tool_executions env tool trs w)) trs
  unfolding run_tool_executions
  run_tool_executions_has trs w starts = All-of_mem _ trs (λ tr m.
      let h = All-mem Starts m starts in
      elim (Bool-cases (tr.variant == "")) [
        | inl plain ↦
            run_variants_keeps tr _ trs
              (run_ordinary_has _ (keep-mem (λ t. t.variant == "") m plain) h)
        | inr named ↦ run_variants_has _ m named h
      ])

  -- What every turn keeps of a requirement, the whole run of the executions keeps.
  pub run_tool_executions_keeps :
      (x : TestRequirement) (trs : List TestRequirement) (w : World S)
      → P x (record { world = w; verdicts = []; measurements = [] })
      → P x (run_tool_executions env tool trs w)
  unfolding run_tool_executions
  run_tool_executions_keeps x trs w h =
      run_variants_keeps x _ trs (run_ordinary_keeps x _ (keep (λ tr. tr.variant == "") trs) h)
