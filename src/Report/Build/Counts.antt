-- ===== src/Report/Build/Counts.antt =====
-- What the summary of a built report counts, and when the report is certifiable.
use storage_cert_harness.Common.{
  ℕ, String, ◌+◌, ◌≡◌, refl, ap, ◌∙◌, ◌↔◌, Bool, true, false, List, [], ◌∷◌, arith, length, count,
  any,
}
use storage_cert_harness.Core.{Outcome, is_failure, is_pass, Verdict, Summary, Provenance}
use storage_cert_harness.Report.Rollup.{rollup_levels}
use storage_cert_harness.Report.Lifecycle.Flags.{
  refresh_lifecycle_lem, refresh_lifecycle-certifiable_iff,
}
use storage_cert_harness.Report.Build.{no_counts, tick, count_from, assemble, build}

abbrev pub is_fail : Outcome → Bool
is_fail Outcome.fail = true
is_fail _ = false

abbrev pub is_error : Outcome → Bool
is_error Outcome.error = true
is_error _ = false

abbrev pub is_skip : Outcome → Bool
is_skip Outcome.skip = true
is_skip _ = false

abbrev pub tally_of : (Outcome → Bool) → List Verdict → ℕ
tally_of p = count (λ v. p v.outcome)

count_from_lem :
    (s : Summary) (vs : List Verdict)
    → count_from s vs ≡ record s {
      pass = s.pass + tally_of is_pass vs;
      fail = s.fail + tally_of is_fail vs;
      error = s.error + tally_of is_error vs;
      skip = s.skip + tally_of is_skip vs;
    }
unfolding count_from tick
count_from_lem s [] = ground arith
count_from_lem s (v ∷ vs) = ground (arith, count_from_lem (tick v.outcome s) vs)

pub no_failure_iff :
    (vs : List Verdict)
    → ((tally_of is_fail vs ≡ 0) × (tally_of is_error vs ≡ 0))
      ↔ (any (λ v. is_failure v.outcome) vs ≡ false)
no_failure_iff [] = ground arith
no_failure_iff (v ∷ vs) = ground (arith, no_failure_iff vs)

abbrev pub summary_of : List Verdict → Summary
summary_of vs = record {
  total = length vs;
  pass = tally_of is_pass vs;
  fail = tally_of is_fail vs;
  error = tally_of is_error vs;
  skip = tally_of is_skip vs;
  certified_level = (rollup_levels vs).1;
}

module _ (run_id schema_version : String) (prov : Provenance) (vs : List Verdict) where
  -- The summary of a built report counts the verdicts of each outcome and all of them, and takes the
  -- certified level and the rollup from the verdicts, which the report holds as they were given, with
  -- the provenance.
  pub build_counts :
      let r = build run_id schema_version prov vs in
      (r.summary ≡ summary_of vs)
      × (r.levels ≡ (rollup_levels vs).0)
      × (r.verdicts ≡ vs)
      × (r.provenance ≡ prov)
  unfolding build
  build_counts =
      let shape = refresh_lifecycle_lem (assemble run_id schema_version prov vs) in
      (
        ap (λ r. r.summary) shape
            ∙ ap (λ (s : Summary). record s { certified_level = (rollup_levels vs).1 })
                (count_from_lem _ vs)
            ∙ ground arith,
        ap (λ r. r.levels) shape,
        ap (λ r. r.verdicts) shape,
        ap (λ r. r.provenance) shape,
      )

  -- A freshly built report is certifiable exactly if none of its verdicts fails or is an error.
  pub build-certifiable_iff :
      ((build run_id schema_version prov vs).certifiable ≡ true)
      ↔ (any (λ v. is_failure v.outcome) vs ≡ false)
  unfolding build
  build-certifiable_iff =
      let counted =
        ap (λ (s : Summary). record s { certified_level = (rollup_levels vs).1 })
          (count_from_lem (record no_counts { total = length vs }) vs) in
      let flag = refresh_lifecycle-certifiable_iff (assemble run_id schema_version prov vs) in
      (
        λ h.
            (no_failure_iff vs).0
              (ground (arith, flag.0 h, ap (λ s. s.fail) counted, ap (λ s. s.error) counted)),
        λ h.
            let zero = (no_failure_iff vs).1 h in
            flag.1 (
              refl,
              refl,
              ground (arith, zero, ap (λ s. s.fail) counted),
              ground (arith, zero, ap (λ s. s.error) counted),
            ),
      )
