-- ===== src/Report/Rollup.antt =====
-- internal/report/report.go, `rollupLevels`: verdicts by partner level, and the certified level. The
-- map from a level to its accumulator is an association list.
pub mod Level
pub mod Certified
use storage_cert_harness.Common.{
  ℕ, Bool, true, false, List, [], ◌∷◌, map, eqb, ltb, if◌then◌else◌, is_empty, sort_by,
}
use storage_cert_harness.Core.{Outcome, Verdict, LevelRollup}

pub record Acc : Type 0 where
  pub pass : Bool
  pub fail_err : Bool

abbrev fresh : Acc
fresh = record { pass = false; fail_err = false }

-- The `switch` on a verdict's outcome.
mark : Outcome → Acc → Acc
mark Outcome.pass a = record a { pass = true }
mark Outcome.fail a = record a { fail_err = true }
mark Outcome.error a = record a { fail_err = true }
mark _ a = a

-- `per[lvl]`, with the accumulator made where the level is new.
update : ℕ → Outcome → List (ℕ × Acc) → List (ℕ × Acc)
update l o [] = (l, mark o fresh) ∷ []
update l o ((j, a) ∷ per) =
    let rest = update l o per in if eqb j l then (j, mark o a) ∷ per else (j, a) ∷ rest

pub tally : List (ℕ × Acc) → List Verdict → List (ℕ × Acc)
tally per [] = per
tally per (v ∷ vs) = tally (if eqb v.level 0 then per else update v.level v.outcome per) vs

pub acc_at : ℕ → List (ℕ × Acc) → Acc
acc_at l [] = fresh
acc_at l ((j, a) ∷ per) = let rest = acc_at l per in if eqb j l then a else rest

pub outcome_of : Acc → Outcome
outcome_of a = if a.fail_err then Outcome.fail else if a.pass then Outcome.pass else Outcome.skip

-- The walk over the tested levels, lowest first.
pub climb : List (ℕ × Acc) → ℕ → List ℕ → ℕ
climb per certified [] = certified
climb per certified (l ∷ ls) = elim (outcome_of (acc_at l per)) [
  | Outcome.pass ↦ climb per l ls
  | Outcome.fail ↦ certified
  | _ ↦ climb per certified ls
]

pub rollup : List (ℕ × Acc) → ℕ → LevelRollup
rollup per l = record { level = l; outcome = outcome_of (acc_at l per) }

abbrev pub levels_of : List (ℕ × Acc) → List ℕ
levels_of per = sort_by ltb (map (λ e. e.0) per)

unfoldable pub rollup_levels : List Verdict → List LevelRollup × ℕ
unfolding mark update tally acc_at outcome_of climb rollup
rollup_levels verdicts =
    let per = tally [] verdicts in
    if is_empty per
    then ([], 0)
    else (map (rollup per) (levels_of per), climb per 0 (levels_of per))
