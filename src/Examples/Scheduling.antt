-- ===== src/Examples/Scheduling.antt =====
-- Two jobs that share an exclusivity group and one that runs alone: the first takes a slot and begins.
use storage_cert_harness.Common.{
  String, Bool, ◌≡◌, refl, true, false, List, [], ◌∷◌, Pairs, arith, some, none, map, insert,
}
use storage_cert_harness.Core.{TestRequirement}
use storage_cert_harness.Examples.Grading.{tr}
use storage_cert_harness.Orchestrator.Grouping.{ToolIntegration, ToolSchedule, group_by_tool}
use storage_cert_harness.Orchestrator.Grouping.Partition.{Partitions, group_by_tool-Partitions}
use storage_cert_harness.Orchestrator.Schedule.{Job, Phase, Thread, at, Move, Step, Reach}
use storage_cert_harness.Orchestrator.Schedule.Exclusion.{IsSafe, Reach-IsSafe}
use storage_cert_harness.Orchestrator.Schedule.Jobs.{overlaps, Reach-alternates}

abbrev grouped : String → Job
grouped tool = record { tool = tool; trs = []; parallel_safe = true; groups = "storage" ∷ [] }

abbrev solo : Job
solo = record { tool = "chaos"; trs = []; parallel_safe = false; groups = [] }

abbrev jobs : List Job
jobs = grouped "virtbench" ∷ grouped "kube-burner" ∷ solo ∷ []

abbrev rest : List Thread
rest = at (grouped "kube-burner") Phase.waiting ∷ at solo Phase.waiting ∷ []

one : Reach 2 jobs (at (grouped "virtbench") Phase.admitted ∷ rest)
one =
    Reach.next Reach.spawned
      (Step.move [] rest (Move.take_slot (grouped "virtbench") refl (omega arith)))

two : Reach 2 jobs (at (grouped "virtbench") (Phase.locking [] ("storage" ∷ [])) ∷ rest)
two = Reach.next one (Step.move [] rest (Move.lock_read (grouped "virtbench") (refl, (refl, tt))))

three : Reach 2 jobs (at (grouped "virtbench") (Phase.locking ("storage" ∷ []) []) ∷ rest)
three = Reach.next two (
    Step.move [] rest
      (Move.lock_group (grouped "virtbench") "storage" [] [] (refl, (refl, tt)) refl))

begun : Reach 2 jobs (at (grouped "virtbench") (Phase.running ("storage" ∷ [])) ∷ rest)
begun = Reach.next three (Step.move [] rest (Move.begin (grouped "virtbench") ("storage" ∷ [])))

Reach-IsSafe_example : IsSafe 2 (at (grouped "virtbench") (Phase.running ("storage" ∷ [])) ∷ rest)
Reach-IsSafe_example = Reach-IsSafe 2 jobs begun

Reach-alternates_example :
    Pairs
      (λ a b. overlaps a b ≡ false)
      (at (grouped "virtbench") (Phase.running ("storage" ∷ [])) ∷ rest)
Reach-alternates_example = Reach-alternates 2 jobs begun

-- Every tool is parallel-safe by default; the plan makes one run alone.
abbrev defaults : List TestRequirement → ToolIntegration
defaults trs = record { parallel_safe = true; exclusivity_groups = "storage" ∷ [] }

abbrev alone : List (String × ToolSchedule)
alone = ("virtbench", record { parallel_safe = some false; exclusivity_groups = none }) ∷ []

abbrev requirements : List TestRequirement
requirements = tr ∷ record tr { id = "TR-2"; automation_tool = "kube-burner" } ∷ tr ∷ []

two_jobs :
    map {B = String × Bool}
      (λ j. (j.tool, j.parallel_safe))
      (group_by_tool defaults alone requirements)
    ≡ ("virtbench", false) ∷ ("kube-burner", true) ∷ []
unfolding group_by_tool insert
two_jobs = refl

group_by_tool-Partitions_example :
    Partitions defaults alone requirements (group_by_tool defaults alone requirements)
group_by_tool-Partitions_example = group_by_tool-Partitions defaults alone requirements
