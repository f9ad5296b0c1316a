-- ===== src/Orchestrator/Grouping.antt =====
-- internal/orchestrator/orchestrator.go, `groupByTool`: one job for each tool. What the registry has for
-- a requirement is a parameter, `resolve`, of which only the scheduling defaults are read.
pub mod Partition
use storage_cert_harness.Common.{
  String, Bool, List, [], ◌∷◌, ◌++◌, map, Option, none, some, if◌then◌else◌, is_some, lookup,
  insert, sort_by, str_lt,
}
use storage_cert_harness.Core.{TestRequirement}
use storage_cert_harness.Report.Measurements.{or_none}
use storage_cert_harness.Report.Merge.{member}
use storage_cert_harness.Orchestrator.Schedule.{Job}

-- The scheduling defaults of a `ToolIntegration`.
pub record ToolIntegration : Type 0 where
  pub parallel_safe : Bool
  pub exclusivity_groups : List String

pub record ToolSchedule : Type 0 where
  pub parallel_safe : Option Bool
  pub exclusivity_groups : Option (List String)

-- `order` and `byTool`.
pub record Grouped : Type 0 where
  pub order : List String
  pub by_tool : List (String × List TestRequirement)

abbrev place : TestRequirement → Grouped → Grouped
place tr g = record {
  order =
      if is_some (lookup tr.automation_tool g.by_tool)
      then g.order
      else g.order ++ tr.automation_tool ∷ [];
  by_tool =
      insert tr.automation_tool (or_none (lookup tr.automation_tool g.by_tool) ++ tr ∷ [])
        g.by_tool;
}

collect : Grouped → List TestRequirement → Grouped
collect g [] = g
collect g (tr ∷ trs) = collect (place tr g) trs

-- The keys of the map `groups`.
key_set : List String → List String → List String
key_set keys [] = keys
key_set keys (g ∷ gs) = key_set (if member g keys then keys else keys ++ g ∷ []) gs

abbrev or_default {ℓ} : {A : Type ℓ} → A → Option A → A
or_default d none = d
or_default d (some x) = x

abbrev scheduled : Option ToolSchedule → ToolIntegration → ToolIntegration
scheduled none ti = ti
scheduled (some ov) ti = record {
  parallel_safe = or_default ti.parallel_safe ov.parallel_safe;
  exclusivity_groups = or_default ti.exclusivity_groups ov.exclusivity_groups;
}

module _ (resolve : List TestRequirement → ToolIntegration)
    (sched : List (String × ToolSchedule)) where
  make_job : Grouped → String → Job
  unfolding key_set
  make_job g tool =
      let trs = or_none (lookup tool g.by_tool) in
      let ti = scheduled (lookup tool sched) (resolve trs) in
      record {
        tool = tool;
        trs = trs;
        parallel_safe = ti.parallel_safe;
        groups = sort_by str_lt (key_set [] ti.exclusivity_groups);
      }

  unfoldable pub group_by_tool : List TestRequirement → List Job
  unfolding collect make_job
  group_by_tool trs =
      let g = collect (record { order = []; by_tool = [] }) trs in map (make_job g) g.order
