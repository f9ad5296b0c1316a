-- ===== src/Examples/Knowing.antt =====
-- A small catalog with its bars, and a plan.
use storage_cert_harness.Common.{
  ◌≡◌, ◌≢◌, ◌↔◌, true, false, [], ◌∷◌, none, All, Pairs, ℤ, is_negative, if◌then◌else◌, keep,
}
use storage_cert_harness.Core.{Provenance}
use storage_cert_harness.Examples.Grading.{latency, bar}
use storage_cert_harness.Knowledge.Catalog
use storage_cert_harness.Knowledge.Thresholds
use storage_cert_harness.Knowledge.Records.{supported}
use storage_cert_harness.Knowledge.Catalog.{Entry, IsBarless, validate-IsBarless}
use storage_cert_harness.Knowledge.Thresholds.{Bars, IsGradable, validate-IsGradable}
use storage_cert_harness.Knowledge.Join.{join, joined, from_catalog}
use storage_cert_harness.Knowledge.Join.Joined.{Same, entries, join_iff}
use storage_cert_harness.Orchestrator.Selection.{select_trs}
use storage_cert_harness.Orchestrator.Selection.Chosen.{admits}
use storage_cert_harness.Plan
use storage_cert_harness.Plan.{Plan, selects_nothing, filter_of}
use storage_cert_harness.Plan.Accepted.{IsEntry, validate-IsEntry, select_trs-filter_of}

abbrev commit : Provenance
commit = record { kb_git_commit = "abc"; kb_commit_date = ""; generated_date = "" }

abbrev boot : Entry
boot = record {
  id = "TR-1";
  title = "";
  description = "";
  category = "";
  partner_level = 1;
  verified = "";
  automation_tool = "virtbench";
  sla_status = "";
  sla_count = 1;
  checks_status = "";
  checks_count = 0;
  params = [];
  sla = latency ∷ [];
  checks = [];
}

abbrev cat : Catalog.Doc
cat = record {
  schema_version = "2.0";
  provenance = commit;
  test_requirements = record boot { id = "TR-2" } ∷ boot ∷ [];
}

abbrev th : Thresholds.Doc
th = record {
  schema_version = "2.0";
  provenance = commit;
  test_requirements =
      record { id = "TR-1"; sla = bar ∷ [] } ∷ record { id = "TR-2"; sla = bar ∷ [] } ∷ [];
}

validate-IsBarless_example : (Catalog.validate cat ≡ none) ↔ (
    (cat.schema_version ≡ supported)
    × All (λ c. (c.id ≢ "") × IsBarless c) cat.test_requirements
    × Pairs (λ a b. a.id ≢ b.id) cat.test_requirements)
validate-IsBarless_example = validate-IsBarless cat

join_example :
    (join cat th ≡ joined (entries cat th)) ↔ (Same cat th × (entries cat th ≡ entries cat th))
join_example = join_iff cat th (entries cat th)

abbrev plan : Plan
plan = record {
  schema_version = "1";
  name = "all";
  description = "";
  backend = "";
  scenario = "";
  concurrency = ℤ.pos 2;
  select = record { all = true; ids = "TR-9" ∷ []; tools = []; partner_levels = [] };
  report_metrics = [];
  overrides = [];
  variants = ("TR-1", record { name = "small"; params = [] } ∷ []) ∷ [];
  scheduling = [];
}

validate-IsEntry_example : (Plan.validate plan ≡ none) ↔ (
    (plan.schema_version ≡ "1")
    × (plan.name ≢ "")
    × All IsEntry plan.variants
    × (selects_nothing plan.select ≡ false)
    × (is_negative plan.concurrency ≡ false))
validate-IsEntry_example = validate-IsEntry plan

select_trs-filter_of_example : select_trs (from_catalog cat) (filter_of plan) ≡ (
    if plan.select.all
    then from_catalog cat
    else keep
        (admits (record {
          tools = plan.select.tools;
          ids = plan.select.ids;
          partner_levels = plan.select.partner_levels;
        }))
        (from_catalog cat))
select_trs-filter_of_example = select_trs-filter_of plan (from_catalog cat)
