-- ===== src/Knowledge/Join.antt =====
-- internal/kb/kb.go: the join of the two exports. Go iterates over a map in any order, so where several
-- ids have no catalog record, which of them the error names is open; the model names the first.
pub mod Joined
use storage_cert_harness.Common.{
  ℕ, String, Bool, true, false, not, List, [], ◌∷◌, ◌++◌, map, Option, none, some, ◌==◌,
  if◌then◌else◌, is_empty, any, lookup, insert, sort_by, less_by,
}
use storage_cert_harness.Core.{AnyValue, Params, ParamSpec, Sla, TestRequirement, Provenance}
use storage_cert_harness.Knowledge.Catalog
use storage_cert_harness.Knowledge.Thresholds
use storage_cert_harness.Knowledge.Catalog.{Entry}
use storage_cert_harness.Knowledge.Thresholds.{Bars}

-- `measured_by` of a descriptor, where the export leaves it out.
abbrev pub measured_by_default : String → Sla → Sla
measured_by_default tool s = elim s.measured_by [
  | none ↦ if tool == "" then s else record s { measured_by = some (tool ∷ []) }
  | some by ↦ s
]

pub descriptors : Entry → List Sla
descriptors c = map (measured_by_default c.automation_tool) c.sla

-- The defaults of the parameters, less those that are nil.
pub param_defaults : List (String × ParamSpec) → Params
param_defaults [] = []
param_defaults ((name, ps) ∷ spec) =
    let rest = param_defaults spec in
    elim ps.default [ AnyValue.nil ↦ rest | _ ↦ (name, ps.default) ∷ rest ]

unfoldable pub tr_from_catalog : Entry → TestRequirement
unfolding descriptors param_defaults
tr_from_catalog c = record {
  variant = "";
  id = c.id;
  title = c.title;
  description = c.description;
  category = c.category;
  partner_level = c.partner_level;
  verified = c.verified;
  automation_tool = c.automation_tool;
  sla_status = c.sla_status;
  sla_count = c.sla_count;
  checks_status = c.checks_status;
  checks_count = c.checks_count;
  slas = descriptors c;
  bars = [];
  checks = c.checks;
  param_spec = c.params;
  params = param_defaults c.params;
}

unfoldable pub from_catalog : Catalog.Doc → List TestRequirement
from_catalog cat = map tr_from_catalog cat.test_requirements

pub data Joining : Type 0 where
  joined : List TestRequirement → Joining
  schema_mismatch stale_export : (catalog thresholds : String) → Joining
  missing_from_thresholds missing_from_catalog : String → Joining

-- `thByID`
abbrev pub index : List (String × List Sla) → List Bars → List (String × List Sla)
index m [] = m
index m (t ∷ ts) = index (insert t.id t.sla m) ts

abbrev pub with_bars : Entry → List Sla → TestRequirement
with_bars c bars = record (tr_from_catalog c) { bars = bars }

-- The loop over the catalog: the requirements in its order, or the first id without bars.
pub join_each :
    List (String × List Sla)
    → List TestRequirement
    → List Entry
    → List TestRequirement × Option String
join_each by_id out [] = (out, none)
join_each by_id out (c ∷ cs) = elim (lookup c.id by_id) [
  | none ↦ (out, some c.id)
  | some bars ↦ join_each by_id (out ++ with_bars c bars ∷ []) cs
]

-- The first id with bars that the catalog does not have.
pub left_out : List Entry → List (String × List Sla) → Option String
left_out cs [] = none
left_out cs ((id, bars) ∷ m) =
    let rest = left_out cs m in if not (any (λ c. c.id == id) cs) then some id else rest

abbrev pub by_id_order : TestRequirement → TestRequirement → Bool
by_id_order = less_by ((λ tr. tr.id) ∷ [])

unfoldable pub join : Catalog.Doc → Thresholds.Doc → Joining
unfolding join_each left_out
join cat th =
    let by_id = index [] th.test_requirements in
    let (out, missing) = join_each by_id [] cat.test_requirements in
    if not (cat.schema_version == th.schema_version)
    then schema_mismatch cat.schema_version th.schema_version
    else if not (cat.provenance.kb_git_commit == th.provenance.kb_git_commit)
    then stale_export cat.provenance.kb_git_commit th.provenance.kb_git_commit
    else elim missing [
      | some id ↦ missing_from_thresholds id
      | none ↦ elim (left_out cat.test_requirements by_id) [
        | some id ↦ missing_from_catalog id
        | none ↦ joined (sort_by by_id_order out)
      ]
    ]
