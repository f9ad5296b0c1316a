-- ===== src/Plan.antt =====
-- internal/plan/plan.go: which plans are accepted, and what they select. A plan's maps are association
-- lists; where several entries of a map are refused, Go's order leaves open which error is given, and
-- the model gives the first.
pub mod Accepted
use Prim.Native.Char.{Char, code}
use storage_cert_harness.Common.{
  ℕ, String, Bool, true, false, ◌&&◌, ◌||◌, not, leb, eqb, List, [], ◌∷◌, map, Option, none, some,
  ◌==◌, if◌then◌else◌, is_empty, any, ℤ, is_negative,
}
use storage_cert_harness.Core.{Params}
use storage_cert_harness.Orchestrator.Selection.{Filter, Variant, has}
use storage_cert_harness.Orchestrator.Grouping.{ToolSchedule}

pub record Selector : Type 0 where
  pub all : Bool
  pub ids : List String
  pub tools : List String
  pub partner_levels : List ℕ

pub record Plan : Type 0 where
  pub schema_version : String
  pub name : String
  pub description : String
  pub backend : String
  pub scenario : String
  pub concurrency : ℤ
  pub select : Selector
  pub report_metrics : List (String × List String)
  pub overrides : List (String × Params)
  pub variants : List (String × List Variant)
  pub scheduling : List (String × ToolSchedule)

-- What `validate` refuses, with the arguments of its message.
pub data Refused : Type 0 where
  unsupported_schema_version : String → Refused
  missing_name : Refused
  no_variants : String → Refused
  invalid_name duplicate_name : (id name : String) → Refused
  empty_selection : Refused
  negative_concurrency : Refused

abbrev between : ℕ → ℕ → Char → Bool
between lo hi c = leb lo (code c) && leb (code c) hi

-- `[A-Za-z0-9]`
abbrev pub is_alnum : Char → Bool
is_alnum c = between b'A' b'Z' c || between b'a' b'z' c || between b'0' b'9' c

-- `[A-Za-z0-9_-]*`
abbrev pub all_word : String → Bool
all_word String.[] = true
all_word (String.◌∷◌ c s) = (is_alnum c || eqb (code c) b'_' || eqb (code c) b'-') && all_word s

-- `^[A-Za-z0-9][A-Za-z0-9_-]*$`
abbrev pub is_variant_name : String → Bool
is_variant_name String.[] = false
is_variant_name (String.◌∷◌ c s) = is_alnum c && all_word s

validate_names : String → List String → List Variant → Option Refused
validate_names id seen [] = none
validate_names id seen (v ∷ vs) =
    let rest = validate_names id (v.name ∷ seen) vs in
    if not (is_variant_name v.name)
    then some (invalid_name id v.name)
    else if has seen v.name
    then some (duplicate_name id v.name)
    else rest

abbrev or_then : Option Refused → Option Refused → Option Refused
or_then none next = next
or_then (some e) next = some e

validate_variants : List (String × List Variant) → Option Refused
unfolding validate_names
validate_variants [] = none
validate_variants ((id, vs) ∷ m) =
    let rest = validate_variants m in
    if id == "" || is_empty vs
    then some (no_variants id)
    else or_then (validate_names id [] vs) rest

abbrev pub selects_nothing : Selector → Bool
selects_nothing s = not s.all && is_empty s.ids && is_empty s.tools && is_empty s.partner_levels

unfoldable pub validate : Plan → Option Refused
unfolding validate_variants
validate p =
    if not (p.schema_version == "1")
    then some (unsupported_schema_version p.schema_version)
    else if p.name == ""
    then some missing_name
    else or_then (validate_variants p.variants) (
        if selects_nothing p.select
        then some empty_selection
        else if is_negative p.concurrency
        then some negative_concurrency
        else none)

-- `Filter`
unfoldable pub filter_of : Plan → Filter
filter_of p =
    if p.select.all then record { tools = []; ids = []; partner_levels = [] } else record {
      tools = p.select.tools;
      ids = p.select.ids;
      partner_levels = p.select.partner_levels;
    }

-- `SchedulingOverrides`: the two records of a tool's schedule have the same fields.
unfoldable pub scheduling_overrides : Plan → List (String × ToolSchedule)
scheduling_overrides p =
    map {B = String × ToolSchedule}
      (λ (tool, s). (
        tool,
        record { parallel_safe = s.parallel_safe; exclusivity_groups = s.exclusivity_groups },
      ))
      p.scheduling
