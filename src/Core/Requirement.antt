-- ===== src/Core/Requirement.antt =====
-- internal/core/types.go: test requirements with their descriptors, bars and checks, and what a tool
-- measured. Counts and partner levels are natural numbers (the catalog's schema allows 1, 2 and 3).
use Prim.Native.Nat.{ℕ}
use Prim.Native.String.{String}
use mathlib.Core.Bool.{Bool}
use mathlib.Core.Option.{Option}
use mathlib.Core.List.{List}
use storage_cert_harness.Core.Status.{Outcome}

-- A float64 is its 64-bit pattern.
pub record Float64 : Type 0 where
  pub bits : ℕ

-- A value of Go's type `any`, as JSON and YAML decode it. An integer is a sign and a magnitude;
-- `composite` is a list or a map, of which the program reads only what `fmt.Sprint` prints.
pub data AnyValue : Type 0 where
  nil : AnyValue
  bool : Bool → AnyValue
  float64 float32 : Float64 → AnyValue
  int int64 int32 : (negative : Bool) (magnitude : ℕ) → AnyValue
  string : String → AnyValue
  composite : (printed : String) → AnyValue

abbrev pub Params : Type 0
Params = List (String × AnyValue)

-- `SLA`: a catalog descriptor or a thresholds bar. `measured_by` tells nil from the empty slice.
pub record Sla : Type 0 where
  pub metric : String
  pub type : String
  pub operator : String
  pub value : Option Float64
  pub unit : String
  pub percentile : String
  pub condition : String
  pub measured_by : Option (List String)
  pub when : Params

pub record ParamSpec : Type 0 where
  pub required : Bool
  pub default : AnyValue

pub record Check : Type 0 where
  pub id : String
  pub kind : String
  pub name : String
  pub expectation : String
  pub blocking : Option Bool
  pub status : String
  pub tool : String
  pub references : List String

pub record TestRequirement : Type 0 where
  pub variant : String
  pub id : String
  pub title : String
  pub description : String
  pub category : String
  pub partner_level : ℕ
  pub verified : String
  pub automation_tool : String
  pub sla_status : String
  pub sla_count : ℕ
  pub checks_status : String
  pub checks_count : ℕ
  pub slas : List Sla
  pub bars : List Sla
  pub checks : List Check
  pub param_spec : List (String × ParamSpec)
  pub params : Params

pub record Metric : Type 0 where
  pub name : String
  pub value : Float64
  pub unit : String
  pub percentile : String

-- `TestResult`, less the raw payload, which nothing reads.
pub record TestResult : Type 0 where
  pub tr_id : String
  pub metrics : List Metric
  pub checks : List (String × Outcome)
  pub native : Outcome
  pub artifacts : List String

pub record Verdict : Type 0 where
  pub variant : String
  pub tr : String
  pub level : ℕ
  pub scenario : String
  pub item : String
  pub outcome : Outcome
  pub duration_s : Float64
  pub reason : String
  pub expected : String
  pub actual : String

pub record Measurement : Type 0 where
  pub variant : String
  pub tr : String
  pub level : ℕ
  pub scenario : String
  pub name : String
  pub value : Float64
  pub unit : String
  pub percentile : String
