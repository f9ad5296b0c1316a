-- ===== src/Grader/Bars.antt =====
-- internal/grader/evaluators.go: which bar and which metric belong to a descriptor.
pub mod Choice
use storage_cert_harness.Common.{
  ℕ, String, Bool, true, false, ◌&&◌, ◌||◌, not, List, [], ◌∷◌, ◌++◌, Option, none, some, ◌==◌,
  ◌<>◌, lookup, if◌then◌else◌,
}
use storage_cert_harness.Core.{Float64, AnyValue, Params, Sla, Metric}
use storage_cert_harness.Grader.Runtime.{Runtime, float_eq}

abbrev pub contains : List String → String → Bool
contains [] x = false
contains (y ∷ ys) x = y == x || contains ys x

unfoldable pub measures : Option (List String) → String → Bool
measures none tool = true
measures (some measured_by) tool = contains measured_by tool

unfoldable pub find_metric : List Metric → String → String → Option Metric
find_metric [] name percentile = none
find_metric (m ∷ ms) name percentile =
    let rest = find_metric ms name percentile in
    if not (m.name == name)
    then rest
    else if not (percentile == "") && not (m.percentile == percentile)
    then rest
    else some m

unfoldable pub metric_label : String → String → String
metric_label metric percentile =
    if not (percentile == "") then metric <> "@" <> percentile else metric

unfoldable pub sla_item : Sla → String
unfolding metric_label
sla_item s = "sla:" <> metric_label s.metric s.percentile

unfoldable pub unit_or : String → String → String
unit_or a b = if not (a == "") then a else b

module _ (go : Runtime) where
  unfoldable pub to_float : AnyValue → Option Float64
  to_float (AnyValue.float64 x) = some x
  to_float (AnyValue.float32 x) = some (go.widen x)
  to_float (AnyValue.int n m) = some (go.of_int n m)
  to_float (AnyValue.int64 n m) = some (go.of_int n m)
  to_float (AnyValue.int32 n m) = some (go.of_int n m)
  to_float _ = none

  -- `ok && af == bf`, with the second value's conversion.
  abbrev equal_to : Float64 → Option Float64 → Bool
  equal_to x none = false
  equal_to x (some y) = float_eq x y

  unfoldable pub param_equal : AnyValue → AnyValue → Bool
  unfolding to_float
  param_equal a b = elim (to_float a) [
    | some x ↦ equal_to x (to_float b)
    | none ↦ go.sprint a == go.sprint b
  ]

  abbrev holds_param : AnyValue → Option AnyValue → Bool
  holds_param v none = false
  holds_param v (some pv) = param_equal v pv

  unfoldable pub when_subset : Params → Params → Bool
  unfolding param_equal
  when_subset [] params = true
  when_subset ((k, v) ∷ when) params =
      let rest = when_subset when params in
      if not (holds_param v (lookup k params)) then false else rest

  unfoldable pub select_bars : List Sla → String → String → Params → List Sla
  unfolding when_subset
  select_bars [] metric percentile params = []
  select_bars (b ∷ bars) metric percentile params =
      let rest = select_bars bars metric percentile params in
      if not (b.metric == metric) || not (b.percentile == percentile)
      then rest
      else if when_subset b.when params
      then b ∷ rest
      else rest
