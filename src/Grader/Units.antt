-- ===== src/Grader/Units.antt =====
-- internal/grader/units.go: comparing a measured value with a bar across units.
pub mod Scale
use storage_cert_harness.Common.{
  ℕ, String, Bool, true, false, ◌&&◌, not, List, [], ◌∷◌, Option, none, some, ◌==◌, lookup,
  if◌then◌else◌,
}
use storage_cert_harness.Core.{Float64}
use storage_cert_harness.Grader.Runtime.{Runtime, float_lt, float_le, float_eq}
use storage_cert_harness.Grader.Text.{trim_space, to_lower}

pub record UnitConv : Type 0 where
  pub factor : Float64
  pub dim : String

abbrev conv : ℕ → String → UnitConv
conv bits dim = record { factor = record { bits = bits }; dim = dim }

-- `unitTable`: the factors 1e-9, 1e-6, 1e-3, 1, 60, 3600, 100, 1/1024 and 1024 by their bits.
unit_table : List (String × UnitConv)
unit_table =
    ("ns", conv 0x3e112e0be826d695 "time")
    ∷ ("us", conv 0x3eb0c6f7a0b5ed8d "time")
    ∷ ("µs", conv 0x3eb0c6f7a0b5ed8d "time")
    ∷ ("μs", conv 0x3eb0c6f7a0b5ed8d "time")
    ∷ ("ms", conv 0x3f50624dd2f1a9fc "time")
    ∷ ("s", conv 0x3ff0000000000000 "time")
    ∷ ("sec", conv 0x3ff0000000000000 "time")
    ∷ ("secs", conv 0x3ff0000000000000 "time")
    ∷ ("min", conv 0x404e000000000000 "time")
    ∷ ("mins", conv 0x404e000000000000 "time")
    ∷ ("h", conv 0x40ac200000000000 "time")
    ∷ ("hr", conv 0x40ac200000000000 "time")
    ∷ ("hour", conv 0x40ac200000000000 "time")
    ∷ ("hours", conv 0x40ac200000000000 "time")
    ∷ ("%", conv 0x3ff0000000000000 "ratio")
    ∷ ("percent", conv 0x3ff0000000000000 "ratio")
    ∷ ("pct", conv 0x3ff0000000000000 "ratio")
    ∷ ("ratio", conv 0x4059000000000000 "ratio")
    ∷ ("iops", conv 0x3ff0000000000000 "iops")
    ∷ ("kibps", conv 0x3f50000000000000 "byte_rate")
    ∷ ("mibps", conv 0x3ff0000000000000 "byte_rate")
    ∷ ("gibps", conv 0x4090000000000000 "byte_rate")
    ∷ []

-- The conversion of a unit's name: exact first, then in lower case; none for the empty name.
unfoldable pub find_unit : String → Option UnitConv
unfolding unit_table trim_space to_lower
find_unit unit =
    let u = trim_space unit in
    if u == ""
    then none
    else elim (lookup u unit_table) [ some c ↦ some c | none ↦ lookup (to_lower u) unit_table ]

-- `compare`: an operator that is none of the five never passes.
unfoldable pub compare : Float64 → String → Float64 → Bool
compare actual op want =
    if op == "<="
    then float_le actual want
    else if op == "<"
    then float_lt actual want
    else if op == ">="
    then float_le want actual
    else if op == ">"
    then float_lt want actual
    else if op == "=="
    then float_eq actual want
    else false

module _ (go : Runtime) where
  -- `canonicalize`: the value in its dimension's base unit, the dimension, and whether it is known.
  unfoldable pub canonicalize : Float64 → String → Float64 × String × Bool
  canonicalize value unit = elim (find_unit unit) [
    | some c ↦ (go.mul value c.factor, c.dim, true)
    | none ↦ (value, "", false)
  ]

  -- `compareWithUnits`: whether it passes, and whether the units are incompatible.
  unfoldable pub compare_with_units : Float64 → String → String → Float64 → String → Bool × Bool
  unfolding canonicalize
  compare_with_units measured measured_unit op want want_unit =
      let (mv, mdim, mok) = canonicalize measured measured_unit in
      let (wv, wdim, wok) = canonicalize want want_unit in
      if mok && (wok && mdim == wdim)
      then (compare mv op wv, false)
      else if mok && (wok && not (mdim == wdim))
      then (false, true)
      else (compare measured op want, false)
