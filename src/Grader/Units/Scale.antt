-- ===== src/Grader/Units/Scale.antt =====
-- What a comparison with a bar decides.
use storage_cert_harness.Common.{
  String, ◌≡◌, ◌≢◌, ◌↔◌, ◌⊎◌, inl, inr, true, false, not, ◌&&◌, ◌||◌, none, some, arith,
  Option-cases, ◌==◌, eq_iff, if◌then◌else◌,
}
use storage_cert_harness.Core.{Float64}
use storage_cert_harness.Grader.Runtime.{Runtime, is_nan, float_lt, float_le, float_eq}
use storage_cert_harness.Grader.Units.{UnitConv, find_unit, compare, compare_with_units}

-- Between numbers `<=` is the opposite of `>`, `>=` of `<`, and `==` holds exactly if both `<=` and
-- `>=` do.
pub compare_operators :
    (a b : Float64)
    → (is_nan a || is_nan b) ≡ false
    → (compare a "<=" b ≡ not (compare a ">" b))
      × (compare a ">=" b ≡ not (compare a "<" b))
      × (compare a "==" b ≡ (compare a "<=" b && compare a ">=" b))
unfolding compare float_lt float_le float_eq
compare_operators a b h = (ground arith, ground arith, ground arith)

-- A comparison passes only between two numbers.
pub compare-passes :
    (a b : Float64) (op : String) → compare a op b ≡ true → (is_nan a ≡ false) × (is_nan b ≡ false)
unfolding compare float_lt float_le float_eq
compare-passes a b op h = (ground arith, ground arith)

module _ (go : Runtime) (m : Float64) (mu op : String) (w : Float64) (wu : String) where
  known :
      {c d : UnitConv}
      → find_unit mu ≡ some c
      → find_unit wu ≡ some d
      → compare_with_units go m mu op w wu ≡ (
          if c.dim == d.dim
          then (compare (go.mul m c.factor) op (go.mul w d.factor), false)
          else (false, true))
  unfolding compare_with_units
  known p q = ground arith

  unknown :
      (find_unit mu ≡ none) ⊎ (find_unit wu ≡ none)
      → compare_with_units go m mu op w wu ≡ (compare m op w, false)
  unfolding compare_with_units
  unknown h = ground arith

  -- The raw values are compared: one of the units is unknown.
  abbrev pub Unscaled : Type 0
  Unscaled = ((find_unit mu ≡ none) ⊎ (find_unit wu ≡ none)) × (compare m op w ≡ true)

  -- The values are compared in the base unit of the one dimension that both units have.
  abbrev pub Scaled : Type 0
  Scaled =
      (c : UnitConv) × (d : UnitConv) × (find_unit mu ≡ some c)
      × (find_unit wu ≡ some d)
      × (c.dim ≡ d.dim)
      × (compare (go.mul m c.factor) op (go.mul w d.factor) ≡ true)

  -- The units are reported as incompatible exactly if both are known and of different dimensions. The
  -- comparison passes exactly if two known units have one dimension and the values scaled to its base
  -- unit pass, or one unit is unknown and the raw values pass.
  pub compare_with_units_iff :
      let r = compare_with_units go m mu op w wu in
      ((r.1 ≡ true) ↔ (
        (c : UnitConv) × (d : UnitConv) × (find_unit mu ≡ some c)
        × (find_unit wu ≡ some d)
        × (c.dim ≢ d.dim)))
      × ((r.0 ≡ true) ↔ (Scaled ⊎ Unscaled))
  compare_with_units_iff = (
    (
      λ h. elim (Option-cases (find_unit mu)) [
        | inl n ↦ absurd (ground (arith, unknown (inl n)))
        | inr (c, p) ↦ elim (Option-cases (find_unit wu)) [
          | inl n ↦ absurd (ground (arith, unknown (inr n)))
          | inr (d, q) ↦ (c, d, p, q, ground (arith, known p q, eq_iff c.dim d.dim))
        ]
      ],
      λ (c, d, p, q, other). ground (arith, known p q, eq_iff c.dim d.dim),
    ),
    (
      λ h. elim (Option-cases (find_unit mu)) [
        | inl n ↦ inr (inl n, ground (arith, unknown (inl n)))
        | inr (c, p) ↦ elim (Option-cases (find_unit wu)) [
          | inl n ↦ inr (inr n, ground (arith, unknown (inr n)))
          | inr (d, q) ↦
              inl (
                c,
                d,
                p,
                q,
                ground (arith, known p q, eq_iff c.dim d.dim),
                ground (arith, known p q),
              )
        ]
      ],
      λ s. elim s [
        | inl (c, d, p, q, same, h) ↦ ground (arith, known p q, eq_iff c.dim d.dim)
        | inr (u, h) ↦ ground (arith, unknown u)
      ],
    ),
  )
