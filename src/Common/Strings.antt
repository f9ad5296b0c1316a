-- ===== src/Common/Strings.antt =====
-- Equality and the order of texts. Go compares strings by their bytes; `compare` is the order of the
-- UTF-8's bytes. The order is total, so a sort by it is determined by the keys.
use Prim.Native.Char.{nul}
use Prim.Native.Nat.{ℕ, Ordering}
use Prim.Native.Nat.{compare as compare_ℕ}
use Prim.Native.String.compare as str_compare
use Prim.Native.String.{String, [], ◌∷◌, ◌++◌, compare, then}
use mathlib.Core.Path.{◌≡◌, refl}
use mathlib.Core.Bool.{Bool, true, false}
use native.Mathlib.Omega.{arith}
pub use text.Mathlib.Text.{◌==◌}
pub use text.Mathlib.TextEquality.{eq_iff}
pub use text.Mathlib.TextPositions.{eq_refl}
use text.Mathlib.TextPositions.{compare_refl}

-- `a < b` on strings.
abbrev pub str_lt : String → String → Bool
str_lt s t = elim (compare s t) [ Ordering.lt ↦ true | _ ↦ false ]

infixr 65 ◌<>◌
abbrev pub ◌<>◌ : String → String → String
s <> t = s ++ t

-- The separator "\x00" of the composite map keys.
abbrev pub nul_text : String
nul_text = nul ∷ []

abbrev flip : Ordering → Ordering
flip Ordering.lt = Ordering.gt
flip Ordering.eq = Ordering.eq
flip Ordering.gt = Ordering.lt

flip-compare_ℕ : (m n : ℕ) → compare_ℕ n m ≡ flip (compare_ℕ m n)
flip-compare_ℕ m n = ground arith

flip-then : (o p : Ordering) → flip (then o p) ≡ then (flip o) (flip p)
flip-then Ordering.lt p = refl
flip-then Ordering.eq p = refl
flip-then Ordering.gt p = refl

pub flip-compare : (s t : String) → compare t s ≡ flip (compare s t)
flip-compare [] [] = rw str_compare.nil-nil
flip-compare [] (d ∷ t) = rw (str_compare.nil-cons, str_compare.cons-nil)
flip-compare (c ∷ s) [] = rw (str_compare.nil-cons, str_compare.cons-nil)
flip-compare (c ∷ s) (d ∷ t) =
    ground (arith, str_compare.cons-cons c d s t, str_compare.cons-cons d c t s, flip-compare s t)

-- Exactly one of `s < t`, `s ≡ t`, `t < s` holds.
pub str_lt_total : (s t : String) → (s == t) ≡ false → str_lt s t ≡ false → str_lt t s ≡ true
str_lt_total s t e l = ground (arith, flip-compare s t)

pub str_lt_asymm : (s t : String) → str_lt s t ≡ true → str_lt t s ≡ false
str_lt_asymm s t l = ground (arith, flip-compare s t)

pub str_lt-ne : (s t : String) → str_lt s t ≡ true → (s == t) ≡ false
str_lt-ne s t l = ground arith

pub str_lt_irrefl : (s : String) → str_lt s s ≡ false
str_lt_irrefl s = ground (arith, compare_refl s)

pub str_lt_trans : (s t u : String) → str_lt s t ≡ true → str_lt t u ≡ true → str_lt s u ≡ true
str_lt_trans [] [] u p q = absurd (ground (arith, str_compare.nil-nil))
str_lt_trans [] (d ∷ t) [] p q = absurd (ground (arith, str_compare.cons-nil d t))
str_lt_trans [] (d ∷ t) (e ∷ u) p q = ground (arith, str_compare.nil-cons e u)
str_lt_trans (c ∷ s) [] u p q = absurd (ground (arith, str_compare.cons-nil c s))
str_lt_trans (c ∷ s) (d ∷ t) [] p q = absurd (ground (arith, str_compare.cons-nil d t))
str_lt_trans (c ∷ s) (d ∷ t) (e ∷ u) p q = ground (
  arith,
  str_compare.cons-cons c d s t,
  str_compare.cons-cons d e t u,
  str_compare.cons-cons c e s u,
  str_lt_trans s t u,
)

pub eq_sym : (s t : String) → (s == t) ≡ (t == s)
eq_sym s t = ground (arith, flip-compare s t)

pub eq→path : (s t : String) → (s == t) ≡ true → s ≡ t
eq→path s t = (eq_iff s t).0
