-- ===== src/Common/Maps.antt =====
-- Go maps with string keys, as association lists. `insert` replaces the value of a key that is there
-- and appends a new one; `copy` is `maps.Copy`.
use Prim.Native.String.{String}
use mathlib.Core.Path.{◌≡◌, refl}
use mathlib.Core.Option.{Option, none, some}
use mathlib.Core.Logic.{inl, inr}
use mathlib.Core.List.{List, [], ◌∷◌}
use native.Mathlib.Omega.{arith}
use storage_cert_harness.Common.Tests.{if◌then◌else◌, Bool-cases}
use storage_cert_harness.Common.Strings.{◌==◌, eq_iff, eq_refl}

module _ {ℓ} {V : Type ℓ} where
  abbrev pub lookup : String → List (String × V) → Option V
  lookup k [] = none
  lookup k ((j, v) ∷ m) = let rest = lookup k m in if j == k then some v else rest

  unfoldable pub insert : String → V → List (String × V) → List (String × V)
  insert k v [] = (k, v) ∷ []
  insert k v ((j, w) ∷ m) = let rest = insert k v m in if j == k then (k, v) ∷ m else (j, w) ∷ rest

  unfoldable pub copy : List (String × V) → List (String × V) → List (String × V)
  unfolding insert
  copy dst [] = dst
  copy dst ((k, v) ∷ src) = copy (insert k v dst) src

  abbrev pub or_else : Option V → Option V → Option V
  or_else none d = d
  or_else (some v) d = some v

  -- No key stands twice.
  abbrev pub IsMap : List (String × V) → Type ℓ
  IsMap [] = Unit
  IsMap ((k, v) ∷ m) = (lookup k m ≡ none) × IsMap m

  pub lookup-insert :
      (a b : String) (new : V) (m : List (String × V))
      → lookup b (insert a new m) ≡ (if a == b then some new else lookup b m)
  unfolding insert
  lookup-insert a b new [] = refl
  lookup-insert a b new ((c, old) ∷ m) =
      ground (arith, lookup-insert a b new m, eq_iff c a, eq_iff c b, eq_iff a b)

  pub lookup-insert_self :
      (k : String) (v : V) (m : List (String × V)) → lookup k (insert k v m) ≡ some v
  lookup-insert_self k v m = ground (arith, lookup-insert k k v m, eq_refl k)

  -- The source's values win; every other key keeps the destination's.
  pub lookup-copy :
      (j : String) (dst src : List (String × V))
      → IsMap src
      → lookup j (copy dst src) ≡ or_else (lookup j src) (lookup j dst)
  unfolding copy
  lookup-copy j dst [] h = refl
  lookup-copy j dst ((k, v) ∷ src) (fresh, h) =
      ground (arith, lookup-copy j (insert k v dst) src h, lookup-insert k j v dst, eq_iff k j)

  pub insert-IsMap : (k : String) (v : V) (m : List (String × V)) → IsMap m → IsMap (insert k v m)
  unfolding insert
  insert-IsMap k v [] h = (refl, tt)
  insert-IsMap k v ((j, w) ∷ m) (fresh, h) = elim (Bool-cases (j == k)) [
    | inl t ↦ rw t (ground (arith, fresh, eq_iff j k), h)
    | inr f ↦
        rw f (
          ground (arith, lookup-insert k j v m, fresh, eq_iff j k, eq_iff k j),
          insert-IsMap k v m h,
        )
  ]

  pub copy-IsMap : (dst src : List (String × V)) → IsMap dst → IsMap (copy dst src)
  unfolding copy
  copy-IsMap dst [] h = h
  copy-IsMap dst ((k, v) ∷ src) h = copy-IsMap (insert k v dst) src (insert-IsMap k v dst h)
