-- ===== src/Common/Lists.antt =====
-- Lists measured by native numbers, filtered by Boolean tests, and the predicates on them that
-- compute to tuples and sums.
use Prim.Native.Nat.{ℕ, zero, suc, ◌+◌}
use mathlib.Core.Path.{◌≡◌, refl, ap, sym, ◌∙◌}
use mathlib.Core.Logic.{inl, inr}
use mathlib.Core.Bool.{Bool, true, false, ◌&&◌, ◌||◌}
use mathlib.Core.List.Memᴰ
use mathlib.Core.List.{List, [], ◌∷◌, ◌++◌, Memᴰ}
use native.Mathlib.Omega.{arith}
use storage_cert_harness.Common.Tests.{if◌then◌else◌, Bool-cases}

module _ {ℓ} {A : Type ℓ} where
  abbrev pub length : List A → ℕ
  length [] = 0
  length (x ∷ xs) = suc (length xs)

  abbrev pub is_empty : List A → Bool
  is_empty [] = true
  is_empty (x ∷ xs) = false

  -- A write out of bounds changes nothing.
  abbrev pub set : List A → ℕ → A → List A
  set [] i v = []
  set (x ∷ xs) zero v = v ∷ xs
  set (x ∷ xs) (suc i) v = x ∷ set xs i v

  -- The items that pass a test, in order.
  abbrev pub keep : (A → Bool) → List A → List A
  keep p [] = []
  keep p (x ∷ xs) = let rest = keep p xs in if p x then x ∷ rest else rest

  abbrev pub any : (A → Bool) → List A → Bool
  any p [] = false
  any p (x ∷ xs) = p x || any p xs

  abbrev pub all : (A → Bool) → List A → Bool
  all p [] = true
  all p (x ∷ xs) = p x && all p xs

  -- How many items pass a test.
  abbrev pub count : (A → Bool) → List A → ℕ
  count p [] = 0
  count p (x ∷ xs) = let rest = count p xs in if p x then suc rest else rest

  abbrev pub last_or : A → List A → A
  last_or d [] = d
  last_or d (x ∷ xs) = last_or x xs

  abbrev pub All {κ} : (A → Type κ) → List A → Type κ
  All P [] = Unit
  All P (x ∷ xs) = P x × All P xs

  pub length-append : (xs ys : List A) → length (xs ++ ys) ≡ length xs + length ys
  length-append [] ys = omega arith
  length-append (x ∷ xs) ys = omega (arith, length-append xs ys)

  pub keep-append : (p : A → Bool) (xs ys : List A) → keep p (xs ++ ys) ≡ keep p xs ++ keep p ys
  keep-append p [] ys = refl
  keep-append p (x ∷ xs) ys = ground (arith, keep-append p xs ys)

  -- What passes the filter is in the list and passes the test, and the other way round.
  pub mem-keep :
      {a : A} (p : A → Bool) (xs : List A) → Memᴰ a (keep p xs) → Memᴰ a xs × (p a ≡ true)
  mem-keep p [] h = absurd (Memᴰ.not-nil h)
  mem-keep {a} p (x ∷ xs) h = elim (Bool-cases (p x)) [
    | inl t ↦ elim (Memᴰ.cases_cons (rw t at h)) [
      | inl e ↦ (Memᴰ.head e, rw e t)
      | inr later ↦ (Memᴰ.tail (mem-keep p xs later).0, (mem-keep p xs later).1)
    ]
    | inr f ↦
        let later : Memᴰ a (keep p xs) = rw f at h in
        (Memᴰ.tail (mem-keep p xs later).0, (mem-keep p xs later).1)
  ]

  pub keep-mem : {a : A} {xs : List A} (p : A → Bool) → Memᴰ a xs → p a ≡ true → Memᴰ a (keep p xs)
  keep-mem p (Memᴰ.head e) t = rw (ap p (sym e) ∙ t) (Memᴰ.head e)
  keep-mem p (Memᴰ.tail {x = x} h) t = elim (Bool-cases (p x)) [
    | inl u ↦ rw u (Memᴰ.tail (keep-mem p h t))
    | inr f ↦ rw f (keep-mem p h t)
  ]

  pub All-mem {κ} : (P : A → Type κ) {a : A} {xs : List A} → Memᴰ a xs → All P xs → P a
  All-mem P (Memᴰ.head e) h = rw e h.0
  All-mem P (Memᴰ.tail m) h = All-mem P m h.1

  pub All-of_mem {κ} : (P : A → Type κ) (xs : List A) → ((a : A) → Memᴰ a xs → P a) → All P xs
  All-of_mem P [] h = tt
  All-of_mem P (x ∷ xs) h = (h x (Memᴰ.head refl), All-of_mem P xs (λ a m. h a (Memᴰ.tail m)))

  pub each-mem : (xs : List A) → All (λ a. Memᴰ a xs) xs
  each-mem xs = All-of_mem (λ a. Memᴰ a xs) xs (λ a m. m)

  pub All-append {κ} : (P : A → Type κ) (xs ys : List A) → All P xs → All P ys → All P (xs ++ ys)
  All-append P [] back front_holds back_holds = back_holds
  All-append P (x ∷ front) back (p, rest) back_holds = (p, All-append P front back rest back_holds)

  -- A test passes somewhere exactly if some item passes it.
  pub mem→any : {a : A} {xs : List A} (p : A → Bool) → Memᴰ a xs → p a ≡ true → any p xs ≡ true
  mem→any p (Memᴰ.head e) t = rw (ap p (sym e) ∙ t)
  mem→any p (Memᴰ.tail {x = x} h) t = ground (arith, mem→any p h t)

  pub any→mem : (p : A → Bool) (xs : List A) → any p xs ≡ true → (a : A) × Memᴰ a xs × (p a ≡ true)
  any→mem p [] h = cc
  any→mem p (x ∷ xs) h = elim (Bool-cases (p x)) [
    | inl t ↦ (x, Memᴰ.head refl, t)
    | inr f ↦ let (a, m, t) = any→mem p xs (rw f at h) in (a, Memᴰ.tail m, t)
  ]

module _ {ℓ κ} {A : Type ℓ} {B : Type κ} where
  abbrev pub flat_map : (A → List B) → List A → List B
  flat_map f [] = []
  flat_map f (x ∷ xs) = f x ++ flat_map f xs

pub any-append {ℓ} :
    {A : Type ℓ} (p : A → Bool) (xs ys : List A) → any p (xs ++ ys) ≡ (any p xs || any p ys)
any-append p [] ys = cc
any-append p (x ∷ xs) ys = ground (arith, any-append p xs ys)
