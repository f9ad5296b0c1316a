-- ===== src/Common/Sort.antt =====
-- `sort.Slice` with a comparator that compares string fields one after the other. Go leaves the
-- order of equal items open; the model is the stable sort.
use Prim.Native.String.{String}
use mathlib.Core.Path.{◌≡◌, refl}
use mathlib.Core.Logic.{inl, inr}
use mathlib.Core.Bool.{Bool, true, false}
use mathlib.Core.List.Memᴰ
use mathlib.Core.List.Perm
use mathlib.Core.List.{List, [], ◌∷◌, Memᴰ, Perm}
use native.Mathlib.Omega.{arith}
use storage_cert_harness.Common.Tests.{if◌then◌else◌, Bool-cases, ltb}
use storage_cert_harness.Common.Lists.{All, All-mem, each-mem}
use storage_cert_harness.Common.Strings.{
  ◌==◌, str_lt, str_lt_total, str_lt_asymm, str_lt-ne, str_lt_trans, eq_sym, eq_iff,
}

-- Compares by the first key in which the items differ.
abbrev pub less_by {ℓ} : {A : Type ℓ} → List (A → String) → A → A → Bool
less_by [] a b = false
less_by (k ∷ ks) a b = let rest = less_by ks a b in if k a == k b then rest else str_lt (k a) (k b)

module _ {ℓ} {A : Type ℓ} where
  insert_by : (A → A → Bool) → A → List A → List A
  insert_by less x [] = x ∷ []
  insert_by less x (y ∷ ys) =
      let later = y ∷ insert_by less x ys in if less y x then later else x ∷ y ∷ ys

  unfoldable pub sort_by : (A → A → Bool) → List A → List A
  unfolding insert_by
  sort_by less [] = []
  sort_by less (x ∷ xs) = insert_by less x (sort_by less xs)

  -- No item is less than one before it.
  abbrev pub IsSorted : (A → A → Bool) → List A → Type ℓ
  IsSorted less [] = Unit
  IsSorted less (x ∷ xs) = All (λ y. less y x ≡ false) xs × IsSorted less xs

  -- Every item stands in a relation to each one after it.
  abbrev pub Pairs {κ} : (A → A → Type κ) → List A → Type κ
  Pairs R [] = Unit
  Pairs R (x ∷ xs) = All (R x) xs × Pairs R xs

  -- What a sort needs of its comparator.
  pub record Orders (less : A → A → Bool) : Type ℓ where
    pub asymm : (a b : A) → less a b ≡ true → less b a ≡ false
    pub chain : (a b c : A) → less b a ≡ false → less c b ≡ false → less c a ≡ false

  insert_by-perm : (less : A → A → Bool) (x : A) (xs : List A) → Perm (insert_by less x xs) (x ∷ xs)
  unfolding insert_by
  insert_by-perm less x [] = Perm.rfl
  insert_by-perm less x (y ∷ ys) = elim (Bool-cases (less y x)) [
    | inl t ↦ rw t (Perm.trans (Perm.cons y (insert_by-perm less x ys)) (Perm.swap x y ys))
    | inr f ↦ rw f Perm.rfl
  ]

  -- A sort only reorders.
  pub sort_by-perm : (less : A → A → Bool) (xs : List A) → Perm (sort_by less xs) xs
  unfolding sort_by
  sort_by-perm less [] = Perm.rfl
  sort_by-perm less (x ∷ xs) =
      Perm.trans (insert_by-perm less x (sort_by less xs)) (Perm.cons x (sort_by-perm less xs))

  All-insert_by {κ} :
      (P : A → Type κ) (less : A → A → Bool) (x : A) (xs : List A)
      → P x
      → All P xs
      → All P (insert_by less x xs)
  unfolding insert_by
  All-insert_by P less x [] px h = (px, tt)
  All-insert_by P less x (y ∷ ys) px h = elim (Bool-cases (less y x)) [
    | inl t ↦ rw t (h.0, All-insert_by P less x ys px h.1)
    | inr f ↦ rw f (px, h)
  ]

  pub All-sort_by {κ} :
      (P : A → Type κ) (less : A → A → Bool) (xs : List A) → All P xs → All P (sort_by less xs)
  unfolding sort_by
  All-sort_by P less [] h = h
  All-sort_by P less (x ∷ xs) h =
      All-insert_by P less x (sort_by less xs) h.0 (All-sort_by P less xs h.1)

  mem-insert_by :
      (less : A → A → Bool) (x : A) {a : A} (xs : List A)
      → Memᴰ a (x ∷ xs)
      → Memᴰ a (insert_by less x xs)
  unfolding insert_by
  mem-insert_by less x [] m = m
  mem-insert_by less x (y ∷ ys) m = elim (Bool-cases (less y x)) [
    | inr f ↦ rw f m
    | inl t ↦ rw t (elim (Memᴰ.cases_cons m) [
      | inl e ↦ Memᴰ.tail (mem-insert_by less x ys (Memᴰ.head e))
      | inr n ↦ elim (Memᴰ.cases_cons n) [
        | inl e ↦ Memᴰ.head e
        | inr k ↦ Memᴰ.tail (mem-insert_by less x ys (Memᴰ.tail k))
      ]
    ])
  ]

  -- Everything sorted is in the sorted list, and nothing else is.
  pub mem-sort_by :
      (less : A → A → Bool) {a : A} (xs : List A) → Memᴰ a xs → Memᴰ a (sort_by less xs)
  unfolding sort_by
  mem-sort_by less (x ∷ xs) m = elim (Memᴰ.cases_cons m) [
    | inl e ↦ mem-insert_by less x (sort_by less xs) (Memᴰ.head e)
    | inr n ↦ mem-insert_by less x (sort_by less xs) (Memᴰ.tail (mem-sort_by less xs n))
  ]
  mem-sort_by less [] m = m

  pub sort_by-mem :
      (less : A → A → Bool) {a : A} (xs : List A) → Memᴰ a (sort_by less xs) → Memᴰ a xs
  sort_by-mem less {a} xs m =
      All-mem (λ y. Memᴰ y xs) m (All-sort_by (λ y. Memᴰ y xs) less xs (each-mem xs))

  module _ {κ} {R : A → A → Type κ} (swap : (a b : A) → R a b → R b a) (less : A → A → Bool) where
    insert_by-Pairs :
        (x : A) (xs : List A) → All (R x) xs → Pairs R xs → Pairs R (insert_by less x xs)
    unfolding insert_by
    insert_by-Pairs x [] h p = (tt, tt)
    insert_by-Pairs x (y ∷ ys) h p = elim (Bool-cases (less y x)) [
      | inl t ↦
          rw t (All-insert_by (R y) less x ys (swap x y h.0) p.0, insert_by-Pairs x ys h.1 p.1)
      | inr f ↦ rw f (h, p)
    ]

    -- A sort keeps a symmetric relation between all items.
    pub sort_by-Pairs : (xs : List A) → Pairs R xs → Pairs R (sort_by less xs)
    unfolding sort_by
    sort_by-Pairs [] p = tt
    sort_by-Pairs (x ∷ xs) p =
        insert_by-Pairs x (sort_by less xs) (All-sort_by (R x) less xs p.0) (sort_by-Pairs xs p.1)

  module _ {less : A → A → Bool} (o : Orders less) where
    below-All :
        (x y : A) (ys : List A)
        → less y x ≡ false
        → All (λ z. less z y ≡ false) ys
        → All (λ z. less z x ≡ false) ys
    below-All x y [] f h = tt
    below-All x y (z ∷ ys) f h = (o.chain x y z f h.0, below-All x y ys f h.1)

    insert_by-IsSorted :
        (x : A) (xs : List A) → IsSorted less xs → IsSorted less (insert_by less x xs)
    unfolding insert_by
    insert_by-IsSorted x [] h = (tt, tt)
    insert_by-IsSorted x (y ∷ ys) h = elim (Bool-cases (less y x)) [
      | inl t ↦ rw t (
        All-insert_by (λ z. less z y ≡ false) less x ys (o.asymm y x t) h.0,
        insert_by-IsSorted x ys h.1,
      )
      | inr f ↦ rw f ((f, below-All x y ys f h.0), h)
    ]

    pub sort_by-IsSorted : (xs : List A) → IsSorted less (sort_by less xs)
    unfolding sort_by
    sort_by-IsSorted [] = tt
    sort_by-IsSorted (x ∷ xs) = insert_by-IsSorted x (sort_by less xs) (sort_by-IsSorted xs)

  less_by_asymm :
      (ks : List (A → String)) (a b : A) → less_by ks a b ≡ true → less_by ks b a ≡ false
  less_by_asymm [] a b h = refl
  less_by_asymm (k ∷ ks) a b h =
      ground (arith, eq_sym (k a) (k b), str_lt_asymm (k a) (k b), less_by_asymm ks a b)

  less_by_chain :
      (ks : List (A → String)) (a b c : A)
      → less_by ks b a ≡ false
      → less_by ks c b ≡ false
      → less_by ks c a ≡ false
  less_by_chain [] a b c p q = refl
  less_by_chain (k ∷ ks) a b c p q = ground (
    arith,
    less_by_chain ks a b c,
    eq_sym (k a) (k b),
    eq_sym (k b) (k c),
    eq_sym (k a) (k c),
    eq_iff (k a) (k b),
    eq_iff (k b) (k c),
    eq_iff (k a) (k c),
    str_lt_total (k b) (k a),
    str_lt_total (k c) (k b),
    str_lt_trans (k a) (k b) (k c),
    str_lt_asymm (k a) (k c),
    str_lt-ne (k a) (k c),
  )

  -- Comparing string fields one after the other is an order.
  pub less_by-Orders : (ks : List (A → String)) → Orders (less_by ks)
  less_by-Orders ks = record { asymm = less_by_asymm ks; chain = less_by_chain ks }

pub ltb-Orders : Orders ltb
ltb-Orders = record { asymm = λ a b h. ground arith; chain = λ a b c p q. ground arith }
