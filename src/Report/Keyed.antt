-- ===== src/Report/Keyed.antt =====
-- The specification of the merges of internal/report: of the items with one key the last is kept. The
-- reference function replaces in place or appends.

use mathlib.Core.List.{Memᴰ}
use storage_cert_harness.Common.{
  String, ◌≡◌, refl, sym, ◌∙◌, ◌↔◌, inl, inr, Bool, false, List, [], ◌∷◌, ◌++◌, Option, none, some,
  is_some, arith, if◌then◌else◌, Bool-cases, All, All-mem, Pairs, IsSorted, ◌==◌, eq_iff, eq_refl,
  eq_sym, or_else, sort_by, sort_by-IsSorted, sort_by-Pairs, sort_by-mem, mem-sort_by, Orders,
}

module _ {A : Type 0} (key : A → String) where
  -- The first item with a key, and the last one.
  abbrev pub find : String → List A → Option A
  find k [] = none
  find k (x ∷ xs) = let rest = find k xs in if key x == k then some x else rest

  abbrev pub last_with : String → List A → Option A
  last_with k [] = none
  last_with k (x ∷ xs) = or_else (last_with k xs) (if key x == k then some x else none)

  unfoldable pub put : A → List A → List A
  put x [] = x ∷ []
  put x (y ∷ ys) = let rest = put x ys in if key y == key x then x ∷ ys else y ∷ rest

  unfoldable pub latest : List A → List A → List A
  latest out [] = out
  latest out (x ∷ xs) = latest (put x out) xs

  abbrev pub Distinct : List A → Type 0
  Distinct = Pairs (λ a b. (key a == key b) ≡ false)

  pub find-put :
      (k : String) (x : A) (ys : List A)
      → find k (put x ys) ≡ (if key x == k then some x else find k ys)
  unfolding put
  find-put k x [] = refl
  find-put k x (y ∷ ys) =
      ground (arith, find-put k x ys, eq_iff (key x) k, eq_iff (key y) k, eq_iff (key y) (key x))

  pub append-put :
      (x : A) (ys : List A) → is_some (find (key x) ys) ≡ false → ys ++ x ∷ [] ≡ put x ys
  unfolding put
  append-put x [] h = refl
  append-put x (y ∷ ys) h = ground (arith, append-put x ys)

  find-latest :
      (k : String) (out xs : List A)
      → find k (latest out xs) ≡ or_else (last_with k xs) (find k out)
  unfolding latest
  find-latest k out [] = refl
  find-latest k out (x ∷ xs) = ground (arith, find-latest k (put x out) xs, find-put k x out)

  others-put :
      (z x : A) (ys : List A)
      → (key z == key x) ≡ false
      → All (λ y. (key z == key y) ≡ false) ys
      → All (λ y. (key z == key y) ≡ false) (put x ys)
  unfolding put
  others-put z x [] h a = (h, tt)
  others-put z x (y ∷ ys) h a = elim (Bool-cases (key y == key x)) [
    | inl t ↦ rw t (h, a.1)
    | inr f ↦ rw f (a.0, others-put z x ys h a.1)
  ]

  pub put-Distinct : (x : A) (ys : List A) → Distinct ys → Distinct (put x ys)
  unfolding put
  put-Distinct x [] d = (tt, tt)
  put-Distinct x (y ∷ ys) d = elim (Bool-cases (key y == key x)) [
    | inl t ↦ rw t (rw ((eq_iff (key y) (key x)).0 t) at d.0, d.1)
    | inr f ↦ rw f (others-put y x ys f d.0, put-Distinct x ys d.1)
  ]

  latest-Distinct : (out xs : List A) → Distinct out → Distinct (latest out xs)
  unfolding latest
  latest-Distinct out [] d = d
  latest-Distinct out (x ∷ xs) d = latest-Distinct (put x out) xs (put-Distinct x out d)

  pub mem→find : {x : A} {xs : List A} → Memᴰ x xs → Distinct xs → find (key x) xs ≡ some x
  mem→find (Memᴰ.head e) d = rw (← e) (rw (eq_refl _))
  mem→find {x} (Memᴰ.tail {x = y} m) d =
      rw (All-mem (λ z. (key y == key z) ≡ false) m d.0) (mem→find m d.1)

  pub find→mem : (k : String) {x : A} (xs : List A) → find k xs ≡ some x → Memᴰ x xs
  find→mem k [] h = cc
  find→mem k {x} (y ∷ ys) h = elim (Bool-cases (key y == k)) [
    | inl t ↦ Memᴰ.head (cc (rw t at h))
    | inr f ↦ Memᴰ.tail (find→mem k ys (rw f at h))
  ]

  -- What a merge promises: keys distinct, sorted, and holding exactly the last item of each key.
  pub record KeepsLast (less : A → A → Bool) (xs out : List A) : Type 0 where
    pub distinct : Distinct out
    pub sorted : IsSorted less out
    pub exact : (x : A) → Memᴰ x out ↔ (last_with (key x) xs ≡ some x)

  or_else-none : (o : Option A) → or_else o none ≡ o
  or_else-none none = refl
  or_else-none (some x) = refl

  -- The reference function keeps the last item of each key, once.
  pub latest_keeps :
      (xs : List A)
      → Distinct (latest [] xs)
        × ((x : A) → Memᴰ x (latest [] xs) ↔ (last_with (key x) xs ≡ some x))
  latest_keeps xs =
      let distinct = latest-Distinct [] xs tt in
      let found = λ (x : A). find-latest (key x) [] xs ∙ or_else-none (last_with (key x) xs) in
      (
        distinct,
        λ x. (
          λ m. sym (found x) ∙ mem→find m distinct,
          λ h. find→mem (key x) (latest [] xs) (found x ∙ h),
        ),
      )

  pub latest-append : (out xs ys : List A) → latest out (xs ++ ys) ≡ latest (latest out xs) ys
  unfolding latest
  latest-append out [] ys = refl
  latest-append out (x ∷ xs) ys = latest-append (put x out) xs ys

  -- The reference function, sorted, keeps the last item of each key.
  pub latest-KeepsLast :
      {less : A → A → Bool}
      → Orders less
      → (xs : List A) → KeepsLast less xs (sort_by less (latest [] xs))
  latest-KeepsLast {less} o xs =
      let (distinct, exact) = latest_keeps xs in
      record {
        distinct =
            sort_by-Pairs (λ a b h. sym (eq_sym (key a) (key b)) ∙ h) less (latest [] xs) distinct;
        sorted = sort_by-IsSorted o (latest [] xs);
        exact = λ x. (
          λ m. (exact x).0 (sort_by-mem less (latest [] xs) m),
          λ h. mem-sort_by less (latest [] xs) ((exact x).1 h),
        );
      }
