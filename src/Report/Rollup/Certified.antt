-- ===== src/Report/Rollup/Certified.antt =====
-- What the certified level means, said of the verdicts alone.
use mathlib.Core.List.Memᴰ
use mathlib.Core.List.{Memᴰ}
use storage_cert_harness.Common.{
  ℕ, zero, suc, ◌≤◌, ◌<◌, ◌≡◌, refl, sym, ◌∙◌, ◌⊎◌, inl, inr, true, List, [], ◌∷◌, arith, All,
  All-mem, All-of_mem, Pairs,
}
use storage_cert_harness.Core.{Outcome, Verdict}
use storage_cert_harness.Report.Rollup.{
  Acc, tally, acc_at, outcome_of, climb, levels_of, rollup_levels,
}
use storage_cert_harness.Report.Rollup.Level.{
  level_outcome, is_tested, outcome_of-tally, not-tested_zero, levels_of-strict, mem-levels_of,
  levels_of-mem, rollup_levels_lem,
}

-- The outcome that the walk sees at a level.
abbrev at : List (ℕ × Acc) → ℕ → Outcome
at per l = outcome_of (acc_at l per)

outcome_cases :
    (a : Acc)
    → (outcome_of a ≡ Outcome.pass) ⊎ (outcome_of a ≡ Outcome.fail) ⊎ (outcome_of a ≡ Outcome.skip)
unfolding outcome_of
outcome_cases a = ground arith

module _ (per : List (ℕ × Acc)) where
  climb-pass :
      (c l : ℕ) (ls : List ℕ) → at per l ≡ Outcome.pass → climb per c (l ∷ ls) ≡ climb per l ls
  unfolding climb
  climb-pass c l ls e = ground arith

  climb-fail : (c l : ℕ) (ls : List ℕ) → at per l ≡ Outcome.fail → climb per c (l ∷ ls) ≡ c
  unfolding climb
  climb-fail c l ls e = ground arith

  climb-skip :
      (c l : ℕ) (ls : List ℕ) → at per l ≡ Outcome.skip → climb per c (l ∷ ls) ≡ climb per c ls
  unfolding climb
  climb-skip c l ls e = ground arith

  -- The walk ends at its start or at a level that passes.
  climb_from :
      (c : ℕ) (ls : List ℕ)
      → (climb per c ls ≡ c) ⊎ (Memᴰ (climb per c ls) ls × (at per (climb per c ls) ≡ Outcome.pass))
  climb_from c [] = inl (unfold climb in refl)
  climb_from c (l ∷ ls) = elim (outcome_cases (acc_at l per)) [
    | inl p ↦ rw (climb-pass c l ls p) (
        inr (elim (climb_from l ls) [
          | inl e ↦ (Memᴰ.head e, rw e p)
          | inr (m, q) ↦ (Memᴰ.tail m, q)
        ]))
    | inr (inl f) ↦ inl (climb-fail c l ls f)
    | inr (inr s) ↦
        rw (climb-skip c l ls s)
          (elim (climb_from c ls) [ inl e ↦ inl e | inr (m, q) ↦ inr (Memᴰ.tail m, q) ])
  ]

  -- The result does not pass what lies above all walked levels.
  climb-lt : (c b : ℕ) (ls : List ℕ) → c < b → All (λ l. l < b) ls → climb per c ls < b
  climb-lt c b ls h a = elim (climb_from c ls) [
    | inl e ↦ rw e h
    | inr (m, q) ↦ All-mem (λ l. l < b) m a
  ]

  -- Above the start and in increasing order: no failing level is at or below the result.
  climb-below_failures :
      (c : ℕ) (ls : List ℕ)
      → All (λ l. c < l) ls
      → Pairs (λ x y. x < y) ls
      → (l : ℕ) → Memᴰ l ls
      → at per l ≡ Outcome.fail
      → climb per c ls < l
  climb-below_failures c [] a p l m f = absurd (Memᴰ.not-nil m)
  climb-below_failures c (k ∷ ls) a p l m f = elim (outcome_cases (acc_at k per)) [
    | inl q ↦ elim (Memᴰ.cases_cons m) [
      | inl e ↦ absurd (cc)
      | inr n ↦ rw (climb-pass c k ls q) (climb-below_failures k ls p.0 p.1 l n f)
    ]
    | inr (inl q) ↦ rw (climb-fail c k ls q) (All-mem (λ l. c < l) m a)
    | inr (inr q) ↦ elim (Memᴰ.cases_cons m) [
      | inl e ↦ absurd (cc)
      | inr n ↦ rw (climb-skip c k ls q) (climb-below_failures c ls a.1 p.1 l n f)
    ]
  ]

  climb-ge : (c : ℕ) (ls : List ℕ) → All (λ l. c < l) ls → c ≤ climb per c ls
  climb-ge c ls a = elim (climb_from c ls) [
    | inl e ↦ rw e (omega arith)
    | inr (m, q) ↦ let h : c < climb per c ls = All-mem (λ l. c < l) m a in omega arith
  ]

  -- A passing level with no failing level at or below it is reached.
  climb_reaches :
      (c : ℕ) (ls : List ℕ)
      → Pairs (λ x y. x < y) ls
      → (l : ℕ) → Memᴰ l ls
      → at per l ≡ Outcome.pass
      → ((k : ℕ) → Memᴰ k ls → at per k ≡ Outcome.fail → l < k)
      → l ≤ climb per c ls
  climb_reaches c [] p l m q h = absurd (Memᴰ.not-nil m)
  climb_reaches c (k ∷ ls) p l m q h = elim (outcome_cases (acc_at k per)) [
    | inl t ↦ rw (climb-pass c k ls t) (elim (Memᴰ.cases_cons m) [
      | inl e ↦ rw e (climb-ge k ls p.0)
      | inr n ↦ climb_reaches k ls p.1 l n q (λ j j_in. h j (Memᴰ.tail j_in))
    ])
    | inr (inl t) ↦
        let above : l < k = h k (Memᴰ.head refl) t in
        elim (Memᴰ.cases_cons m) [
          | inl e ↦ absurd (omega arith)
          | inr n ↦ let beyond : k < l = All-mem (λ y. k < y) n p.0 in absurd (omega arith)
        ]
    | inr (inr t) ↦ elim (Memᴰ.cases_cons m) [
      | inl e ↦ absurd (cc)
      | inr n ↦
          rw (climb-skip c k ls t) (climb_reaches c ls p.1 l n q (λ j j_in. h j (Memᴰ.tail j_in)))
    ]
  ]

-- What it means for a level to be the certified one.
pub record Certifies (vs : List Verdict) (c : ℕ) : Type 0 where
  pub earned : (c ≡ 0) ⊎ ((is_tested c vs ≡ true) × (level_outcome c vs ≡ Outcome.pass))
  pub unfailed : (l : ℕ) → is_tested l vs ≡ true → level_outcome l vs ≡ Outcome.fail → c < l
  pub highest :
      (l : ℕ)
      → is_tested l vs ≡ true
      → level_outcome l vs ≡ Outcome.pass
      → ((k : ℕ) → is_tested k vs ≡ true → level_outcome k vs ≡ Outcome.fail → l < k)
      → l ≤ c

module _ (vs : List Verdict) where
  at-eq : (l : ℕ) → is_tested l vs ≡ true → at (tally [] vs) l ≡ level_outcome l vs
  at-eq l h = outcome_of-tally l vs (λ z. not-tested_zero vs (rw z at h))

  tested_pos : (l : ℕ) → is_tested l vs ≡ true → 0 < l
  tested_pos zero h = absurd (not-tested_zero vs h)
  tested_pos (suc l) h = omega arith

  -- The certified level is 0 or a tested level that passes; it lies below every tested level that
  -- fails; and no passing level with only higher failing levels lies above it.
  pub rollup_levels-Certifies : Certifies vs (rollup_levels vs).1
  rollup_levels-Certifies = rw (rollup_levels_lem vs) (record {
    earned = elim (climb_from (tally [] vs) 0 levels) [
      | inl e ↦ inl e
      | inr (m, q) ↦ let h = levels_of-mem vs m in inr (h, sym (at-eq _ h) ∙ q)
    ];
    unfailed = λ l h f.
        climb-below_failures (tally [] vs) 0 levels
          (All-of_mem (λ l. 0 < l) levels (λ l m. tested_pos l (levels_of-mem vs m)))
          (levels_of-strict vs) l (mem-levels_of l vs h) (at-eq l h ∙ f);
    highest = λ l h q above.
        climb_reaches (tally [] vs) 0 levels (levels_of-strict vs) l (mem-levels_of l vs h)
          (at-eq l h ∙ q) (λ k m f. let t = levels_of-mem vs m in above k t (sym (at-eq k t) ∙ f));
  })
    where
      levels : List ℕ
      levels = levels_of (tally [] vs)
