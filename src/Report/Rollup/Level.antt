-- ===== src/Report/Rollup/Level.antt =====
-- Which levels a rollup lists, and with which outcome, said of the verdicts alone.
use mathlib.Core.List.Memᴰ
use mathlib.Core.List.{Memᴰ}
use storage_cert_harness.Common.{
  ℕ, ◌<◌, ◌≡◌, refl, sym, ap, ◌∙◌, ◌≢◌, inl, inr, Bool, true, false, not, ◌&&◌, ◌||◌, List, [], ◌∷◌,
  map, arith, eqb, eqb_iff, ltb, if◌then◌else◌, Bool-cases, any, All, All-of_mem, sort_by,
  sort_by-IsSorted, sort_by-Pairs, sort_by-mem, mem-sort_by, IsSorted, Pairs, ltb-Orders, is_empty,
}
use storage_cert_harness.Core.{Outcome, is_failure, is_pass, Verdict, LevelRollup}
use storage_cert_harness.Report.Rollup.{
  Acc, mark, update, tally, acc_at, outcome_of, climb, rollup, levels_of, rollup_levels,
}

abbrev pub at_level : ℕ → Verdict → Bool
at_level l v = eqb v.level l

-- Some verdict of the level passes; some fails or is an error.
abbrev pub has_pass : ℕ → List Verdict → Bool
has_pass l = any (λ v. at_level l v && is_pass v.outcome)

abbrev pub has_failure : ℕ → List Verdict → Bool
has_failure l = any (λ v. at_level l v && is_failure v.outcome)

-- Fail if any verdict of the level fails or is an error, else pass if any passes, else skip.
abbrev pub level_outcome : ℕ → List Verdict → Outcome
level_outcome l vs =
    if has_failure l vs then Outcome.fail else if has_pass l vs then Outcome.pass else Outcome.skip

acc_at-update :
    (l k : ℕ) (o : Outcome) (per : List (ℕ × Acc))
    → acc_at l (update k o per) ≡ (if eqb k l then mark o (acc_at l per) else acc_at l per)
unfolding acc_at update
acc_at-update l k o [] = refl
acc_at-update l k o ((j, a) ∷ per) = ground (arith, acc_at-update l k o per)

mark_pass : (o : Outcome) (a : Acc) → (mark o a).pass ≡ (a.pass || is_pass o)
unfolding mark
mark_pass Outcome.pass a = ground arith
mark_pass _ a = ground arith

mark_fail : (o : Outcome) (a : Acc) → (mark o a).fail_err ≡ (a.fail_err || is_failure o)
unfolding mark
mark_fail Outcome.pass a = ground arith
mark_fail _ a = ground arith

tally_pass :
    (l : ℕ) (per : List (ℕ × Acc)) (vs : List Verdict)
    → l ≢ 0
    → (acc_at l (tally per vs)).pass ≡ ((acc_at l per).pass || has_pass l vs)
unfolding tally
tally_pass l per [] h = ground arith
tally_pass l per (v ∷ vs) h = elim (Bool-cases (eqb v.level 0)) [
  | inl z ↦ rw z (tally_pass l per vs h ∙ ground arith)
  | inr n ↦ rw n (
      tally_pass l (update v.level v.outcome per) vs h
      ∙ ground (arith, acc_at-update l v.level v.outcome per, mark_pass v.outcome (acc_at l per)))
]

tally_fail :
    (l : ℕ) (per : List (ℕ × Acc)) (vs : List Verdict)
    → l ≢ 0
    → (acc_at l (tally per vs)).fail_err ≡ ((acc_at l per).fail_err || has_failure l vs)
unfolding tally
tally_fail l per [] h = ground arith
tally_fail l per (v ∷ vs) h = elim (Bool-cases (eqb v.level 0)) [
  | inl z ↦ rw z (tally_fail l per vs h ∙ ground arith)
  | inr n ↦ rw n (
      tally_fail l (update v.level v.outcome per) vs h
      ∙ ground (arith, acc_at-update l v.level v.outcome per, mark_fail v.outcome (acc_at l per)))
]

-- The accumulated outcome of a level is the one said of the verdicts.
pub outcome_of-tally :
    (l : ℕ) (vs : List Verdict) → l ≢ 0 → outcome_of (acc_at l (tally [] vs)) ≡ level_outcome l vs
unfolding outcome_of acc_at
outcome_of-tally l vs h = ground (arith, tally_pass l [] vs h, tally_fail l [] vs h)

abbrev keys : List (ℕ × Acc) → List ℕ
keys = map (λ e. e.0)

abbrev listed : ℕ → List (ℕ × Acc) → Bool
listed l = any (λ e. eqb e.0 l)

listed-update :
    (l k : ℕ) (o : Outcome) (per : List (ℕ × Acc))
    → listed l (update k o per) ≡ (eqb k l || listed l per)
unfolding update
listed-update l k o [] = refl
listed-update l k o ((j, a) ∷ per) = ground (arith, listed-update l k o per)

listed-tally :
    (l : ℕ) (per : List (ℕ × Acc)) (vs : List Verdict)
    → listed l (tally per vs) ≡ (listed l per || any (λ v. at_level l v && not (eqb l 0)) vs)
unfolding tally
listed-tally l per [] = ground arith
listed-tally l per (v ∷ vs) = elim (Bool-cases (eqb v.level 0)) [
  | inl z ↦ rw z (listed-tally l per vs ∙ ground arith)
  | inr n ↦ rw n (
      listed-tally l (update v.level v.outcome per) vs
      ∙ ground (arith, listed-update l v.level v.outcome per))
]

mem→listed : {l : ℕ} (per : List (ℕ × Acc)) → Memᴰ l (keys per) → listed l per ≡ true
mem→listed ((j, a) ∷ per) m = elim (Memᴰ.cases_cons m) [
  | inl e ↦ ground arith
  | inr n ↦ ground (arith, mem→listed per n)
]
mem→listed [] m = absurd (Memᴰ.not-nil m)

listed→mem : (l : ℕ) (per : List (ℕ × Acc)) → listed l per ≡ true → Memᴰ l (keys per)
listed→mem l [] h = cc
listed→mem l ((j, a) ∷ per) h = elim (Bool-cases (eqb j l)) [
  | inl e ↦ Memᴰ.head (sym ((eqb_iff j l).0 e))
  | inr n ↦ Memᴰ.tail (listed→mem l per (rw n at h))
]

others-update :
    (j k : ℕ) (o : Outcome) (per : List (ℕ × Acc))
    → j ≢ k
    → All (λ y. j ≢ y) (keys per)
    → All (λ y. j ≢ y) (keys (update k o per))
unfolding update
others-update j k o [] h a = (h, tt)
others-update j k o ((i, b) ∷ per) h a = elim (Bool-cases (eqb i k)) [
  | inl e ↦ rw e a
  | inr n ↦ rw n (a.0, others-update j k o per h a.1)
]

update-distinct :
    (k : ℕ) (o : Outcome) (per : List (ℕ × Acc))
    → Pairs (λ x y. x ≢ y) (keys per)
    → Pairs (λ x y. x ≢ y) (keys (update k o per))
unfolding update
update-distinct k o [] p = (tt, tt)
update-distinct k o ((i, b) ∷ per) p = elim (Bool-cases (eqb i k)) [
  | inl e ↦ rw e p
  | inr n ↦ rw n (others-update i k o per (ground arith) p.0, update-distinct k o per p.1)
]

tally-distinct :
    (per : List (ℕ × Acc)) (vs : List Verdict)
    → Pairs (λ x y. x ≢ y) (keys per)
    → Pairs (λ x y. x ≢ y) (keys (tally per vs))
unfolding tally
tally-distinct per [] p = p
tally-distinct per (v ∷ vs) p = elim (Bool-cases (eqb v.level 0)) [
  | inl z ↦ rw z (tally-distinct per vs p)
  | inr n ↦
      rw n
        (tally-distinct (update v.level v.outcome per) vs (update-distinct v.level v.outcome per p))
]

strict : (xs : List ℕ) → IsSorted ltb xs → Pairs (λ x y. x ≢ y) xs → Pairs (λ x y. x < y) xs
strict [] s p = tt
strict (x ∷ xs) s p = (below xs s.0 p.0, strict xs s.1 p.1)
  where
    below :
        (ys : List ℕ) → All (λ y. ltb y x ≡ false) ys → All (λ y. x ≢ y) ys → All (λ y. x < y) ys
    below [] a b = tt
    below (y ∷ ys) a b = (ground (arith, a.0, b.0), below ys a.1 b.1)

-- The tested levels are walked in strictly increasing order.
pub levels_of-strict : (vs : List Verdict) → Pairs (λ x y. x < y) (levels_of (tally [] vs))
levels_of-strict vs =
    strict (levels_of (tally [] vs)) (sort_by-IsSorted ltb-Orders (keys (tally [] vs)))
      (sort_by-Pairs (λ a b h e. h (sym e)) ltb (keys (tally [] vs)) (tally-distinct [] vs tt))

abbrev pub is_tested : ℕ → List Verdict → Bool
is_tested l = any (λ v. at_level l v && not (eqb l 0))

pub mem-levels_of :
    (l : ℕ) (vs : List Verdict) → is_tested l vs ≡ true → Memᴰ l (levels_of (tally [] vs))
mem-levels_of l vs h =
    mem-sort_by ltb (keys (tally [] vs)) (listed→mem l (tally [] vs) (listed-tally l [] vs ∙ h))

pub levels_of-mem :
    {l : ℕ} (vs : List Verdict) → Memᴰ l (levels_of (tally [] vs)) → is_tested l vs ≡ true
levels_of-mem {l} vs m =
    sym (listed-tally l [] vs) ∙ mem→listed (tally [] vs) (sort_by-mem ltb (keys (tally [] vs)) m)

rollup_levels_by :
    (per : List (ℕ × Acc))
    → ◌≡◌ {A = List LevelRollup × ℕ}
        (if is_empty per
          then ([], 0)
          else (map (rollup per) (levels_of per), climb per 0 (levels_of per)))
        (map (rollup per) (levels_of per), climb per 0 (levels_of per))
unfolding sort_by climb
rollup_levels_by [] = refl
rollup_levels_by (e ∷ per) = refl

-- The early return for no tested level gives what the general case gives.
pub rollup_levels_lem :
    (vs : List Verdict)
    → let per = tally [] vs in
      rollup_levels vs ≡ (map (rollup per) (levels_of per), climb per 0 (levels_of per))
unfolding rollup_levels
rollup_levels_lem vs = rollup_levels_by (tally [] vs)

-- What a rollup of verdicts promises: strictly increasing levels, each of them tested and with the
-- outcome of its verdicts, and every tested level among them.
pub record RollsUp (vs : List Verdict) (rs : List LevelRollup) : Type 0 where
  pub increasing : Pairs (λ x y. x.level < y.level) rs
  pub sound : All (λ r. (is_tested r.level vs ≡ true) × (r.outcome ≡ level_outcome r.level vs)) rs
  pub listed_all : (l : ℕ) → is_tested l vs ≡ true → Memᴰ l (map (λ r. r.level) rs)

pub not-tested_zero : (vs : List Verdict) → is_tested 0 vs ≡ true → ⊥
not-tested_zero [] h = cc
not-tested_zero (v ∷ vs) h = ground (arith, not-tested_zero vs)

module _ (per : List (ℕ × Acc)) where
  map-increasing :
      (ls : List ℕ)
      → Pairs (λ x y. x < y) ls
      → Pairs (λ x y. x.level < y.level) (map (rollup per) ls)
  unfolding rollup
  map-increasing [] p = tt
  map-increasing (l ∷ ls) p = (later ls p.0, map-increasing ls p.1)
    where
      later : (ks : List ℕ) → All (λ y. l < y) ks → All (λ r. l < r.level) (map (rollup per) ks)
      later [] a = tt
      later (k ∷ ks) a = (a.0, later ks a.1)

  map-level : (ls : List ℕ) → map (λ r. r.level) (map (rollup per) ls) ≡ ls
  unfolding rollup
  map-level [] = refl
  map-level (l ∷ ls) = ap (λ ks. l ∷ ks) (map-level ls)

map_sound :
    (vs : List Verdict) (ls : List ℕ)
    → All (λ l. is_tested l vs ≡ true) ls
    → All
        (λ r. (is_tested r.level vs ≡ true) × (r.outcome ≡ level_outcome r.level vs))
        (map (rollup (tally [] vs)) ls)
unfolding rollup
map_sound vs [] h = tt
map_sound vs (l ∷ ls) h =
    ((h.0, outcome_of-tally l vs (λ z. not-tested_zero vs (rw z at h.0))), map_sound vs ls h.1)

-- The rollup of any verdicts lists exactly the tested levels, each once, in increasing order, with
-- fail if any verdict of the level fails or is an error, else pass if any passes, else skip.
pub rollup_levels-RollsUp : (vs : List Verdict) → RollsUp vs (rollup_levels vs).0
rollup_levels-RollsUp vs = rw (rollup_levels_lem vs) (record {
  increasing = map-increasing (tally [] vs) (levels_of (tally [] vs)) (levels_of-strict vs);
  sound = map_sound vs (levels_of (tally [] vs)) (
      All-of_mem (λ l. is_tested l vs ≡ true) (levels_of (tally [] vs))
        (λ a m. levels_of-mem vs m));
  listed_all = λ l h. rw (map-level (tally [] vs) (levels_of (tally [] vs))) (mem-levels_of l vs h);
})
