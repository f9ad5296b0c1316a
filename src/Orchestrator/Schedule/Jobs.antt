-- ===== src/Orchestrator/Schedule/Jobs.antt =====
-- Which jobs never execute at once.
use storage_cert_harness.Common.{
  ℕ, String, ◌≡◌, refl, ◌∙◌, Bool, true, false, ◌&&◌, ◌||◌, not, List, [], ◌∷◌, ◌++◌, map, arith,
  eq_iff, All, All-append, Pairs,
}
use storage_cert_harness.Report.Merge.{member}
use storage_cert_harness.Orchestrator.Schedule.{Job, Phase, Thread, at, Move, Step, Reach}
use storage_cert_harness.Orchestrator.Schedule.Exclusion.{
  shares, Apart, shares_sym, Reach-IsSafe, All-split,
}

-- The goroutine executes its job.
abbrev pub executes : Thread → Bool
executes t = elim t.phase [ Phase.alone ↦ true | Phase.running held ↦ true | _ ↦ false ]

-- Two jobs must not overlap: one of them is not parallel-safe, or they share a group.
abbrev pub must_alternate : Job → Job → Bool
must_alternate a b = not a.parallel_safe || (not b.parallel_safe || shares a.groups b.groups)

-- What a goroutine's phase says of its job: the groups held and still to do are the job's.
abbrev Fits : Thread → Type 0
Fits t = elim t.phase [
  | Phase.waiting ↦ Unit
  | Phase.done ↦ Unit
  | Phase.alone ↦ t.job.parallel_safe ≡ false
  | Phase.admitted ↦ t.job.parallel_safe ≡ true
  | Phase.leaving ↦ t.job.parallel_safe ≡ true
  | Phase.unlocking held ↦ t.job.parallel_safe ≡ true
  | Phase.locking held todo ↦
      (t.job.parallel_safe ≡ true)
      × ((g : String) → (member g held || member g todo) ≡ member g t.job.groups)
  | Phase.running held ↦
      (t.job.parallel_safe ≡ true) × ((g : String) → member g held ≡ member g t.job.groups)
]

Move-Fits : {c : ℕ} (others : List Thread) {t u : Thread} → Move c others t u → Fits t → Fits u
Move-Fits others (Move.take_slot j safe free) h = safe
Move-Fits others (Move.lock_read j clear) h = (h, λ g. refl)
Move-Fits others (Move.lock_group j g held todo free own) (safe, h) =
    (safe, λ k. ground (arith, h k, eq_iff g k))
Move-Fits others (Move.begin j held) (safe, h) = (safe, λ g. ground (arith, h g))
Move-Fits others (Move.finish j held) (safe, h) = safe
Move-Fits others (Move.unlock_group j g held) h = h
Move-Fits others (Move.unlock_read j) h = h
Move-Fits others (Move.release_slot j) h = tt
Move-Fits others (Move.lock_write j unsafe clear) h = unsafe
Move-Fits others (Move.unlock_write j) h = tt

spawned-Fits : (jobs : List Job) → All Fits (map (λ j. at j Phase.waiting) jobs)
spawned-Fits [] = tt
spawned-Fits (j ∷ jobs) = (tt, spawned-Fits jobs)

Reach-Fits : {c : ℕ} (jobs : List Job) {s : List Thread} → Reach c jobs s → All Fits s
Reach-Fits jobs Reach.spawned = spawned-Fits jobs
Reach-Fits jobs (Reach.next r (Step.move before after m)) =
    let (front, (h, back)) = All-split Fits before (_ ∷ after) (Reach-Fits jobs r) in
    All-append Fits before (_ ∷ after) front (Move-Fits (before ++ after) m h, back)

-- Lists with the same members share the same.
shares_same :
    (xs ys zs : List String)
    → ((g : String) → member g ys ≡ member g zs)
    → shares xs ys ≡ shares xs zs
shares_same [] ys zs h = refl
shares_same (x ∷ xs) ys zs h = λ i. h x i || shares_same xs ys zs h i

shares_both :
    (xs xs' ys ys' : List String)
    → ((g : String) → member g xs ≡ member g xs')
    → ((g : String) → member g ys ≡ member g ys')
    → shares xs ys ≡ shares xs' ys'
shares_both xs xs' ys ys' h k =
    shares_same xs ys ys' k ∙ shares_sym xs ys' ∙ shares_same ys' xs xs' h ∙ shares_sym ys' xs'

-- Two goroutines execute jobs that must not overlap.
abbrev pub overlaps : Thread → Thread → Bool
overlaps a b = executes a && (executes b && must_alternate a.job b.job)

Apart-alternate :
    (j k : Job) (p q : Phase)
    → Fits (at j p)
    → Fits (at k q)
    → Apart (at j p) (at k q)
    → overlaps (at j p) (at k q) ≡ false
Apart-alternate j k (Phase.running held) (Phase.running kept) (safe, f) (also, g) h =
    ground (arith, safe, also, h, shares_both held j.groups kept k.groups f g)
Apart-alternate j k (Phase.running held) Phase.alone f g h = absurd (ground (arith, h))
Apart-alternate j k (Phase.running held) _ f g h = refl
Apart-alternate j k Phase.alone (Phase.running kept) f g h = absurd (ground (arith, h))
Apart-alternate j k Phase.alone Phase.alone f g h = absurd (ground (arith, h))
Apart-alternate j k Phase.alone _ f g h = refl
Apart-alternate j k _ q f g h = refl

All-alternate :
    (a : Thread) (s : List Thread)
    → Fits a
    → All Fits s
    → All (Apart a) s
    → All (λ b. overlaps a b ≡ false) s
All-alternate a [] f fs h = tt
All-alternate a (b ∷ s) f (g, fs) (h, hs) =
    (Apart-alternate a.job b.job a.phase b.phase f g h, All-alternate a s f fs hs)

Pairs-alternate :
    (s : List Thread) → All Fits s → Pairs Apart s → Pairs (λ a b. overlaps a b ≡ false) s
Pairs-alternate [] fs h = tt
Pairs-alternate (a ∷ s) (f, fs) (h, hs) = (All-alternate a s f fs h, Pairs-alternate s fs hs)

-- Whatever order the goroutines take their steps in, no two jobs execute at once if one of them is not
-- parallel-safe or both name one exclusivity group.
pub Reach-alternates :
    (concurrency : ℕ) (jobs : List Job) {s : List Thread}
    → Reach concurrency jobs s
    → Pairs (λ a b. overlaps a b ≡ false) s
Reach-alternates concurrency jobs {s} r =
    Pairs-alternate s (Reach-Fits jobs r) (Reach-IsSafe concurrency jobs r).0
