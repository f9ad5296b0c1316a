-- ===== src/Orchestrator/Schedule/Exclusion.antt =====
-- What never happens at once, in any interleaving of the jobs' goroutines.
use storage_cert_harness.Common.{
  ℕ, ◌≤◌, ◌+◌, String, ◌≡◌, refl, sym, Bool, false, ◌&&◌, ◌||◌, List, [], ◌∷◌, ◌++◌, map, arith,
  eq_sym, if◌then◌else◌, any, All, All-append, Pairs,
}
use storage_cert_harness.Report.Merge.{member}
use storage_cert_harness.Orchestrator.Schedule.{
  Job, Phase, Thread, is_reading, is_writing, has_slot, held_by, slots, limit, at, Move, Step,
  Reach,
}

abbrev pub shares : List String → List String → Bool
shares xs ys = any (λ x. member x ys) xs

-- Two goroutines exclude each other: one executes its job alone while the other executes a job or
-- holds the read lock, or both hold one exclusivity group.
abbrev pub conflict : Thread → Thread → Bool
conflict a b =
    (is_writing a && (is_writing b || is_reading b))
    || ((is_reading a && is_writing b) || shares (held_by a) (held_by b))

abbrev pub Apart : Thread → Thread → Type 0
Apart a b = conflict a b ≡ false

shares_none : (ys : List String) → shares ys [] ≡ false
shares_none [] = refl
shares_none (y ∷ ys) = shares_none ys

shares-cons :
    (ys : List String) (x : String) (xs : List String)
    → shares ys (x ∷ xs) ≡ (member x ys || shares ys xs)
shares-cons [] x xs = refl
shares-cons (y ∷ ys) x xs = ground (arith, shares-cons ys x xs, eq_sym x y)

pub shares_sym : (xs ys : List String) → shares xs ys ≡ shares ys xs
shares_sym [] ys = sym (shares_none ys)
shares_sym (x ∷ xs) ys = ground (arith, shares_sym xs ys, shares-cons ys x xs)

Apart-sym : (a b : Thread) → Apart a b → Apart b a
Apart-sym a b h = ground (arith, h, shares_sym (held_by a) (held_by b))

module _ {A : Type 0} where
  pub All-split : (P : A → Type 0) (xs ys : List A) → All P (xs ++ ys) → All P xs × All P ys
  All-split P [] ys h = (tt, h)
  All-split P (x ∷ xs) ys (p, h) = let (front, back) = All-split P xs ys h in ((p, front), back)

  All-zip :
      {P Q S : A → Type 0} (xs : List A)
      → ((a : A) → P a → Q a → S a)
      → All P xs
      → All Q xs
      → All S xs
  All-zip [] f p q = tt
  All-zip (x ∷ xs) f (p, ps) (q, qs) = (f x p q, All-zip xs f ps qs)

  module _ (R : A → A → Type 0) (swap : (a b : A) → R a b → R b a) where
    Pairs-others :
        (before : List A) (t : A) (after : List A)
        → Pairs R (before ++ t ∷ after)
        → All (R t) (before ++ after)
    Pairs-others [] t after (here, h) = here
    Pairs-others (b ∷ before) t after (here, h) =
        let (front, later) = All-split (R b) before (t ∷ after) here in
        (swap b t later.0, Pairs-others before t after h)

    Pairs-replace :
        (before : List A) (t u : A) (after : List A)
        → Pairs R (before ++ t ∷ after)
        → All (R u) (before ++ after)
        → Pairs R (before ++ u ∷ after)
    Pairs-replace [] t u after (here, h) new = (new, h)
    Pairs-replace (b ∷ before) t u after (here, h) (first, new) =
        let (front, later) = All-split (R b) before (t ∷ after) here in
        (
          All-append (R b) before (u ∷ after) front (swap u b first, later.1),
          Pairs-replace before t u after h new,
        )

All-map :
    {P S : Thread → Type 0} (xs : List Thread) → ((a : Thread) → P a → S a) → All P xs → All S xs
All-map xs f p = All-zip xs (λ a q r. f a q) p p

Move-Apart :
    {c : ℕ} (others : List Thread) {t u : Thread}
    → Move c others t u
    → All (Apart t) others
    → All (Apart u) others
Move-Apart others (Move.take_slot j safe free) h = All-map others (λ o p. ground (arith, p)) h
Move-Apart others (Move.lock_read j clear) h =
    All-zip others (λ o w p. ground (arith, w, p)) clear h
Move-Apart others (Move.lock_group j g held todo free own) h =
    All-zip others (λ o w p. ground (arith, w, p)) free h
Move-Apart others (Move.begin j held) h = All-map others (λ o p. ground (arith, p)) h
Move-Apart others (Move.finish j held) h = All-map others (λ o p. ground (arith, p)) h
Move-Apart others (Move.unlock_group j g held) h = All-map others (λ o p. ground (arith, p)) h
Move-Apart others (Move.unlock_read j) h = All-map others (λ o p. ground (arith, p)) h
Move-Apart others (Move.release_slot j) h = All-map others (λ o p. ground (arith, p)) h
Move-Apart others (Move.lock_write j unsafe clear) h =
    All-zip others (λ o w p. ground (arith, w.0, w.1, p)) clear h
Move-Apart others (Move.unlock_write j) h = All-map others (λ o p. ground (arith, p)) h

count-middle :
    (before : List Thread) (t : Thread) (after : List Thread)
    → slots (before ++ t ∷ after) ≡ slots (before ++ after) + (if has_slot t then 1 else 0)
count-middle [] t after = ground arith
count-middle (b ∷ before) t after = ground (arith, count-middle before t after)

abbrev slot_of : Thread → ℕ
slot_of t = if has_slot t then 1 else 0

Move-slots :
    {c : ℕ} (others : List Thread) {t u : Thread}
    → Move c others t u
    → slots others + slot_of t ≤ limit c
    → slots others + slot_of u ≤ limit c
Move-slots others (Move.take_slot j safe free) h = omega (arith, free)
Move-slots others (Move.lock_read j clear) h = h
Move-slots others (Move.lock_group j g held todo free own) h = h
Move-slots others (Move.begin j held) h = h
Move-slots others (Move.finish j held) h = h
Move-slots others (Move.unlock_group j g held) h = h
Move-slots others (Move.unlock_read j) h = h
Move-slots others (Move.release_slot j) h = omega (arith, h)
Move-slots others (Move.lock_write j unsafe clear) h = h
Move-slots others (Move.unlock_write j) h = h

-- The goroutines exclude each other where they must, and hold no more slots than there are.
abbrev pub IsSafe : ℕ → List Thread → Type 0
IsSafe c s = Pairs Apart s × (slots s ≤ limit c)

Step-IsSafe : {c : ℕ} {s s' : List Thread} → Step c s s' → IsSafe c s → IsSafe c s'
Step-IsSafe {c} (Step.move before after {t} {u} m) (apart, bound) =
    let others = Pairs-others Apart Apart-sym before t after apart in
    let kept = Move-slots (before ++ after) m (omega (arith, bound, count-middle before t after)) in
    (
      Pairs-replace Apart Apart-sym before t u after apart (Move-Apart (before ++ after) m others),
      omega (arith, kept, count-middle before u after),
    )

spawned-Apart :
    (j : Job) (jobs : List Job)
    → All (Apart (at j Phase.waiting)) (map (λ j. at j Phase.waiting) jobs)
spawned-Apart j [] = tt
spawned-Apart j (k ∷ jobs) = (refl, spawned-Apart j jobs)

spawned-IsSafe : (c : ℕ) (jobs : List Job) → IsSafe c (map (λ j. at j Phase.waiting) jobs)
spawned-IsSafe c [] = (tt, ground arith)
spawned-IsSafe c (j ∷ jobs) =
    let (apart, bound) = spawned-IsSafe c jobs in ((spawned-Apart j jobs, apart), bound)

-- Whatever order the goroutines take their steps in: while a job that is not parallel-safe executes,
-- no other job executes or holds the read lock; no two goroutines hold one exclusivity group; and no
-- more than the concurrency, or one where it is below one, hold a slot.
pub Reach-IsSafe :
    (concurrency : ℕ) (jobs : List Job) {s : List Thread}
    → Reach concurrency jobs s
    → IsSafe concurrency s
Reach-IsSafe concurrency jobs Reach.spawned = spawned-IsSafe concurrency jobs
Reach-IsSafe concurrency jobs (Reach.next r step) =
    Step-IsSafe step (Reach-IsSafe concurrency jobs r)
