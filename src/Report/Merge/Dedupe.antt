-- ===== src/Report/Merge/Dedupe.antt =====
-- The deduplicating loops compute what their specification says.
use storage_cert_harness.Common.{
  ℕ, suc, String, ◌≡◌, refl, sym, ap, ◌∙◌, inl, inr, List, [], ◌∷◌, ◌++◌, map, Option, none, some,
  arith, if◌then◌else◌, Bool-cases, Option-cases, ◌==◌, eq_iff, length, set, lookup, insert,
  lookup-insert, less_by-Orders,
}
use storage_cert_harness.Core.{Verdict, Measurement, RunExecution}
use storage_cert_harness.Report.Keyed.{put, latest, KeepsLast, latest-KeepsLast}
use storage_cert_harness.Report.Merge.{
  dedupe_from, verdict_key, verdict_less, verdict_order, dedupe_verdicts, measurement_key,
  measurement_less, measurement_order, dedupe_measurements, execution_key, execution_less,
  execution_order, by_key, merge_executions,
}

abbrev bump : Option ℕ → Option ℕ
bump none = none
bump (some i) = some (suc i)

module _ {A : Type 0} (key : A → String) where
  abbrev position : String → List A → Option ℕ
  position k [] = none
  position k (x ∷ xs) = let rest = position k xs in if key x == k then some 0 else bump rest

  set-put :
      (v : A) (out : List A) (i : ℕ) → position (key v) out ≡ some i → set out i v ≡ put key v out
  unfolding put
  set-put v [] i h = cc
  set-put v (x ∷ xs) i h = elim (Option-cases (position (key v) xs)) [
    | inl n ↦ ground arith
    | inr (j, e) ↦ ground (arith, set-put v xs j e)
  ]

  append-put : (v : A) (out : List A) → position (key v) out ≡ none → out ++ v ∷ [] ≡ put key v out
  unfolding put
  append-put v [] h = refl
  append-put v (x ∷ xs) h = ground (arith, append-put v xs)

  position-put :
      (k : String) (v : A) (out : List A) (i : ℕ)
      → position (key v) out ≡ some i
      → position k (put key v out) ≡ position k out
  unfolding put
  position-put k v [] i h = cc
  position-put k v (x ∷ xs) i h = elim (Option-cases (position (key v) xs)) [
    | inl n ↦ ground (arith, eq_iff (key x) k, eq_iff (key v) k, eq_iff (key x) (key v))
    | inr (j, e) ↦
        ground (
          arith,
          position-put k v xs j e,
          eq_iff (key x) k,
          eq_iff (key v) k,
          eq_iff (key x) (key v),
        )
  ]

  position-put_new :
      (k : String) (v : A) (out : List A)
      → position (key v) out ≡ none
      → position k (put key v out) ≡ (if key v == k then some (length out) else position k out)
  unfolding put
  position-put_new k v [] h = refl
  position-put_new k v (x ∷ xs) h =
      ground
        (arith, position-put_new k v xs, eq_iff (key x) k, eq_iff (key v) k, eq_iff (key x) (key v))

  -- The index map is exact: it holds the position of each key, and nothing else.
  abbrev Indexes : List (String × ℕ) → List A → Type 0
  Indexes seen out = (k : String) → lookup k seen ≡ position k out

  dedupe_from-known :
      (seen : List (String × ℕ)) (out vs : List A) (v : A) (i : ℕ)
      → lookup (key v) seen ≡ some i
      → dedupe_from key seen out (v ∷ vs) ≡ dedupe_from key seen (set out i v) vs
  unfolding dedupe_from
  dedupe_from-known seen out vs v i e = ground (arith, e)

  dedupe_from-new :
      (seen : List (String × ℕ)) (out vs : List A) (v : A)
      → lookup (key v) seen ≡ none
      → dedupe_from key seen out (v ∷ vs)
        ≡ dedupe_from key (insert (key v) (length out) seen) (out ++ v ∷ []) vs
  unfolding dedupe_from
  dedupe_from-new seen out vs v e = ground (arith, e)

  latest-cons : (v : A) (out vs : List A) → latest key out (v ∷ vs) ≡ latest key (put key v out) vs
  unfolding latest
  latest-cons v out vs = refl

  -- The loop with its index map computes the reference function.
  dedupe_from-latest :
      (seen : List (String × ℕ)) (out vs : List A)
      → Indexes seen out
      → dedupe_from key seen out vs ≡ latest key out vs
  dedupe_from-latest seen out [] h = unfold dedupe_from latest in refl
  dedupe_from-latest seen out (v ∷ vs) h = elim (Option-cases (position (key v) out)) [
    | inl n ↦
        dedupe_from-new seen out vs v (h (key v) ∙ n)
        ∙ ap (λ o. dedupe_from key (insert (key v) (length out) seen) o vs) (append-put v out n)
        ∙ dedupe_from-latest (insert (key v) (length out) seen) (put key v out) vs (λ k.
          lookup-insert (key v) k (length out) seen
          ∙ ap (λ (o : Option ℕ). if key v == k then some (length out) else o) (h k)
          ∙ sym (position-put_new k v out n))
        ∙ sym (latest-cons v out vs)
    | inr (i, e) ↦
        dedupe_from-known seen out vs v i (h (key v) ∙ e)
        ∙ ap (λ o. dedupe_from key seen o vs) (set-put v out i e)
        ∙ dedupe_from-latest seen (put key v out) vs (λ k. h k ∙ sym (position-put k v out i e))
        ∙ sym (latest-cons v out vs)
  ]

-- Deduplicated verdicts have distinct keys, stand in the order of test requirement, variant, scenario
-- and item, and are exactly the last verdicts given for their keys.
pub dedupe_verdicts-KeepsLast :
    (vs : List Verdict) → KeepsLast verdict_key verdict_less vs (dedupe_verdicts vs)
unfolding dedupe_verdicts
dedupe_verdicts-KeepsLast vs =
    rw (dedupe_from-latest verdict_key [] [] vs (λ k. refl))
      (latest-KeepsLast verdict_key (less_by-Orders verdict_order) vs)

-- The same of measurements, whose key has the metric's name and percentile in place of the item.
pub dedupe_measurements-KeepsLast :
    (ms : List Measurement) → KeepsLast measurement_key measurement_less ms (dedupe_measurements ms)
unfolding dedupe_measurements
dedupe_measurements-KeepsLast ms =
    rw (dedupe_from-latest measurement_key [] [] ms (λ k. refl))
      (latest-KeepsLast measurement_key (less_by-Orders measurement_order) ms)

abbrev values : List (String × RunExecution) → List RunExecution
values = map (λ b. b.1)

-- Each value stands under its own key.
abbrev Keyed : List (String × RunExecution) → Type 0
Keyed [] = Unit
Keyed ((k, e) ∷ m) = (k ≡ execution_key e) × Keyed m

values-insert :
    (e : RunExecution) (m : List (String × RunExecution))
    → Keyed m
    → (values (insert (execution_key e) e m) ≡ put execution_key e (values m))
      × Keyed (insert (execution_key e) e m)
unfolding put insert
values-insert e [] h = (refl, (refl, tt))
values-insert e ((k, d) ∷ m) h = elim (Bool-cases (execution_key d == execution_key e)) [
  | inl t ↦ rw (h.0, t) (refl, (refl, h.1))
  | inr f ↦
      let (same, keyed) = values-insert e m h.1 in rw (h.0, f) (ap (λ l. d ∷ l) same, (refl, keyed))
]

by_key-latest :
    (m : List (String × RunExecution)) (es : List RunExecution)
    → Keyed m
    → values (by_key m es) ≡ latest execution_key (values m) es
unfolding by_key latest
by_key-latest m [] h = refl
by_key-latest m (e ∷ es) h =
    let (same, keyed) = values-insert e m h in
    by_key-latest (insert (execution_key e) e m) es keyed ∙ ap (λ l. latest execution_key l es) same

-- Merged executions have distinct keys, stand in the order of test requirement, variant and scenario,
-- and are exactly the last executions given for their keys: the later report's where it has one.
pub merge_executions-KeepsLast :
    (base next : List RunExecution)
    → KeepsLast execution_key execution_less (base ++ next) (merge_executions base next)
unfolding merge_executions
merge_executions-KeepsLast base next =
    rw (by_key-latest [] (base ++ next) tt)
      (latest-KeepsLast execution_key (less_by-Orders execution_order) (base ++ next))
