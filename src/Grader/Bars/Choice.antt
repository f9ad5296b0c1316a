-- ===== src/Grader/Bars/Choice.antt =====
-- Which bars and metrics the searches find.

use mathlib.Core.List.{Memᴰ}
use storage_cert_harness.Common.{
  String, ◌≡◌, refl, sym, ◌∙◌, ◌↔◌, ◌⊎◌, inl, inr, Bool, true, false, not, ◌&&◌, ◌||◌, List, [],
  ◌∷◌, Option, none, some, arith, Bool-cases, ◌==◌, eq_iff, if◌then◌else◌, lookup, All, keep,
  mem-keep, keep-mem,
}
use storage_cert_harness.Core.{AnyValue, Params, Sla, Metric}
use storage_cert_harness.Grader.Runtime.{Runtime}
use storage_cert_harness.Grader.Bars.{
  find_metric, param_equal, holds_param, when_subset, select_bars,
}

-- The scope of a bar is met: every parameter that it names has an equal value in the run.
abbrev pub Met : Runtime → Params → Params → Type 0
Met go when params =
    All (λ w. (pv : AnyValue) × (lookup w.0 params ≡ some pv) × (param_equal go w.1 pv ≡ true)) when

guard_iff : (b r : Bool) → ((if not b then false else r) ≡ true) ↔ ((b ≡ true) × (r ≡ true))
guard_iff b r = ground arith

module _ (go : Runtime) (params : Params) where
  holds_param_iff :
      (v : AnyValue) (o : Option AnyValue)
      → (holds_param go v o ≡ true)
        ↔ ((pv : AnyValue) × (o ≡ some pv) × (param_equal go v pv ≡ true))
  holds_param_iff v none = (λ h. cc, λ (pv, e, h). cc)
  holds_param_iff v (some p) = (λ h. (p, refl, h), λ (pv, e, h). cc)

  when_subset-cons :
      (k : String) (v : AnyValue) (when : Params)
      → when_subset go ((k, v) ∷ when) params
        ≡ (if not (holds_param go v (lookup k params)) then false else when_subset go when params)
  unfolding when_subset
  when_subset-cons k v when = refl

  when_subset_iff : (when : Params) → (when_subset go when params ≡ true) ↔ Met go when params
  when_subset_iff [] = (λ h. tt, λ h. unfold when_subset in refl)
  when_subset_iff ((k, v) ∷ when) =
      let here = holds_param_iff v (lookup k params) in
      let later = when_subset_iff when in
      let both = guard_iff (holds_param go v (lookup k params)) (when_subset go when params) in
      (
        λ h. let (b, r) = both.0 (sym (when_subset-cons k v when) ∙ h) in (here.0 b, later.0 r),
        λ h. when_subset-cons k v when ∙ both.1 (here.1 h.0, later.1 h.1),
      )

  abbrev wanted : String → String → Sla → Bool
  wanted metric percentile b =
      b.metric == metric && (b.percentile == percentile && when_subset go b.when params)

  select_bars-keep :
      (bars : List Sla) (metric percentile : String)
      → select_bars go bars metric percentile params ≡ keep (wanted metric percentile) bars
  unfolding select_bars
  select_bars-keep [] metric percentile = refl
  select_bars-keep (b ∷ bars) metric percentile =
      ground (arith, select_bars-keep bars metric percentile)

  -- A bar is selected exactly if it is one of the requirement's, has the descriptor's metric and
  -- percentile, and its scope is met by the run's parameters.
  pub mem-select_bars_iff :
      (bars : List Sla) (metric percentile : String) (b : Sla)
      → Memᴰ b (select_bars go bars metric percentile params)
        ↔ (Memᴰ b bars × (b.metric ≡ metric) × (b.percentile ≡ percentile) × Met go b.when params)
  mem-select_bars_iff bars metric percentile b =
      let met = when_subset_iff b.when in
      rw (select_bars-keep bars metric percentile) (
        λ m.
            let (old, t) = mem-keep (wanted metric percentile) bars m in
            (
              old,
              ground (arith, t, eq_iff b.metric metric),
              ground (arith, t, eq_iff b.percentile percentile),
              met.0 (ground (arith, t)),
            ),
        λ (m, same, at, scope).
            keep-mem (wanted metric percentile) m
              (ground (arith, met.1 scope, eq_iff b.metric metric, eq_iff b.percentile percentile)),
      )

-- A metric fits a descriptor: it has the name, and the percentile where the descriptor gives one.
abbrev pub Fits : String → String → Metric → Type 0
Fits name percentile m = (m.name ≡ name) × ((percentile ≡ "") ⊎ (m.percentile ≡ percentile))

abbrev fits : String → String → Metric → Bool
fits name percentile m = m.name == name && (percentile == "" || m.percentile == percentile)

fits_iff :
    (name percentile : String) (m : Metric)
    → (fits name percentile m ≡ true) ↔ Fits name percentile m
fits_iff name percentile m =
    ground (arith, eq_iff m.name name, eq_iff percentile "", eq_iff m.percentile percentile)

find_metric-cons :
    (x : Metric) (ms : List Metric) (name percentile : String)
    → find_metric (x ∷ ms) name percentile
      ≡ (if fits name percentile x then some x else find_metric ms name percentile)
unfolding find_metric
find_metric-cons x ms name percentile = ground arith

find_metric_lem :
    (ms : List Metric) (name percentile : String)
    → ((m : Metric) → find_metric ms name percentile ≡ some m → Memᴰ m ms × Fits name percentile m)
      × ((find_metric ms name percentile ≡ none) ↔ All (λ m. ¬ Fits name percentile m) ms)
find_metric_lem [] name percentile =
    unfold find_metric in (λ m h. absurd (ground arith), (λ h. tt, λ h. refl))
find_metric_lem (x ∷ ms) name percentile =
    let (found, absent) = find_metric_lem ms name percentile in
    let step = find_metric-cons x ms name percentile in
    elim (Bool-cases (fits name percentile x)) [
      | inl t ↦ (
        λ m h.
            let e : x ≡ m = ground (arith, step, h) in
            (Memᴰ.head (sym e), rw e at ((fits_iff name percentile x).0 t)),
        (
          λ h. absurd (ground (arith, step, h)),
          λ h. absurd (h.0 ((fits_iff name percentile x).0 t)),
        ),
      )
      | inr f ↦
          let skip : find_metric (x ∷ ms) name percentile ≡ find_metric ms name percentile =
            ground (arith, step) in
          (
            λ m h. let (old, fit) = found m (sym skip ∙ h) in (Memᴰ.tail old, fit),
            (
              λ h. (
                λ fit. absurd (cc ((fits_iff name percentile x).1 fit)),
                absent.0 (sym skip ∙ h),
              ),
              λ h. skip ∙ absent.1 h.1,
            ),
          )
    ]

-- A metric that is found is one of the measured ones and fits the descriptor.
pub find_metric-Fits :
    (ms : List Metric) (name percentile : String) (m : Metric)
    → find_metric ms name percentile ≡ some m
    → Memᴰ m ms × Fits name percentile m
find_metric-Fits ms name percentile = (find_metric_lem ms name percentile).0

-- No metric is found exactly if none of the measured ones fits the descriptor.
pub find_metric-none_iff :
    (ms : List Metric) (name percentile : String)
    → (find_metric ms name percentile ≡ none) ↔ All (λ m. ¬ Fits name percentile m) ms
find_metric-none_iff ms name percentile = (find_metric_lem ms name percentile).1
