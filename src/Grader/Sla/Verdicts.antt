-- ===== src/Grader/Sla/Verdicts.antt =====
-- What a graded descriptor's verdict says.
use storage_cert_harness.Common.{
  String, ◌≡◌, refl, sym, ap, ◌∙◌, ◌↔◌, ◌⊎◌, inl, inr, Bool, true, false, List, [], ◌∷◌, ◌++◌, map,
  Option, none, some, arith, Bool-cases, if◌then◌else◌, All,
}
use mathlib.Core.List.{append-nil, append_assoc}
use storage_cert_harness.Core.{Float64, Outcome, Sla, Metric, TestRequirement, TestResult, Verdict}
use storage_cert_harness.Grader.Runtime.{Runtime}
use storage_cert_harness.Grader.Units.{compare_with_units}
use storage_cert_harness.Grader.Bars.{measures, find_metric, sla_item, select_bars}
use storage_cert_harness.Grader.Sla.{
  report_only, decide, grade_bar, grade_with, grade_sla, grade_from, grade_slas,
}

module _ (go : Runtime) (tr : TestRequirement) (res : TestResult) where
  -- The descriptor is compared: the tool measures it, exactly one bar is selected and has a value, the
  -- metric was measured, and the comparison gives `r`.
  pub record Compared (d : Sla) (r : Bool × Bool) : Type 0 where
    pub bar : Sla
    pub want : Float64
    pub metric : Metric
    pub measured : measures d.measured_by tr.automation_tool ≡ true
    pub selected : select_bars go tr.bars d.metric d.percentile tr.params ≡ bar ∷ []
    pub valued : bar.value ≡ some want
    pub found : find_metric res.metrics d.metric d.percentile ≡ some metric
    pub result : compare_with_units go metric.value metric.unit bar.operator want bar.unit ≡ r

  abbrev graded : Sla → List Sla → Option Metric → Outcome
  graded d bars m = (grade_with go tr d bars m).outcome

  abbrev answer : Bool → Outcome
  answer b = if b then Outcome.pass else Outcome.fail

  decide-answer :
      (d bar : Sla) (want : Float64) (m : Metric) (r : Bool × Bool) (b : Bool)
      → ((decide go tr d bar want m r).outcome ≡ answer b) ↔ (r ≡ (b, false))
  unfolding decide
  decide-answer d bar want m (true, true) b = ground arith
  decide-answer d bar want m (true, false) b = ground arith
  decide-answer d bar want m (false, true) b = ground arith
  decide-answer d bar want m (false, false) b = ground arith

  report_only_skip : (d : Sla) (m : Option Metric) → (report_only go tr d m).outcome ≡ Outcome.skip
  unfolding report_only
  report_only_skip d none = refl
  report_only_skip d (some m) = refl

  -- The parts of the body that give neither pass nor fail.
  unanswered :
      (b : Bool) (o : Outcome) → (o ≡ Outcome.skip) ⊎ (o ≡ Outcome.error) → o ≡ answer b → ⊥
  unanswered true o h e = ground arith
  unanswered false o h e = ground arith

  abbrev chosen : Sla → List Sla
  chosen d = select_bars go tr.bars d.metric d.percentile tr.params

  abbrev seen : Sla → Option Metric
  seen d = find_metric res.metrics d.metric d.percentile

  module _ (d : Sla) (measured : measures d.measured_by tr.automation_tool ≡ true) where
    grade_with-bar :
        (bar : Sla) (v : Option Float64) (m : Option Metric) (b : Bool)
        → bar.value ≡ v
        → chosen d ≡ bar ∷ []
        → seen d ≡ m
        → (grade_bar go tr d bar v m).outcome ≡ answer b
        → Compared d (b, false)
    unfolding grade_bar
    grade_with-bar bar none m b ev es em h = absurd (unanswered b _ (inl (report_only_skip d m)) h)
    grade_with-bar bar (some want) none b ev es em h = absurd (unanswered b _ (inr refl) h)
    grade_with-bar bar (some want) (some m) b ev es em h = record {
      bar = bar;
      want = want;
      metric = m;
      measured = measured;
      selected = es;
      valued = ev;
      found = em;
      result = (decide-answer d bar want m _ b).0 h;
    }

    grade_with-Compared :
        (bars : List Sla) (b : Bool)
        → chosen d ≡ bars
        → (grade_with go tr d bars (seen d)).outcome ≡ answer b
        → Compared d (b, false)
    unfolding grade_with
    grade_with-Compared [] b e h = absurd (unanswered b _ (inl (report_only_skip d (seen d))) h)
    grade_with-Compared (bar ∷ []) b e h = grade_with-bar bar bar.value (seen d) b refl e refl h
    grade_with-Compared (a ∷ c ∷ bars) b e h = absurd (unanswered b _ (inr refl) h)

  grade_sla-measured :
      (d : Sla)
      → measures d.measured_by tr.automation_tool ≡ true
      → grade_sla go tr res d ≡ grade_with go tr d (chosen d) (seen d)
  unfolding grade_sla
  grade_sla-measured d h = rw h

  grade_sla-unmeasured :
      (d : Sla)
      → measures d.measured_by tr.automation_tool ≡ false
      → (grade_sla go tr res d).outcome ≡ Outcome.skip
  unfolding grade_sla
  grade_sla-unmeasured d h = rw h

  grade_with-one :
      (d bar : Sla) (m : Option Metric)
      → grade_with go tr d (bar ∷ []) m ≡ grade_bar go tr d bar bar.value m
  unfolding grade_with
  grade_with-one d bar m = refl

  Compared-answer :
      (d : Sla) (b : Bool) → Compared d (b, false) → (grade_sla go tr res d).outcome ≡ answer b
  Compared-answer d b c =
      ap (λ v. v.outcome)
        (grade_sla-measured d c.measured
          ∙ (λ i. grade_with go tr d (c.selected i) (c.found i))
          ∙ grade_with-one d c.bar (some c.metric)
          ∙ (λ i. grade_bar go tr d c.bar (c.valued i) (some c.metric)))
      ∙ unfold grade_bar in (decide-answer d c.bar c.want c.metric _ b).1 c.result

  -- A descriptor's verdict is pass exactly if the descriptor is compared and the comparison passes, and
  -- fail exactly if it is compared and the comparison, between compatible units, does not pass. So a
  -- descriptor that the tool does not measure, with no bar, with several bars, with a bar without a
  -- value or with no metric never passes and never fails.
  pub grade_sla-answer_iff :
      (d : Sla)
      → (((grade_sla go tr res d).outcome ≡ Outcome.pass) ↔ Compared d (true, false))
        × (((grade_sla go tr res d).outcome ≡ Outcome.fail) ↔ Compared d (false, false))
  grade_sla-answer_iff d =
      ((answered true, Compared-answer d true), (answered false, Compared-answer d false))
    where
      answered : (b : Bool) → (grade_sla go tr res d).outcome ≡ answer b → Compared d (b, false)
      answered b h = elim (Bool-cases (measures d.measured_by tr.automation_tool)) [
        | inl t ↦
            grade_with-Compared d t (chosen d) b refl
              (sym (ap (λ v. v.outcome) (grade_sla-measured d t)) ∙ h)
        | inr f ↦ absurd (unanswered b _ (inl (grade_sla-unmeasured d f)) h)
      ]

  -- The identity of a verdict: its test requirement and its item.
  abbrev pub identity : Verdict → String × String
  identity v = (v.tr, v.item)

  module _ (d : Sla) where
    abbrev Named : Verdict → Type 0
    Named v = identity v ≡ (tr.id, sla_item d)

    report_only-Named : (m : Option Metric) → Named (report_only go tr d m)
    unfolding report_only
    report_only-Named none = refl
    report_only-Named (some m) = refl

    decide-Named :
        (bar : Sla) (want : Float64) (m : Metric) (r : Bool × Bool)
        → Named (decide go tr d bar want m r)
    unfolding decide
    decide-Named bar want m (pass, true) = refl
    decide-Named bar want m (pass, false) = refl

    grade_bar-Named :
        (bar : Sla) (v : Option Float64) (m : Option Metric) → Named (grade_bar go tr d bar v m)
    unfolding grade_bar
    grade_bar-Named bar none m = report_only-Named m
    grade_bar-Named bar (some want) none = refl
    grade_bar-Named bar (some want) (some m) = decide-Named bar want m _

    grade_with-Named : (bars : List Sla) (m : Option Metric) → Named (grade_with go tr d bars m)
    unfolding grade_with
    grade_with-Named [] m = report_only-Named m
    grade_with-Named (bar ∷ []) m = grade_bar-Named bar bar.value m
    grade_with-Named (a ∷ c ∷ bars) m = refl

    grade_sla-Named : Named (grade_sla go tr res d)
    unfolding grade_sla
    grade_sla-Named = elim (Bool-cases (measures d.measured_by tr.automation_tool)) [
      | inl t ↦ rw t (grade_with-Named (chosen d) (seen d))
      | inr f ↦ rw f
    ]

  grade_from-map :
      (out : List Verdict) (ds : List Sla)
      → grade_from go tr res out ds ≡ out ++ map (grade_sla go tr res) ds
  unfolding grade_from
  grade_from-map out [] = sym (append-nil out)
  grade_from-map out (d ∷ ds) =
      grade_from-map (out ++ grade_sla go tr res d ∷ []) ds
      ∙ append_assoc out (grade_sla go tr res d ∷ []) (map (grade_sla go tr res) ds)

  -- The loop grades each descriptor by itself.
  pub grade_slas-map : grade_slas go tr res ≡ map (grade_sla go tr res) tr.slas
  unfolding grade_slas
  grade_slas-map = grade_from-map [] tr.slas

  -- There is exactly one verdict for each descriptor, in the catalog's order, and each names the test
  -- requirement and the descriptor's metric.
  pub grade_slas-identity :
      map identity (grade_slas go tr res) ≡ map (λ d. (tr.id, sla_item d)) tr.slas
  grade_slas-identity = rw grade_slas-map (each tr.slas)
    where
      each :
          (ds : List Sla)
          → map identity (map (grade_sla go tr res) ds) ≡ map (λ d. (tr.id, sla_item d)) ds
      each [] = refl
      each (d ∷ ds) = λ i. grade_sla-Named d i ∷ each ds i

  grade_sla_owner : (ds : List Sla) → All (λ v. v.tr ≡ tr.id) (map (grade_sla go tr res) ds)
  grade_sla_owner [] = tt
  grade_sla_owner (d ∷ ds) = (ap (λ p. p.0) (grade_sla-Named d), grade_sla_owner ds)

  -- Each verdict names the test requirement.
  pub grade_slas_owner : All (λ v. v.tr ≡ tr.id) (grade_slas go tr res)
  grade_slas_owner = rw grade_slas-map (grade_sla_owner tr.slas)
