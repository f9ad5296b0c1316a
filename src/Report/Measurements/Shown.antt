-- ===== src/Report/Measurements/Shown.antt =====
-- Which measurements a report shows.
use mathlib.Core.List.{append-nil, append_assoc}
use storage_cert_harness.Common.{
  String, ◌≡◌, refl, sym, ap, ◌∙◌, Bool, true, false, ◌&&◌, ◌||◌, List, [], ◌∷◌, ◌++◌, arith, ◌==◌,
  eq_iff, if◌then◌else◌, lookup, insert, lookup-insert, any, keep, Bool-cases, inl, inr, All,
}
use storage_cert_harness.Core.{Sla, TestRequirement, Measurement}
use storage_cert_harness.Report.Keyed.{Distinct}
use storage_cert_harness.Report.Measurements.{
  or_none, Wanted, selector_sla, add_selectors, label_of, add_tr, add_trs, names,
  label_of_measurement, flag_at, keep_named, select_measurements,
}

-- A descriptor names the measurement.
abbrev pub matches : Measurement → Sla → Bool
matches m d = names d.metric d.percentile m

abbrev given : String → Wanted → List Sla
given k w = or_none (lookup k w.selected)

keep_named_lem :
    (w : Wanted) (out ms : List Measurement)
    → (keep_named w out ms).0
      ≡ out ++ keep (λ m. any (matches m) (given (label_of_measurement m) w)) ms
unfolding keep_named
keep_named_lem w out [] = sym (append-nil out)
keep_named_lem w out (m ∷ ms) =
    let flagged : Wanted = record w { requested = flag_at m w.requested } in
    let named : Measurement → Bool = λ m. any (matches m) (given (label_of_measurement m) w) in
    elim (Bool-cases (named m)) [
      | inl t ↦ rw t (
          ground (arith, t)
          ∙ keep_named_lem flagged (out ++ m ∷ []) ms
          ∙ append_assoc out (m ∷ []) (keep named ms))
      | inr f ↦ rw f (ground (arith, f) ∙ keep_named_lem flagged out ms)
    ]

any-append : (p : Sla → Bool) (xs ys : List Sla) → any p (xs ++ ys) ≡ (any p xs || any p ys)
any-append p [] ys = refl
any-append p (x ∷ xs) ys = ground (arith, any-append p xs ys)

-- Some descriptor of an execution passes a test.
abbrev some_of : (Sla → Bool) → String → Wanted → Bool
some_of p k w = any p (given k w)

abbrev selects : (Sla → Bool) → List String → Bool
selects p = any (λ s. p (selector_sla s))

given-insert :
    (k key : String) (ds : List Sla) (m : List (String × List Sla))
    → or_none (lookup k (insert key ds m)) ≡ (if key == k then ds else or_none (lookup k m))
given-insert k key ds m = ground (arith, lookup-insert key k ds m)

some_of-add_selectors :
    (p : Sla → Bool) (k key : String) (w : Wanted) (ss : List String)
    → some_of p k (add_selectors key w ss) ≡ (some_of p k w || (key == k && selects p ss))
unfolding add_selectors
some_of-add_selectors p k key w [] = ground arith
some_of-add_selectors p k key w (s ∷ ss) =
    let next : Wanted = record {
      selected = insert key (or_none (lookup key w.selected) ++ selector_sla s ∷ []) w.selected;
      requested = insert key (insert s false (or_none (lookup key w.requested))) w.requested;
    } in
    let grown = given-insert k key (given key w ++ selector_sla s ∷ []) w.selected in
    let both = any-append p (given key w) (selector_sla s ∷ []) in
    some_of-add_selectors p k key next ss ∙ elim (Bool-cases (key == k)) [
      | inl t ↦
          let same : key ≡ k = (eq_iff key k).0 t in
          ap (λ l. any p l || (key == k && selects p ss)) grown
          ∙ rw t (
              ap (λ b. b || selects p ss) both
              ∙ ap (λ j. (some_of p j w || (p (selector_sla s) || false)) || selects p ss) same
              ∙ ground arith)
      | inr f ↦ ap (λ l. any p l || (key == k && selects p ss)) grown ∙ rw f refl
    ]

keep_same :
    (f g : Measurement → Bool) (ms : List Measurement)
    → ((m : Measurement) → f m ≡ g m)
    → keep f ms ≡ keep g ms
keep_same f g [] h = refl
keep_same f g (m ∷ ms) h = ground (arith, h m, keep_same f g ms h)

module _ (extras : List String) (per_tr : List (String × List String)) where
  -- Some descriptor of the requirement, some extra selector, or some selector for the requirement
  -- passes a test.
  abbrev pub asks : (Sla → Bool) → TestRequirement → Bool
  asks p tr = any p tr.slas || (selects p extras || selects p (or_none (lookup tr.id per_tr)))

  some_of-add_tr :
      (p : Sla → Bool) (k : String) (w : Wanted) (tr : TestRequirement)
      → some_of p k (add_tr extras per_tr w tr)
        ≡ (if label_of tr == k then asks p tr else some_of p k w)
  unfolding add_tr
  some_of-add_tr p k w tr =
      let own : Wanted = record {
        selected = insert (label_of tr) tr.slas w.selected;
        requested = insert (label_of tr) [] w.requested;
      } in
      some_of-add_selectors p k (label_of tr) (add_selectors (label_of tr) own extras)
        (or_none (lookup tr.id per_tr))
      ∙ ap (λ b. b || (label_of tr == k && selects p (or_none (lookup tr.id per_tr))))
          (some_of-add_selectors p k (label_of tr) own extras
            ∙ ap (λ l. any p l || (label_of tr == k && selects p extras))
                (given-insert k (label_of tr) tr.slas w.selected))
      ∙ elim (Bool-cases (label_of tr == k)) [
        | inl t ↦ rw t (ground arith)
        | inr f ↦ rw f (ground arith)
      ]

  none_labelled :
      (k : String) (q : TestRequirement → Bool) (tr : TestRequirement) (trs : List TestRequirement)
      → (label_of tr == k) ≡ true
      → All (λ b. (label_of tr == label_of b) ≡ false) trs
      → any (λ b. label_of b == k && q b) trs ≡ false
  none_labelled k q tr [] t h = refl
  none_labelled k q tr (b ∷ trs) t (other, h) = ground (
    arith,
    other,
    none_labelled k q tr trs t h,
    eq_iff (label_of tr) k,
    eq_iff (label_of b) k,
    eq_iff (label_of tr) (label_of b),
  )

  abbrev labelled : String → TestRequirement → Bool
  labelled k tr = label_of tr == k && true

  some_of-add_trs :
      (p : Sla → Bool) (k : String) (w : Wanted) (trs : List TestRequirement)
      → Distinct label_of trs
      → some_of p k (add_trs extras per_tr w trs) ≡ (
          if any (labelled k) trs
          then any (λ tr. label_of tr == k && asks p tr) trs
          else some_of p k w)
  unfolding add_trs
  some_of-add_trs p k w [] d = refl
  some_of-add_trs p k w (tr ∷ trs) (apart, d) =
      some_of-add_trs p k (add_tr extras per_tr w tr) trs d ∙ elim (Bool-cases (label_of tr == k)) [
        | inl t ↦
            let absent = none_labelled k (λ b. true) tr trs t apart in
            let unasked = none_labelled k (asks p) tr trs t apart in
            rw (absent, unasked, some_of-add_tr p k w tr, t) (ground arith)
        | inr f ↦ rw (some_of-add_tr p k w tr, f) refl
      ]

  -- The measurement's execution asks for it.
  abbrev pub shows : List TestRequirement → Measurement → Bool
  shows trs m = any (λ tr. label_of tr == label_of_measurement m && asks (matches m) tr) trs

  unlabelled :
      (k : String) (q : TestRequirement → Bool) (trs : List TestRequirement)
      → (if any (labelled k) trs then any (λ tr. label_of tr == k && q tr) trs else false)
        ≡ any (λ tr. label_of tr == k && q tr) trs
  unlabelled k q [] = refl
  unlabelled k q (tr ∷ trs) = ground (arith, unlabelled k q trs)

  -- Where no two requirements have one label, the report shows exactly the measurements, in order, that
  -- their execution asks for: by a descriptor, by an extra selector, or by one for the requirement.
  pub select_measurements-keep :
      (quote : String → String) (trs : List TestRequirement) (measurements : List Measurement)
      → Distinct label_of trs
      → (select_measurements quote trs measurements extras per_tr).0 ≡ keep (shows trs) measurements
  unfolding select_measurements
  select_measurements-keep quote trs measurements d =
      let none : Wanted = record { selected = []; requested = [] } in
      let w = add_trs extras per_tr none trs in
      keep_named_lem w [] measurements
      ∙ keep_same (λ m. any (matches m) (given (label_of_measurement m) w)) (shows trs) measurements
          (λ m.
            some_of-add_trs (matches m) (label_of_measurement m) none trs d
            ∙ unlabelled (label_of_measurement m) (asks (matches m)) trs)
