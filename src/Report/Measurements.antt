-- ===== src/Report/Measurements.antt =====
-- internal/report/measurements.go, `SelectMeasurements`: which measured metrics a report shows. The
-- verb `%q` is a parameter.
pub mod Shown
use Prim.Native.Char.{Char, code}
use storage_cert_harness.Common.{
  ℕ, String, Bool, true, false, ◌&&◌, ◌||◌, not, eqb, List, [], ◌∷◌, ◌++◌, Option, none, some, ◌==◌,
  ◌<>◌, str_lt, if◌then◌else◌, lookup, insert, sort_by, any,
}
use storage_cert_harness.Core.{Sla, TestRequirement, Measurement, execution_label}

-- `strings.Cut(selector, "@")`, with "" after it where there is no "@".
unfoldable pub cut : String → String × String
cut String.[] = ("", "")
cut (String.◌∷◌ c s) =
    let rest = cut s in if eqb (code c) b'@' then ("", s) else (String.◌∷◌ c rest.0, rest.1)

abbrev pub or_none {ℓ} : {A : Type ℓ} → Option (List A) → List A
or_none none = []
or_none (some xs) = xs

-- `selected` and `requested`, by execution label; a selector's flag says that it was found.
pub record Wanted : Type 0 where
  pub selected : List (String × List Sla)
  pub requested : List (String × List (String × Bool))

-- A descriptor that gives only a metric and a percentile.
abbrev pub selector_sla : String → Sla
selector_sla selector = record {
  metric = (cut selector).0;
  type = "";
  operator = "";
  value = none;
  unit = "";
  percentile = (cut selector).1;
  condition = "";
  measured_by = none;
  when = [];
}

add_selectors : String → Wanted → List String → Wanted
add_selectors key w [] = w
add_selectors key w (s ∷ ss) =
    add_selectors key
      (record {
        selected = insert key (or_none (lookup key w.selected) ++ selector_sla s ∷ []) w.selected;
        requested = insert key (insert s false (or_none (lookup key w.requested))) w.requested;
      })
      ss

abbrev pub label_of : TestRequirement → String
label_of tr = execution_label tr.id tr.variant

-- The body of the loop over the requirements.
add_tr : List String → List (String × List String) → Wanted → TestRequirement → Wanted
unfolding add_selectors
add_tr extras per_tr w tr =
    let own : Wanted = record {
      selected = insert (label_of tr) tr.slas w.selected;
      requested = insert (label_of tr) [] w.requested;
    } in
    add_selectors (label_of tr) (add_selectors (label_of tr) own extras)
      (or_none (lookup tr.id per_tr))

add_trs : List String → List (String × List String) → Wanted → List TestRequirement → Wanted
unfolding add_tr
add_trs extras per_tr w [] = w
add_trs extras per_tr w (tr ∷ trs) = add_trs extras per_tr (add_tr extras per_tr w tr) trs

-- A name and a percentile, which "" leaves open, are the measurement's.
abbrev pub names : String → String → Measurement → Bool
names name percentile m = m.name == name && (percentile == "" || m.percentile == percentile)

abbrev pub label_of_measurement : Measurement → String
label_of_measurement m = execution_label m.tr m.variant

-- The selectors of one execution, with those that name the measurement flagged.
flag : Measurement → List (String × Bool) → List (String × Bool)
flag m [] = []
flag m ((s, found) ∷ selectors) =
    (s, if names (cut s).0 (cut s).1 m then true else found) ∷ flag m selectors

flag_at : Measurement → List (String × List (String × Bool)) → List (String × List (String × Bool))
unfolding flag
flag_at m [] = []
flag_at m ((key, selectors) ∷ requested) =
    let rest = flag_at m requested in
    if key == label_of_measurement m
    then (key, flag m selectors) ∷ requested
    else (key, selectors) ∷ rest

-- The loop over the measurements: the ones that some descriptor of their execution names are kept.
keep_named :
    Wanted
    → List Measurement
    → List Measurement
    → List Measurement × List (String × List (String × Bool))
unfolding flag_at
keep_named w out [] = (out, w.requested)
keep_named w out (m ∷ ms) =
    let flagged = record w { requested = flag_at m w.requested } in
    let kept = keep_named flagged (out ++ m ∷ []) ms in
    let dropped = keep_named flagged out ms in
    if any (λ d. names d.metric d.percentile m)
      (or_none (lookup (label_of_measurement m) w.selected))
    then kept
    else dropped

unfound : (String → String) → String → List String → List (String × Bool) → List String
unfound quote label warnings [] = warnings
unfound quote label warnings ((s, found) ∷ selectors) =
    unfound quote label
      (if not found
        then warnings
          ++ ("TR " <> label <> ": requested report metric " <> quote s <> " was not produced") ∷ []
        else warnings)
      selectors

unfound_all : (String → String) → List String → List (String × List (String × Bool)) → List String
unfolding unfound
unfound_all quote warnings [] = warnings
unfound_all quote warnings ((label, selectors) ∷ requested) =
    unfound_all quote (unfound quote label warnings selectors) requested

unfoldable pub select_measurements :
    (String → String)
    → List TestRequirement
    → List Measurement
    → List String
    → List (String × List String)
    → List Measurement × List String
unfolding add_trs keep_named unfound_all
select_measurements quote trs measurements extras per_tr =
    let w = add_trs extras per_tr (record { selected = []; requested = [] }) trs in
    let (out, requested) = keep_named w [] measurements in
    (out, sort_by str_lt (unfound_all quote [] requested))
