-- ===== src/Tools/Virtbench/Drain.antt =====
-- internal/tools/virtbench/parse.go, `ParseDrain`: the log of a drained node, line by line. The
-- regular expressions' matches and the packages strconv and strings, as far as they deal with numbers and
-- with Unicode spaces, are the parameter `Texts`.
pub mod Verdict
use Prim.Native.Char.{Char, code}
use storage_cert_harness.Common.{
  String, Bool, true, false, not, ◌&&◌, ◌||◌, eqb, List, [], ◌∷◌, Option, none, some, ◌==◌, ◌<>◌,
  if◌then◌else◌, last_or, lookup, insert, ℤ, is_zero, is_positive, ◌-ℤ◌,
}
use storage_cert_harness.Core.{Float64, Outcome, Metric, TestResult}
use storage_cert_harness.Registry.{has_prefix}
use storage_cert_harness.Orchestrator.Pipeline.{Attempt, done, failed}

pub record Texts : Type 0 where
  -- the first submatch of `drainNodesRe`, `drainNodeTimeRe` and `drainTotalTimeRe`
  pub nodes_match : String → Option String
  pub node_time_match : String → Option String
  pub total_time_match : String → Option String
  pub parse_float : String → Option Float64
  pub atoi : String → Option ℤ
  pub trim_space : String → String
  pub fields : String → List String
  pub quote : String → String
  -- `float64(n)`, and a share of a whole in percent
  pub of_int : ℤ → Float64
  pub percent : ℤ → ℤ → Float64

-- `strings.Split(s, "\n")`
unfoldable pub split_lines : String → List String
split_lines String.[] = "" ∷ []
split_lines (String.◌∷◌ c s) =
    let rest = split_lines s in
    if eqb (code c) 10
    then "" ∷ rest
    else elim rest [ [] ↦ String.◌∷◌ c "" ∷ [] | ◌∷◌ line lines ↦ String.◌∷◌ c line ∷ lines ]

-- `strings.Contains`, with the text that is looked for first.
unfoldable pub contains : String → String → Bool
contains sub String.[] = has_prefix sub ""
contains sub (String.◌∷◌ c s) = has_prefix sub (String.◌∷◌ c s) || contains sub s

-- What follows as many characters as the first text has.
strip : String → String → String
strip String.[] s = s
strip (String.◌∷◌ p ps) String.[] = ""
strip (String.◌∷◌ p ps) (String.◌∷◌ c s) = strip ps s

-- What follows the first occurrence of a separator.
after_first : String → String → Option String
unfolding strip
after_first sep String.[] = none
after_first sep (String.◌∷◌ c s) =
    let rest = after_first sep s in
    if has_prefix sep (String.◌∷◌ c s) then some (strip sep (String.◌∷◌ c s)) else rest

-- `strings.SplitN(s, ",", 2)[0]`
pub before_comma : String → String
before_comma String.[] = ""
before_comma (String.◌∷◌ c s) =
    let rest = before_comma s in if eqb (code c) b',' then "" else String.◌∷◌ c rest

-- `section`
pub data Section : Type 0 where
  outside before after : Section

-- The variables of the loop; a time is there once `haveElapsed` or `haveTotal` is true.
pub record DrainLog : Type 0 where
  pub section : Section
  pub target : String
  pub elapsed : Option Float64
  pub total_elapsed : Option Float64
  pub before_drain : List (String × ℤ)
  pub after_drain : List (String × ℤ)

abbrev pub opening_log : DrainLog
opening_log = record {
  section = Section.outside;
  target = "";
  elapsed = none;
  total_elapsed = none;
  before_drain = [];
  after_drain = [];
}

-- A time, if it is a number.
abbrev pub or_kept : Option Float64 → Option Float64 → Option Float64
or_kept none old = old
or_kept (some v) old = some v

-- The row of a node, in the table of the section.
abbrev pub count_row : Section → String → ℤ → DrainLog → DrainLog
count_row Section.outside node n d = d
count_row Section.before node n d = record d { before_drain = insert node n d.before_drain }
count_row Section.after node n d = record d { after_drain = insert node n d.after_drain }

module _ (go : Texts) where
  unfoldable pub drain_log_message : String → String
  unfolding after_first
  drain_log_message line = elim (after_first " - " line) [
    | none ↦ ""
    | some rest ↦ elim (after_first " - " rest) [ none ↦ "" | some msg ↦ go.trim_space msg ]
  ]

  -- `drainDistRow`: at least two fields, of which the first is not "Node" and the last is a number.
  row_of : List String → Option (String × ℤ)
  row_of [] = none
  row_of (node ∷ []) = none
  row_of (node ∷ x ∷ xs) =
      if node == "Node"
      then none
      else elim (go.atoi (last_or x xs)) [ none ↦ none | some n ↦ some (node, n) ]

  abbrev pub add_row : Option (String × ℤ) → DrainLog → DrainLog
  add_row none d = d
  add_row (some (node, n)) d = count_row d.section node n d

  -- What a line sets, by the first of the patterns that it matches.
  abbrev pub entry_of :
      (nodes node_time total_time : Option String) → Option (String × ℤ) → DrainLog → DrainLog
  entry_of (some nodes) node_time total_time row d = record d {
    target = go.trim_space (before_comma nodes);
  }
  entry_of none (some time) total_time row d = record d {
    elapsed = or_kept (go.parse_float time) d.elapsed;
  }
  entry_of none none (some time) row d = record d {
    total_elapsed = or_kept (go.parse_float time) d.total_elapsed;
  }
  entry_of none none none row d = add_row row d

  -- The lines that are neither a rule nor a heading.
  read_entry : String → DrainLog → DrainLog
  unfolding before_comma row_of
  read_entry msg d =
      entry_of (go.nodes_match msg) (go.node_time_match msg) (go.total_time_match msg)
        (row_of (go.fields msg)) d

  abbrev pub after_heading : String
  after_heading = "VMI DISTRIBUTION AFTER DRAIN"

  abbrev pub before_heading : String
  before_heading = "VMI DISTRIBUTION BEFORE DRAIN"

  -- The body of the loop.
  read_message : String → DrainLog → DrainLog
  unfolding contains read_entry
  read_message msg d =
      let entry = read_entry msg d in
      if msg == ""
      then d
      else if has_prefix "===" msg
      then record d { section = Section.outside }
      else if contains before_heading msg
      then record d { section = Section.before; before_drain = [] }
      else if contains after_heading msg
      then record d { section = Section.after; after_drain = [] }
      else entry

  read_lines : DrainLog → List String → DrainLog
  unfolding drain_log_message read_message
  read_lines d [] = d
  read_lines d (line ∷ lines) = read_lines (read_message (drain_log_message line) d) lines

  abbrev pub or_zero : Option ℤ → ℤ
  or_zero none = ℤ.pos 0
  or_zero (some n) = n

  abbrev metric : String → Float64 → String → Metric
  metric name value unit = record { name = name; value = value; unit = unit; percentile = "" }

  -- The result, once the target, the time and the count before the drain are known.
  pub drain_result : String → Float64 → ℤ → ℤ → TestResult
  drain_result tr_id elapsed total remaining =
      let outcome = if is_positive remaining then Outcome.fail else Outcome.pass in
      record {
        tr_id = tr_id;
        metrics =
            metric "evacuation_time" elapsed "s"
            ∷ metric "vms_total" (go.of_int total) ""
            ∷ metric "vms_evacuated" (go.of_int (total -ℤ remaining)) ""
            ∷ metric "vms_remaining" (go.of_int remaining) ""
            ∷ metric "evacuation_success_rate" (go.percent (total -ℤ remaining) total) "%"
            ∷ [];
        checks = ("all-vms-evacuated", outcome) ∷ [];
        native = outcome;
        artifacts = [];
      }

  -- The guards after the loop.
  grade_log : String → DrainLog → Attempt (List TestResult)
  unfolding drain_result
  grade_log tr_id d =
      let total = or_zero (lookup d.target d.before_drain) in
      if d.target == ""
      then failed "virtbench: drain log has no target node (no 'Nodes:' line)"
      else elim (or_kept d.elapsed d.total_elapsed) [
        | none ↦ failed ("virtbench: drain log has no drain duration for " <> go.quote d.target)
        | some elapsed ↦
            if is_zero total
            then failed (
                "virtbench: no VMs on target node "
                <> go.quote d.target
                <> " in the BEFORE distribution (nothing to grade)")
            else done
                (drain_result tr_id elapsed total (or_zero (lookup d.target d.after_drain)) ∷ [])
      ]

  unfoldable pub parse_drain : String → String → Attempt (List TestResult)
  unfolding split_lines read_lines grade_log
  parse_drain text tr_id =
      if text == ""
      then failed "virtbench: empty drain log"
      else grade_log tr_id (read_lines opening_log (split_lines text))
