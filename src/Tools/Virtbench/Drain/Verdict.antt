-- ===== src/Tools/Virtbench/Drain/Verdict.antt =====
-- When a drain is graded as passed.
use storage_cert_harness.Common.{
  String, ◌≡◌, refl, sym, ap, ◌∙◌, inl, inr, Bool, true, false, List, [], ◌∷◌, Option, none, some,
  arith, ◌==◌, any, lookup, ℤ, Bool-cases, Option-cases,
}
use storage_cert_harness.Core.{Outcome, Float64, TestResult}
use storage_cert_harness.Registry.{has_prefix}
use storage_cert_harness.Orchestrator.Pipeline.{done}
use storage_cert_harness.Tools.Virtbench.Drain.{
  Texts, Section, DrainLog, opening_log, split_lines, contains, drain_log_message, read_entry,
  read_message, read_lines, row_of, drain_result, grade_log, parse_drain, after_heading,
  before_heading, or_zero, or_kept, count_row, add_row, entry_of,
}

module _ (go : Texts) where
  -- The line is the heading of the table after the drain.
  abbrev pub is_after_heading : String → Bool
  is_after_heading line = contains (after_heading go) (drain_log_message go line)

  abbrev in_after : Section → Bool
  in_after Section.after = true
  in_after _ = false

  -- The table after the drain was not begun.
  abbrev IsUnread : DrainLog → Type 0
  IsUnread d = (d.after_drain ≡ []) × (in_after d.section ≡ false)

  count_row-IsUnread :
      (s : Section) (node : String) (n : ℤ) (d : DrainLog)
      → IsUnread d
      → in_after s ≡ false
      → IsUnread (count_row s node n d)
  count_row-IsUnread Section.outside node n d h k = h
  count_row-IsUnread Section.before node n d h k = h
  count_row-IsUnread Section.after node n d h k = absurd (ground (arith, k))

  row-IsUnread : (r : Option (String × ℤ)) (d : DrainLog) → IsUnread d → IsUnread (add_row go r d)
  row-IsUnread none d h = h
  row-IsUnread (some (node, n)) d h = count_row-IsUnread d.section node n d h h.1

  read_entry-IsUnread : (msg : String) (d : DrainLog) → IsUnread d → IsUnread (read_entry go msg d)
  unfolding read_entry
  read_entry-IsUnread msg d h =
      by_match (go.nodes_match msg) (go.node_time_match msg) (go.total_time_match msg)
    where
      by_match :
          (a b t : Option String) → IsUnread (entry_of go a b t (row_of go (go.fields msg)) d)
      by_match (some nodes) b t = h
      by_match none (some time) t = h
      by_match none none (some time) = h
      by_match none none none = row-IsUnread (row_of go (go.fields msg)) d h

  read_message-IsUnread :
      (msg : String) (d : DrainLog)
      → contains (after_heading go) msg ≡ false
      → IsUnread d
      → IsUnread (read_message go msg d)
  unfolding read_message
  read_message-IsUnread msg d none_there h = elim (Bool-cases (msg == "")) [
    | inl t ↦ rw (t, read_message) h
    | inr a ↦ elim (Bool-cases (has_prefix "===" msg)) [
      | inl t ↦ rw (a, t, read_message) (h.0, refl)
      | inr b ↦ elim (Bool-cases (contains (before_heading go) msg)) [
        | inl t ↦ rw (a, b, t, read_message) (h.0, refl)
        | inr e ↦ rw (a, b, e, none_there, read_message) (read_entry-IsUnread msg d h)
      ]
    ]
  ]

  read_lines-IsUnread :
      (d : DrainLog) (lines : List String)
      → any is_after_heading lines ≡ false
      → IsUnread d
      → IsUnread (read_lines go d lines)
  unfolding read_lines
  read_lines-IsUnread d [] none_there h = h
  read_lines-IsUnread d (line ∷ lines) none_there h =
      read_lines-IsUnread (read_message go (drain_log_message go line) d) lines
        (ground (arith, none_there))
        (read_message-IsUnread (drain_log_message go line) d (ground (arith, none_there)) h)

  abbrev total_of : DrainLog → ℤ
  total_of d = or_zero go (lookup d.target d.before_drain)

  abbrev remaining_of : DrainLog → ℤ
  remaining_of d = or_zero go (lookup d.target d.after_drain)

  grade_log-result :
      (tr_id : String) (d : DrainLog) {r : TestResult}
      → grade_log go tr_id d ≡ done (r ∷ [])
      → (elapsed : Float64) × (drain_result go tr_id elapsed (total_of d) (remaining_of d) ≡ r)
  unfolding grade_log
  grade_log-result tr_id d h = elim (Option-cases (or_kept d.elapsed d.total_elapsed)) [
    | inl missing ↦ absurd (ground (arith, h, missing))
    | inr (elapsed, found) ↦ (elapsed, ground (arith, h, found))
  ]

  outcome_unread :
      (tr_id : String) (elapsed : Float64) (total : ℤ) (d : DrainLog)
      → d.after_drain ≡ []
      → let q = drain_result go tr_id elapsed total (remaining_of d) in
        (q.native ≡ Outcome.pass) × (lookup "all-vms-evacuated" q.checks ≡ some Outcome.pass)
  unfolding drain_result
  outcome_unread tr_id elapsed total d h = (rw h refl, rw h refl)

  -- A log in which no message is the heading of the table after the drain gives no result or one that
  -- passes: the node's virtual machines count as evacuated though nothing was read of them.
  pub parse_drain_unread :
      (text tr_id : String) {r : TestResult}
      → any is_after_heading (split_lines text) ≡ false
      → parse_drain go text tr_id ≡ done (r ∷ [])
      → (r.native ≡ Outcome.pass) × (lookup "all-vms-evacuated" r.checks ≡ some Outcome.pass)
  unfolding parse_drain
  parse_drain_unread text tr_id {r} none_there h =
      let d = read_lines go opening_log (split_lines text) in
      let read : grade_log go tr_id d ≡ done (r ∷ []) = ground (arith, h) in
      let (elapsed, same) = grade_log-result tr_id d read in
      let (native, check) =
        outcome_unread tr_id elapsed (total_of d) d
          (read_lines-IsUnread opening_log (split_lines text) none_there (refl, refl)).0 in
      (
        ap (λ q. q.native) (sym same) ∙ native,
        ap (λ q. lookup "all-vms-evacuated" q.checks) (sym same) ∙ check,
      )
