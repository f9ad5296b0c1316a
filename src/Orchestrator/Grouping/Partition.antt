-- ===== src/Orchestrator/Grouping/Partition.antt =====
-- The jobs share out the requirements by tool.
use mathlib.Core.List.{append-nil, append_assoc}
use storage_cert_harness.Common.{
  String, ◌≡◌, refl, sym, ap, ◌∙◌, Bool, false, ◌||◌, List, [], ◌∷◌, ◌++◌, map, arith, ◌==◌, eq_iff,
  is_some, lookup, lookup-insert, any, keep, All, Pairs, Bool-cases, inl, inr,
}
use storage_cert_harness.Core.{TestRequirement}
use storage_cert_harness.Report.Keyed.{Distinct}
use storage_cert_harness.Report.Measurements.{or_none}
use storage_cert_harness.Report.Merge.{member}
use storage_cert_harness.Orchestrator.Schedule.{Job}
use storage_cert_harness.Orchestrator.Grouping.{
  ToolIntegration, ToolSchedule, Grouped, place, collect, make_job, group_by_tool,
}

abbrev tool_of : TestRequirement → String
tool_of tr = tr.automation_tool

abbrev pub uses : String → TestRequirement → Bool
uses tool tr = tr.automation_tool == tool

collect_trs :
    (k : String) (g : Grouped) (trs : List TestRequirement)
    → or_none (lookup k (collect g trs).by_tool) ≡ or_none (lookup k g.by_tool) ++ keep (uses k) trs
unfolding collect
collect_trs k g [] = sym (append-nil (or_none (lookup k g.by_tool)))
collect_trs k g (tr ∷ trs) =
    let old = or_none (lookup (tool_of tr) g.by_tool) in
    let grown = lookup-insert (tool_of tr) k (old ++ tr ∷ []) g.by_tool in
    collect_trs k (place tr g) trs
    ∙ ap (λ o. or_none o ++ keep (uses k) trs) grown
    ∙ elim (Bool-cases (uses k tr)) [
      | inl t ↦
          let same : tool_of tr ≡ k = (eq_iff (tool_of tr) k).0 t in
          rw t (
            append_assoc old (tr ∷ []) (keep (uses k) trs)
            ∙ ap (λ j. or_none (lookup j g.by_tool) ++ tr ∷ keep (uses k) trs) same)
      | inr f ↦ rw f refl
    ]

member-snoc : (k t : String) (xs : List String) → member k (xs ++ t ∷ []) ≡ (member k xs || t == k)
member-snoc k t [] = ground arith
member-snoc k t (x ∷ xs) = ground (arith, member-snoc k t xs)

abbrev Different : List String → Type 0
Different = Pairs (λ a b. (a == b) ≡ false)

apart-snoc :
    (x t : String) (xs : List String)
    → (x == t) ≡ false
    → All (λ b. (x == b) ≡ false) xs
    → All (λ b. (x == b) ≡ false) (xs ++ t ∷ [])
apart-snoc x t [] e h = (e, tt)
apart-snoc x t (y ∷ xs) e (f, h) = (f, apart-snoc x t xs e h)

Different-snoc :
    (t : String) (xs : List String) → Different xs → member t xs ≡ false → Different (xs ++ t ∷ [])
Different-snoc t [] d e = (tt, tt)
Different-snoc t (x ∷ xs) (h, d) e =
    (apart-snoc x t xs (ground (arith, e)) h, Different-snoc t xs d (ground (arith, e)))

-- The order lists the keys of the map, each once.
record Synced (g : Grouped) : Type 0 where
  keys : (k : String) → is_some (lookup k g.by_tool) ≡ member k g.order
  once : Different g.order

place-Synced : (tr : TestRequirement) (g : Grouped) → Synced g → Synced (place tr g)
place-Synced tr g s =
    let t = tool_of tr in
    let all = or_none (lookup t g.by_tool) ++ tr ∷ [] in
    record {
      keys = λ k. ground (
        arith,
        lookup-insert t k all g.by_tool,
        member-snoc k t g.order,
        s.keys k,
        s.keys t,
        eq_iff t k,
      );
      once = elim (Bool-cases (is_some (lookup t g.by_tool))) [
        | inl known ↦ rw known s.once
        | inr new ↦ rw new (Different-snoc t g.order s.once (sym (s.keys t) ∙ new))
      ];
    }

collect-Synced : (g : Grouped) (trs : List TestRequirement) → Synced g → Synced (collect g trs)
unfolding collect
collect-Synced g [] s = s
collect-Synced g (tr ∷ trs) s = collect-Synced (place tr g) trs (place-Synced tr g s)

member-collect :
    (k : String) (g : Grouped) (trs : List TestRequirement)
    → Synced g
    → member k (collect g trs).order ≡ (member k g.order || any (uses k) trs)
unfolding collect
member-collect k g [] s = ground arith
member-collect k g (tr ∷ trs) s =
    let t = tool_of tr in
    member-collect k (place tr g) trs (place-Synced tr g s)
    ∙ ground (arith, member-snoc k t g.order, s.keys t, s.keys k, eq_iff t k)

abbrev empty : Grouped
empty = record { order = []; by_tool = [] }

empty-Synced : Synced empty
empty-Synced = record { keys = λ k. refl; once = tt }

module _ (resolve : List TestRequirement → ToolIntegration) (sched : List (String × ToolSchedule))
    (trs : List TestRequirement) where
  abbrev grouped : Grouped
  grouped = collect empty trs

  abbrev job : String → Job
  job = make_job resolve sched grouped

  -- Every job holds exactly the requirements of its tool, in their order; no two jobs have one tool;
  -- and a tool has a job exactly if some requirement uses it.
  pub record Partitions (jobs : List Job) : Type 0 where
    pub own : All (λ j. j.trs ≡ keep (uses j.tool) trs) jobs
    pub distinct : Distinct (λ j. j.tool) jobs
    pub all_tools : (k : String) → any (λ j. j.tool == k) jobs ≡ any (uses k) trs

  own_trs : (order : List String) → All (λ j. j.trs ≡ keep (uses j.tool) trs) (map job order)
  unfolding make_job
  own_trs [] = tt
  own_trs (t ∷ order) = (collect_trs t empty trs, own_trs order)

  apart_tools :
      (t : String) (order : List String)
      → All (λ b. (t == b) ≡ false) order
      → All (λ j. (t == j.tool) ≡ false) (map job order)
  unfolding make_job
  apart_tools t [] h = tt
  apart_tools t (x ∷ order) (e, h) = (e, apart_tools t order h)

  Distinct-tools : (order : List String) → Different order → Distinct (λ j. j.tool) (map job order)
  unfolding make_job
  Distinct-tools [] d = tt
  Distinct-tools (t ∷ order) (h, d) = (apart_tools t order h, Distinct-tools order d)

  any_tool :
      (k : String) (order : List String) → any (λ j. j.tool == k) (map job order) ≡ member k order
  unfolding make_job
  any_tool k [] = refl
  any_tool k (t ∷ order) = ground (arith, any_tool k order)

  -- The jobs partition the requirements by their tools: every job holds exactly the requirements of its
  -- tool, in their order, no two jobs have one tool, and a tool has a job exactly if some requirement
  -- uses it.
  pub group_by_tool-Partitions : Partitions (group_by_tool resolve sched trs)
  unfolding group_by_tool
  group_by_tool-Partitions =
      let synced = collect-Synced empty trs empty-Synced in
      record {
        own = own_trs grouped.order;
        distinct = Distinct-tools grouped.order synced.once;
        all_tools = λ k. any_tool k grouped.order ∙ member-collect k empty trs empty-Synced;
      }
