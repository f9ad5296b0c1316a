-- ===== src/Orchestrator/Triage.antt =====
-- internal/orchestrator/orchestrator.go, `Run`, before its jobs: which of the selected requirements can be
-- scored, and the shared setups (`activeSetups`). The clock's answer is `now`; the checkpoints between
-- the steps read the state and do not change it.
pub mod Scopes
pub mod Settled
pub mod Left
use storage_cert_harness.Common.{
  String, Bool, not, List, [], ◌∷◌, ◌++◌, map, Option, none, some, ◌<>◌, if◌then◌else◌, is_empty,
  is_some, lookup, insert, sort_by, str_lt,
}
use storage_cert_harness.Core.{Outcome, TestRequirement, Verdict}
use storage_cert_harness.Report.Measurements.{or_none}
use storage_cert_harness.Registry.{
  Tool, Setup, resolve_tool, runnable, run_setup_providers, setup_provider,
}
use storage_cert_harness.Orchestrator.Selection.{missing_required_params, without_trs}
use storage_cert_harness.Orchestrator.Items.{not_scorable, err_trs}
use storage_cert_harness.Orchestrator.Progress.Terminal.{Op}
use storage_cert_harness.Orchestrator.Run.{Setting}
use storage_cert_harness.Orchestrator.Run.Steps.{Call, Shared, call, advance}

-- `strings.Join(names, ", ")`
pub join_names : List String → String
join_names [] = ""
join_names (n ∷ []) = n
join_names (n ∷ m ∷ names) = n <> ", " <> join_names (m ∷ names)

abbrev pub missing_text : List String → String
missing_text missing =
    "required param(s) not supplied and have no default: "
    <> join_names missing
    <> " (set them in the plan's overrides)"

-- What `SetupProvider` does; a failing teardown only warns.
pub record Provider (S : Type 0) : Type 0 where
  pub setup : List TestRequirement → S → S × Option String
  pub teardown : List TestRequirement → S → S

-- `scopedSetup`
pub record ScopedSetup (S : Type 0) : Type 0 where
  pub provider : Provider S
  pub label : String
  pub trs : List TestRequirement

-- `order` and `groupTRs`.
pub record Groups : Type 0 where
  pub order : List String
  pub group_trs : List (String × List TestRequirement)

pub join_groups : TestRequirement → Groups → List String → Groups
join_groups tr g [] = g
join_groups tr g (key ∷ keys) =
    join_groups tr
      (record {
        order = if is_some (lookup key g.group_trs) then g.order else g.order ++ key ∷ [];
        group_trs = insert key (or_none (lookup key g.group_trs) ++ tr ∷ []) g.group_trs;
      })
      keys

abbrev pub groups_of : {T : Type 0} → Option (Tool T) → List String
groups_of none = []
groups_of (some t) = t.setup_groups

module _ {T S : Type 0} (tools : List (String × Tool T))
    (setups : List (String × Setup (Provider S))) where
  pub collect_groups : Groups → List TestRequirement → Groups
  unfolding join_groups
  collect_groups g [] = g
  collect_groups g (tr ∷ trs) =
      collect_groups (join_groups tr g (groups_of (resolve_tool tools tr))) trs

  -- The setups of the groups that have a provider.
  pub group_setups : List (String × List TestRequirement) → List String → List (ScopedSetup S)
  group_setups group_trs [] = []
  group_setups group_trs (key ∷ keys) =
      let rest = group_setups group_trs keys in
      elim (setup_provider setups "group" key) [
        | none ↦ rest
        | some p ↦
            record {
              provider = p.provider;
              label = "group/" <> key;
              trs = or_none (lookup key group_trs);
            }
            ∷ rest
      ]

  abbrev pub run_setup : List TestRequirement → Setup (Provider S) → ScopedSetup S
  run_setup scorable p = record { provider = p.provider; label = "run/" <> p.key; trs = scorable }

  unfoldable pub active_setups : List TestRequirement → List (ScopedSetup S)
  unfolding collect_groups group_setups
  active_setups scorable =
      let g = collect_groups (record { order = []; group_trs = [] }) scorable in
      if is_empty scorable
      then []
      else map (run_setup scorable) (run_setup_providers setups)
        ++ group_setups g.group_trs (sort_by str_lt g.order)

module _ {T : Type 0} (c : Setting) (now : String) (tools : List (String × Tool T)) where
  -- A requirement that is not left for the jobs: its verdicts, and the end of its execution.
  abbrev pub dismiss : Outcome → List Verdict → TestRequirement → Shared → Shared
  dismiss o vs tr w = advance c now (Op.finish_of tr o) (call c (Call.produced vs []) w)

  -- The body of the loop over the selection; the list is `scorable`.
  pub sift : TestRequirement → Shared → List TestRequirement → Shared × List TestRequirement
  unfolding join_names
  sift tr w scorable =
      let missing = missing_required_params tr in
      if not (runnable tools tr)
      then (dismiss Outcome.skip (not_scorable c.quote tr) tr w, scorable)
      else if not (is_empty missing)
      then (dismiss Outcome.error (err_trs (tr ∷ []) (missing_text missing)) tr w, scorable)
      else (w, scorable ++ tr ∷ [])

  unfoldable pub triage :
      Shared → List TestRequirement → List TestRequirement → Shared × List TestRequirement
  unfolding sift
  triage w scorable [] = (w, scorable)
  triage w scorable (tr ∷ trs) = triage (sift tr w scorable).0 (sift tr w scorable).1 trs

-- The run's shared state, the world, the requirements that are left, and the setups that ran.
pub record Prepared (S : Type 0) : Type 0 where
  pub shared : Shared
  pub world : S
  pub scorable : List TestRequirement
  pub ran : List (ScopedSetup S)

-- `if ctx.Err() != nil { progress.abort(…) } else { progress.complete(…) }`
abbrev pub ending : Option String → TestRequirement → Op
ending none tr = Op.finish_of tr Outcome.error
ending (some e) tr = Op.abort_of tr Outcome.error

module _ {S : Type 0} (c : Setting) (now : String) (ctx_err : S → Option String) where
  -- The requirements of a failing setup, aborted where the context has ended and completed elsewhere.
  pub end_all : S → Shared → List TestRequirement → Shared
  end_all s w [] = w
  end_all s w (tr ∷ trs) = end_all s (advance c now (ending (ctx_err s) tr) w) trs

  -- What the result of a setup does.
  pub after_setup : ScopedSetup S → S → Option String → Prepared S → Prepared S
  unfolding end_all
  after_setup s world none p = record p { world = world; ran = p.ran ++ s ∷ [] }
  after_setup s world (some e) p = record p {
    shared =
        end_all world
          (call c (Call.produced (err_trs s.trs ("setup [" <> s.label <> "]: " <> e)) []) p.shared)
          s.trs;
    world = world;
    scorable = without_trs p.scorable s.trs;
  }

  abbrev pub run_one_setup : ScopedSetup S → Prepared S → Prepared S
  run_one_setup s p =
      let (world, err) = s.provider.setup s.trs p.world in
      after_setup s world err
        (record p { shared = call c (Call.staged ("setup:" <> s.label) s.trs) p.shared })

  unfoldable pub run_setups : Prepared S → List (ScopedSetup S) → Prepared S
  unfolding after_setup
  run_setups p [] = p
  run_setups p (s ∷ setups) = run_setups (run_one_setup s p) setups

-- The deferred teardown: the setups that ran, the last one first.
unfoldable pub tear_down_setups : {S : Type 0} → List (ScopedSetup S) → S → S
tear_down_setups [] world = world
tear_down_setups (s ∷ ran) world = s.provider.teardown s.trs (tear_down_setups ran world)
