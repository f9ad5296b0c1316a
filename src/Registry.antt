-- ===== src/Registry.antt =====
-- internal/registry/registry.go: the tools and the shared setups that the program is linked with, and
-- internal/orchestrator/orchestrator.go, `ResolveTool` and `runnable`. A map is an association list; the
-- order in which Go iterates over it is the list's, which the theorems leave open. `T` and `P` are what
-- the model does not read of a tool and of a setup provider.
pub mod Lookup
use Prim.Native.Char.{Char, code}
use storage_cert_harness.Common.{
  String, Bool, true, false, not, ◌&&◌, ◌||◌, eqb, List, [], ◌∷◌, ◌++◌, map, Option, none, some,
  ◌==◌, ◌<>◌, if◌then◌else◌, is_some, lookup, insert, str_lt, sort_by,
}
use storage_cert_harness.Core.{TestRequirement}

-- The fields of a `ToolIntegration` that finding it reads.
pub record Tool (T : Type 0) : Type 0 where
  pub name : String
  pub provides : List String
  pub setup_groups : List String
  pub rest : T

-- `SetupInfo`, with its provider.
pub record Setup (P : Type 0) : Type 0 where
  pub scope : String
  pub key : String
  pub provider : P

-- What a registration gives; the last three are panics.
pub data Registered (A : Type 0) : Type 0 where
  added : A → Registered A
  empty_name empty_key : Registered A
  duplicate : String → Registered A

-- The inner loop of `ForTRID`, over what one tool provides.
best_name : String → String → String → List String → String
best_name id name best [] = best
best_name id name best (p ∷ ps) =
    best_name id name (if p == id && (best == "" || str_lt name best) then name else best) ps

module _ {T : Type 0} where
  unfoldable pub register : Tool T → List (String × Tool T) → Registered (List (String × Tool T))
  register t tools =
      if t.name == ""
      then empty_name
      else if is_some (lookup t.name tools)
      then duplicate t.name
      else added (insert t.name t tools)

  best_of : String → String → List (String × Tool T) → String
  unfolding best_name
  best_of id best [] = best
  best_of id best ((name, t) ∷ tools) = best_of id (best_name id name best t.provides) tools

  unfoldable pub for_tr_id : String → List (String × Tool T) → Option (Tool T)
  unfolding best_of
  for_tr_id id tools =
      let best = best_of id "" tools in if best == "" then none else lookup best tools

  unfoldable pub resolve_tool : List (String × Tool T) → TestRequirement → Option (Tool T)
  unfolding for_tr_id
  resolve_tool tools tr = elim (lookup tr.automation_tool tools) [
    | some t ↦ some t
    | none ↦ for_tr_id tr.id tools
  ]

  unfoldable pub runnable : List (String × Tool T) → TestRequirement → Bool
  unfolding resolve_tool
  runnable tools tr =
      if tr.automation_tool == "" || tr.automation_tool == "manual"
      then false
      else is_some (resolve_tool tools tr)

abbrev pub setup_id : String → String → String
setup_id scope key = scope <> "/" <> key

-- `strings.HasPrefix`, with the prefix first.
unfoldable pub has_prefix : String → String → Bool
has_prefix String.[] s = true
has_prefix (String.◌∷◌ c p) String.[] = false
has_prefix (String.◌∷◌ c p) (String.◌∷◌ d s) = eqb (code c) (code d) && has_prefix p s

module _ {P : Type 0} where
  -- A second registration of one scope and key is ignored.
  unfoldable pub register_setup :
      Setup P → List (String × Setup P) → Registered (List (String × Setup P))
  register_setup p setups =
      if p.key == ""
      then empty_key
      else if is_some (lookup (setup_id p.scope p.key) setups)
      then added setups
      else added (insert (setup_id p.scope p.key) p setups)

  unfoldable pub setup_provider : List (String × Setup P) → String → String → Option (Setup P)
  setup_provider setups scope key = lookup (setup_id scope key) setups

  run_keys : List String → List (String × Setup P) → List String
  unfolding has_prefix
  run_keys keys [] = keys
  run_keys keys ((id, p) ∷ setups) =
      run_keys (if has_prefix "run/" id then keys ++ id ∷ [] else keys) setups

  -- The providers with the given ids.
  provided : List (String × Setup P) → List String → List (Setup P)
  provided setups [] = []
  provided setups (id ∷ ids) =
      let rest = provided setups ids in elim (lookup id setups) [ some p ↦ p ∷ rest | none ↦ rest ]

  unfoldable pub run_setup_providers : List (String × Setup P) → List (Setup P)
  unfolding run_keys provided
  run_setup_providers setups = provided setups (sort_by str_lt (run_keys [] setups))
