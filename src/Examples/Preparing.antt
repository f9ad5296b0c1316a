-- ===== src/Examples/Preparing.antt =====
-- Two tools, of which one offers a requirement that names neither, and a run whose shared setup fails.
use mathlib.Core.List.{Memᴰ}
use mathlib.Core.List.Memᴰ
use storage_cert_harness.Common.{
  String, ◌≡◌, refl, sym, ap, ◌∙◌, ◌↔◌, ◌≢◌, inl, inr, true, false, List, [], ◌∷◌, none, some, All,
  keep, arith, ◌==◌, eq_iff, str_lt, sort_by,
}
use storage_cert_harness.Core.{TestRequirement}
use storage_cert_harness.Examples.Grading.{tr}
use storage_cert_harness.Examples.Running.{Log, setting}
use storage_cert_harness.Orchestrator.Selection.{missing_required_params}
use storage_cert_harness.Orchestrator.Run.Steps.{opening}
use storage_cert_harness.Orchestrator.Triage.{Provider, triage}
use storage_cert_harness.Orchestrator.Triage.Scopes.{SameGroups, groups_for}
use storage_cert_harness.Orchestrator.Triage.Settled.{HasEnded, prepared, sifted}
use storage_cert_harness.Orchestrator.Triage.Left.{is_left, prepared-keep}
use storage_cert_harness.Registry.{Tool, Setup, for_tr_id, runnable}
use storage_cert_harness.Registry.Lookup.{offers, for_tr_id_iff}

abbrev tool : String → Tool Unit
tool name = record { name = name; provides = "TR-7" ∷ []; setup_groups = "images" ∷ []; rest = tt }

abbrev tools : List (String × Tool Unit)
tools = ("virtbench", tool "virtbench") ∷ ("kube-burner", tool "kube-burner") ∷ []

nonempty : (s : String) → (s == "") ≡ false → s ≢ ""
nonempty s f h = ground (arith, f, (eq_iff s "").1 h)

for_tr_id_example : (for_tr_id "TR-7" tools ≡ some (tool "kube-burner")) ↔ (
    Memᴰ ("kube-burner", tool "kube-burner") tools
    × (offers "TR-7" (tool "kube-burner") ≡ true)
    × All (λ e. offers "TR-7" e.1 ≡ true → str_lt e.0 "kube-burner" ≡ false) tools)
for_tr_id_example =
    for_tr_id_iff "TR-7" tools (tool "kube-burner") (refl, (refl, tt))
      ((nonempty "virtbench" refl, refl), ((nonempty "kube-burner" refl, refl), tt))

-- The images cannot be imported.
abbrev images : Setup (Provider Log)
images = record {
  scope = "group";
  key = "images";
  provider = record { setup = λ trs s. (s, some "no space"); teardown = λ trs s. s };
}

abbrev setups : List (String × Setup (Provider Log))
setups = ("group/images", images) ∷ []

abbrev manual : TestRequirement
manual = record tr { id = "TR-5"; automation_tool = "manual" }

abbrev only : {r : TestRequirement} → Memᴰ r (tr ∷ []) → r ≡ tr
only m = elim (Memᴰ.cases_cons m) [ inl e ↦ e | inr later ↦ absurd (Memᴰ.not-nil later) ]

left :
    (sifted setting "noon" (λ s. none) tools setups (opening setting) [] (tr ∷ manual ∷ [])).1
    ≡ tr ∷ []
unfolding triage runnable missing_required_params sort_by
left = refl

one_id : SameGroups tools (tr ∷ [])
one_id r s m n same = ap (λ (t : TestRequirement). groups_for tools t) (only m ∙ sym (only n))

groups_agree :
    SameGroups tools
      (sifted setting "noon" (λ s. none) tools setups (opening setting) [] (tr ∷ manual ∷ [])).1
groups_agree = rw left one_id

prepared-keep_example :
    let p =
      prepared setting "noon" (λ s. none) tools setups (opening setting) [] (tr ∷ manual ∷ []) in
    let stays =
      is_left setting "noon" (λ s. none) tools setups (opening setting) [] (tr ∷ manual ∷ []) in
    (p.scorable ≡ keep stays (tr ∷ manual ∷ []))
    × All (λ x. stays x ≡ false → HasEnded x p.shared) (tr ∷ manual ∷ [])
prepared-keep_example =
    prepared-keep setting "noon" (λ s. none) tools setups (opening setting) [] (tr ∷ manual ∷ [])
      groups_agree
