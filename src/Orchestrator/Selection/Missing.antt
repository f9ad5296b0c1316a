-- ===== src/Orchestrator/Selection/Missing.antt =====
-- The required parameters that a run leaves without a value.
use mathlib.Core.List.Memᴰ
use mathlib.Core.List.{append-nil, append_assoc, Memᴰ}
use storage_cert_harness.Common.{
  String, ◌≡◌, sym, ap, ◌∙◌, ◌↔◌, Bool, true, false, ◌&&◌, not, List, [], ◌∷◌, ◌++◌, map, none,
  arith, is_some, keep, keep-mem, mem-keep, lookup, Bool-cases, inl, inr, str_lt, str_lt_trans,
  str_lt_total, str_lt_asymm, eq→path, IsSorted, sort_by-IsSorted, mem-sort_by, sort_by-mem, Orders,
  ◌==◌,
}
use storage_cert_harness.Core.{Params, ParamSpec, TestRequirement}
use storage_cert_harness.Orchestrator.Selection.{missing_names, missing_required_params}

str_lt_chain : (a b c : String) → str_lt b a ≡ false → str_lt c b ≡ false → str_lt c a ≡ false
str_lt_chain a b c p q = elim (Bool-cases (str_lt c a)) [
  | inl t ↦ elim (Bool-cases (b == a)) [
    | inl e ↦ absurd (cc (q, t, eq→path b a e))
    | inr f ↦ absurd (cc (q, str_lt_trans c a b t (str_lt_total b a f p)))
  ]
  | inr f ↦ f
]

str_lt-Orders : Orders str_lt
str_lt-Orders = record { asymm = str_lt_asymm; chain = str_lt_chain }

abbrev name_of : String × ParamSpec → String
name_of e = e.0

abbrev is_owed : Params → String × ParamSpec → Bool
is_owed params e = e.1.required && not (is_some (lookup e.0 params))

missing_names-map :
    (params : Params) (missing : List String) (specs : List (String × ParamSpec))
    → missing_names params missing specs ≡ missing ++ map name_of (keep (is_owed params) specs)
unfolding missing_names
missing_names-map params missing [] = sym (append-nil missing)
missing_names-map params missing ((name, spec) ∷ specs) =
    elim (Bool-cases (is_owed params (name, spec))) [
      | inl t ↦ rw t (
          ground (arith, t)
          ∙ missing_names-map params (missing ++ name ∷ []) specs
          ∙ append_assoc missing (name ∷ []) (map name_of (keep (is_owed params) specs)))
      | inr f ↦ rw f (ground (arith, f) ∙ missing_names-map params missing specs)
    ]

map-mem :
    {name : String} (es : List (String × ParamSpec))
    → Memᴰ name (map name_of es)
    → (spec : ParamSpec) × Memᴰ (name, spec) es
map-mem [] m = absurd (Memᴰ.not-nil m)
map-mem ((k, spec) ∷ es) m = elim (Memᴰ.cases_cons m) [
  | inl e ↦ (spec, Memᴰ.head (λ i. (e i, spec)))
  | inr later ↦ let (found, n) = map-mem es later in (found, Memᴰ.tail n)
]

mem-map :
    {name : String} {spec : ParamSpec} {es : List (String × ParamSpec)}
    → Memᴰ (name, spec) es
    → Memᴰ name (map name_of es)
mem-map (Memᴰ.head e) = Memᴰ.head (ap name_of e)
mem-map (Memᴰ.tail m) = Memᴰ.tail (mem-map m)

-- The missing names are in order, and are exactly those of the required parameters that the
-- requirement's parameters do not hold.
pub missing_required_params_iff :
    (tr : TestRequirement)
    → IsSorted str_lt (missing_required_params tr)
      × ((name : String)
          → Memᴰ name (missing_required_params tr) ↔ (
              (spec : ParamSpec) × Memᴰ (name, spec) tr.param_spec
              × (spec.required ≡ true)
              × (lookup name tr.params ≡ none)))
unfolding missing_required_params
missing_required_params_iff tr =
    let names = missing_names-map tr.params [] tr.param_spec in
    (
      sort_by-IsSorted str_lt-Orders (missing_names tr.params [] tr.param_spec),
      λ name. rw names (
        λ m.
            let (spec, owed) = map-mem _ (sort_by-mem str_lt _ m) in
            let (given, t) = mem-keep (is_owed tr.params) tr.param_spec owed in
            (spec, given, ground (arith, t), ground (arith, t)),
        λ (spec, given, required, absent).
            mem-sort_by str_lt _
              (mem-map (keep-mem (is_owed tr.params) given (ground (arith, required, absent)))),
      ),
    )
