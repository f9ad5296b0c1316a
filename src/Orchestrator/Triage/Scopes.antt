-- ===== src/Orchestrator/Triage/Scopes.antt =====
-- Which requirements a shared setup is for.
use mathlib.Core.List.{Memᴰ, append-nil, append_assoc}
use mathlib.Core.List.Memᴰ
use storage_cert_harness.Common.{
  String, ◌≡◌, refl, sym, ap, ◌∙◌, ◌⊎◌, inl, inr, true, List, [], ◌∷◌, ◌++◌, map, is_some, arith,
  ◌==◌, eq_iff, if◌then◌else◌, any, any→mem, keep, flat_map, All, All-append, Bool-cases,
  Option-cases, lookup, insert, lookup-insert, is_empty, sort_by, str_lt,
}
use storage_cert_harness.Core.{TestRequirement}
use storage_cert_harness.Report.Measurements.{or_none}
use storage_cert_harness.Registry.{Tool, Setup, resolve_tool, setup_provider, run_setup_providers}
use storage_cert_harness.Orchestrator.Selection.{has}
use storage_cert_harness.Orchestrator.Triage.{
  Provider, ScopedSetup, Groups, join_groups, groups_of, collect_groups, group_setups, run_setup,
  active_setups,
}

-- A setup is for all of the requirements that have one of its ids.
abbrev pub IsWhole : {S : Type 0} → List TestRequirement → ScopedSetup S → Type 0
IsWhole all s =
    (tr : TestRequirement) → Memᴰ tr all → any (λ r. r.id == tr.id) s.trs ≡ true → Memᴰ tr s.trs

-- The requirement, once for each time that the key is among its groups.
abbrev copies : String → TestRequirement → List String → List TestRequirement
copies k tr keys = map (λ j. tr) (keep (λ j. j == k) keys)

append-mem_left : {A : Type 0} {a : A} (xs ys : List A) → Memᴰ a xs → Memᴰ a (xs ++ ys)
append-mem_left [] ys m = absurd (Memᴰ.not-nil m)
append-mem_left (x ∷ xs) ys (Memᴰ.head e) = Memᴰ.head e
append-mem_left (x ∷ xs) ys (Memᴰ.tail m) = Memᴰ.tail (append-mem_left xs ys m)

append-mem_right : {A : Type 0} {a : A} (xs ys : List A) → Memᴰ a ys → Memᴰ a (xs ++ ys)
append-mem_right [] ys m = m
append-mem_right (x ∷ xs) ys m = Memᴰ.tail (append-mem_right xs ys m)

-- A requirement put into the group of a key, seen from any key.
placed :
    (k key : String) (tr : TestRequirement) (m : List (String × List TestRequirement))
    → or_none (lookup k (insert key (or_none (lookup key m) ++ tr ∷ []) m))
      ≡ or_none (lookup k m) ++ (if key == k then tr ∷ [] else [])
placed k key tr m =
    let v = or_none (lookup key m) ++ tr ∷ [] in
    elim (Bool-cases (key == k)) [
      | inl t ↦
          ap or_none (lookup-insert key k v m)
          ∙ rw t (ap (λ j. or_none (lookup j m) ++ tr ∷ []) ((eq_iff key k).0 t))
      | inr f ↦
          ap or_none (lookup-insert key k v m) ∙ rw f (sym (append-nil (or_none (lookup k m))))
    ]

copies-cons :
    (k key : String) (tr : TestRequirement) (keys : List String)
    → (if key == k then tr ∷ [] else []) ++ copies k tr keys ≡ copies k tr (key ∷ keys)
copies-cons k key tr keys = elim (Bool-cases (key == k)) [ inl t ↦ rw t refl | inr f ↦ rw f refl ]

join_groups-scope :
    (k : String) (tr : TestRequirement) (g : Groups) (keys : List String)
    → or_none (lookup k (join_groups tr g keys).group_trs)
      ≡ or_none (lookup k g.group_trs) ++ copies k tr keys
unfolding join_groups
join_groups-scope k tr g [] = sym (append-nil (or_none (lookup k g.group_trs)))
join_groups-scope k tr g (key ∷ keys) =
    let mine = if key == k then tr ∷ [] else [] in
    join_groups-scope k tr
      (record {
        order = if is_some (lookup key g.group_trs) then g.order else g.order ++ key ∷ [];
        group_trs = insert key (or_none (lookup key g.group_trs) ++ tr ∷ []) g.group_trs;
      })
      keys
    ∙ ap (λ l. l ++ copies k tr keys) (placed k key tr g.group_trs)
    ∙ append_assoc (or_none (lookup k g.group_trs)) mine (copies k tr keys)
    ∙ ap (λ l. or_none (lookup k g.group_trs) ++ l) (copies-cons k key tr keys)

abbrev pub groups_for : {T : Type 0} → List (String × Tool T) → TestRequirement → List String
groups_for tools tr = groups_of (resolve_tool tools tr)

-- Requirements with one id belong to the same setup groups.
abbrev pub SameGroups : {T : Type 0} → List (String × Tool T) → List TestRequirement → Type 0
SameGroups tools trs =
    (r tr : TestRequirement)
    → Memᴰ r trs
    → Memᴰ tr trs
    → (r.id == tr.id) ≡ true
    → groups_for tools r ≡ groups_for tools tr

append-cases : {A : Type 0} {a : A} (xs ys : List A) → Memᴰ a (xs ++ ys) → Memᴰ a xs ⊎ Memᴰ a ys
append-cases [] ys m = inr m
append-cases (x ∷ xs) ys m = elim (Memᴰ.cases_cons m) [
  | inl e ↦ inl (Memᴰ.head e)
  | inr later ↦ elim (append-cases xs ys later) [
    | inl front ↦ inl (Memᴰ.tail front)
    | inr back ↦ inr back
  ]
]

module _ {T S : Type 0} (tools : List (String × Tool T))
    (setups : List (String × Setup (Provider S))) where
  -- The requirements of a group, in the order of the selection.
  abbrev scope : String → List TestRequirement → List TestRequirement
  scope k = flat_map (λ tr. copies k tr (groups_for tools tr))

  collect_groups-scope :
      (k : String) (g : Groups) (trs : List TestRequirement)
      → or_none (lookup k (collect_groups tools setups g trs).group_trs)
        ≡ or_none (lookup k g.group_trs) ++ scope k trs
  unfolding collect_groups
  collect_groups-scope k g [] = sym (append-nil (or_none (lookup k g.group_trs)))
  collect_groups-scope k g (tr ∷ trs) =
      collect_groups-scope k (join_groups tr g (groups_for tools tr)) trs
      ∙ ap (λ l. l ++ scope k trs) (join_groups-scope k tr g (groups_for tools tr))
      ∙ append_assoc (or_none (lookup k g.group_trs)) (copies k tr (groups_for tools tr))
          (scope k trs)

  copies-mem :
      (k : String) (tr : TestRequirement) (keys : List String)
      → has keys k ≡ true
      → Memᴰ tr (copies k tr keys)
  copies-mem k tr [] h = absurd (ground (arith, h))
  copies-mem k tr (key ∷ keys) h = elim (Bool-cases (key == k)) [
    | inl t ↦ rw t (Memᴰ.head refl)
    | inr f ↦ rw f (copies-mem k tr keys (ground (arith, h, f)))
  ]

  mem-copies :
      (k : String) (x tr : TestRequirement) (keys : List String)
      → Memᴰ x (copies k tr keys)
      → (x ≡ tr) × (has keys k ≡ true)
  mem-copies k x tr [] m = absurd (Memᴰ.not-nil m)
  mem-copies k x tr (key ∷ keys) m = elim (Bool-cases (key == k)) [
    | inl t ↦ elim (Memᴰ.cases_cons (rw t at m)) [
      | inl e ↦ (e, rw t refl)
      | inr later ↦ ((mem-copies k x tr keys later).0, rw t refl)
    ]
    | inr f ↦ let (e, h) = mem-copies k x tr keys (rw f at m) in (e, ground (arith, h))
  ]

  scope-mem :
      (k : String) {x : TestRequirement} {trs : List TestRequirement}
      → Memᴰ x trs
      → has (groups_for tools x) k ≡ true
      → Memᴰ x (scope k trs)
  scope-mem k {trs = []} m h = absurd (Memᴰ.not-nil m)
  scope-mem k {x} {trs = tr ∷ trs} (Memᴰ.head e) h =
      append-mem_left (copies k tr (groups_for tools tr)) (scope k trs)
        (rw (← e) (copies-mem k x (groups_for tools x) h))
  scope-mem k {x} {trs = tr ∷ trs} (Memᴰ.tail m) h =
      append-mem_right (copies k tr (groups_for tools tr)) (scope k trs)
        (scope-mem k {trs = trs} m h)

  mem-scope :
      (k : String) (x : TestRequirement) (trs : List TestRequirement)
      → Memᴰ x (scope k trs)
      → Memᴰ x trs × (has (groups_for tools x) k ≡ true)
  mem-scope k x [] m = absurd (Memᴰ.not-nil m)
  mem-scope k x (tr ∷ trs) m =
      elim (append-cases (copies k tr (groups_for tools tr)) (scope k trs) m) [
        | inl front ↦
            let (e, h) = mem-copies k x tr (groups_for tools tr) front in (Memᴰ.head e, rw e h)
        | inr back ↦ let (n, h) = mem-scope k x trs back in (Memᴰ.tail n, h)
      ]

  module _ (scorable : List TestRequirement) (same : SameGroups tools scorable) where
    abbrev grouped : Groups
    grouped = collect_groups tools setups (record { order = []; group_trs = [] }) scorable

    scope-whole :
        (k : String) (tr : TestRequirement)
        → Memᴰ tr scorable
        → any (λ r. r.id == tr.id) (scope k scorable) ≡ true
        → Memᴰ tr (scope k scorable)
    scope-whole k tr m h =
        let (r, n, named) = any→mem (λ r. r.id == tr.id) (scope k scorable) h in
        let (there, member) = mem-scope k r scorable n in
        scope-mem k {trs = scorable} m
          (sym (ap (λ keys. has keys k) (same r tr there m named)) ∙ member)

    group_setups-IsWhole :
        (keys : List String)
        → All (IsWhole scorable) (group_setups tools setups grouped.group_trs keys)
    unfolding group_setups
    group_setups-IsWhole [] = tt
    group_setups-IsWhole (k ∷ keys) = elim (Option-cases (setup_provider setups "group" k)) [
      | inl none_there ↦ rw (none_there, group_setups) (group_setups-IsWhole keys)
      | inr (p, found) ↦
          rw (found, group_setups)
            (
              (λ tr m h.
                  rw (collect_groups-scope k (record { order = []; group_trs = [] }) scorable) (
                    scope-whole k tr m (
                      rw (collect_groups-scope k (record { order = []; group_trs = [] }) scorable)
                        at h))),
              group_setups-IsWhole keys,
            )
    ]

    run_setups-IsWhole :
        (ps : List (Setup (Provider S)))
        → All (IsWhole scorable) (map (run_setup tools setups scorable) ps)
    run_setups-IsWhole [] = tt
    run_setups-IsWhole (p ∷ ps) = ((λ tr m h. m), run_setups-IsWhole ps)

    -- Every setup that a run makes has in its scope all the requirements with an id of its scope.
    pub active_setups-IsWhole : All (IsWhole scorable) (active_setups tools setups scorable)
    unfolding active_setups
    active_setups-IsWhole = elim (Bool-cases (is_empty scorable)) [
      | inl t ↦ rw t tt
      | inr f ↦ rw f (
          All-append (IsWhole scorable)
            (map (run_setup tools setups scorable) (run_setup_providers setups)) _
            (run_setups-IsWhole (run_setup_providers setups))
            (group_setups-IsWhole (sort_by str_lt grouped.order)))
    ]
