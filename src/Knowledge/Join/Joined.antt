-- ===== src/Knowledge/Join/Joined.antt =====
-- When the two exports join, and what the join holds.
use storage_cert_harness.Common.{
  String, ◌≡◌, refl, sym, ap, ◌∙◌, ◌↔◌, inl, inr, Bool, true, List, [], ◌∷◌, ◌++◌, map, Option,
  none, some, arith, ◌==◌, eq_iff, if◌then◌else◌, any, All, Bool-cases, Option-cases, is_some,
  lookup, insert, lookup-insert, or_else, sort_by,
}
use mathlib.Core.List.{append-nil, append_assoc}
use storage_cert_harness.Core.{Sla, TestRequirement}
use storage_cert_harness.Report.Measurements.{or_none}
use storage_cert_harness.Knowledge.Records.{All-iff}
use storage_cert_harness.Knowledge.Catalog
use storage_cert_harness.Knowledge.Thresholds
use storage_cert_harness.Knowledge.Catalog.{Entry}
use storage_cert_harness.Knowledge.Thresholds.{Bars}
use storage_cert_harness.Knowledge.Join.{
  joined, index, with_bars, join_each, left_out, by_id_order, join,
}

-- The bars of the last record with an id.
abbrev pub bars_of : List Bars → String → Option (List Sla)
bars_of [] id = none
bars_of (t ∷ ts) id = or_else (bars_of ts id) (if t.id == id then some t.sla else none)

abbrev known : List Entry → String → Bool
known cs id = any (λ c. c.id == id) cs

lookup-index :
    (id : String) (m : List (String × List Sla)) (ts : List Bars)
    → lookup id (index m ts) ≡ or_else (bars_of ts id) (lookup id m)
lookup-index id m [] = refl
lookup-index id m (t ∷ ts) =
    ground (arith, lookup-index id (insert t.id t.sla m) ts, lookup-insert t.id id t.sla m)

left_out-insert :
    (cs : List Entry) (k : String) (v : List Sla) (m : List (String × List Sla))
    → (left_out cs (insert k v m) ≡ none) ↔ ((known cs k ≡ true) × (left_out cs m ≡ none))
unfolding left_out insert
left_out-insert cs k v [] = ground arith
left_out-insert cs k v ((j, w) ∷ m) = elim (Bool-cases (j == k)) [
  | inl t ↦ let same : j ≡ k = (eq_iff j k).0 t in ground (arith, t, ap (known cs) same)
  | inr f ↦ ground (arith, f, left_out-insert cs k v m)
]

left_out-index :
    (cs : List Entry) (m : List (String × List Sla)) (ts : List Bars)
    → (left_out cs (index m ts) ≡ none)
      ↔ (All (λ t. known cs t.id ≡ true) ts × (left_out cs m ≡ none))
left_out-index cs m [] = (λ h. (tt, h), λ (u, h). h)
left_out-index cs m (t ∷ ts) =
    let rest = left_out-index cs (insert t.id t.sla m) ts in
    let first = left_out-insert cs t.id t.sla m in
    (
      λ h. let (later, now) = rest.0 h in let (k, before) = first.0 now in ((k, later), before),
      λ ((k, later), before). rest.1 (later, first.1 (k, before)),
    )

-- Every record of the catalog finds its bars.
abbrev Found : List (String × List Sla) → List Entry → Type 0
Found m = All (λ c. is_some (lookup c.id m) ≡ true)

abbrev entry : List (String × List Sla) → Entry → TestRequirement
entry m c = with_bars c (or_none (lookup c.id m))

join_each-Found :
    (m : List (String × List Sla)) (out : List TestRequirement) (cs : List Entry)
    → Found m cs
    → join_each m out cs ≡ (out ++ map (entry m) cs, none)
unfolding join_each
join_each-Found m out [] h = ap (λ o. (o, none)) (sym (append-nil out))
join_each-Found m out (c ∷ cs) (f, h) = elim (Option-cases (lookup c.id m)) [
  | inl missing ↦ absurd (ground (arith, f, missing))
  | inr (bars, found) ↦
      rw (found, join_each)
        (join_each-Found m (out ++ with_bars c bars ∷ []) cs h
          ∙ ap (λ o. (o, none)) (append_assoc out (with_bars c bars ∷ []) (map (entry m) cs)))
]

join_each_all :
    (m : List (String × List Sla)) (out : List TestRequirement) (cs : List Entry)
    → (join_each m out cs).1 ≡ none
    → Found m cs
unfolding join_each
join_each_all m out [] h = tt
join_each_all m out (c ∷ cs) h = elim (Option-cases (lookup c.id m)) [
  | inl missing ↦ absurd (ground (arith, h, missing))
  | inr (bars, found) ↦ (
    ground (arith, found),
    join_each_all m (out ++ with_bars c bars ∷ []) cs (rw (found, join_each) at h),
  )
]

module _ (cat : Catalog.Doc) (th : Thresholds.Doc) where
  abbrev by_id : List (String × List Sla)
  by_id = index [] th.test_requirements

  -- The requirements of the catalog with their bars, sorted by id.
  abbrev pub entries : List TestRequirement
  entries =
      sort_by by_id_order
        (map (λ c. with_bars c (or_none (bars_of th.test_requirements c.id))) cat.test_requirements)

  abbrev pub Same : Type 0
  Same =
      (cat.schema_version ≡ th.schema_version)
      × (cat.provenance.kb_git_commit ≡ th.provenance.kb_git_commit)
      × All (λ c. is_some (bars_of th.test_requirements c.id) ≡ true) cat.test_requirements
      × All (λ t. any (λ c. c.id == t.id) cat.test_requirements ≡ true) th.test_requirements

  no_missing :
      Found by_id cat.test_requirements → (join_each by_id [] cat.test_requirements).1 ≡ none
  no_missing h = ap (λ r. r.1) (join_each-Found by_id [] cat.test_requirements h)

  lookups : (id : String) → lookup id by_id ≡ bars_of th.test_requirements id
  lookups id =
      lookup-index id [] th.test_requirements ∙ or_none_else (bars_of th.test_requirements id)
    where
      or_none_else : (o : Option (List Sla)) → or_else o none ≡ o
      or_none_else none = refl
      or_none_else (some x) = refl

  -- What the guards of the join say.
  join_step :
      (out : List TestRequirement)
      → (join cat th ≡ joined out) ↔ (
          (cat.schema_version ≡ th.schema_version)
          × (cat.provenance.kb_git_commit ≡ th.provenance.kb_git_commit)
          × ((join_each by_id [] cat.test_requirements).1 ≡ none)
          × (left_out cat.test_requirements by_id ≡ none)
          × (sort_by by_id_order (join_each by_id [] cat.test_requirements).0 ≡ out))
  unfolding join
  join_step out = ground (
    arith,
    eq_iff cat.schema_version th.schema_version,
    eq_iff cat.provenance.kb_git_commit th.provenance.kb_git_commit,
  )

  Found-iff :
      Found by_id cat.test_requirements
      ↔ All (λ c. is_some (bars_of th.test_requirements c.id) ≡ true) cat.test_requirements
  Found-iff =
      All-iff {P = λ (c : Entry). is_some (lookup c.id by_id) ≡ true}
        {Q = λ (c : Entry). is_some (bars_of th.test_requirements c.id) ≡ true}
        cat.test_requirements
        (λ c. (λ h. sym (ap is_some (lookups c.id)) ∙ h, λ h. ap is_some (lookups c.id) ∙ h))

  left_out_iff :
      (left_out cat.test_requirements by_id ≡ none)
      ↔ All (λ t. any (λ c. c.id == t.id) cat.test_requirements ≡ true) th.test_requirements
  unfolding left_out
  left_out_iff =
      let whole = left_out-index cat.test_requirements [] th.test_requirements in
      (λ h. (whole.0 h).0, λ h. whole.1 (h, refl))

  entries_lem :
      Found by_id cat.test_requirements
      → sort_by by_id_order (join_each by_id [] cat.test_requirements).0 ≡ entries
  entries_lem h =
      ap (λ r. sort_by by_id_order r.0) (join_each-Found by_id [] cat.test_requirements h) ∙ (λ i.
        sort_by by_id_order
          (map (λ c. with_bars c (or_none (lookups c.id i))) cat.test_requirements))

  -- The exports join exactly if they have one schema version and come from one commit of the knowledge
  -- base, every record of the catalog has bars, and every id with bars is in the catalog. The join is
  -- then the catalog's records, sorted by id, each with the bars of the last record that has its id.
  pub join_iff :
      (out : List TestRequirement) → (join cat th ≡ joined out) ↔ (Same × (entries ≡ out))
  join_iff out =
      let step = join_step out in
      (
        λ h.
            let (v, k, missing, left, same) = step.0 h in
            let found = join_each_all by_id [] cat.test_requirements missing in
            ((v, k, Found-iff.0 found, left_out_iff.0 left), sym (entries_lem found) ∙ same),
        λ ((v, k, found, left), same).
            let there = Found-iff.1 found in
            step.1 (v, k, no_missing there, left_out_iff.1 left, entries_lem there ∙ same),
      )
