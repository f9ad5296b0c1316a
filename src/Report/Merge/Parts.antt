-- ===== src/Report/Merge/Parts.antt =====
-- The run parts and the incidents of a merged report.
use mathlib.Core.List.{Memᴰ}
use storage_cert_harness.Common.{
  String, ◌≡◌, refl, sym, ap, ◌∙◌, ◌↔◌, inl, inr, Bool, true, false, not, List, [], ◌∷◌, ◌++◌, none,
  some, is_some, Option-cases, arith, Bool-cases, ◌==◌, eq_iff, eq_sym, length, keep, keep-append,
  All, or_else,
}
use storage_cert_harness.Core.{RunPart, Report, Incident}
use storage_cert_harness.Report.Keyed.{
  find, last_with, put, latest, Distinct, find-put, put-Distinct, append-put, mem→find, find→mem,
  latest_keeps, latest-append,
}
use storage_cert_harness.Report.Merge.{
  member, replace_part, add_parts, parts_of, merge_composition, incident_key, first_incidents,
  merge_incidents,
}

abbrev pub part_id : RunPart → String
part_id p = p.part_id

abbrev named : RunPart → Bool
named p = not (p.part_id == "")

-- The set of seen ids is exact.
abbrev Sees : List String → List RunPart → Type 0
Sees seen parts = (k : String) → member k seen ≡ is_some (find part_id k parts)

replace_part-absent :
    (p : RunPart) (qs : List RunPart) → find part_id p.part_id qs ≡ none → replace_part p qs ≡ qs
unfolding replace_part
replace_part-absent p [] h = refl
replace_part-absent p (q ∷ qs) h = ground (arith, replace_part-absent p qs)

none_of_others :
    (q : RunPart) (qs : List RunPart)
    → All (λ r. (part_id q == part_id r) ≡ false) qs
    → find part_id q.part_id qs ≡ none
none_of_others q [] h = refl
none_of_others q (r ∷ qs) h =
    ground (arith, none_of_others q qs h.1, h.0, eq_sym q.part_id r.part_id)

replace_part-put :
    (p : RunPart) (qs : List RunPart)
    → Distinct part_id qs
    → is_some (find part_id p.part_id qs) ≡ true
    → replace_part p qs ≡ put part_id p qs
unfolding replace_part put
replace_part-put p [] d h = cc
replace_part-put p (q ∷ qs) d h = elim (Bool-cases (q.part_id == p.part_id)) [
  | inl t ↦
      let same = (eq_iff q.part_id p.part_id).0 t in
      rw t (ap (λ l. p ∷ l) (replace_part-absent p qs (rw same at (none_of_others q qs d.0))))
  | inr f ↦ rw f (ap (λ l. q ∷ l) (replace_part-put p qs d.1 (rw f at h)))
]

-- What one run of the loop leaves, from a state in which the seen ids are exact.
record Added (parts ps : List RunPart) (out : List String × List RunPart) : Type 0 where
  sees : Sees out.0 out.1
  distinct : Distinct part_id out.1
  kept : out.1 ≡ latest part_id parts (keep named ps)

add_parts-skip :
    (seen : List String) (parts ps : List RunPart) (p : RunPart)
    → (p.part_id == "") ≡ true
    → add_parts seen parts (p ∷ ps) ≡ add_parts seen parts ps
unfolding add_parts
add_parts-skip seen parts ps p h = rw h

add_parts-known :
    (seen : List String) (parts ps : List RunPart) (p : RunPart)
    → (p.part_id == "") ≡ false
    → member p.part_id seen ≡ true
    → add_parts seen parts (p ∷ ps) ≡ add_parts seen (replace_part p parts) ps
unfolding add_parts
add_parts-known seen parts ps p h k = rw (h, k)

add_parts-new :
    (seen : List String) (parts ps : List RunPart) (p : RunPart)
    → (p.part_id == "") ≡ false
    → member p.part_id seen ≡ false
    → add_parts seen parts (p ∷ ps) ≡ add_parts (p.part_id ∷ seen) (parts ++ p ∷ []) ps
unfolding add_parts
add_parts-new seen parts ps p h k = rw (h, k)

latest-named :
    (parts ps : List RunPart) (p : RunPart)
    → (p.part_id == "") ≡ false
    → latest part_id parts (keep named (p ∷ ps))
      ≡ latest part_id (put part_id p parts) (keep named ps)
unfolding latest
latest-named parts ps p h = rw h

latest-unnamed :
    (parts ps : List RunPart) (p : RunPart)
    → (p.part_id == "") ≡ true
    → latest part_id parts (keep named (p ∷ ps)) ≡ latest part_id parts (keep named ps)
latest-unnamed parts ps p h = rw h

add_parts-Added :
    (seen : List String) (parts ps : List RunPart)
    → Sees seen parts
    → Distinct part_id parts
    → Added parts ps (add_parts seen parts ps)
add_parts-Added seen parts [] s d =
    unfold add_parts latest in record { sees = s; distinct = d; kept = refl }
add_parts-Added seen parts (p ∷ ps) s d = elim (Bool-cases (p.part_id == "")) [
  | inl t ↦
      let rest = add_parts-Added seen parts ps s d in
      rw (add_parts-skip seen parts ps p t) (record {
        sees = rest.sees;
        distinct = rest.distinct;
        kept = rest.kept ∙ sym (latest-unnamed parts ps p t);
      })
  | inr f ↦ elim (Bool-cases (member p.part_id seen)) [
    | inl k ↦
        let same = replace_part-put p parts d (sym (s p.part_id) ∙ k) in
        let rest =
          add_parts-Added seen (put part_id p parts) ps
            (λ j. s j ∙ ground (arith, find-put part_id j p parts, eq_iff p.part_id j, s j, k))
            (put-Distinct part_id p parts d) in
        rw (add_parts-known seen parts ps p f k ∙ ap (λ l. add_parts seen l ps) same) (record {
          sees = rest.sees;
          distinct = rest.distinct;
          kept = rest.kept ∙ sym (latest-named parts ps p f);
        })
    | inr n ↦
        let same = append-put part_id p parts (sym (s p.part_id) ∙ n) in
        let rest =
          add_parts-Added (p.part_id ∷ seen) (put part_id p parts) ps
            (λ j. ground (arith, find-put part_id j p parts, s j))
            (put-Distinct part_id p parts d) in
        rw (add_parts-new seen parts ps p f n ∙ ap (λ l. add_parts (p.part_id ∷ seen) l ps) same)
          (record {
            sees = rest.sees;
            distinct = rest.distinct;
            kept = rest.kept ∙ sym (latest-named parts ps p f);
          })
  ]
]

-- Every part that a merge is given: the base's, then the later report's, without those with no id.
abbrev pub given_parts : Report → Report → List RunPart
given_parts base next = keep named (parts_of base ++ parts_of next)

-- A merged composition counts its parts, holds no id twice, and holds exactly the last part given for
-- each non-empty id.
pub merge_composition_keeps :
    (base next : Report)
    → let c = merge_composition base next in
      (c.parts_count ≡ length c.parts)
      × Distinct part_id c.parts
      × ((p : RunPart)
          → Memᴰ p c.parts ↔ (last_with part_id p.part_id (given_parts base next) ≡ some p))
unfolding merge_composition
merge_composition_keeps base next =
    let first = add_parts-Added [] [] (parts_of base) (λ k. refl) tt in
    let (seen, parts) = add_parts [] [] (parts_of base) in
    let both = add_parts-Added seen parts (parts_of next) first.sees first.distinct in
    let whole =
      both.kept
      ∙ ap (λ l. latest part_id l (keep named (parts_of next))) first.kept
      ∙ sym (latest-append part_id [] (keep named (parts_of base)) (keep named (parts_of next)))
      ∙ ap (latest part_id []) (sym (keep-append named (parts_of base) (parts_of next))) in
    (refl, both.distinct, λ p. rw whole ((latest_keeps part_id (given_parts base next)).1 p))

module _ (seen : List String) (out is : List Incident) (i : Incident) where
  first_incidents-known :
      member (incident_key i) seen ≡ true
      → first_incidents seen out (i ∷ is) ≡ first_incidents seen out is
  unfolding first_incidents
  first_incidents-known k = rw k

  first_incidents-new :
      member (incident_key i) seen ≡ false
      → first_incidents seen out (i ∷ is)
        ≡ first_incidents (incident_key i ∷ seen) (out ++ i ∷ []) is
  unfolding first_incidents
  first_incidents-new k = rw k

-- What the loop leaves: distinct keys, and under each key the first incident.
first_incidents_lem :
    (seen : List String) (out is : List Incident)
    → ((j : String) → member j seen ≡ is_some (find incident_key j out))
    → Distinct incident_key out
    → Distinct incident_key (first_incidents seen out is)
      × ((k : String)
          → find incident_key k (first_incidents seen out is)
            ≡ or_else (find incident_key k out) (find incident_key k is))
first_incidents_lem seen out [] s d =
    unfold first_incidents in (d, λ k. ground (arith, Option-cases (find incident_key k out)))
first_incidents_lem seen out (i ∷ is) s d = elim (Bool-cases (member (incident_key i) seen)) [
  | inl t ↦
      let (distinct, found) = first_incidents_lem seen out is s d in
      rw (first_incidents-known seen out is i t)
        (distinct, λ k. found k ∙ ground (arith, s k, t, eq_iff (incident_key i) k))
  | inr f ↦
      let same = append-put incident_key i out (sym (s (incident_key i)) ∙ f) in
      let (distinct, found) =
        first_incidents_lem (incident_key i ∷ seen) (put incident_key i out) is
          (λ j. ground (arith, find-put incident_key j i out, s j))
          (put-Distinct incident_key i out d) in
      rw
        (first_incidents-new seen out is i f
          ∙ ap (λ l. first_incidents (incident_key i ∷ seen) l is) same)
        (
          distinct,
          λ k.
              found k
              ∙ ground (arith, find-put incident_key k i out, s k, f, eq_iff (incident_key i) k),
        )
]

-- Merged incidents have distinct keys (the id, or the type, test requirement and message where the id
-- is empty), and are exactly the first incidents given for their keys.
pub merge_incidents_keeps :
    (base next : List Incident)
    → let out = merge_incidents base next in
      Distinct incident_key out
      × ((i : Incident) → Memᴰ i out ↔ (find incident_key (incident_key i) (base ++ next) ≡ some i))
unfolding merge_incidents
merge_incidents_keeps base next =
    let (distinct, found) = first_incidents_lem [] [] (base ++ next) (λ j. refl) tt in
    (
      distinct,
      λ i. (
        λ m. sym (found (incident_key i)) ∙ mem→find incident_key m distinct,
        λ h. find→mem incident_key (incident_key i) _ (found (incident_key i) ∙ h),
      ),
    )
