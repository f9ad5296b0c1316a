-- ===== src/Orchestrator/Triage/Left.antt =====
-- Which of the selected requirements are left for the jobs.
use storage_cert_harness.Common.{
  String, ◌≡◌, refl, sym, ap, subst, ◌∙◌, inl, inr, Bool, true, false, ◌&&◌, not, List, [], ◌∷◌,
  ◌++◌, Option, none, some, arith, ◌==◌, ◌<>◌, if◌then◌else◌, is_empty, is_some, any, keep,
  mem-keep, All, All-mem, All-of_mem, Bool-cases,
}
use mathlib.Core.List.{Memᴰ, append-nil, append_assoc}
use storage_cert_harness.Core.{TestRequirement}
use storage_cert_harness.Registry.{Tool, Setup, runnable}
use storage_cert_harness.Orchestrator.Selection.{missing_required_params, without_trs}
use storage_cert_harness.Orchestrator.Run.{Setting}
use storage_cert_harness.Orchestrator.Run.Steps.{Shared, Call, call}
use storage_cert_harness.Orchestrator.Triage.Scopes.{SameGroups}
use storage_cert_harness.Orchestrator.Triage.Settled.{
  HasEnded, scores, sifted, prepared, prepared-Settled,
}
use storage_cert_harness.Orchestrator.Triage.{
  active_setups, Provider, ScopedSetup, Prepared, sift, triage, after_setup, run_one_setup,
  run_setups,
}

-- The setups that fail when they run one after the other.
abbrev pub failed_setups : {S : Type 0} → S → List (ScopedSetup S) → List (ScopedSetup S)
failed_setups world [] = []
failed_setups world (s ∷ setups) =
    let (world', err) = s.provider.setup s.trs world in
    let rest = failed_setups world' setups in if is_some err then s ∷ rest else rest

-- The setup is for a requirement with this one's id.
abbrev pub in_scope : {S : Type 0} → TestRequirement → ScopedSetup S → Bool
in_scope x s = any (λ r. r.id == x.id) s.trs

abbrev pub spared : {S : Type 0} → List (ScopedSetup S) → TestRequirement → Bool
spared failed x = not (any (in_scope x) failed)

without_trs-keep :
    (trs remove : List TestRequirement)
    → without_trs trs remove ≡ keep (λ x. not (any (λ r. r.id == x.id) remove)) trs
unfolding without_trs
without_trs-keep [] remove = refl
without_trs-keep (tr ∷ trs) remove = ground (arith, without_trs-keep trs remove)

keep-keep :
    (p q : TestRequirement → Bool) (xs : List TestRequirement)
    → keep p (keep q xs) ≡ keep (λ x. q x && p x) xs
keep-keep p q [] = refl
keep-keep p q (x ∷ xs) = elim (Bool-cases (q x)) [
  | inl t ↦ rw t (ground (arith, keep-keep p q xs))
  | inr f ↦ rw f (keep-keep p q xs)
]

keep_ext :
    (p q : TestRequirement → Bool) (xs : List TestRequirement)
    → ((x : TestRequirement) → p x ≡ q x)
    → keep p xs ≡ keep q xs
keep_ext p q [] h = refl
keep_ext p q (x ∷ xs) h = ground (arith, h x, keep_ext p q xs h)

keep-true : (xs : List TestRequirement) → keep (λ x. true) xs ≡ xs
keep-true [] = refl
keep-true (x ∷ xs) = ap (λ l. x ∷ l) (keep-true xs)

not-any-cons :
    {S : Type 0} (x : TestRequirement) (s : ScopedSetup S) (failed : List (ScopedSetup S))
    → (not (any (λ r. r.id == x.id) s.trs) && spared failed x) ≡ spared (s ∷ failed) x
not-any-cons x s failed = ground arith

module _ (c : Setting) (now : String) where
  module _ {T : Type 0} (tools : List (String × Tool T)) where
    sift-keep :
        (tr : TestRequirement) (w : Shared) (scorable : List TestRequirement)
        → (sift c now tools tr w scorable).1
          ≡ scorable ++ (if scores c now tools tr then tr ∷ [] else [])
    unfolding sift
    sift-keep tr w scorable = elim (Bool-cases (runnable tools tr)) [
      | inr f ↦ rw (f, sift) (sym (append-nil scorable))
      | inl t ↦ elim (Bool-cases (is_empty (missing_required_params tr))) [
        | inr f ↦ rw (t, f, sift) (sym (append-nil scorable))
        | inl u ↦ rw (t, u, sift) refl
      ]
    ]

    keep-cons :
        (p : TestRequirement → Bool) (x : TestRequirement) (xs : List TestRequirement)
        → (if p x then x ∷ [] else []) ++ keep p xs ≡ keep p (x ∷ xs)
    keep-cons p x xs = elim (Bool-cases (p x)) [ inl t ↦ rw t refl | inr f ↦ rw f refl ]

    triage-keep :
        (w : Shared) (scorable trs : List TestRequirement)
        → (triage c now tools w scorable trs).1 ≡ scorable ++ keep (scores c now tools) trs
    unfolding triage
    triage-keep w scorable [] = sym (append-nil scorable)
    triage-keep w scorable (tr ∷ trs) =
        triage-keep (sift c now tools tr w scorable).0 (sift c now tools tr w scorable).1 trs
        ∙ ap (λ l. l ++ keep (scores c now tools) trs) (sift-keep tr w scorable)
        ∙ append_assoc scorable _ (keep (scores c now tools) trs)
        ∙ ap (λ l. scorable ++ l) (keep-cons (scores c now tools) tr trs)

  module _ {S : Type 0} (ctx_err : S → Option String) where
    run_setups-keep :
        (p : Prepared S) (setups : List (ScopedSetup S))
        → (run_setups c now ctx_err p setups).scorable
          ≡ keep (spared (failed_setups p.world setups)) p.scorable
    unfolding run_setups after_setup
    run_setups-keep p [] = sym (keep-true p.scorable)
    run_setups-keep p (s ∷ setups) =
        run_setups-keep (run_one_setup c now ctx_err s p) setups
        ∙ by_result (s.provider.setup s.trs p.world).1
      where
        by_result :
            (err : Option String)
            → let q =
                after_setup c now ctx_err s (s.provider.setup s.trs p.world).0 err (record p {
                  shared = call c (Call.staged ("setup:" <> s.label) s.trs) p.shared;
                }) in
              keep (spared (failed_setups q.world setups)) q.scorable
              ≡ keep
                  (spared (
                    if is_some err
                    then s ∷ failed_setups (s.provider.setup s.trs p.world).0 setups
                    else failed_setups (s.provider.setup s.trs p.world).0 setups))
                  p.scorable
        by_result none = refl
        by_result (some e) =
            let failed = failed_setups (s.provider.setup s.trs p.world).0 setups in
            ap (keep (spared failed)) (without_trs-keep p.scorable s.trs)
            ∙ keep-keep (spared failed) _ p.scorable
            ∙ keep_ext _ (spared (s ∷ failed)) p.scorable (λ x. not-any-cons x s failed)

    module _ {T : Type 0} (tools : List (String × Tool T))
        (setups : List (String × Setup (Provider S))) (w : Shared) (world : S)
        (selected : List TestRequirement) where
      -- Runnable, with every parameter, and not in the scope of a setup that fails.
      abbrev pub is_left : TestRequirement → Bool
      is_left x =
          scores c now tools x
          && spared
              (failed_setups world
                (active_setups tools setups (sifted c now ctx_err tools setups w world selected).1))
              x

      -- The requirements that are left for the jobs are, in order, the selected ones that are runnable,
      -- lack no parameter, and have no id that a failed setup is for. Before the jobs run, the
      -- execution of each other selected requirement has ended. Requirements with one id must belong to
      -- the same setup groups, as variants of one requirement do.
      pub prepared-keep :
          SameGroups tools (sifted c now ctx_err tools setups w world selected).1
          → let p = prepared c now ctx_err tools setups w world selected in
            (p.scorable ≡ keep is_left selected)
            × All (λ x. is_left x ≡ false → HasEnded x p.shared) selected
      prepared-keep same = (left, ended)
        where
          left :
              (prepared c now ctx_err tools setups w world selected).scorable
              ≡ keep is_left selected
          left =
              run_setups-keep _
                (active_setups tools setups (sifted c now ctx_err tools setups w world selected).1)
              ∙ ap (keep _) (triage-keep tools w [] selected)
              ∙ keep-keep _ (scores c now tools) selected

          ended :
              All
                (λ x.
                  is_left x ≡ false
                  → HasEnded x (prepared c now ctx_err tools setups w world selected).shared)
                selected
          ended = All-of_mem _ selected (λ x m out.
              elim (All-mem _ m
                (prepared-Settled c now ctx_err tools setups w world selected same)) [
                  | inl stays ↦
                      let kept = (mem-keep is_left selected (subst (λ l. Memᴰ x l) left stays)).1 in
                      absurd (ground (arith, kept, out))
                  | inr e ↦ e
                ])
