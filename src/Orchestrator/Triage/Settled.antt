-- ===== src/Orchestrator/Triage/Settled.antt =====
-- What becomes of each selected requirement before the jobs run.
use mathlib.Core.List.{Memᴰ}
use mathlib.Core.List.Memᴰ
use storage_cert_harness.Common.{
  String, ◌≡◌, refl, sym, ap, ◌∙◌, ◌⊎◌, inl, inr, Bool, false, ◌&&◌, List, [], ◌∷◌, ◌++◌, Option,
  none, some, ◌==◌, is_empty, any, All, All-of_mem, Bool-cases, ◌<>◌,
}
use storage_cert_harness.Core.{Outcome, TestRequirement, Verdict}
use storage_cert_harness.Registry.{Tool, Setup, runnable}
use storage_cert_harness.Orchestrator.Selection.{missing_required_params, without_trs}
use storage_cert_harness.Orchestrator.Progress.{label_of}
use storage_cert_harness.Orchestrator.Progress.Terminal.{Op}
use storage_cert_harness.Orchestrator.Executions.Ended.{
  Ended, apply_ends, finish-Ended, abort-Ended,
}
use storage_cert_harness.Orchestrator.Run.{Setting}
use storage_cert_harness.Orchestrator.Run.Steps.{Call, Shared, call, advance}
use storage_cert_harness.Orchestrator.Triage.Scopes.{IsWhole, SameGroups, active_setups-IsWhole}
use storage_cert_harness.Orchestrator.Triage.{
  active_setups, Provider, ScopedSetup, Prepared, ending, dismiss, sift, triage, end_all, ending,
  after_setup, run_one_setup, run_setups,
}

abbrev pub HasEnded : TestRequirement → Shared → Type 0
HasEnded tr w = Ended (label_of tr) w.progress

-- The requirement is left for the jobs, or its execution has ended.
abbrev pub Settled : Shared → List TestRequirement → TestRequirement → Type 0
Settled w scorable tr = Memᴰ tr scorable ⊎ HasEnded tr w

append-mem : {tr : TestRequirement} (xs ys : List TestRequirement) → Memᴰ tr xs → Memᴰ tr (xs ++ ys)
append-mem [] ys m = absurd (Memᴰ.not-nil m)
append-mem (x ∷ xs) ys (Memᴰ.head e) = Memᴰ.head e
append-mem (x ∷ xs) ys (Memᴰ.tail m) = Memᴰ.tail (append-mem xs ys m)

mem-last : (tr : TestRequirement) (xs : List TestRequirement) → Memᴰ tr (xs ++ tr ∷ [])
mem-last tr [] = Memᴰ.head refl
mem-last tr (x ∷ xs) = Memᴰ.tail (mem-last tr xs)

module _ (c : Setting) (now : String) where
  call_ends :
      (tr : TestRequirement) (op : Op) (w : Shared)
      → HasEnded tr w
      → HasEnded tr (advance c now op w)
  call_ends tr op w h = apply_ends (label_of tr) op w.progress h

  ending_ends :
      (err : Option String) (tr : TestRequirement) (w : Shared)
      → HasEnded tr (advance c now (ending err tr) w)
  ending_ends none tr w = finish-Ended tr Outcome.error w.progress
  ending_ends (some e) tr w = abort-Ended tr Outcome.error w.progress

  module _ {T : Type 0} (tools : List (String × Tool T)) where
    -- The requirement is runnable and lacks no parameter.
    abbrev pub scores : TestRequirement → Bool
    scores tr = runnable tools tr && is_empty (missing_required_params tr)

    dismiss-HasEnded :
        (o : Outcome) (vs : List Verdict) (tr : TestRequirement) (w : Shared)
        → HasEnded tr (dismiss c now tools o vs tr w)
    dismiss-HasEnded o vs tr w = finish-Ended tr o w.progress

    -- What one turn does to the requirement that it is for, and to any other.
    sift-Settled :
        (tr : TestRequirement) (w : Shared) (scorable : List TestRequirement)
        → Settled (sift c now tools tr w scorable).0 (sift c now tools tr w scorable).1 tr
    unfolding sift
    sift-Settled tr w scorable = elim (Bool-cases (runnable tools tr)) [
      | inr f ↦ rw (f, sift) (inr (finish-Ended tr Outcome.skip w.progress))
      | inl t ↦ elim (Bool-cases (is_empty (missing_required_params tr))) [
        | inr f ↦ rw (t, f, sift) (inr (finish-Ended tr Outcome.error w.progress))
        | inl u ↦ rw (t, u, sift) (inl (mem-last tr scorable))
      ]
    ]

    sift_keeps :
        (x tr : TestRequirement) (w : Shared) (scorable : List TestRequirement)
        → Settled w scorable x
        → Settled (sift c now tools tr w scorable).0 (sift c now tools tr w scorable).1 x
    unfolding sift
    sift_keeps x tr w scorable h = elim (Bool-cases (runnable tools tr)) [
      | inr f ↦
          rw (f, sift)
            (elim h [
              | inl m ↦ inl m
              | inr e ↦ inr (apply_ends (label_of x) (Op.finish_of tr Outcome.skip) w.progress e)
            ])
      | inl t ↦ elim (Bool-cases (is_empty (missing_required_params tr))) [
        | inr f ↦
            rw (t, f, sift)
              (elim h [
                | inl m ↦ inl m
                | inr e ↦ inr (apply_ends (label_of x) (Op.finish_of tr Outcome.error) w.progress e)
              ])
        | inl u ↦
            rw (t, u, sift)
              (elim h [ inl m ↦ inl (append-mem scorable (tr ∷ []) m) | inr e ↦ inr e ])
      ]
    ]

    triage_keeps :
        (x : TestRequirement) (w : Shared) (scorable trs : List TestRequirement)
        → Settled w scorable x
        → Settled (triage c now tools w scorable trs).0 (triage c now tools w scorable trs).1 x
    unfolding triage
    triage_keeps x w scorable [] h = h
    triage_keeps x w scorable (tr ∷ trs) h =
        triage_keeps x (sift c now tools tr w scorable).0 (sift c now tools tr w scorable).1 trs
          (sift_keeps x tr w scorable h)

    pub triage-Settled :
        {x : TestRequirement} (w : Shared) (scorable : List TestRequirement)
        {trs : List TestRequirement}
        → Memᴰ x trs
        → Settled (triage c now tools w scorable trs).0 (triage c now tools w scorable trs).1 x
    unfolding triage
    triage-Settled w scorable {trs = []} m = absurd (Memᴰ.not-nil m)
    triage-Settled {x} w scorable {trs = tr ∷ trs} (Memᴰ.head e) =
        triage_keeps x (sift c now tools tr w scorable).0 (sift c now tools tr w scorable).1 trs
          (rw e (sift-Settled tr w scorable))
    triage-Settled {x} w scorable {trs = tr ∷ trs} (Memᴰ.tail m) =
        triage-Settled (sift c now tools tr w scorable).0 (sift c now tools tr w scorable).1
          {trs = trs} m

  module _ {S : Type 0} (ctx_err : S → Option String) where
    end_all_keeps :
        (x : TestRequirement) (s : S) (w : Shared) (trs : List TestRequirement)
        → HasEnded x w
        → HasEnded x (end_all c now ctx_err s w trs)
    unfolding end_all
    end_all_keeps x s w [] h = h
    end_all_keeps x s w (tr ∷ trs) h =
        end_all_keeps x s (advance c now (ending (ctx_err s) tr) w) trs
          (call_ends x (ending (ctx_err s) tr) w h)

    end_all-HasEnded :
        {x : TestRequirement} (s : S) (w : Shared) {trs : List TestRequirement}
        → Memᴰ x trs
        → HasEnded x (end_all c now ctx_err s w trs)
    unfolding end_all
    end_all-HasEnded s w {trs = []} m = absurd (Memᴰ.not-nil m)
    end_all-HasEnded {x} s w {trs = tr ∷ trs} (Memᴰ.head e) =
        end_all_keeps x s (advance c now (ending (ctx_err s) tr) w) trs
          (rw e (ending_ends (ctx_err s) tr w))
    end_all-HasEnded s w {trs = tr ∷ trs} (Memᴰ.tail m) =
        end_all-HasEnded s (advance c now (ending (ctx_err s) tr) w) {trs = trs} m

    without-mem :
        (x : TestRequirement) (trs remove : List TestRequirement)
        → Memᴰ x trs
        → any (λ r. r.id == x.id) remove ≡ false
        → Memᴰ x (without_trs trs remove)
    unfolding without_trs
    without-mem x [] remove m h = absurd (Memᴰ.not-nil m)
    without-mem x (tr ∷ trs) remove m h = elim (Memᴰ.cases_cons m) [
      | inl e ↦
          let stays : any (λ r. r.id == tr.id) remove ≡ false =
            ap (λ (t : TestRequirement). any (λ r. r.id == t.id) remove) (sym e) ∙ h in
          rw stays (Memᴰ.head e)
      | inr later ↦ elim (Bool-cases (any (λ r. r.id == tr.id) remove)) [
        | inl t ↦ rw t (without-mem x trs remove later h)
        | inr f ↦ rw f (Memᴰ.tail (without-mem x trs remove later h))
      ]
    ]

    after_setup-Settled :
        (x : TestRequirement) (all : List TestRequirement) (s : ScopedSetup S) (world : S)
        (err : Option String) (p : Prepared S)
        → Memᴰ x all
        → IsWhole all s
        → Settled p.shared p.scorable x
        → let q = after_setup c now ctx_err s world err p in Settled q.shared q.scorable x
    unfolding after_setup
    after_setup-Settled x all s world none p there whole h = h
    after_setup-Settled x all s world (some e) p there whole (inr ended) =
        inr (end_all_keeps x world _ s.trs ended)
    after_setup-Settled x all s world (some e) p there whole (inl m) =
        elim (Bool-cases (any (λ r. r.id == x.id) s.trs)) [
          | inl t ↦ inr (end_all-HasEnded world _ {trs = s.trs} (whole x there t))
          | inr f ↦ inl (without-mem x p.scorable s.trs m f)
        ]

    run_setups-Settled :
        (x : TestRequirement) (all : List TestRequirement) (p : Prepared S)
        (setups : List (ScopedSetup S))
        → Memᴰ x all
        → All (IsWhole all) setups
        → Settled p.shared p.scorable x
        → let q = run_setups c now ctx_err p setups in Settled q.shared q.scorable x
    unfolding run_setups
    run_setups-Settled x all p [] there whole h = h
    run_setups-Settled x all p (s ∷ setups) there (w, whole) h =
        run_setups-Settled x all (run_one_setup c now ctx_err s p) setups there whole (
          after_setup-Settled x all s (s.provider.setup s.trs p.world).0
            (s.provider.setup s.trs p.world).1
            (record p { shared = call c (Call.staged ("setup:" <> s.label) s.trs) p.shared }) there
            w h)

    after_setup_keeps :
        (x : TestRequirement) (s : ScopedSetup S) (world : S) (err : Option String) (p : Prepared S)
        → HasEnded x p.shared
        → HasEnded x (after_setup c now ctx_err s world err p).shared
    unfolding after_setup
    after_setup_keeps x s world none p h = h
    after_setup_keeps x s world (some e) p h = end_all_keeps x world _ s.trs h

    run_setups_keeps :
        (x : TestRequirement) (p : Prepared S) (setups : List (ScopedSetup S))
        → HasEnded x p.shared
        → HasEnded x (run_setups c now ctx_err p setups).shared
    unfolding run_setups
    run_setups_keeps x p [] h = h
    run_setups_keeps x p (s ∷ setups) h =
        run_setups_keeps x (run_one_setup c now ctx_err s p) setups (
          after_setup_keeps x s (s.provider.setup s.trs p.world).0
            (s.provider.setup s.trs p.world).1
            (record p { shared = call c (Call.staged ("setup:" <> s.label) s.trs) p.shared }) h)

    module _ {T : Type 0} (tools : List (String × Tool T))
        (setups : List (String × Setup (Provider S))) (w : Shared) (world : S)
        (selected : List TestRequirement) where
      abbrev pub sifted : Shared × List TestRequirement
      sifted = triage c now tools w [] selected

      abbrev pub prepared : Prepared S
      prepared =
          run_setups c now ctx_err
            (record { shared = sifted.0; world = world; scorable = sifted.1; ran = [] })
            (active_setups tools setups sifted.1)

      -- Before the jobs run, each selected requirement is left for them, or its execution has ended.
      pub prepared-Settled :
          SameGroups tools sifted.1 → All (Settled prepared.shared prepared.scorable) selected
      prepared-Settled same = All-of_mem _ selected (λ x m.
          elim (triage-Settled tools w [] {trs = selected} m) [
            | inl left ↦
                run_setups-Settled x sifted.1 _ (active_setups tools setups sifted.1) left
                  (active_setups-IsWhole tools setups sifted.1 same) (inl left)
            | inr ended ↦ inr (run_setups_keeps x _ (active_setups tools setups sifted.1) ended)
          ])
