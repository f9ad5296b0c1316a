-- ===== src/Report/Lifecycle/Flags.antt =====
-- What the derived flags of a report mean.
use storage_cert_harness.Common.{
  ◌≡◌, refl, sym, ap, ◌∙◌, ◌↔◌, inl, inr, Bool, true, false, ◌&&◌, not, List, [], ◌∷◌, arith, any,
  is_empty, eqb, length, if◌then◌else◌, Bool-cases, ◌==◌,
}
use storage_cert_harness.Core.{RunStatus, RunHealth, Report, RunPart, Incident, Summary}
use storage_cert_harness.Report.Lifecycle.{
  or_complete, default_parts, judge, settle, refresh_lifecycle,
}

abbrev pub has_blocking : List Incident → Bool
has_blocking = any (λ i. i.blocks_certification)

-- The flags, without the order in which the code decides them.
abbrev pub health_of : RunStatus → List Incident → RunHealth
health_of RunStatus.running is = if is_empty is then RunHealth.healthy else RunHealth.degraded
health_of RunStatus.complete is = if is_empty is then RunHealth.healthy else RunHealth.degraded
health_of _ is = RunHealth.unhealthy

abbrev pub certifiable_of : RunStatus → List Incident → Summary → Bool
certifiable_of RunStatus.complete is s = not (has_blocking is) && (eqb s.fail 0 && eqb s.error 0)
certifiable_of _ is s = false

judge_lem :
    (r : Report) (is : List Incident)
    → judge r is ≡ record r {
      health = if is_empty is then r.health else RunHealth.degraded;
      certifiable = not (has_blocking is) && (eqb r.summary.fail 0 && eqb r.summary.error 0);
    }
unfolding judge
judge_lem r [] = refl
judge_lem r (i ∷ is) = ground (arith, judge_lem (record r { health = RunHealth.degraded }) is)

settle_lem :
    (s : RunStatus) (r : Report)
    → settle s r ≡ record r {
      health = health_of s r.incidents;
      certifiable = certifiable_of s r.incidents r.summary;
    }
unfolding settle
settle_lem RunStatus.complete r = judge_lem (record r { health = RunHealth.healthy }) r.incidents
settle_lem _ r = refl

-- The status, the parts and the flags, set all at once.
abbrev pub settled : RunStatus → List RunPart → Report → Report
settled s parts r = record r {
  status = s;
  composition = record { parts_count = length parts; parts = parts };
  health = health_of s r.incidents;
  certifiable = certifiable_of s r.incidents r.summary;
}

-- All that refreshing does: it defaults the status and the parts, counts the parts, and sets the
-- health and the certification flag from the status, the incidents and the summary.
pub refresh_lifecycle_lem :
    (r : Report)
    → refresh_lifecycle r
      ≡ settled
          (or_complete r.status)
          (default_parts (record r { status = or_complete r.status }))
          r
unfolding refresh_lifecycle
refresh_lifecycle_lem r =
    let s = or_complete r.status in
    let parts = default_parts (record r { status = s }) in
    settle_lem s
      (record r { status = s; composition = record { parts_count = length parts; parts = parts } })

certifiable_of_iff :
    (s : RunStatus) (is : List Incident) (m : Summary)
    → (certifiable_of s is m ≡ true)
      ↔ ((s ≡ RunStatus.complete) × (has_blocking is ≡ false) × (m.fail ≡ 0) × (m.error ≡ 0))
certifiable_of_iff RunStatus.complete is m = ground arith
certifiable_of_iff _ is m = ground arith

-- A report is certifiable exactly if the run is complete (an unset status counts as complete), no
-- incident blocks certification, and no verdict is counted as failed or as an error.
pub refresh_lifecycle-certifiable_iff :
    (r : Report)
    → ((refresh_lifecycle r).certifiable ≡ true) ↔ (
        (or_complete r.status ≡ RunStatus.complete)
        × (has_blocking r.incidents ≡ false)
        × (r.summary.fail ≡ 0)
        × (r.summary.error ≡ 0))
refresh_lifecycle-certifiable_iff r =
    rw (ap (λ q. q.certifiable) (refresh_lifecycle_lem r))
      (certifiable_of_iff (or_complete r.status) r.incidents r.summary)

pub or_complete_idem : (s : RunStatus) → or_complete (or_complete s) ≡ or_complete s
or_complete_idem RunStatus.unset = refl
or_complete_idem _ = refl

default_parts_keep :
    (r r' : Report)
    → r'.run_id ≡ r.run_id
    → r'.composition.parts ≡ default_parts r
    → default_parts r' ≡ default_parts r
unfolding default_parts
default_parts_keep r r' same kept =
    elim (Bool-cases (is_empty r.composition.parts && not (r.run_id == ""))) [
      | inl t ↦ ground (arith, kept, same)
      | inr f ↦ ground (arith, kept, same)
    ]

-- Refreshing a report a second time changes nothing.
pub refresh_lifecycle_idem :
    (r : Report) → refresh_lifecycle (refresh_lifecycle r) ≡ refresh_lifecycle r
refresh_lifecycle_idem r =
    let s = or_complete r.status in
    let parts = default_parts (record r { status = s }) in
    ap refresh_lifecycle (refresh_lifecycle_lem r)
    ∙ refresh_lifecycle_lem (settled s parts r)
    ∙ (λ i. settled (or_complete_idem r.status i) (again i) r)
    ∙ sym (refresh_lifecycle_lem r)
  where
    again :
        default_parts
          (record (settled
            (or_complete r.status)
            (default_parts (record r { status = or_complete r.status }))
            r) { status = or_complete (or_complete r.status) })
        ≡ default_parts (record r { status = or_complete r.status })
    again = default_parts_keep (record r { status = or_complete r.status }) _ refl refl
