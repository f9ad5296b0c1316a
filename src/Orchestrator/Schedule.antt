-- ===== src/Orchestrator/Schedule.antt =====
-- internal/orchestrator/orchestrator.go, `schedule`: the goroutines of the jobs as a step relation. A
-- step is one operation of one goroutine on the semaphore, on the read-write lock, or on the mutex of
-- an exclusivity group; what a goroutine holds is in its phase. Go's read-write lock also makes new
-- readers wait for a waiting writer, which allows fewer runs than this relation.
pub mod Exclusion
pub mod Jobs
use storage_cert_harness.Common.{
  ℕ, ◌<◌, String, ◌≡◌, Bool, true, false, ltb, List, [], ◌∷◌, ◌++◌, map, if◌then◌else◌, count, All,
}
use storage_cert_harness.Core.{TestRequirement}
use storage_cert_harness.Report.Merge.{member}

pub record Job : Type 0 where
  pub tool : String
  pub trs : List TestRequirement
  pub parallel_safe : Bool
  pub groups : List String

-- How far a job's goroutine is. `admitted` holds a slot of the semaphore; `locking` also holds the
-- read lock and the groups `held`, the last one first, and has `todo` before it; `running` executes
-- the job; `unlocking` and `leaving` run the deferred calls. `alone` holds the write lock.
pub data Phase : Type 0 where
  waiting admitted leaving alone done : Phase
  locking : (held todo : List String) → Phase
  running unlocking : (held : List String) → Phase

pub record Thread : Type 0 where
  pub job : Job
  pub phase : Phase

-- The read lock, the write lock, a slot, and the groups that a goroutine holds.
abbrev pub is_reading : Thread → Bool
is_reading t = elim t.phase [
  | Phase.locking held todo ↦ true
  | Phase.running held ↦ true
  | Phase.unlocking held ↦ true
  | _ ↦ false
]

abbrev pub is_writing : Thread → Bool
is_writing t = elim t.phase [ Phase.alone ↦ true | _ ↦ false ]

abbrev pub has_slot : Thread → Bool
has_slot t = elim t.phase [
  | Phase.admitted ↦ true
  | Phase.leaving ↦ true
  | Phase.locking held todo ↦ true
  | Phase.running held ↦ true
  | Phase.unlocking held ↦ true
  | _ ↦ false
]

abbrev pub held_by : Thread → List String
held_by t = elim t.phase [
  | Phase.locking held todo ↦ held
  | Phase.running held ↦ held
  | Phase.unlocking held ↦ held
  | _ ↦ []
]

abbrev pub slots : List Thread → ℕ
slots = count has_slot

-- A concurrency below one counts as one.
abbrev pub limit : ℕ → ℕ
limit concurrency = if ltb concurrency 1 then 1 else concurrency

abbrev pub at : Job → Phase → Thread
at j p = record { job = j; phase = p }

-- One operation of a goroutine, given the other ones. A job that is not parallel-safe takes the write
-- lock; the others take a slot, the read lock and then their groups in order.
pub data Move (concurrency : ℕ) (others : List Thread) : Thread → Thread → Type 0 where
  take_slot :
      (j : Job)
      → j.parallel_safe ≡ true
      → slots others < limit concurrency
      → Move concurrency others (at j Phase.waiting) (at j Phase.admitted)
  lock_read :
      (j : Job)
      → All (λ t. is_writing t ≡ false) others
      → Move concurrency others (at j Phase.admitted) (at j (Phase.locking [] j.groups))
  lock_group :
      (j : Job) (g : String) (held todo : List String)
      → All (λ t. member g (held_by t) ≡ false) others
      → member g held ≡ false
      → Move concurrency others
          (at j (Phase.locking held (g ∷ todo)))
          (at j (Phase.locking (g ∷ held) todo))
  begin :
      (j : Job) (held : List String)
      → Move concurrency others (at j (Phase.locking held [])) (at j (Phase.running held))
  finish :
      (j : Job) (held : List String)
      → Move concurrency others (at j (Phase.running held)) (at j (Phase.unlocking held))
  unlock_group :
      (j : Job) (g : String) (held : List String)
      → Move concurrency others (at j (Phase.unlocking (g ∷ held))) (at j (Phase.unlocking held))
  unlock_read : (j : Job) → Move concurrency others (at j (Phase.unlocking [])) (at j Phase.leaving)
  release_slot : (j : Job) → Move concurrency others (at j Phase.leaving) (at j Phase.done)
  lock_write :
      (j : Job)
      → j.parallel_safe ≡ false
      → All (λ t. (is_writing t ≡ false) × (is_reading t ≡ false)) others
      → Move concurrency others (at j Phase.waiting) (at j Phase.alone)
  unlock_write : (j : Job) → Move concurrency others (at j Phase.alone) (at j Phase.done)

pub data Step (concurrency : ℕ) : List Thread → List Thread → Type 0 where
  move :
      (before after : List Thread) {t u : Thread}
      → Move concurrency (before ++ after) t u
      → Step concurrency (before ++ t ∷ after) (before ++ u ∷ after)

-- The states that the goroutines of the jobs can reach, in any order of their steps.
pub data Reach (concurrency : ℕ) (jobs : List Job) : List Thread → Type 0 where
  spawned : Reach concurrency jobs (map (λ j. at j Phase.waiting) jobs)
  next :
      {s s' : List Thread}
      → Reach concurrency jobs s
      → Step concurrency s s'
      → Reach concurrency jobs s'
