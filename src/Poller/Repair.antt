-- ===== src/Poller/Repair.antt =====
-- About ReconcileApplied of apps/api/internal/worker/apply/apply.go: when it repairs, and what a
-- repair adds.
use proxy_core.Base.{
  ◌≤◌, ◌≡◌, refl, ap, String, true, false, not, Option, none, some, [], ◌∷◌, ◌++◌, Result, ok, err,
  ◌||◌, ◌⊎◌, arith, inl, inr, Bool-cases, Result-cases,
}
use proxy_core.Jobs.{validating}
use proxy_core.Timestamp.{FiniteTimestamp}
use proxy_core.Store.{Row, Job, StoreError, nginx}
use proxy_core.Store.Table.{JobDb}
use proxy_core.Store.Enqueue.{enqueue_if_not_active}
use proxy_core.Store.Active.{
  active, active-zero, enqueue_if_not_active-Guarded, enqueue_if_not_active_err,
}
use proxy_core.Store.Inserted.{Inserted, enqueue_if_not_active-Inserted, active-append-one}
use proxy_core.Apply.{health, Request, Response}
use proxy_core.Apply.Attempt.{apply}
use proxy_core.Poller.Turns.{NoJob, on_jobs_ok, on_jobs_err}
use proxy_core.Poller.{
  Revision, Worker, World, on_jobs, orchestrator, and_then, probe_of, repair_of, ended, repair,
  after_probe, reconcile_when, reconcile_applied,
}

-- What nginx is asked before a repair.
abbrev pub question : (w : Worker) → Revision → Request
question w v = record {
  operation = health;
  service = "nginx";
  revision_id = v.id;
  checksum = v.checksum;
  candidate_path = w.nginx_path v.id;
}

-- Why a reconciliation that ends with `r` repairs nothing.
pub data Quiet (w : Worker) (v : Revision) (before : World w) (r : Result String (Option Job))
    : Type 0 where
  never_applied : v.applied_at ≡ none → Quiet w v before r
  no_answer :
      (message : String) → (w.control (question w v) before.1).1 ≡ err message → Quiet w v before r
  no_drift :
      (answer : Response)
      → (w.control (question w v) before.1).1 ≡ ok answer
      → (answer.is_ok ≡ false) ⊎ (w.has_drift answer ≡ false)
      → Quiet w v before r
  busy : 1 ≤ active before.0.apply_jobs → Quiet w v before r
  store_failed : (e : StoreError) → r ≡ err (w.store_message e) → Quiet w v before r

-- What has happened when a repair begins: control reported a drift of a revision that was applied,
-- no job was active, and `row`, a job of the revision on nginx that counts as claimed, was added.
pub record Repairs (w : Worker) (v : Revision) (before mid : World w) (row : Row) : Type 0 where
  pub applied_at : FiniteTimestamp
  pub was_applied : v.applied_at ≡ some applied_at
  pub answer : Response
  pub asked : w.control (question w v) before.1 ≡ (mid.1, ok answer)
  pub is_ok : answer.is_ok ≡ true
  pub has_drift : w.has_drift answer ≡ true
  pub idle : active before.0.apply_jobs ≡ 0
  pub grown : mid.0.apply_jobs ≡ before.0.apply_jobs ++ row ∷ []
  pub only_one : active mid.0.apply_jobs ≡ 1
  pub id : row.id ≡ w.fresh_id mid.1
  pub status : row.status ≡ validating
  pub revision_id : row.revision_id ≡ v.id
  pub target : row.target ≡ nginx

-- How a reconciliation ends: it has left the rows as they were and repaired nothing, or it has
-- added the one active row and then applied the job of that row.
pub data Reconciled (w : Worker) (v : Revision) (before : World w)
    : World w × Result String (Option Job) → Type 0 where
  untouched :
      (after : World w) (r : Result String (Option Job))
      → after.0.apply_jobs ≡ before.0.apply_jobs
      → NoJob r
      → Quiet w v before r
      → Reconciled w v before (after, r)
  repaired :
      (mid : World w) (row : Row)
      → Repairs w v before mid row
      → Reconciled w v before (ended (apply (orchestrator w) row.id v.snapshot mid))

-- What is known when the insertion is tried.
record Drifts (w : Worker) (v : Revision) (before : World w) (x : w.Rest) : Type 0 where
  applied_at : FiniteTimestamp
  was_applied : v.applied_at ≡ some applied_at
  answer : Response
  asked : w.control (question w v) before.1 ≡ (x, ok answer)
  is_ok : answer.is_ok ≡ true
  has_drift : w.has_drift answer ≡ true

Inserted-Repairs :
    (w : Worker) (v : Revision) (before : World w) (t : JobDb) (x : w.Rest) (j : Job)
    → Drifts w v before x
    → (i : Inserted (w.fresh_id x) (repair_of v (w.now x)) before.0.apply_jobs t.apply_jobs j)
    → Repairs w v before (t, x) i.row
Inserted-Repairs w v before t x j d i = record {
  applied_at = d.applied_at;
  was_applied = d.was_applied;
  answer = d.answer;
  asked = d.asked;
  is_ok = d.is_ok;
  has_drift = d.has_drift;
  idle = active-zero before.0.apply_jobs i.idle;
  grown = i.grown;
  only_one =
      rw i.grown
        (active-append-one before.0.apply_jobs i.row i.idle (ground (arith, i.row_status)));
  id = i.row_id;
  status = i.row_status;
  revision_id = i.row_revision;
  target = i.row_target;
}

-- The result of the guarded insertion.
enqueued-Reconciled :
    (w : Worker) (v : Revision) (db : JobDb) (y x : w.Rest)
    (q : JobDb × Result StoreError (Option Job))
    → Drifts w v (db, y) x
    → enqueue_if_not_active w.json (w.fresh_id x) (repair_of v (w.now x)) db ≡ q
    → Reconciled w v
        (db, y)
        (and_then
          (on_jobs w (enqueue_if_not_active w.json (w.fresh_id x) (repair_of v (w.now x))) (db, x))
          (repair w v))
unfolding repair
enqueued-Reconciled w v db y x (t, err e) d run =
    rw
      (on_jobs_err w (enqueue_if_not_active w.json (w.fresh_id x) (repair_of v (w.now x)))
        (repair w v) db x run)
      (untouched (t, x) (err (w.store_message e))
        (enqueue_if_not_active_err w.json (w.fresh_id x) (repair_of v (w.now x)) db run)
        (λ j h. absurd (ground (arith, h))) (store_failed e refl))
enqueued-Reconciled w v db y x (t, ok none) d run =
    let g = enqueue_if_not_active-Guarded w.json (w.fresh_id x) (repair_of v (w.now x)) db run in
    rw
      (on_jobs_ok w (enqueue_if_not_active w.json (w.fresh_id x) (repair_of v (w.now x)))
        (repair w v) db x run)
      (untouched (t, x) (ok none) (g.refused refl).0 (λ j h. absurd (ground (arith, h)))
        (busy (g.refused refl).1))
enqueued-Reconciled w v db y x (t, ok (some j)) d run =
    let i = enqueue_if_not_active-Inserted w.json (w.fresh_id x) (repair_of v (w.now x)) db run in
    rw
      (on_jobs_ok w (enqueue_if_not_active w.json (w.fresh_id x) (repair_of v (w.now x)))
        (repair w v) db x run)
      (rw i.job_id (repaired (t, x) i.row (Inserted-Repairs w v (db, y) t x j d i)))

after_probe-Reconciled :
    (w : Worker) (v : Revision) (at : FiniteTimestamp) (answer : Response) (db : JobDb)
    (y x : w.Rest)
    → v.applied_at ≡ some at
    → w.control (question w v) y ≡ (x, ok answer)
    → Reconciled w v (db, y) (after_probe w v answer (db, x))
unfolding after_probe
after_probe-Reconciled w v at answer db y x was asked =
    elim (Bool-cases (not answer.is_ok || not (w.has_drift answer))) [
      | inl quiet ↦ rw quiet (
          untouched (db, x) (ok none) refl (λ j h. absurd (ground (arith, h)))
            (no_drift answer (ap (λ p. p.1) asked) (ground (arith, quiet))))
      | inr drift ↦ rw drift (
          enqueued-Reconciled w v db y x _
            (record {
              applied_at = at;
              was_applied = was;
              answer = answer;
              asked = asked;
              is_ok = ground (arith, drift);
              has_drift = ground (arith, drift);
            })
            refl)
    ]

reconcile_when-Reconciled :
    (w : Worker) (v : Revision) (applied_at : Option FiniteTimestamp) (s : World w)
    → v.applied_at ≡ applied_at
    → Reconciled w v s (reconcile_when w v applied_at s)
unfolding reconcile_when and_then
reconcile_when-Reconciled w v none (db, x) was =
    untouched (db, x) (ok none) refl (λ j h. absurd (ground (arith, h))) (never_applied was)
reconcile_when-Reconciled w v (some t) (db, x) was =
    elim (Result-cases (w.control (probe_of w v) x).1) [
      | inr (e, bad) ↦
          rw (bad, and_then)
            (untouched (db, (w.control (probe_of w v) x).0) (err e) refl
              (λ j h. absurd (ground (arith, h))) (no_answer e bad))
      | inl (probe, good) ↦
          rw (good, and_then)
            (after_probe-Reconciled w v t probe db x (w.control (probe_of w v) x).0 was
              (ap (λ r. ((w.control (probe_of w v) x).0, r)) good))
    ]

-- A reconciliation ends in one of two ways. Either it changes no row and returns no job, and then
-- the revision was never applied, control did not answer or reported no drift, some job was active,
-- or the job store failed. Or control, asked for the health of nginx with the revision, its
-- checksum and its path, reported a drift of an applied revision: then the reconciliation adds one
-- row to a table without active ones, a validating job of that revision on nginx under the fresh
-- identifier, which is then the one active row, and ends as the attempt to apply the job of that
-- identifier to the snapshot of the revision ends.
pub reconcile_applied-Reconciled :
    (w : Worker) (v : Revision) (s : World w) → Reconciled w v s (reconcile_applied w v s)
unfolding reconcile_applied
reconcile_applied-Reconciled w v s = reconcile_when-Reconciled w v v.applied_at s refl
