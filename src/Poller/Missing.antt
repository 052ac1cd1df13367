-- ===== src/Poller/Missing.antt =====
-- About a job whose revision is not there, in apps/api/internal/worker/poller/poller.go.
use proxy_core.Base.{
  ℕ, ◌≡◌, refl, sym, ◌∙◌, ap, String, Option, none, some, Result, ok, err, if◌then◌else◌, ◌==◌,
  arith,
}
use proxy_core.Store.{Job, StoreError, other_target}
use proxy_core.Store.Table.{JobDb}
use proxy_core.Store.Ops
use proxy_core.Poller.{
  Worker, World, explain, on_jobs, on_rest, and_then, ended, default_lease_ms, apply_revision,
  after_claim, poll_once,
}
use proxy_core.Store.Laws.{update-Moved}
use proxy_core.Jobs.{failed}
use proxy_core.Poller.{missing_patch}
use proxy_core.Poller.Turns.{on_jobs_ok}

module _ {A B : Type 0} (w : Worker) (f : w.Rest → w.Rest × Result String A) where
  on_rest_ok :
      (g : A → World w → World w × Result String B) (db : JobDb) (x : w.Rest) {y : w.Rest} {a : A}
      → f x ≡ (y, ok a)
      → and_then (on_rest w f (db, x)) g ≡ g a (db, y)
  unfolding and_then
  on_rest_ok g db x h = rw h refl

poll_once_claimed :
    (w : Worker) (lease_ms : ℕ) (db recovered claimed : JobDb) (x y : w.Rest) (n : ℕ) (job : Job)
    → Ops.recover_stale (if lease_ms == 0 then default_lease_ms else lease_ms) db
      ≡ (recovered, ok n)
    → Ops.claim_next w.json (other_target "") recovered ≡ (claimed, ok (some job))
    → w.get_revision job.revision_id x ≡ (y, ok none)
    → poll_once w lease_ms (db, x)
      ≡ ended (on_jobs w (Ops.update w.json job.id (missing_patch w job y)) (claimed, y))
unfolding poll_once after_claim apply_revision
poll_once_claimed w lease_ms db recovered claimed x y n job r c missing =
    on_jobs_ok w (Ops.recover_stale (if lease_ms == 0 then default_lease_ms else lease_ms))
      (λ _ t. and_then (on_jobs w (Ops.claim_next w.json (other_target "")) t) (after_claim w)) db x
      r
    ∙ on_jobs_ok w (Ops.claim_next w.json (other_target "")) (after_claim w) recovered x c
    ∙ on_rest_ok w (w.get_revision job.revision_id) (apply_revision w job) claimed x missing

-- A turn that claims a job whose revision is not there, and succeeds, returns the claimed job as
-- failed.
pub poll_once_missing :
    (w : Worker) (lease_ms : ℕ) (db recovered claimed : JobDb) (x y : w.Rest) (n : ℕ) (job : Job)
    (o : Option Job)
    → Ops.recover_stale (if lease_ms == 0 then default_lease_ms else lease_ms) db
      ≡ (recovered, ok n)
    → Ops.claim_next w.json (other_target "") recovered ≡ (claimed, ok (some job))
    → w.get_revision job.revision_id x ≡ (y, ok none)
    → (poll_once w lease_ms (db, x)).1 ≡ ok o
    → (j : Job) × (o ≡ some j) × (j.id ≡ job.id) × (j.status ≡ failed)
poll_once_missing w lease_ms db recovered claimed x y n job o r c missing h =
    let end =
      ap (λ p. p.1) (poll_once_claimed w lease_ms db recovered claimed x y n job r c missing) in
    ended_failed (Ops.update w.json job.id (missing_patch w job y) claimed) refl (sym end ∙ h)
  where
    ended_failed :
        (q : JobDb × Result StoreError Job)
        → Ops.update w.json job.id (missing_patch w job y) claimed ≡ q
        → (ended {S = World w} ((q.0, y), explain w.store_message q.1)).1 ≡ ok o
        → (j : Job) × (o ≡ some j) × (j.id ≡ job.id) × (j.status ≡ failed)
    ended_failed (t, err e) run k = absurd (ground (arith, k))
    ended_failed (t, ok j) run k =
        let moved = update-Moved w.json job.id (missing_patch w job y) claimed run in
        (j, ground (arith, k), moved.same_id, (moved.legal failed refl).1)
