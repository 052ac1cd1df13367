-- ===== src/Poller.antt =====
-- apps/api/internal/worker/poller/poller.go: one turn of the worker loop, and ReconcileApplied of
-- apps/api/internal/worker/apply/apply.go, on the job store of apps/api/internal/worker/store. The
-- world is the tables of the job store and whatever else the worker works on.
pub mod Turns
pub mod Repair
pub mod Missing
use Prim.Native.String.{◌++◌}
use proxy_core.Base.{
  ℕ, String, Bool, true, false, not, Option, none, some, List, Result, ok, err, if◌then◌else◌, any,
  ◌==◌, ◌&&◌, ◌||◌,
}
use proxy_core.Timestamp.{FiniteTimestamp}
use proxy_core.Jobs.{Status, TransitionError, queued, validating, applying, failed, status_eq}
use proxy_core.Store.{Job, Json, StoreError, Target, nginx, other_target, other_source}
use proxy_core.Store.Table.{JobDb}
use proxy_core.Store.Patch.{JobPatch, empty_patch, set}
use proxy_core.Store.Ops
use proxy_core.Store.Enqueue.{EnqueueInput, enqueue_if_not_active}
use proxy_core.Apply.{Env, Operation, health, Candidate, Request, Response, Outputs}
use proxy_core.Apply.Attempt.{apply}

-- What the worker reads of a stored revision.
pub record Revision : Type 0 where
  pub id : String
  pub checksum : String
  pub snapshot : String
  pub applied_at : Option FiniteTimestamp

-- What a worker is given beside the job store; an error is its message. `nginx_path` is where the
-- candidate of a revision stands, `fresh_id` the next identifier.
pub record Worker : Type 1 where
  pub Rest : Type 0
  pub json : Json
  pub store_message : StoreError → String
  pub get_revision : String → Rest → Rest × Result String (Option Revision)
  pub latest_applied : Rest → Rest × Result String (Option Revision)
  pub mark_applied : String → Rest → Rest × Result String (Unit {0})
  pub control : Request → Rest → Rest × Result String Response
  pub render : String → Job → Rest → Rest × Result String (List Candidate)
  pub write_candidate : Candidate → Rest → Rest × Result String (Unit {0})
  pub now : Rest → FiniteTimestamp
  pub fresh_id : Rest → String
  pub nginx_path : String → String
  pub desired_snapshot : String → String
  pub scrub_message : String → String
  pub marshal_outputs : Outputs → String
  pub marshal_staged : String → Option String → String
  pub has_drift : Response → Bool
  pub transition_message : TransitionError → String

abbrev pub World : Worker → Type 0
World w = JobDb × w.Rest

abbrev pub explain : {A : Type 0} → (StoreError → String) → Result StoreError A → Result String A
explain message (ok a) = ok a
explain message (err e) = err (message e)

-- A call of the job store, and a call of anything else.
abbrev pub on_jobs :
    {A : Type 0} (w : Worker)
    → (JobDb → JobDb × Result StoreError A)
    → World w
    → World w × Result String A
on_jobs w f (db, x) = let r = f db in ((r.0, x), explain w.store_message r.1)

abbrev pub on_rest :
    {A : Type 0} (w : Worker)
    → (w.Rest → w.Rest × Result String A)
    → World w
    → World w × Result String A
on_rest w f (db, x) = let r = f x in ((db, r.0), r.1)

-- The orchestrator, with the job store in its place.
abbrev pub orchestrator : Worker → Env
orchestrator w = record {
  World = World w;
  get_job = λ id. on_jobs w (Ops.get w.json id);
  update_job = λ id patch. on_jobs w (Ops.update w.json id patch);
  mark_applied = λ id. on_rest w (w.mark_applied id);
  control = λ r. on_rest w (w.control r);
  render = λ snapshot job. on_rest w (w.render snapshot job);
  write_candidate = λ c. on_rest w (w.write_candidate c);
  now = λ s. w.now s.1;
  desired_snapshot = w.desired_snapshot;
  scrub_message = w.scrub_message;
  marshal_outputs = w.marshal_outputs;
  marshal_staged = w.marshal_staged;
  has_drift = w.has_drift;
  transition_message = w.transition_message;
}

-- `if err != nil { return nil, err }` after a call.
unfoldable pub and_then :
    {S A B : Type 0} → S × Result String A → (A → S → S × Result String B) → S × Result String B
and_then (s, ok a) f = f a s
and_then (s, err m) f = (s, err m)

-- The request that asks whether nginx runs what the revision says.
abbrev pub probe_of : Worker → Revision → Request
probe_of w v = record {
  operation = health;
  service = "nginx";
  revision_id = v.id;
  checksum = v.checksum;
  candidate_path = w.nginx_path v.id;
}

-- The job of a repair: it is claimed from the start.
abbrev pub repair_of : Revision → FiniteTimestamp → EnqueueInput
repair_of v now = record {
  revision_id = v.id;
  actor_user_id = none;
  target = nginx;
  status = validating;
  source = other_source "";
  source_primary_id = none;
  source_node_id = none;
  source_revision_id = none;
  snapshot_content_hash = none;
  snapshot_version = none;
  replication_version = none;
  leadership_generation = none;
  correlation_id = "reconcile-nginx:" ++ v.id;
  validation_output = none;
  apply_output = none;
  health_output = none;
  error_message = none;
  claimed_at = some now;
  started_at = some now;
  finished_at = none;
}

-- A job of an attempt that ended.
abbrev pub ended : {S : Type 0} → S × Result String Job → S × Result String (Option Job)
ended (s, ok j) = (s, ok (some j))
ended (s, err m) = (s, err m)

unfoldable pub repair :
    (w : Worker) → Revision → Option Job → World w → World w × Result String (Option Job)
repair w v none s = (s, ok none)
repair w v (some j) s = ended (apply (orchestrator w) j.id v.snapshot s)

unfoldable pub after_probe :
    (w : Worker) → Revision → Response → World w → World w × Result String (Option Job)
after_probe w v probe s =
    if not probe.is_ok || not (w.has_drift probe)
    then (s, ok none)
    else and_then
        (on_jobs w (enqueue_if_not_active w.json (w.fresh_id s.1) (repair_of v (w.now s.1))) s)
        (repair w v)

unfoldable pub reconcile_when :
    (w : Worker)
    → Revision
    → Option FiniteTimestamp
    → World w
    → World w × Result String (Option Job)
reconcile_when w v none s = (s, ok none)
reconcile_when w v (some t) s = and_then (on_rest w (w.control (probe_of w v)) s) (after_probe w v)

unfoldable pub reconcile_applied :
    (w : Worker) → Revision → World w → World w × Result String (Option Job)
reconcile_applied w v s = reconcile_when w v v.applied_at s

abbrev pub default_lease_ms : ℕ
default_lease_ms = 120_000

-- `isActive`.
abbrev pub is_active_status : Status → Bool
is_active_status s = status_eq s queued || status_eq s validating || status_eq s applying

unfoldable pub reconcile_latest :
    (w : Worker) → Option Revision → World w → World w × Result String (Option Job)
reconcile_latest w none s = (s, ok none)
reconcile_latest w (some v) s = reconcile_applied w v s

unfoldable pub when_idle : (w : Worker) → List Job → World w → World w × Result String (Option Job)
when_idle w all_jobs s =
    if any (λ (j : Job). is_active_status j.status) all_jobs
    then (s, ok none)
    else and_then (on_rest w w.latest_applied s) (reconcile_latest w)

-- The patch of a job whose revision is not there.
abbrev pub missing_patch : (w : Worker) → Job → w.Rest → JobPatch
missing_patch w job x = record empty_patch {
  status = some failed;
  error_message = set ("Revision not found: " ++ job.revision_id);
  finished_at = set (w.now x);
}

unfoldable pub apply_revision :
    (w : Worker) → Job → Option Revision → World w → World w × Result String (Option Job)
apply_revision w job none s =
    ended (on_jobs w (Ops.update w.json job.id (missing_patch w job s.1)) s)
apply_revision w job (some v) s = ended (apply (orchestrator w) job.id v.snapshot s)

unfoldable pub after_claim :
    (w : Worker) → Option Job → World w → World w × Result String (Option Job)
after_claim w none s = and_then (on_jobs w (Ops.list w.json) s) (when_idle w)
after_claim w (some job) s =
    and_then (on_rest w (w.get_revision job.revision_id) s) (apply_revision w job)

-- A lease of zero stands for every one that is not positive.
unfoldable pub poll_once : (w : Worker) → ℕ → World w → World w × Result String (Option Job)
poll_once w lease_ms s =
    and_then
      (on_jobs w (Ops.recover_stale (if lease_ms == 0 then default_lease_ms else lease_ms)) s)
      λ _ t. and_then (on_jobs w (Ops.claim_next w.json (other_target "")) t) (after_claim w)
