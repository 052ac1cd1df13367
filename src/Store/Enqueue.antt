-- ===== src/Store/Enqueue.antt =====
-- apps/api/internal/worker/store/enqueue.go: the insertion of a job.
use proxy_core.Base.{
  String, Bool, Option, none, some, List, [], ◌∷◌, ◌++◌, Result, ok, ◌>>=◌, if◌then◌else◌, str_eq,
  any, ◌||◌,
}
use proxy_core.Base.Int.{ℤ}
use proxy_core.Timestamp.{FiniteTimestamp}
use proxy_core.Jobs.{Status, queued, validating, applying, other, status_eq}
use proxy_core.Store.{Row, Job, Json, Target, Source, ordinary, other_source, StoreError, scan_job}
use proxy_core.Store.Patch.{encode_time, compact_output}
use proxy_core.Store.Table.{JobDb, write}

pub record EnqueueInput : Type 0 where
  pub revision_id : String
  pub actor_user_id : Option String
  pub target : Target
  pub status : Status
  pub source : Source
  pub source_primary_id : Option String
  pub source_node_id : Option String
  pub source_revision_id : Option String
  pub snapshot_content_hash : Option String
  pub snapshot_version : Option ℤ
  pub replication_version : Option ℤ
  pub leadership_generation : Option ℤ
  pub correlation_id : String
  pub validation_output : Option String
  pub apply_output : Option String
  pub health_output : Option String
  pub error_message : Option String
  pub claimed_at : Option FiniteTimestamp
  pub started_at : Option FiniteTimestamp
  pub finished_at : Option FiniteTimestamp

-- The empty status and the empty source stand for their defaults.
abbrev pub default_status : Status → Status
default_status (other s) = if str_eq s "" then queued else other s
default_status s = s

abbrev pub default_source : Source → Source
default_source (other_source s) = if str_eq s "" then ordinary else other_source s
default_source s = s

abbrev pub optionally :
    {A B : Type 0} → (A → Result StoreError B) → Option A → Result StoreError (Option B)
optionally f none = ok none
optionally f (some a) = do b ← f a; ok (some b)

-- The row that is inserted; `id` is the fresh UUID.
unfoldable pub new_row : Json → String → JobDb → EnqueueInput → Result StoreError Row
new_row json id db i = do
  validation ← optionally (compact_output json) i.validation_output
  applied ← optionally (compact_output json) i.apply_output
  health ← optionally (compact_output json) i.health_output
  claimed ← optionally encode_time i.claimed_at
  started ← optionally encode_time i.started_at
  finished ← optionally encode_time i.finished_at
  created ← encode_time db.clock
  ok (record {
    id = id;
    revision_id = i.revision_id;
    correlation_id = i.correlation_id;
    created_at = created;
    target = i.target;
    status = default_status i.status;
    source = default_source i.source;
    actor_user_id = i.actor_user_id;
    source_primary_id = i.source_primary_id;
    source_node_id = i.source_node_id;
    source_revision_id = i.source_revision_id;
    snapshot_content_hash = i.snapshot_content_hash;
    validation_output = validation;
    apply_output = applied;
    health_output = health;
    error_message = i.error_message;
    claimed_at = claimed;
    started_at = started;
    finished_at = finished;
    snapshot_version = i.snapshot_version;
    replication_version = i.replication_version;
    leadership_generation = i.leadership_generation;
  })

unfoldable pub insert_job :
    Json → String → EnqueueInput → JobDb → Result StoreError (List Row × Job)
insert_job json id i db = do
  row ← new_row json id db i
  job ← scan_job json row
  ok (db.apply_jobs ++ row ∷ [], job)

unfoldable pub enqueue : Json → String → EnqueueInput → JobDb → JobDb × Result StoreError Job
enqueue json id i db = write db (insert_job json id i)

-- `status IN ('queued','validating','applying')`.
abbrev pub is_active : Row → Bool
is_active r =
    status_eq r.status queued || status_eq r.status validating || status_eq r.status applying

unfoldable pub insert_if_idle :
    Json → String → EnqueueInput → JobDb → Result StoreError (List Row × Option Job)
insert_if_idle json id i db =
    if any is_active db.apply_jobs
    then ok (db.apply_jobs, none)
    else insert_job json id i db >>= λ (rows, job). ok (rows, some job)

unfoldable pub enqueue_if_not_active :
    Json → String → EnqueueInput → JobDb → JobDb × Result StoreError (Option Job)
enqueue_if_not_active json id i db = write db (insert_if_idle json id i)
