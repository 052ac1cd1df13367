-- ===== src/Examples/Worker.antt =====
-- Runs of the job store (apps/api/internal/worker/store) on a table with one queued job.
use proxy_core.Base.{ℕ, ◌+◌, ◌^◌, ◌≡◌, ◌≢◌, refl, String, true, none, some, List, [], ◌∷◌, ok}
use proxy_core.Base.Int.{pos}
use proxy_core.Timestamp.{
  FiniteTimestamp, finite_key, encode_timestamp, nanos_value, decode_timestamp,
}
use proxy_core.Timestamp.Digits.{bytes_lt, pad, digits}
use proxy_core.Jobs.{queued, validating, applying, other, transition}
use proxy_core.Store.{
  Row, Job, Json, Target, nginx, combined, other_target, ordinary, scan_job, scan_domain, is_uuid,
  has_nul, decode_time, scan_ids, scan_id, is_null_json, scan_int32, scan_output, scan_outputs,
  scan_text, scan_texts, scan_time, scan_times, scan_versions,
}
use proxy_core.Store.Patch.{
  JobPatch, empty_patch, encode_time, assignments, assign, compact_output, assigns_nothing,
  assign_row, clear,
}
use proxy_core.Store.Table.{JobDb, write, oldest, returning, update_where, find_row}
use proxy_core.Store.Ops.{
  update, update_with, update_row, claim_next, claim_row, claim_oldest, claim_selected, references,
}
use proxy_core.Store.Enqueue.{
  EnqueueInput, new_row, insert_job, insert_if_idle, enqueue_if_not_active,
}
use proxy_core.Store.Laws.{Moved, update-Moved}
use proxy_core.Store.Claim.{Claimed, claim_next-Claimed, claim_next_twice}
use proxy_core.Store.Active.{Guarded, enqueue_if_not_active-Guarded}

abbrev pub json : Json
json = record { valid = λ s. true; compact = λ s. some s }

abbrev pub id_a : String
id_a = "00000000-0000-4000-8000-00000000000a"

abbrev pub id_b : String
id_b = "00000000-0000-4000-8000-00000000000b"

abbrev pub revision : String
revision = "00000000-0000-4000-8000-0000000000ff"

abbrev pub at : ℕ → FiniteTimestamp
at n = record { seconds = pos n; nanos = pos 0 }

abbrev pub key_at : ℕ → List ℕ
key_at n = finite_key (2 ^ 63 + n) 0

abbrev pub row_of : String → Target → ℕ → Row
row_of id target n = record {
  id = id;
  revision_id = revision;
  correlation_id = "c";
  created_at = key_at n;
  target = target;
  status = queued;
  source = ordinary;
  actor_user_id = none;
  source_primary_id = none;
  source_node_id = none;
  source_revision_id = none;
  snapshot_content_hash = none;
  validation_output = none;
  apply_output = none;
  health_output = none;
  error_message = none;
  claimed_at = none;
  started_at = none;
  finished_at = none;
  snapshot_version = none;
  replication_version = none;
  leadership_generation = none;
}

abbrev pub job_of : String → Target → ℕ → Job
job_of id target n = record {
  id = id;
  revision_id = revision;
  actor_user_id = none;
  target = target;
  status = queued;
  source = ordinary;
  source_primary_id = none;
  source_node_id = none;
  source_revision_id = none;
  snapshot_content_hash = none;
  snapshot_version = none;
  replication_version = none;
  leadership_generation = none;
  correlation_id = "c";
  created_at = at n;
  claimed_at = none;
  started_at = none;
  finished_at = none;
  validation_output = none;
  apply_output = none;
  health_output = none;
  error_message = none;
}

abbrev pub jobs : List Row → JobDb
jobs rows = record {
  apply_jobs = rows;
  revision_ids = revision ∷ [];
  user_ids = [];
  faults = [];
  clock = at 9;
}

-- The second of the two jobs is the older one.
abbrev pub two_jobs : JobDb
two_jobs = jobs (row_of id_a nginx 5 ∷ row_of id_b combined 3 ∷ [])

abbrev pub claimed_job : String → Target → ℕ → Job
claimed_job id target n = record (job_of id target n) {
  status = validating;
  claimed_at = some (at 9);
  started_at = some (at 9);
}

abbrev pub after_one : JobDb
after_one = jobs (row_of id_a nginx 5 ∷ claim_row (key_at 9) (row_of id_b combined 3) ∷ [])

abbrev after_two : JobDb
after_two = jobs (
    claim_row (key_at 9) (row_of id_a nginx 5) ∷ claim_row (key_at 9) (row_of id_b combined 3) ∷ [])

abbrev pub any : Target
any = other_target ""

pub first_claim :
    claim_next json any two_jobs ≡ (after_one, ok (some (claimed_job id_b combined 3)))
unfolding claim_next write encode_time encode_timestamp nanos_value claim_oldest oldest
    claim_selected scan_job scan_domain bytes_lt pad is_uuid has_nul decode_time decode_timestamp
    digits scan_ids scan_id claim_row references returning update_where is_null_json scan_int32
    scan_output scan_outputs scan_text scan_texts scan_time scan_times scan_versions finite_key
first_claim = refl

second_claim : claim_next json any after_one ≡ (after_two, ok (some (claimed_job id_a nginx 5)))
unfolding claim_next write encode_time encode_timestamp nanos_value claim_oldest oldest
    claim_selected scan_job scan_domain bytes_lt pad is_uuid has_nul decode_time decode_timestamp
    digits scan_ids scan_id claim_row references returning update_where is_null_json scan_int32
    scan_output scan_outputs scan_text scan_texts scan_time scan_times scan_versions finite_key
second_claim = refl

claim_next_example :
    Claimed any two_jobs.apply_jobs after_one.apply_jobs (claimed_job id_b combined 3)
claim_next_example = claim_next-Claimed json any two_jobs first_claim

claim_next_twice_example : id_b ≢ id_a
claim_next_twice_example = claim_next_twice json any any two_jobs first_claim second_claim

-- The patch that starts the application of a claimed job.
abbrev start : JobPatch
start = record empty_patch { status = some applying; started_at = clear }

abbrev claimed : JobDb
claimed = jobs (record (row_of id_a nginx 5) { status = validating } ∷ [])

abbrev started : JobDb
started = jobs (record (row_of id_a nginx 5) { status = applying } ∷ [])

starts :
    update json id_a start claimed
    ≡ (started, ok (record (job_of id_a nginx 5) { status = applying }))
unfolding update update_with assignments assign compact_output assigns_nothing assign_row update_row
    find_row transition write encode_time encode_timestamp nanos_value scan_job scan_domain bytes_lt
    pad is_uuid has_nul decode_time decode_timestamp digits scan_ids scan_id returning update_where
    is_null_json scan_int32 scan_output scan_outputs scan_text scan_texts scan_time scan_times
    scan_versions finite_key
starts = refl

update_example :
    Moved id_a start claimed.apply_jobs (record (job_of id_a nginx 5) { status = applying })
update_example = update-Moved json id_a start claimed starts

abbrev input : EnqueueInput
input = record {
  revision_id = revision;
  actor_user_id = none;
  target = nginx;
  status = other "";
  source = ordinary;
  source_primary_id = none;
  source_node_id = none;
  source_revision_id = none;
  snapshot_content_hash = none;
  snapshot_version = none;
  replication_version = none;
  leadership_generation = none;
  correlation_id = "c";
  validation_output = none;
  apply_output = none;
  health_output = none;
  error_message = none;
  claimed_at = none;
  started_at = none;
  finished_at = none;
}

enqueues :
    enqueue_if_not_active json id_b input (jobs [])
    ≡ (jobs (row_of id_b nginx 9 ∷ []), ok (some (job_of id_b nginx 9)))
unfolding enqueue_if_not_active insert_if_idle insert_job new_row compact_output write encode_time
    encode_timestamp nanos_value scan_job scan_domain bytes_lt pad is_uuid has_nul decode_time
    decode_timestamp digits scan_ids scan_id returning update_where is_null_json scan_int32
    scan_output scan_outputs scan_text scan_texts scan_time scan_times scan_versions finite_key
enqueues = refl

enqueue_if_not_active_example : Guarded [] (row_of id_b nginx 9 ∷ []) (some (job_of id_b nginx 9))
enqueue_if_not_active_example = enqueue_if_not_active-Guarded json id_b input (jobs []) enqueues
