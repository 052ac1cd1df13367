-- ===== src/Examples/Polls.antt =====
-- Turns of a worker (apps/api/internal/worker/poller) whose revisions are gone and whose nginx has
-- drifted, and the text of a snapshot.
use proxy_core.Base.{◌≡◌, refl, true, none, some, [], ◌∷◌, ok, if◌then◌else◌, ◌==◌}
use proxy_core.Base.Int.{pos}
use proxy_core.Base.Texts.{Text, text_eq}
use proxy_core.Timestamp.{finite_key, encode_timestamp, nanos_value, decode_timestamp}
use proxy_core.Timestamp.Digits.{bytes_lt, pad, digits}
use proxy_core.Jobs.{applying, failed, transition}
use proxy_core.Store.{
  Job, nginx, combined, other_target, scan_job, scan_domain, is_uuid, has_nul, decode_time,
  scan_ids, scan_id, is_null_json, scan_int32, scan_output, scan_outputs, scan_text, scan_texts,
  scan_time, scan_times, scan_versions,
}
use proxy_core.Store.Patch.{
  encode_time, assignments, assign, compact_output, assigns_nothing, assign_row,
}
use proxy_core.Store.Table.{
  JobDb, consume, write, oldest, returning, update_where, find_row, rows_affected,
}
use proxy_core.Store.Ops.{
  update, update_with, update_row, claim_next, claim_row, claim_oldest, claim_selected, references,
  recover_stale, requeue_stale,
}
use proxy_core.Poller.{
  Revision, Worker, poll_once, and_then, after_claim, apply_revision, reconcile_applied,
}
use proxy_core.Poller.Turns.{NoJob, poll_once_busy}
use proxy_core.Poller.Repair.{Reconciled, reconcile_applied-Reconciled}
use proxy_core.Poller.Missing.{poll_once_missing}
use proxy_core.Domain.Values.{Json, whole, text, object, field, no_fields}
use proxy_core.Domain.Snapshots.{write_stable, checksum_snapshot}
use proxy_core.Domain.Snapshots.Stability.{
  SameTree, same_object, swapped, checksum_snapshot-SameTree,
}
use proxy_core.Examples.Worker.{
  json, id_a, id_b, revision, at, key_at, row_of, jobs, two_jobs, after_one, claimed_job,
  first_claim,
}

abbrev worker : Worker
worker = record {
  Rest = Unit {0};
  json = json;
  store_message = λ e. "store";
  get_revision = λ id x. (x, ok none);
  latest_applied = λ x. (x, ok none);
  mark_applied = λ id x. (x, ok tt);
  control =
      λ r x. (x, ok (record { is_ok = true; output = some "{\"status\":\"drift\"}"; error = "" }));
  render = λ snapshot job x. (x, ok []);
  write_candidate = λ c x. (x, ok tt);
  now = λ x. at 9;
  fresh_id = λ x. id_b;
  nginx_path = λ id. "/c/nginx";
  desired_snapshot = λ s. s;
  scrub_message = λ s. s;
  marshal_outputs = λ o. "{}";
  marshal_staged = λ s o. "{}";
  has_drift = λ r. true;
  transition_message = λ x. "Invalid job transition";
}

abbrev busy : JobDb
busy = jobs (record (row_of id_a nginx 5) { status = applying; claimed_at = some (key_at 9) } ∷ [])

recovers_busy : recover_stale (if 0 == 0 then 120_000 else 0) busy ≡ (busy, ok 0)
unfolding recover_stale requeue_stale encode_time encode_timestamp nanos_value finite_key write
    update_where rows_affected bytes_lt pad
recovers_busy = refl

claims_none : claim_next json (other_target "") busy ≡ (busy, ok none)
unfolding claim_next write encode_time encode_timestamp claim_oldest oldest
claims_none = refl

poll_once_busy_example :
    ((poll_once worker 0 (busy, tt)).0 ≡ (consume busy, tt))
    × NoJob (poll_once worker 0 (busy, tt)).1
poll_once_busy_example = poll_once_busy worker 0 busy busy busy tt 0 recovers_busy claims_none refl

recovers_two : recover_stale (if 0 == 0 then 120_000 else 0) two_jobs ≡ (two_jobs, ok 0)
unfolding recover_stale requeue_stale encode_time encode_timestamp nanos_value finite_key write
    update_where rows_affected
recovers_two = refl

abbrev failed_job : Job
failed_job = record (claimed_job id_b combined 3) {
  status = failed;
  finished_at = some (at 9);
  error_message = some "Revision not found: 00000000-0000-4000-8000-0000000000ff";
}

fails_two : (poll_once worker 0 (two_jobs, tt)).1 ≡ ok (some failed_job)
unfolding poll_once and_then after_claim apply_revision recover_stale requeue_stale encode_time
    encode_timestamp nanos_value finite_key write update_where rows_affected claim_next claim_oldest
    oldest claim_selected scan_job scan_domain bytes_lt pad is_uuid has_nul decode_time
    decode_timestamp digits scan_ids scan_id claim_row references returning is_null_json scan_int32
    scan_output scan_outputs scan_text scan_texts scan_time scan_times scan_versions update
    update_with assignments assign compact_output assigns_nothing assign_row update_row find_row
    transition
fails_two = refl

poll_once_missing_example :
    (j : Job) × (some failed_job ≡ some j) × (j.id ≡ id_b) × (j.status ≡ failed)
poll_once_missing_example =
    poll_once_missing worker 0 two_jobs two_jobs after_one tt tt 0 (claimed_job id_b combined 3)
      (some failed_job) recovers_two first_claim refl fails_two

abbrev applied_revision : Revision
applied_revision = record {
  id = revision;
  checksum = "a";
  snapshot = "{}";
  applied_at = some (at 7);
}

reconcile_applied_example :
    Reconciled worker applied_revision
      (jobs [], tt)
      (reconcile_applied worker applied_revision (jobs [], tt))
reconcile_applied_example = reconcile_applied-Reconciled worker applied_revision (jobs [], tt)

abbrev name_first : Json
name_first = object (field "name" (text "example.org") (field "id" (whole (pos 7)) no_fields))

abbrev id_first : Json
id_first = object (field "id" (whole (pos 7)) (field "name" (text "example.org") no_fields))

abbrev quoted : Text → Text
quoted s = b'"' ∷ s

reordered : SameTree name_first id_first
unfolding text_eq
reordered =
    same_object (field "name" (text "example.org") (field "id" (whole (pos 7)) no_fields))
      (field "id" (whole (pos 7)) (field "name" (text "example.org") no_fields))
      (swapped "name" "id" (text "example.org") (whole (pos 7)) no_fields refl)

checksum_snapshot_example :
    (write_stable quoted name_first ≡ write_stable quoted id_first)
    × (checksum_snapshot quoted quoted name_first ≡ checksum_snapshot quoted quoted id_first)
checksum_snapshot_example = checksum_snapshot-SameTree quoted quoted name_first id_first reordered
