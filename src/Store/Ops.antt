-- ===== src/Store/Ops.antt =====
-- apps/api/internal/worker/store/store.go and enqueue.go: the operations of the job store.
use proxy_core.Base.{
  ℕ, ◌+◌, ◌-◌, ◌*◌, ◌/◌, ◌%◌, String, Bool, true, false, not, Option, none, some, List, [], ◌∷◌,
  Result, ok, err, ◌>>=◌, ◌>>◌, guard, if◌then◌else◌, str_eq, ◌&&◌, ◌||◌,
}
use proxy_core.Base.Int.{ℤ, pos, negsuc, sub_ℕ}
use proxy_core.Timestamp.{FiniteTimestamp}
use proxy_core.Timestamp.Digits.{bytes_lt}
use proxy_core.Jobs.{Status, queued, validating, applying, status_eq, transition}
use proxy_core.Store.{
  Row, Job, Json, Target, other_target, valid_target, StoreError, invalid_target, missing_reference,
  lost_row, no_values, job_not_found, invalid_transition, scan_job,
}
use proxy_core.Store.Patch.{
  JobPatch, Assignments, assignments, assigns_nothing, assign_row, encode_time,
}
use proxy_core.Store.Table.{
  JobDb, write, read, find_row, update_where, returning, rows_affected, oldest, newest_first,
  mem_text,
}

abbrev pub recovered_message : String
recovered_message = "Recovered after worker lease expiration"

abbrev pub found_row : Option Row → StoreError → Result StoreError Row
found_row none e = err e
found_row (some r) e = ok r

abbrev pub scan_found : Json → Option Row → Result StoreError (Option Job)
scan_found json none = ok none
scan_found json (some r) = do j ← scan_job json r; ok (some j)

unfoldable pub get : Json → String → JobDb → JobDb × Result StoreError (Option Job)
get json id db = read db (λ d. scan_found json (find_row id d.apply_jobs))

unfoldable pub scan_all : Json → List Row → Result StoreError (List Job)
scan_all json [] = ok []
scan_all json (r ∷ rs) = do j ← scan_job json r; js ← scan_all json rs; ok (j ∷ js)

unfoldable pub list : Json → JobDb → JobDb × Result StoreError (List Job)
unfolding scan_all newest_first
list json db = read db (λ d. scan_all json (newest_first d.apply_jobs))

-- The defensive check of the revision and the actor of a selected row.
abbrev actor_known : Option String → List String → Bool
actor_known none users = true
actor_known (some actor) users = mem_text actor users

unfoldable pub references : JobDb → Job → Result StoreError (Unit {0})
references db j =
    guard (mem_text j.revision_id db.revision_ids && actor_known j.actor_user_id db.user_ids)
      missing_reference

-- No target is the empty text.
abbrev pub any_target : Target → Bool
any_target (other_target s) = str_eq s ""
any_target _ = false

abbrev pub target_eq : Target → Target → Bool
target_eq Target.coredns Target.coredns = true
target_eq Target.nginx Target.nginx = true
target_eq Target.combined Target.combined = true
target_eq Target.certificate Target.certificate = true
target_eq (other_target s) (other_target t) = str_eq s t
target_eq _ _ = false

abbrev pub is_queued : Row → Bool
is_queued r = status_eq r.status queued

abbrev pub claimable : Target → Row → Bool
claimable target r = is_queued r && (any_target target || target_eq r.target target)

abbrev pub coalesce : {A : Type 0} → Option A → A → A
coalesce none a = a
coalesce (some b) a = b

-- The SET clause of a claim.
unfoldable pub claim_row : List ℕ → Row → Row
claim_row now r = record r {
  status = validating;
  claimed_at = some now;
  started_at = some (coalesce r.started_at now);
}

abbrev pub is_selected : String → Row → Bool
is_selected id r = str_eq r.id id && is_queued r

-- The claim of the selected row.
unfoldable pub claim_selected :
    Json → List ℕ → JobDb → Row → Result StoreError (List Row × Option Job)
claim_selected json now db r = do
  selected ← scan_job json r
  references db selected
  row ← found_row (returning (is_selected selected.id) (claim_row now) db.apply_jobs) lost_row
  job ← scan_job json row
  references db job
  ok (update_where (is_selected selected.id) (claim_row now) db.apply_jobs, some job)

unfoldable pub claim_oldest :
    Json → List ℕ → JobDb → Option Row → Result StoreError (List Row × Option Job)
claim_oldest json now db none = ok (db.apply_jobs, none)
claim_oldest json now db (some r) = claim_selected json now db r

-- The write stamps the clock before the callback runs.
unfoldable pub claim_next : Json → Target → JobDb → JobDb × Result StoreError (Option Job)
claim_next json target db =
    if not (any_target target) && not (valid_target target)
    then (db, err invalid_target)
    else write db (λ d. encode_time d.clock >>= λ now.
        claim_oldest json now d (oldest (claimable target) d.apply_jobs))

-- `UnixMilli()` less the lease, in whole milliseconds.
abbrev pub unix_milli : FiniteTimestamp → ℕ → ℤ
unix_milli t lease = elim t.seconds [
  | pos s ↦ sub_ℕ (s * 1000 + elim t.nanos [ pos n ↦ n / 1000000 | negsuc n ↦ 0 ]) lease
  | negsuc s ↦ sub_ℕ (elim t.nanos [ pos n ↦ n / 1000000 | negsuc n ↦ 0 ]) ((s + 1) * 1000 + lease)
]

-- `((ms % 1000) + 1000) % 1000` with Go's `%`, which truncates towards zero, and the whole seconds.
abbrev pub cutoff_of : ℤ → FiniteTimestamp
cutoff_of (pos m) =
    let r = (m % 1000 + 1000) % 1000 in
    record { seconds = pos ((m - r) / 1000); nanos = pos (r * 1000000) }
cutoff_of (negsuc m) =
    let r = (1000 - (m + 1) % 1000) % 1000 in
    record { seconds = sub_ℕ 0 ((m + 1 + r) / 1000); nanos = pos (r * 1000000) }

abbrev claimed_before : List ℕ → Option (List ℕ) → Bool
claimed_before cutoff none = false
claimed_before cutoff (some key) = bytes_lt key cutoff

abbrev pub is_stale : List ℕ → Row → Bool
is_stale cutoff r =
    (status_eq r.status validating || status_eq r.status applying)
    && claimed_before cutoff r.claimed_at

unfoldable pub requeue_row : Row → Row
requeue_row r = record r {
  status = queued;
  claimed_at = none;
  started_at = none;
  error_message = some recovered_message;
}

unfoldable pub requeue_stale : List ℕ → JobDb → JobDb × Result StoreError ℕ
requeue_stale cutoff db = write db λ d. ok (
  update_where (is_stale cutoff) requeue_row d.apply_jobs,
  rows_affected (is_stale cutoff) d.apply_jobs,
)

abbrev with_cutoff : JobDb → Result StoreError (List ℕ) → JobDb × Result StoreError ℕ
with_cutoff db (err e) = (db, err e)
with_cutoff db (ok cutoff) = requeue_stale cutoff db

unfoldable pub recover_stale : ℕ → JobDb → JobDb × Result StoreError ℕ
recover_stale lease_ms db = with_cutoff db (encode_time (cutoff_of (unix_milli db.clock lease_ms)))

-- The check of the move that a patch makes.
abbrev pub check_move : Option Row → Option Status → Result StoreError (Unit {0})
check_move row none = ok tt
check_move none (some next) = err job_not_found
check_move (some r) (some next) = elim (transition r.status next) [
  | ok s ↦ ok tt
  | err e ↦ err (invalid_transition e)
]

abbrev pub has_id : String → Row → Bool
has_id id r = str_eq r.id id

unfoldable pub update_row : Json → String → Assignments → JobDb → Result StoreError (List Row × Job)
update_row json id a db = do
  check_move (find_row id db.apply_jobs) a.status
  row ← found_row (returning (has_id id) (assign_row a) db.apply_jobs) job_not_found
  job ← scan_job json row
  ok (update_where (has_id id) (assign_row a) db.apply_jobs, job)

unfoldable pub update_with :
    Json → String → JobDb → Result StoreError Assignments → JobDb × Result StoreError Job
update_with json id db (err e) = (db, err e)
update_with json id db (ok a) =
    if assigns_nothing a then (db, err no_values) else write db (update_row json id a)

unfoldable pub update : Json → String → JobPatch → JobDb → JobDb × Result StoreError Job
update json id patch db = update_with json id db (assignments json patch)
