-- ===== src/Store/Inserted.antt =====
-- About the row that apps/api/internal/worker/store/enqueue.go inserts where no job is active.
use proxy_core.Base.{
  ◌≡◌, refl, sym, ap, ◌∙◌, subst, String, true, false, some, List, [], ◌∷◌, ◌++◌, Result, ok, arith,
  inl, inr, Bool-cases, >>=-eq-ok, any,
}
use proxy_core.Store.{Row, Job, Json, StoreError, scan_job}
use proxy_core.Store.Patch.{encode_time, compact_output}
use proxy_core.Store.Table.{JobDb, consume, rows_affected}
use proxy_core.Store.Enqueue.{
  EnqueueInput, default_status, optionally, new_row, insert_job, insert_if_idle,
  enqueue_if_not_active, is_active,
}
use proxy_core.Store.Laws.{write-eq-ok, scan_job-fields}
use proxy_core.Store.Active.{active}

abbrev HasInput : String → EnqueueInput → Row → Type 0
HasInput id i r =
    (r.id ≡ id)
    × (r.status ≡ default_status i.status)
    × (r.revision_id ≡ i.revision_id)
    × (r.target ≡ i.target)
    × (r.correlation_id ≡ i.correlation_id)

abbrev ok_row : Row → Result StoreError Row
ok_row r = ok r

ok-HasInput :
    (id : String) (i : EnqueueInput) {q r : Row}
    → HasInput id i q
    → ok_row q ≡ ok_row r
    → HasInput id i r
ok-HasInput id i {q} {r} h e = let same : q ≡ r = ground arith in subst (HasInput id i) same h

new_row-fields :
    (json : Json) (id : String) (db : JobDb) (i : EnqueueInput) {r : Row}
    → new_row json id db i ≡ ok r
    → HasInput id i r
unfolding new_row
new_row-fields json id db i {r} h =
    let (_, _, h1) = >>=-eq-ok (optionally (compact_output json) i.validation_output) _ h in
    let (_, _, h2) = >>=-eq-ok (optionally (compact_output json) i.apply_output) _ h1 in
    let (_, _, h3) = >>=-eq-ok (optionally (compact_output json) i.health_output) _ h2 in
    let (_, _, h4) = >>=-eq-ok (optionally encode_time i.claimed_at) _ h3 in
    let (_, _, h5) = >>=-eq-ok (optionally encode_time i.started_at) _ h4 in
    let (_, _, h6) = >>=-eq-ok (optionally encode_time i.finished_at) _ h5 in
    let (_, _, h7) = >>=-eq-ok (encode_time db.clock) _ h6 in
    ok-HasInput id i (refl, refl, refl, refl, refl) h7

-- The job `j` is the row that was added to `before`, with what the input says.
pub record Inserted (id : String) (i : EnqueueInput) (before after : List Row) (j : Job)
    : Type 0 where
  pub row : Row
  pub idle : any is_active before ≡ false
  pub grown : after ≡ before ++ row ∷ []
  pub row_id : row.id ≡ id
  pub row_status : row.status ≡ default_status i.status
  pub row_revision : row.revision_id ≡ i.revision_id
  pub row_target : row.target ≡ i.target
  pub row_correlation : row.correlation_id ≡ i.correlation_id
  pub job_id : j.id ≡ row.id
  pub job_status : j.status ≡ row.status
  pub job_revision : j.revision_id ≡ row.revision_id
  pub job_target : j.target ≡ row.target

insert_if_idle-Inserted :
    (json : Json) (id : String) (i : EnqueueInput) (db : JobDb) {rows : List Row} {j : Job}
    → insert_if_idle json id i db ≡ ok (rows, some j)
    → Inserted id i db.apply_jobs rows j
unfolding insert_if_idle insert_job
insert_if_idle-Inserted json id i db {rows} {j} h =
    elim (Bool-cases (any is_active db.apply_jobs)) [
      | inl busy ↦ absurd (ground arith)
      | inr idle ↦
          let (p, run, h1) =
            >>=-eq-ok (insert_job json id i db) _ (rw (idle, insert_if_idle) at h) in
          let (row, made, h2) = >>=-eq-ok (new_row json id db i) _ run in
          let (job, scanned, h3) = >>=-eq-ok (scan_job json row) _ h2 in
          let same : job ≡ j = ground arith in
          let (f_id, f_status, f_revision, f_target, f_correlation) =
            new_row-fields json id db i made in
          let (s_id, s_status, s_revision, s_target) = scan_job-fields json row scanned in
          record {
            row = row;
            idle = idle;
            grown = ground arith;
            row_id = f_id;
            row_status = f_status;
            row_revision = f_revision;
            row_target = f_target;
            row_correlation = f_correlation;
            job_id = ap (λ (x : Job). x.id) (sym same) ∙ s_id;
            job_status = ap (λ (x : Job). x.status) (sym same) ∙ s_status;
            job_revision = ap (λ (x : Job). x.revision_id) (sym same) ∙ s_revision;
            job_target = ap (λ (x : Job). x.target) (sym same) ∙ s_target;
          }
    ]

-- A guarded insertion that returns a job has added it to a table without active jobs.
pub enqueue_if_not_active-Inserted :
    (json : Json) (id : String) (i : EnqueueInput) (db : JobDb) {t : JobDb} {j : Job}
    → enqueue_if_not_active json id i db ≡ (t, ok (some j))
    → Inserted id i db.apply_jobs t.apply_jobs j
unfolding enqueue_if_not_active
enqueue_if_not_active-Inserted json id i db h =
    let (rows, run, t_eq) = write-eq-ok db (insert_if_idle json id i) h in
    rw t_eq (insert_if_idle-Inserted json id i (consume db) run)

pub active-append-one :
    (xs : List Row) (r : Row)
    → any is_active xs ≡ false
    → is_active r ≡ true
    → active (xs ++ r ∷ []) ≡ 1
unfolding rows_affected
active-append-one [] r h k = ground arith
active-append-one (x ∷ xs) r h k = ground (arith, active-append-one xs r)
