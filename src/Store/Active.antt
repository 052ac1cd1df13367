-- ===== src/Store/Active.antt =====
-- About EnqueueIfNotActive of apps/api/internal/worker/store/enqueue.go.
use proxy_core.Base.{
  ℕ, ◌+◌, ◌≤◌, ◌≡◌, refl, ap, String, true, false, Option, none, some, List, [], ◌∷◌, ◌++◌, ok, err,
  arith, inl, inr, Bool-cases, >>=-eq-ok, any,
}
use proxy_core.Store.{Row, Job, Json, StoreError, scan_job}
use proxy_core.Store.Table.{JobDb, consume, rows_affected}
use proxy_core.Store.Enqueue.{
  EnqueueInput, new_row, insert_job, insert_if_idle, enqueue_if_not_active, is_active,
}
use proxy_core.Store.Laws.{write-eq-ok, write-eq-err}

-- The number of active jobs.
abbrev pub active : List Row → ℕ
active = rows_affected is_active

active-append : (xs : List Row) (r : Row) → active (xs ++ r ∷ []) ≤ active xs + 1
unfolding rows_affected
active-append [] r = ground arith
active-append (x ∷ xs) r = ground (arith, active-append xs r)

pub active-zero : (xs : List Row) → any is_active xs ≡ false → active xs ≡ 0
unfolding rows_affected
active-zero [] h = refl
active-zero (x ∷ xs) h = ground (arith, active-zero xs)

active-pos : (xs : List Row) → any is_active xs ≡ true → 1 ≤ active xs
unfolding rows_affected
active-pos [] h = cc
active-pos (x ∷ xs) h = ground (arith, active-pos xs)

-- What the guarded insertion did: nothing beside an active job, or one more row with none.
pub record Guarded (before after : List Row) (result : Option Job) : Type 0 where
  pub refused : result ≡ none → (after ≡ before) × (1 ≤ active before)
  pub inserted :
      (j : Job)
      → result ≡ some j
      → (active before ≡ 0) × (active after ≤ 1) × ((r : Row) × (after ≡ before ++ r ∷ []))

insert_if_idle-Guarded :
    (json : Json) (id : String) (i : EnqueueInput) (db : JobDb) {rows : List Row} {o : Option Job}
    → insert_if_idle json id i db ≡ ok (rows, o)
    → Guarded db.apply_jobs rows o
unfolding insert_if_idle insert_job
insert_if_idle-Guarded json id i db {rows} {o} h = elim (Bool-cases (any is_active db.apply_jobs)) [
  | inl busy ↦ record {
    refused = λ e. (ground arith, active-pos db.apply_jobs busy);
    inserted = λ j e. absurd (ground arith);
  }
  | inr idle ↦
      let (p, run, h1) = >>=-eq-ok (insert_job json id i db) _ (rw (idle, insert_if_idle) at h) in
      let (row, made, h2) = >>=-eq-ok (new_row json id db i) _ run in
      let (job, scanned, h3) = >>=-eq-ok (scan_job json row) _ h2 in
      let grown : rows ≡ db.apply_jobs ++ row ∷ [] = ground arith in
      record {
        refused = λ e. absurd (ground arith);
        inserted = λ j e. (
          active-zero db.apply_jobs idle,
          rw grown (omega (arith, active-append db.apply_jobs row, active-zero db.apply_jobs idle)),
          (row, grown),
        );
      }
]

-- The guarded insertion, when it succeeds: it returns no job exactly when some job was active,
-- and then changes no row; otherwise it adds one row to a table without active jobs, which then
-- has at most one.
pub enqueue_if_not_active-Guarded :
    (json : Json) (id : String) (i : EnqueueInput) (db : JobDb) {t : JobDb} {o : Option Job}
    → enqueue_if_not_active json id i db ≡ (t, ok o)
    → Guarded db.apply_jobs t.apply_jobs o
unfolding enqueue_if_not_active
enqueue_if_not_active-Guarded json id i db h =
    let (rows, run, t_eq) = write-eq-ok db (insert_if_idle json id i) h in
    rw t_eq (insert_if_idle-Guarded json id i (consume db) run)

-- A guarded insertion that fails changes no row.
pub enqueue_if_not_active_err :
    (json : Json) (id : String) (i : EnqueueInput) (db : JobDb) {t : JobDb} {e : StoreError}
    → enqueue_if_not_active json id i db ≡ (t, err e)
    → t.apply_jobs ≡ db.apply_jobs
unfolding enqueue_if_not_active
enqueue_if_not_active_err json id i db h =
    ap (λ (d : JobDb). d.apply_jobs) (write-eq-err db (insert_if_idle json id i) h)
