-- ===== src/Store/Laws.antt =====
-- About Update of apps/api/internal/worker/store/store.go and the transaction under it.
use proxy_core.Base.{
  ◌≡◌, refl, sym, ap, ◌∙◌, String, Option, none, some, List, [], ◌∷◌, Result, ok, err, arith, inl,
  inr, Bool-cases, Result-cases, >>=-eq-ok, str_eq, eq_iff,
}
use proxy_core.Jobs.{Status, transition}
use proxy_core.Jobs.Laws.{transition_ok, ◌⟶◌, transition-⟶}
use proxy_core.Store.{Row, Job, Json, StoreError, scan_job}
use proxy_core.Store.Patch.{JobPatch, Assignments, assignments, assigns_nothing, assign_row}
use proxy_core.Store.Table.{JobDb, write, consume, find_row, returning}
use proxy_core.Store.Ops.{update, update_with, update_row, check_move, found_row, has_id}

-- A transaction that succeeds has run its callback on the database.
pub write-eq-ok :
    {A : Type 0} (db : JobDb) (f : JobDb → Result StoreError (List Row × A)) {t : JobDb} {a : A}
    → write db f ≡ (t, ok a)
    → (rows : List Row) × (f (consume db) ≡ ok (rows, a))
      × (t ≡ record (consume db) { apply_jobs = rows })
unfolding write
write-eq-ok db f {t} {a} h = elim (Result-cases (f (consume db))) [
  | inl ((rows, b), e) ↦ (rows, ground arith, ground arith)
  | inr (x, e) ↦ absurd (ground arith)
]

-- A transaction that fails leaves every row as it was.
pub write-eq-err :
    {A : Type 0} (db : JobDb) (f : JobDb → Result StoreError (List Row × A)) {t : JobDb}
    {e : StoreError}
    → write db f ≡ (t, err e)
    → t ≡ consume db
unfolding write
write-eq-err db f {t} {e} h = ground arith

-- What is read of a row keeps its id and its status.
pub scan_job-fields :
    (json : Json) (r : Row) {j : Job}
    → scan_job json r ≡ ok j
    → (j.id ≡ r.id)
      × (j.status ≡ r.status)
      × (j.revision_id ≡ r.revision_id)
      × (j.target ≡ r.target)
unfolding scan_job
scan_job-fields json r {j} h = (ground arith, ground arith, ground arith, ground arith)

-- The row that an UPDATE by id returns is the row that a SELECT by id finds.
returning-find_row :
    (id : String) (f : Row → Row) (rows : List Row) {r : Row}
    → returning (has_id id) f rows ≡ some r
    → (old : Row) × (find_row id rows ≡ some old) × (r ≡ f old)
unfolding returning find_row
returning-find_row id f [] h = cc
returning-find_row id f (x ∷ xs) {r} h = elim (Bool-cases (str_eq x.id id)) [
  | inl hit ↦ (x, ground arith, ground arith)
  | inr miss ↦
      let (old, found, e) = returning-find_row id f xs (rw (miss, returning) at h) in
      (old, ground arith, e)
]

find_row-id : (id : String) (rows : List Row) {r : Row} → find_row id rows ≡ some r → r.id ≡ id
unfolding find_row
find_row-id id [] h = cc
find_row-id id (x ∷ xs) {r} h = ground (arith, eq_iff x.id id, find_row-id id xs {r = r})

-- How an update has changed the status of the job.
pub record Moved (id : String) (patch : JobPatch) (rows : List Row) (j : Job) : Type 0 where
  pub old : Row
  pub found : find_row id rows ≡ some old
  pub same_id : j.id ≡ id
  pub legal : (s : Status) → patch.status ≡ some s → (old.status ⟶ s) × (j.status ≡ s)
  pub kept : patch.status ≡ none → j.status ≡ old.status

check_move_ok :
    (old : Row) (s : Status) {x : Unit {0}}
    → check_move (some old) (some s) ≡ ok x
    → transition old.status s ≡ ok s
check_move_ok old s h = elim (Result-cases (transition old.status s)) [
  | inl (u, e) ↦ e ∙ ap ok (transition_ok old.status s e)
  | inr (x, e) ↦ absurd (ground arith)
]

pub found_row-eq-ok :
    (o : Option Row) (e : StoreError) {r : Row} → found_row o e ≡ ok r → o ≡ some r
found_row-eq-ok none e h = cc
found_row-eq-ok (some x) e h = ground arith

assign_row-status :
    (a : Assignments) (r : Row)
    → ((assign_row a r).id ≡ r.id)
      × ((s : Status) → a.status ≡ some s → (assign_row a r).status ≡ s)
      × (a.status ≡ none → (assign_row a r).status ≡ r.status)
unfolding assign_row
assign_row-status a r = (refl, λ s e. ground arith, λ e. ground arith)

update_row-Moved :
    (json : Json) (id : String) (patch : JobPatch) (a : Assignments) (db : JobDb) {rows : List Row}
    {j : Job}
    → a.status ≡ patch.status
    → update_row json id a db ≡ ok (rows, j)
    → Moved id patch db.apply_jobs j
unfolding update_row
update_row-Moved json id patch a db {rows} {j} e h =
    let (_, moved, h1) = >>=-eq-ok (check_move (find_row id db.apply_jobs) a.status) _ h in
    let (r, back, h2) =
      >>=-eq-ok (found_row (returning (has_id id) (assign_row a) db.apply_jobs) _) _ h1 in
    let (job, scanned, h3) = >>=-eq-ok (scan_job json r) _ h2 in
    let same : job ≡ j = ground arith in
    let (old, found, r_eq) =
      returning-find_row id (assign_row a) db.apply_jobs (found_row-eq-ok _ _ back) in
    let (id_eq, status_eq, _, _) = scan_job-fields json r scanned in
    let (kept_id, set_status, keep_status) = assign_row-status a old in
    record {
      old = old;
      found = found;
      same_id =
          ap (λ (x : Job). x.id) (sym same)
          ∙ id_eq
          ∙ ap (λ (x : Row). x.id) r_eq
          ∙ kept_id
          ∙ find_row-id id db.apply_jobs found;
      legal = λ s ps. (
        (transition-⟶ old.status s).0.0 (check_move_ok old s (rw (found, e ∙ ps) at moved)),
        ap (λ (x : Job). x.status) (sym same)
            ∙ status_eq
            ∙ ap (λ (x : Row). x.status) r_eq
            ∙ set_status s (e ∙ ps),
      );
      kept = λ pn.
          ap (λ (x : Job). x.status) (sym same)
          ∙ status_eq
          ∙ ap (λ (x : Row). x.status) r_eq
          ∙ keep_status (e ∙ pn);
    }

assignments-status :
    (json : Json) (p : JobPatch) {a : Assignments} → assignments json p ≡ ok a → a.status ≡ p.status
unfolding assignments
assignments-status json p {a} h = ground arith

update_with-Moved :
    (json : Json) (id : String) (patch : JobPatch) (db : JobDb) (r : Result StoreError Assignments)
    {t : JobDb} {j : Job}
    → assignments json patch ≡ r
    → update_with json id db r ≡ (t, ok j)
    → Moved id patch db.apply_jobs j
unfolding update_with
update_with-Moved json id patch db (err x) e h = absurd (ground arith)
update_with-Moved json id patch db (ok a) {t} {j} e h = elim (Bool-cases (assigns_nothing a)) [
  | inl nothing ↦ absurd (ground arith)
  | inr some_columns ↦
      let (rows, run, _) =
        write-eq-ok db (update_row json id a) (rw (some_columns, update_with) at h) in
      update_row-Moved json id patch a (consume db) (assignments-status json patch e) run
]

-- An update that succeeds is of a stored job with the given id, and returns it under that id. If
-- the patch sets a status, the life cycle has the move to it from the stored one, and the job
-- returned has it; if not, the status is as before.
pub update-Moved :
    (json : Json) (id : String) (patch : JobPatch) (db : JobDb) {t : JobDb} {j : Job}
    → update json id patch db ≡ (t, ok j)
    → Moved id patch db.apply_jobs j
unfolding update
update-Moved json id patch db h = update_with-Moved json id patch db (assignments json patch) refl h
