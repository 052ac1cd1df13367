-- ===== src/Store/Claim.antt =====
-- About ClaimNext of apps/api/internal/worker/store/store.go.
use proxy_core.Base.{
  ℕ, ◌≡◌, ◌≢◌, refl, sym, ap, ◌∙◌, String, Bool, true, false, not, Option, none, some, List, [],
  ◌∷◌, ok, arith, inl, inr, Bool-cases, Option-cases, >>=-eq-ok, eq_iff, any, ◌&&◌, All, ◌⊎◌,
}
use proxy_core.Timestamp.Digits.{bytes_lt, bytes_lt_irrefl, bytes_lt_asymm, bytes_lt_cotrans}
use proxy_core.Jobs.{validating}
use proxy_core.Store.{Row, Job, Json, Target, scan_job, lost_row, valid_target}
use proxy_core.Store.Patch.{encode_time}
use proxy_core.Store.Table.{JobDb, consume, update_where, returning, oldest}
use proxy_core.Store.Ops.{
  claim_next, claim_oldest, claim_selected, claim_row, claimable, is_selected, any_target,
  references, found_row,
}
use proxy_core.Store.Laws.{write-eq-ok, scan_job-fields, found_row-eq-ok}

-- A row that no row under the test was created before.
abbrev pub IsOldest : (Row → Bool) → List Row → Row → Type 0
IsOldest test rows r = All (λ x. test x ≡ true → bytes_lt x.created_at r.created_at ≡ false) rows

module _ (test : Row → Bool) where
  IsOldest-before :
      (rows : List Row) (r s : Row)
      → bytes_lt s.created_at r.created_at ≡ false
      → IsOldest test rows s
      → IsOldest test rows r
  IsOldest-before [] r s h v = tt
  IsOldest-before (x ∷ xs) r s h v = (
    λ p. before x p (Bool-cases (bytes_lt x.created_at r.created_at)),
    IsOldest-before xs r s h v.1,
  )
    where
      before :
          (y : Row)
          → test x ≡ true
          → (bytes_lt x.created_at r.created_at ≡ true)
            ⊎ (bytes_lt x.created_at r.created_at ≡ false)
          → bytes_lt x.created_at r.created_at ≡ false
      before y p (inl lt) = cc (v.0 p, bytes_lt_cotrans x.created_at r.created_at s.created_at lt h)
      before y p (inr ge) = ge

  -- The row that is chosen passes the test, is in the list and is an oldest one.
  pub record Chosen (rows : List Row) (r : Row) : Type 0 where
    pub passes : test r ≡ true
    pub present : (p : Row → Bool) → p r ≡ true → any p rows ≡ true
    pub first : IsOldest test rows r

  IsOldest-none : (rows : List Row) (r : Row) → oldest test rows ≡ none → IsOldest test rows r
  unfolding oldest
  IsOldest-none [] r h = tt
  IsOldest-none (x ∷ xs) r h = (λ p. absurd (ground arith), IsOldest-none xs r (ground arith))

  pub oldest-Chosen : (rows : List Row) {r : Row} → oldest test rows ≡ some r → Chosen rows r
  unfolding oldest
  oldest-Chosen [] h = cc
  oldest-Chosen (x ∷ xs) {r} h = elim (Bool-cases (test x)) [
    | inr skip ↦
        let v = oldest-Chosen xs (rw (skip, oldest) at h) in
        record {
          passes = v.passes;
          present = λ p e. ground (arith, v.present p e);
          first = (λ p. cc, v.first);
        }
    | inl hit ↦ elim (Option-cases (oldest test xs)) [
      | inl last ↦
          let e : x ≡ r = ground arith in
          rw (sym e) (record {
            passes = hit;
            present = λ p e. rw e refl;
            first = (λ p. bytes_lt_irrefl x.created_at, IsOldest-none xs x last);
          })
      | inr (s, more) ↦
          let v = oldest-Chosen xs more in
          elim (Bool-cases (bytes_lt s.created_at x.created_at)) [
            | inl lt ↦
                let e : s ≡ r = ground arith in
                rw (sym e) (record {
                  passes = v.passes;
                  present = λ p q. ground (arith, v.present p q);
                  first = (λ p. bytes_lt_asymm s.created_at x.created_at lt, v.first);
                })
            | inr ge ↦
                let e : x ≡ r = ground arith in
                rw (sym e) (record {
                  passes = hit;
                  present = λ p q. rw q refl;
                  first = (λ p. bytes_lt_irrefl x.created_at, IsOldest-before xs x s ge v.first);
                })
          ]
    ]
  ]

-- No row answers to the test of a claim after the claim.
update_where-none :
    (id : String) (now : List ℕ) (rows : List Row)
    → any (is_selected id) (update_where (is_selected id) (claim_row now) rows) ≡ false
unfolding update_where claim_row
update_where-none id now [] = refl
update_where-none id now (x ∷ xs) = ground (arith, update_where-none id now xs)

returning-claim :
    (id : String) (now : List ℕ) (rows : List Row) {r : Row}
    → returning (is_selected id) (claim_row now) rows ≡ some r
    → (r.status ≡ validating) × (r.id ≡ id)
unfolding returning claim_row
returning-claim id now [] h = cc
returning-claim id now (x ∷ xs) {r} h =
    ground (arith, eq_iff x.id id, returning-claim id now xs {r = r})

-- What a claim does.
pub record Claimed (target : Target) (before : List Row) (after : List Row) (j : Job) : Type 0 where
  pub row : Row
  pub chosen : Chosen (claimable target) before row
  pub same_id : j.id ≡ row.id
  pub now_validating : j.status ≡ validating
  pub was_queued : any (is_selected j.id) before ≡ true
  pub not_queued : any (is_selected j.id) after ≡ false

claim_selected-Claimed :
    (json : Json) (target : Target) (now : List ℕ) (db : JobDb) (r : Row) {rows : List Row}
    {j : Job}
    → Chosen (claimable target) db.apply_jobs r
    → claim_selected json now db r ≡ ok (rows, some j)
    → Claimed target db.apply_jobs rows j
unfolding claim_selected
claim_selected-Claimed json target now db r {rows} {j} v h =
    let (sel, s1, h1) = >>=-eq-ok (scan_job json r) _ h in
    let (_, _, h2) = >>=-eq-ok (references db sel) _ h1 in
    let (row, back, h3) =
      >>=-eq-ok (found_row (returning (is_selected sel.id) (claim_row now) db.apply_jobs) lost_row)
        _ h2 in
    let (job, s2, h4) = >>=-eq-ok (scan_job json row) _ h3 in
    let (_, _, h5) = >>=-eq-ok (references db job) _ h4 in
    let (sel_id, _, _, _) = scan_job-fields json r s1 in
    let (job_id, job_status, _, _) = scan_job-fields json row s2 in
    let (valid, row_id) = returning-claim sel.id now db.apply_jobs (found_row-eq-ok _ _ back) in
    let same : job ≡ j = ground arith in
    let id_eq : j.id ≡ sel.id = cc in
    let rows_eq : rows ≡ update_where (is_selected sel.id) (claim_row now) db.apply_jobs =
      ground arith in
    record {
      row = r;
      chosen = v;
      same_id = id_eq ∙ sel_id;
      now_validating = cc;
      was_queued = v.present (is_selected j.id) (ground (arith, v.passes, eq_iff r.id j.id));
      not_queued = rw (id_eq, rows_eq) (update_where-none sel.id now db.apply_jobs);
    }

claim_oldest-Claimed :
    (json : Json) (target : Target) (now : List ℕ) (db : JobDb) (o : Option Row) {rows : List Row}
    {j : Job}
    → oldest (claimable target) db.apply_jobs ≡ o
    → claim_oldest json now db o ≡ ok (rows, some j)
    → Claimed target db.apply_jobs rows j
unfolding claim_oldest
claim_oldest-Claimed json target now db none e h = absurd (ground arith)
claim_oldest-Claimed json target now db (some r) e h =
    claim_selected-Claimed json target now db r (oldest-Chosen (claimable target) db.apply_jobs e) h

-- A claim that returns a job has chosen an oldest of the queued jobs of the target, and returns it
-- as validating; the job was queued before and no job with its id is queued after.
pub claim_next-Claimed :
    (json : Json) (target : Target) (db : JobDb) {t : JobDb} {j : Job}
    → claim_next json target db ≡ (t, ok (some j))
    → Claimed target db.apply_jobs t.apply_jobs j
unfolding claim_next
claim_next-Claimed json target db {t} {j} h =
    elim (Bool-cases (not (any_target target) && not (valid_target target))) [
      | inl refused ↦ absurd (ground arith)
      | inr fine ↦
          let (rows, run, t_eq) = write-eq-ok db _ (rw (fine, claim_next) at h) in
          let (now, _, run') = >>=-eq-ok (encode_time db.clock) _ run in
          rw t_eq (
            claim_oldest-Claimed json target now (consume db)
              (oldest (claimable target) db.apply_jobs) refl run')
    ]

-- Two claims in a row, of any targets, never return jobs with the same id.
pub claim_next_twice :
    (json : Json) (first second : Target) (db : JobDb) {t u : JobDb} {j k : Job}
    → claim_next json first db ≡ (t, ok (some j))
    → claim_next json second t ≡ (u, ok (some k))
    → j.id ≢ k.id
claim_next_twice json first second db {t} {u} {j} {k} h1 h2 e =
    let a = claim_next-Claimed json first db h1 in
    let b = claim_next-Claimed json second t h2 in
    cc (ap (λ (i : String). any (is_selected i) t.apply_jobs) e, a.not_queued, b.was_queued)
