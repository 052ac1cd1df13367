-- ===== src/Store/Listing.antt =====
-- About List of apps/api/internal/worker/store/store.go.
use proxy_core.Base.{
  ◌≡◌, refl, sym, ◌∙◌, ap, Bool, List, [], ◌∷◌, Result, ok, any, ◌||◌, arith, Result-cases, inl,
  inr,
}
use proxy_core.Jobs.{Status}
use proxy_core.Store.{Row, Job, Json, StoreError, scan_job}
use proxy_core.Store.Table.{JobDb, consume, read, newest_first, insert_newest}
use proxy_core.Store.Ops.{list, scan_all}
use proxy_core.Store.Laws.{scan_job-fields}

-- The order of a list does not matter to what is in it.
any-insert_newest :
    (p : Row → Bool) (r : Row) (rs : List Row) → any p (insert_newest r rs) ≡ (p r || any p rs)
unfolding insert_newest
any-insert_newest p r [] = refl
any-insert_newest p r (s ∷ rs) = ground (arith, any-insert_newest p r rs)

any-newest_first : (p : Row → Bool) (rs : List Row) → any p (newest_first rs) ≡ any p rs
unfolding newest_first
any-newest_first p [] = refl
any-newest_first p (r ∷ rs) =
    any-insert_newest p r (newest_first rs) ∙ ap (λ b. p r || b) (any-newest_first p rs)

any-scan_all :
    (p : Status → Bool) (json : Json) (rs : List Row) (js : List Job)
    → scan_all json rs ≡ ok js
    → any (λ (j : Job). p j.status) js ≡ any (λ (r : Row). p r.status) rs
unfolding scan_all
any-scan_all p json [] js h = ground (arith, h)
any-scan_all p json (r ∷ rs) js h = elim (Result-cases (scan_job json r)) [
  | inr (x, bad) ↦ absurd (ground (arith, h, bad))
  | inl (j, good) ↦ elim (Result-cases (scan_all json rs)) [
    | inr (x, bad) ↦ absurd (ground (arith, h, good, bad))
    | inl (more, rest) ↦
        let (i, status, v, t) = scan_job-fields json r good in
        let e : j ∷ more ≡ js = ground (arith, h, good, rest) in
        ap (any (λ (j : Job). p j.status)) (sym e) ∙ cc (status, any-scan_all p json rs more rest)
  ]
]

-- A listing changes no row, and it has a job of some kind exactly where a row is of that kind.
pub list-any :
    (p : Status → Bool) (json : Json) (db : JobDb) (js : List Job)
    → (list json db).1 ≡ ok js
    → any (λ (j : Job). p j.status) js ≡ any (λ (r : Row). p r.status) db.apply_jobs
unfolding list read
list-any p json db js h =
    any-scan_all p json (newest_first db.apply_jobs) js (ground (arith, h))
    ∙ any-newest_first (λ (r : Row). p r.status) db.apply_jobs

pub list-reads :
    (json : Json) (db : JobDb) {r : Result StoreError (List Job)}
    → (list json db).1 ≡ r
    → list json db ≡ (consume db, r)
unfolding list read
list-reads json db h = ap (λ q. (consume db, q)) h
