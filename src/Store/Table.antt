-- ===== src/Store/Table.antt =====
-- The SQL of the job store on its tables: the rows in insertion order, with what SELECT, UPDATE and
-- RETURNING give, and the write transaction (apps/api/internal/sqlitedb/write.go).
use proxy_core.Base.{
  ℕ, ◌+◌, String, Bool, false, Option, none, some, List, [], ◌∷◌, Result, ok, err, if◌then◌else◌,
  str_eq, any,
}
use proxy_core.Timestamp.{FiniteTimestamp}
use proxy_core.Timestamp.Digits.{bytes_lt}
use proxy_core.Store.{Row, StoreError, io}

-- `faults` says of the calls to come whether they fail; a call past its end does not. `clock` is
-- the time of the next call.
pub record JobDb : Type 0 where
  pub apply_jobs : List Row
  pub revision_ids : List String
  pub user_ids : List String
  pub faults : List Bool
  pub clock : FiniteTimestamp

abbrev pub fault_head : List Bool → Bool
fault_head [] = false
fault_head (b ∷ bs) = b

abbrev pub fault_tail : List Bool → List Bool
fault_tail [] = []
fault_tail (b ∷ bs) = bs

abbrev pub consume : JobDb → JobDb
consume db = record db { faults = fault_tail db.faults }

-- A callback's new rows are kept if it succeeds, and the old ones if it fails.
abbrev pub commit :
    {A : Type 0} → JobDb → Result StoreError (List Row × A) → JobDb × Result StoreError A
commit db (ok (rows, a)) = (record db { apply_jobs = rows }, ok a)
commit db (err e) = (db, err e)

unfoldable pub write :
    {A : Type 0} → JobDb → (JobDb → Result StoreError (List Row × A)) → JobDb × Result StoreError A
write db callback =
    if fault_head db.faults
    then (consume db, err io)
    else commit (consume db) (callback (consume db))

unfoldable pub read :
    {A : Type 0} → JobDb → (JobDb → Result StoreError A) → JobDb × Result StoreError A
read db query = (consume db, if fault_head db.faults then err io else query db)

-- `WHERE id = ?`: the first such row.
unfoldable pub find_row : String → List Row → Option Row
find_row id [] = none
find_row id (r ∷ rs) = let rest = find_row id rs in if str_eq r.id id then some r else rest

-- `UPDATE ... WHERE test`.
unfoldable pub update_where : (Row → Bool) → (Row → Row) → List Row → List Row
update_where test f [] = []
update_where test f (r ∷ rs) = (if test r then f r else r) ∷ update_where test f rs

-- The first row of its RETURNING clause.
unfoldable pub returning : (Row → Bool) → (Row → Row) → List Row → Option Row
returning test f [] = none
returning test f (r ∷ rs) = let rest = returning test f rs in if test r then some (f r) else rest

-- Its RowsAffected.
unfoldable pub rows_affected : (Row → Bool) → List Row → ℕ
rows_affected test [] = 0
rows_affected test (r ∷ rs) = (if test r then 1 else 0) + rows_affected test rs

-- The earlier of two rows, the first where both were created at one time.
abbrev pub earlier : Row → Option Row → Row
earlier r none = r
earlier r (some s) = if bytes_lt s.created_at r.created_at then s else r

-- `WHERE test ORDER BY created_at ASC LIMIT 1`.
unfoldable pub oldest : (Row → Bool) → List Row → Option Row
oldest test [] = none
oldest test (r ∷ rs) = let rest = oldest test rs in if test r then some (earlier r rest) else rest

-- `ORDER BY created_at DESC`, stable.
unfoldable pub insert_newest : Row → List Row → List Row
insert_newest r [] = r ∷ []
insert_newest r (s ∷ rs) =
    let rest = s ∷ insert_newest r rs in
    if bytes_lt r.created_at s.created_at then rest else r ∷ s ∷ rs

unfoldable pub newest_first : List Row → List Row
unfolding insert_newest
newest_first [] = []
newest_first (r ∷ rs) = insert_newest r (newest_first rs)

abbrev pub mem_text : String → List String → Bool
mem_text s = any (λ t. str_eq t s)
