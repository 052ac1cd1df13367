-- ===== src/Identity/Sync.antt =====
-- About the cache of the identity service (apps/api/internal/identity/service.go) against
-- the stored row: the invariant, and an update of both.
pub mod Methods
pub mod Workflows
pub mod Enrolling
pub mod History
use proxy_core.Base.{
  ℕ, suc, ◌+◌, ◌^◌, ◌<◌, ◌≤◌, ◌≡◌, refl, String, Bool, true, false, Option, none, some, Result, ok,
  err, arith, ltb, if◌then◌else◌, inl, inr, ◌⊎◌, List,
}
use proxy_core.Identity.{Identity}
use proxy_core.Identity.Store.{
  IdentityError, io, IdentityRow, Db, write, sqlite_update, max_int64, consume, fault_head,
}
use proxy_core.Identity.Service.{Service, M, and_then, store, modify, raise}

-- The stored columns that the cache repeats.
pub record Agrees (r : IdentityRow) (i : Identity) : Type 0 where
  pub same_installation : r.installation_id ≡ i.installation_id
  pub same_node : r.node_id ≡ i.node_id
  pub same_role : r.role ≡ i.role
  pub same_leadership : r.leadership_generation ≡ i.leadership_generation
  pub same_latest : r.latest_known_generation ≡ i.latest_known_generation
  pub same_key : r.cluster_key_id ≡ i.cluster_key_id

-- Generations stay below 2^63, where the stored INTEGER reads as the number.
abbrev pub IsGeneration : ℕ → Type 0
IsGeneration g = g < 2 ^ 63

-- A callback that mints a cluster key leaves the row of the identity alone.
abbrev pub KeepsRow : Option (Db → Db × Result IdentityError String) → Type 0
KeepsRow none = Unit
KeepsRow (some provision) = (db : Db) → (provision db).0.identity ≡ db.identity

-- A loaded service over the SQLite store whose cache repeats the row. The generations are at least
-- `low` and `seen`.
pub record Synced (low seen : ℕ) (s : Service) : Type 0 where
  pub row : IdentityRow
  pub stored : s.db.identity ≡ some row
  pub agrees : Agrees row s.cached
  pub ordered : s.cached.leadership_generation ≤ s.cached.latest_known_generation
  pub bounded : IsGeneration s.cached.latest_known_generation
  pub above : low ≤ s.cached.leadership_generation
  pub seen_above : seen ≤ s.cached.latest_known_generation
  pub is_loaded : s.loaded ≡ true
  pub is_transactional : s.transactional ≡ true
  pub provisioner_keeps : KeepsRow s.provisioner

pub max_int64-raise : (a b : ℕ) → IsGeneration a → IsGeneration b → max_int64 a b ≡ raise a b
max_int64-raise a b h k = ground arith

pub raise_bounds :
    (a b : ℕ)
    → IsGeneration a
    → IsGeneration b
    → IsGeneration (raise a b) × (a ≤ raise a b) × (b ≤ raise a b)
raise_bounds a b h k = ground arith

-- A column that no cache repeats may change.
pub Agrees-touch :
    (r : IdentityRow) (i : Identity) (c : Db)
    → Agrees r i
    → Agrees (record r { updated_at = c.clock }) i
Agrees-touch r i c a = record {
  same_installation = a.same_installation;
  same_node = a.same_node;
  same_role = a.same_role;
  same_leadership = a.same_leadership;
  same_latest = a.same_latest;
  same_key = a.same_key;
}

-- The row after an update that succeeded.
abbrev pub updated : (IdentityRow → IdentityRow) → Db → IdentityRow → Db
updated f db r = record (consume db) { identity = some (record (f r) { updated_at = db.clock }) }

-- An update of the row that succeeds has been applied to it; one that fails changes nothing.
pub sqlite_update_cases :
    (f : IdentityRow → IdentityRow) (db : Db) (r : IdentityRow)
    → db.identity ≡ some r
    → (sqlite_update f db ≡ (consume db, err io)) ⊎ (sqlite_update f db ≡ (updated f db r, ok tt))
unfolding sqlite_update write
sqlite_update_cases f db r e = ground arith

-- The row is not touched by a call that fails.
pub Synced-consume :
    {low seen : ℕ} (s : Service)
    → Synced low seen s
    → Synced low seen (record s { db = consume s.db })
Synced-consume s v = record {
  row = v.row;
  stored = v.stored;
  agrees = v.agrees;
  ordered = v.ordered;
  bounded = v.bounded;
  above = v.above;
  seen_above = v.seen_above;
  is_loaded = v.is_loaded;
  is_transactional = v.is_transactional;
  provisioner_keeps = v.provisioner_keeps;
}

-- An update of the row and then of the cache, in step, keeps the invariant, and what follows runs
-- on the changed cache.
pub write_step :
    {low seen : ℕ} {B : Type 0} (f : IdentityRow → IdentityRow) (g : Identity → Identity) (k : M B)
    (s : Service) (v : Synced low seen s)
    → Agrees (f v.row) (g s.cached)
    → (g s.cached).leadership_generation ≤ (g s.cached).latest_known_generation
    → IsGeneration (g s.cached).latest_known_generation
    → low ≤ (g s.cached).leadership_generation
    → seen ≤ (g s.cached).latest_known_generation
    → ((t : Service) → Synced low seen t → t.cached ≡ g s.cached → Synced low seen (k t).0)
    → Synced low seen
        (and_then (store (sqlite_update f) s) (λ _ t. and_then (modify g t) (λ _. k))).0
write_step f g k s v a le lt up seen_up next = elim (sqlite_update_cases f s.db v.row v.stored) [
  | inl e ↦ rw e (Synced-consume s v)
  | inr e ↦ rw e (
      next _
        (record {
          row = record (f v.row) { updated_at = s.db.clock };
          stored = refl;
          agrees = Agrees-touch (f v.row) (g s.cached) s.db a;
          ordered = le;
          bounded = lt;
          above = up;
          seen_above = seen_up;
          is_loaded = v.is_loaded;
          is_transactional = v.is_transactional;
          provisioner_keeps = v.provisioner_keeps;
        })
        refl)
]
