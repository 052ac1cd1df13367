-- ===== src/Identity/Stale.antt =====
-- About RecordImportedSnapshot of apps/api/internal/identity/service.go.
use proxy_core.Base.{
  ℕ, ◌<◌, ◌≤◌, ◌≡◌, refl, Bool, true, false, Result, ok, err, arith, Bool-cases, inl, inr,
  if◌then◌else◌,
}
use proxy_core.Topology.{Role, stale_primary, role_eq}
use proxy_core.Topology.Laws.{role_eq-eq}
use proxy_core.Identity.{Identity, is_writable, is_stale_primary}
use proxy_core.Identity.Store.{IdentityError, Db, update_role, update_latest_known_generation}
use proxy_core.Identity.Service.{
  Service, M, and_then, store, raise, record_imported_snapshot, move_when, move_role, enters_stale,
}

-- The outcome of a recorded snapshot.
pub record Recorded (g : ℕ) (before after : Identity) : Type 0 where
  pub latest : after.latest_known_generation ≡ raise before.latest_known_generation g
  pub leadership : after.leadership_generation ≡ before.leadership_generation
  pub superseded :
      before.latest_known_generation < g
      → before.leadership_generation < g
      → (after.role ≡ stale_primary) × (is_writable after ≡ false) × (is_stale_primary after ≡ true)
  pub known : g ≤ before.latest_known_generation → after.role ≡ before.role

-- A successful chain, and a successful call of the store, taken apart.
pub and_then-eq-ok :
    {A B : Type 0} (p : Service × Result IdentityError A) (k : A → M B) {t : Service} {b : B}
    → and_then p k ≡ (t, ok b)
    → (a : A) × (u : Service) × (p ≡ (u, ok a)) × (k a u ≡ (t, ok b))
and_then-eq-ok (u, ok a) k h = (a, u, refl, h)
and_then-eq-ok (u, err e) k h = cc

pub store-cached :
    {A : Type 0} (f : Db → Db × Result IdentityError A) (s : Service) {u : Service} {a : A}
    → store f s ≡ (u, ok a)
    → u.cached ≡ s.cached
store-cached f s h = ground arith

move_role_cached :
    (r : Role) (s : Service) {t : Service} {id : Identity}
    → move_role r s ≡ (t, ok id)
    → (id ≡ t.cached) × (id ≡ record s.cached { role = r })
unfolding move_role
move_role_cached r s {t} {id} h =
    let (_, u, p, q) = and_then-eq-ok (store (update_role r) s) _ h in
    let c = store-cached (update_role r) s p in (ground arith, ground arith)

move_when_cached :
    (b : Bool) (r : Role) (s : Service) {t : Service} {id : Identity}
    → move_when b r s ≡ (t, ok id)
    → (id ≡ t.cached) × (id ≡ (if b then record s.cached { role = r } else s.cached))
unfolding move_when
move_when_cached true r s h = move_role_cached r s h
move_when_cached false r s h = (ground arith, ground arith)

abbrev recorded : ℕ → Identity → Identity
recorded g i =
    let latest = record i { latest_known_generation = raise i.latest_known_generation g } in
    if enters_stale i g then record latest { role = stale_primary } else latest

recorded-Recorded : (g : ℕ) (i : Identity) → Recorded g i (recorded g i)
unfolding enters_stale is_writable is_stale_primary
recorded-Recorded g i = elim (Bool-cases (role_eq i.role stale_primary)) [
  | inl stale ↦
      let e = role_eq-eq i.role stale_primary stale in
      record {
        latest = ground arith;
        leadership = ground arith;
        superseded = λ h k. (ground arith, ground arith, ground arith);
        known = λ h. ground arith;
      }
  | inr other ↦ record {
    latest = ground arith;
    leadership = ground arith;
    superseded = λ h k. (ground arith, ground arith, ground arith);
    known = λ h. ground arith;
  }
]

-- A recorded snapshot that succeeds raises the latest known generation to the observed one and
-- leaves the own generation. A generation above both makes the installation a stale primary,
-- which is not writable; one that was seen before leaves the role alone.
pub record_imported_snapshot-Recorded :
    (g : ℕ) (s : Service) {t : Service} {id : Identity}
    → record_imported_snapshot g s ≡ (t, ok id)
    → (id ≡ t.cached) × Recorded g s.cached id
unfolding record_imported_snapshot
record_imported_snapshot-Recorded g s {t} {id} h =
    let (_, u, p, q) = and_then-eq-ok (store (update_latest_known_generation g) s) _ h in
    let c = store-cached (update_latest_known_generation g) s p in
    let (same, now) = move_when_cached (enters_stale s.cached g) stale_primary _ q in
    let e : id ≡ recorded g s.cached = ground arith in (same, rw e (recorded-Recorded g s.cached))
