-- ===== src/Identity/Commit.antt =====
-- About CommitNodeEnrollment of apps/api/internal/identity/enrollment.go.
use proxy_core.Base.{
  ℕ, ◌≤◌, ◌≡◌, refl, sym, ap, ◌∙◌, String, Bool, true, false, Option, none, some, List, ◌∷◌, Result,
  ok, err, arith, Bool-cases, inl, inr, if◌then◌else◌, str_eq, eq_iff, eq_refl, ◌⊎◌,
}
use proxy_core.Topology.{Role, primary, stale_primary, node, role_eq, is_allowed_transition}
use proxy_core.Topology.Laws.{role_eq-eq}
use proxy_core.Identity.{Identity, can_enroll_as_node}
use proxy_core.Identity.Store.{
  IdentityError, ineligible, io, IdentityRow, Db, update_role, update_cluster_key_id, sqlite_update,
  write,
}
use proxy_core.Identity.Service.{Service, store, nil_uuid}
use proxy_core.Identity.Enrollment.{
  commit_node_enrollment, commit_writes, enter_node, adopt_generation, bind_key, already_committed,
  is_nil_key,
}
use proxy_core.Identity.Stale.{and_then-eq-ok}

store-loaded :
    {A : Type 0} (f : Db → Db × Result IdentityError A) (s : Service) {u : Service} {a : A}
    → store f s ≡ (u, ok a)
    → u.loaded ≡ s.loaded
store-loaded f s h = ground arith

enter_node_ok :
    (role : Role) (s : Service) {t : Service} {x : Unit {0}}
    → role ≡ s.cached.role
    → enter_node role s ≡ (t, ok x)
    → (t.cached.role ≡ node)
      × (t.loaded ≡ s.loaded)
      × (t.cached.cluster_key_id ≡ s.cached.cluster_key_id)
unfolding enter_node
enter_node_ok role s {t} {x} e h = elim (Bool-cases (role_eq role node)) [
  | inl same ↦ let n = role_eq-eq role node same in (ground arith, ground arith, ground arith)
  | inr other ↦ (ground arith, ground arith, ground arith)
]

adopt_generation_ok :
    (g : ℕ) (s : Service) {t : Service} {x : Unit {0}}
    → adopt_generation g s ≡ (t, ok x)
    → (t.cached.role ≡ s.cached.role) × (t.loaded ≡ s.loaded) × (g ≤ t.cached.leadership_generation)
unfolding adopt_generation
adopt_generation_ok g s {t} {x} h = (ground arith, ground arith, ground arith)

bind_key_ok :
    (key : String) (s : Service) {t : Service} {x : Unit {0}}
    → bind_key (some key) s ≡ (t, ok x)
    → (t.cached.role ≡ s.cached.role)
      × (t.loaded ≡ s.loaded)
      × (t.cached.leadership_generation ≡ s.cached.leadership_generation)
      × (t.cached.cluster_key_id ≡ some key)
unfolding bind_key
bind_key_ok key s {t} {x} h = ground arith

-- What a committed enrollment leaves: a node that holds the delivered key and has reached the
-- generation of its primary.
pub record Committed (key : String) (g : ℕ) (id : Identity) : Type 0 where
  pub is_node : id.role ≡ node
  pub bound : id.cluster_key_id ≡ some key
  pub reached : g ≤ id.leadership_generation

already-Committed :
    (key : String) (g : ℕ) (i : Identity)
    → already_committed i (some key) g ≡ true
    → Committed key g i
unfolding already_committed
already-Committed key g i h = elim (Bool-cases (role_eq i.role node)) [
  | inl same ↦ record {
    is_node = role_eq-eq i.role node same;
    bound = bound i.cluster_key_id refl;
    reached = ground arith;
  }
  | inr other ↦ cc (rw (other, already_committed) at h)
]
  where
    bound : (k : Option String) → i.cluster_key_id ≡ k → i.cluster_key_id ≡ some key
    bound none e = ground arith
    bound (some k) e = ground (arith, eq_iff k key)

Committed-already :
    (key : String) (g : ℕ) (i : Identity)
    → Committed key g i
    → already_committed i (some key) g ≡ true
unfolding already_committed
Committed-already key g i c = ground (arith, c.is_node, c.bound, c.reached, eq_refl key)

commit_writes_ok :
    (key : String) (g : ℕ) (s : Service) {t : Service} {id : Identity}
    → commit_writes (some key) g s ≡ (t, ok id)
    → (id ≡ t.cached) × (t.loaded ≡ s.loaded) × Committed key g id
unfolding commit_writes
commit_writes_ok key g s {t} {id} h =
    let (_, u, p, q) = and_then-eq-ok (enter_node s.cached.role s) _ h in
    let (_, v, p', q') = and_then-eq-ok (adopt_generation g u) _ q in
    let (_, w, p'', q'') = and_then-eq-ok (bind_key (some key) v) _ q' in
    let (r1, l1, _) = enter_node_ok s.cached.role s refl p in
    let (r2, l2, g2) = adopt_generation_ok g u p' in
    let (r3, l3, g3, k3) = bind_key_ok key v p'' in
    (
      ground arith,
      ground arith,
      record { is_node = ground arith; bound = ground arith; reached = ground arith },
    )

commit_ok :
    (key : String) (g : ℕ) (s : Service) {t : Service} {id : Identity}
    → commit_node_enrollment (some key) g s ≡ (t, ok id)
    → (id ≡ t.cached) × (t.loaded ≡ true) × (is_nil_key (some key) ≡ false) × Committed key g id
unfolding commit_node_enrollment
commit_ok key g s {t} {id} h = elim (Bool-cases (already_committed s.cached (some key) g)) [
  | inl before ↦
      let c = already-Committed key g s.cached before in
      let e : id ≡ s.cached = ground arith in (ground arith, ground arith, ground arith, rw e c)
  | inr new ↦
      let run : commit_writes (some key) g s ≡ (t, ok id) = ground arith in
      let (same, loaded, c) = commit_writes_ok key g s run in (same, ground arith, ground arith, c)
]

-- A commit of a delivered key that succeeds leaves a node which holds that key and has reached
-- the generation of its primary; the same commit made again succeeds with the same identity and
-- writes nothing.
pub commit_node_enrollment-Committed :
    (key : String) (g : ℕ) (s : Service) {t : Service} {id : Identity}
    → commit_node_enrollment (some key) g s ≡ (t, ok id)
    → (id ≡ t.cached) × Committed key g id × (commit_node_enrollment (some key) g t ≡ (t, ok id))
unfolding commit_node_enrollment
commit_node_enrollment-Committed key g s {t} {id} h =
    let (same, loaded, real, c) = commit_ok key g s h in
    let again = Committed-already key g t.cached (rw same at c) in
    (same, c, simp (loaded, real, again) (ap (λ (i : Identity). (t, ok i)) (sym same)))

-- The service after its role was stored, and after the key could not be.
abbrev half : Service → IdentityRow → List Bool → Service
half s r faults = record s {
  db = record s.db {
    identity = some (record r { role = node; updated_at = s.db.clock });
    faults = faults;
  };
  cached = record s.cached { role = node };
}

enter_node-half :
    (s : Service) (r : IdentityRow) (faults : List Bool)
    → s.db.identity ≡ some r
    → (s.cached.role ≡ primary) ⊎ (s.cached.role ≡ stale_primary)
    → s.db.faults ≡ false ∷ faults
    → enter_node s.cached.role s ≡ (half s r faults, ok tt)
unfolding enter_node update_role sqlite_update write is_allowed_transition
enter_node-half s r faults st (inl e) f = ground arith
enter_node-half s r faults st (inr e) f = ground arith

bind_key_fails :
    (key : String) (s : Service) (r : IdentityRow) (rest : List Bool)
    → bind_key (some key) (half s r (true ∷ rest)) ≡ (half s r rest, err io)
unfolding bind_key update_cluster_key_id sqlite_update write
bind_key_fails key s r rest = refl

adopt_generation_skips :
    (g : ℕ) (s : Service) → g ≤ s.cached.leadership_generation → adopt_generation g s ≡ (s, ok tt)
unfolding adopt_generation
adopt_generation_skips g s le = ground arith

-- An enrolling primary that is about to lose its own cluster key to the delivered one.
pub record Replaces (s : Service) (r : IdentityRow) (own key : String) (g : ℕ) : Type 0 where
  pub loaded : s.loaded ≡ true
  pub stored : s.db.identity ≡ some r
  pub own_role : (s.cached.role ≡ primary) ⊎ (s.cached.role ≡ stale_primary)
  pub own_key : s.cached.cluster_key_id ≡ some own
  pub linked : s.cached.node_unlinked ≡ false
  pub differs : str_eq own key ≡ false
  pub real : str_eq key nil_uuid ≡ false
  pub reached : g ≤ s.cached.leadership_generation

commit_writes-half :
    (s : Service) (r : IdentityRow) (own key : String) (g : ℕ) (rest : List Bool)
    → Replaces s r own key g
    → s.db.faults ≡ false ∷ true ∷ rest
    → commit_writes (some key) g s ≡ (half s r rest, err io)
unfolding commit_writes
commit_writes-half s r own key g rest v f =
    rw
      (
        enter_node-half s r (true ∷ rest) v.stored v.own_role f,
        adopt_generation_skips g (half s r (true ∷ rest)) v.reached,
        bind_key_fails key s r rest,
      )
      refl

Replaces-first :
    {s : Service} {r : IdentityRow} {own key : String} {g : ℕ}
    → Replaces s r own key g
    → (already_committed s.cached (some key) g ≡ false) × (can_enroll_as_node s.cached ≡ true)
unfolding already_committed can_enroll_as_node
Replaces-first v = (ground (arith, v.own_role), ground (arith, v.own_role))

Replaces-second :
    {s : Service} {r : IdentityRow} {own key : String} {g : ℕ} (rest : List Bool)
    → Replaces s r own key g
    → let i = (half s r rest).cached in
      (already_committed i (some key) g ≡ false) × (can_enroll_as_node i ≡ false)
unfolding already_committed can_enroll_as_node
Replaces-second rest v = (ground (arith, v.own_key, v.differs), ground (arith, v.own_key, v.linked))

-- The guards of the commit.
commit_runs :
    (key : String) (g : ℕ) (s : Service)
    → s.loaded ≡ true
    → str_eq key nil_uuid ≡ false
    → already_committed s.cached (some key) g ≡ false
    → (b : Bool) → can_enroll_as_node s.cached ≡ b
    → commit_node_enrollment (some key) g s
      ≡ (if b then commit_writes (some key) g s else (s, err ineligible))
unfolding commit_node_enrollment
commit_runs key g s l real new true e = ground arith
commit_runs key g s l real new false e = ground arith

-- Take a loaded and stored installation, a primary or a stale primary in the cache, with a cluster
-- key of its own and not marked as unlinked, and commit an enrollment with another key, which is not
-- the nil one, at a generation that it has reached already. Where the write of the role succeeds and
-- the next write fails, it is left a node with its old key: the retry of the enrollment is refused
-- and changes nothing.
pub commit_node_enrollment_stuck :
    (s : Service) (r : IdentityRow) (own key : String) (g : ℕ) (rest : List Bool)
    → Replaces s r own key g
    → s.db.faults ≡ false ∷ true ∷ rest
    → let t = (commit_node_enrollment (some key) g s).0 in
      ((commit_node_enrollment (some key) g s).1 ≡ err io)
      × (t.cached.role ≡ node)
      × (t.cached.cluster_key_id ≡ some own)
      × (commit_node_enrollment (some key) g t ≡ (t, err ineligible))
commit_node_enrollment_stuck s r own key g rest v f = rw first (refl, refl, v.own_key, second)
  where
    first : commit_node_enrollment (some key) g s ≡ (half s r rest, err io)
    first =
        let (new, able) = Replaces-first v in
        commit_runs key g s v.loaded v.real new true able
        ∙ commit_writes-half s r own key g rest v f

    second : commit_node_enrollment (some key) g (half s r rest) ≡ (half s r rest, err ineligible)
    second =
        let (new, refused) = Replaces-second rest v in
        commit_runs key g (half s r rest) v.loaded v.real new false refused
