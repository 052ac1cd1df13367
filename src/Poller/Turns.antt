-- ===== src/Poller/Turns.antt =====
-- About the turns of apps/api/internal/worker/poller/poller.go.
use proxy_core.Base.{
  ℕ, ◌≡◌, ◌≢◌, refl, ◌∙◌, ap, String, true, Option, none, some, List, Result, ok, err,
  if◌then◌else◌, any, ◌==◌, arith, inl, inr, Result-cases,
}
use proxy_core.Store.{Job, StoreError, other_target}
use proxy_core.Store.Table.{JobDb, consume}
use proxy_core.Store.Ops
use proxy_core.Store.Enqueue.{is_active}
use proxy_core.Store.Listing.{list-any, list-reads}
use proxy_core.Poller.{
  Worker, World, on_jobs, and_then, default_lease_ms, is_active_status, when_idle, after_claim,
  poll_once,
}

module _ {A B : Type 0} (w : Worker) (f : JobDb → JobDb × Result StoreError A) where
  -- A call of the job store that succeeds, and one that fails.
  pub on_jobs_ok :
      (g : A → World w → World w × Result String B) (db : JobDb) (x : w.Rest) {t : JobDb} {a : A}
      → f db ≡ (t, ok a)
      → and_then (on_jobs w f (db, x)) g ≡ g a (t, x)
  unfolding and_then
  on_jobs_ok g db x h = rw h refl

  pub on_jobs_err :
      (g : A → World w → World w × Result String B) (db : JobDb) (x : w.Rest) {t : JobDb}
      {e : StoreError}
      → f db ≡ (t, err e)
      → and_then (on_jobs w f (db, x)) g ≡ ((t, x), err (w.store_message e))
  unfolding and_then
  on_jobs_err g db x h = rw h refl

-- What a turn does once its claim has found no job.
poll_once_unclaimed :
    (w : Worker) (lease_ms : ℕ) (db recovered claimed : JobDb) (x : w.Rest) (n : ℕ)
    → Ops.recover_stale (if lease_ms == 0 then default_lease_ms else lease_ms) db
      ≡ (recovered, ok n)
    → Ops.claim_next w.json (other_target "") recovered ≡ (claimed, ok none)
    → poll_once w lease_ms (db, x)
      ≡ and_then (on_jobs w (Ops.list w.json) (claimed, x)) (when_idle w)
unfolding poll_once after_claim
poll_once_unclaimed w lease_ms db recovered claimed x n r c =
    on_jobs_ok w (Ops.recover_stale (if lease_ms == 0 then default_lease_ms else lease_ms))
      (λ _ t. and_then (on_jobs w (Ops.claim_next w.json (other_target "")) t) (after_claim w)) db x
      r
    ∙ on_jobs_ok w (Ops.claim_next w.json (other_target "")) (after_claim w) recovered x c

when_idle_busy :
    (w : Worker) (js : List Job) (s : World w)
    → any (λ (j : Job). is_active_status j.status) js ≡ true
    → when_idle w js s ≡ (s, ok none)
unfolding when_idle
when_idle_busy w js s h = rw h refl

-- No job is returned.
abbrev pub NoJob : Result String (Option Job) → Type 0
NoJob r = (j : Job) → r ≢ ok (some j)

-- A turn whose claim finds no job while a row is active changes no row after the claim, asks
-- nothing of control, the revisions and the files, and returns no job.
pub poll_once_busy :
    (w : Worker) (lease_ms : ℕ) (db recovered claimed : JobDb) (x : w.Rest) (n : ℕ)
    → Ops.recover_stale (if lease_ms == 0 then default_lease_ms else lease_ms) db
      ≡ (recovered, ok n)
    → Ops.claim_next w.json (other_target "") recovered ≡ (claimed, ok none)
    → any is_active claimed.apply_jobs ≡ true
    → ((poll_once w lease_ms (db, x)).0 ≡ (consume claimed, x))
      × NoJob (poll_once w lease_ms (db, x)).1
poll_once_busy w lease_ms db recovered claimed x n r c busy =
    elim (Result-cases (Ops.list w.json claimed).1) [
      | inr (e, bad) ↦
          let end =
            poll_once_unclaimed w lease_ms db recovered claimed x n r c
            ∙ on_jobs_err w (Ops.list w.json) (when_idle w) claimed x
                (list-reads w.json claimed bad) in
          (ap (λ p. p.0) end, λ j h. absurd (ground (arith, end, h)))
      | inl (js, good) ↦
          let active = list-any is_active_status w.json claimed js good ∙ busy in
          let end =
            poll_once_unclaimed w lease_ms db recovered claimed x n r c
            ∙ on_jobs_ok w (Ops.list w.json) (when_idle w) claimed x
                (list-reads w.json claimed good)
            ∙ when_idle_busy w js (consume claimed, x) active in
          (ap (λ p. p.0) end, λ j h. absurd (ground (arith, end, h)))
    ]
