-- ===== src/Apply/Gate.antt =====
-- About the order of the phases of execute and Apply in apps/api/internal/worker/apply/apply.go.
use proxy_core.Base.{
  ◌≡◌, refl, sym, ap, subst, ◌∙◌, Bool, true, List, [], ◌∷◌, ◌++◌, append_assoc, append-nil, arith,
  ok, err, Result, ◌⊎◌, inl, inr, Bool-cases, all, String,
}
use proxy_core.Store.{Job}
use proxy_core.Apply.{
  Operation, stage, validate, Candidate, Response, Outputs, Env, Run, Exit, go, stop, failed,
}
use proxy_core.Apply.Phases.{
  M, and_then, call, send, request, request_of, is_accepted, exit_of, return_fail, after_stage,
  after_validate, stage_one, stage_all, start_applying, promote_all, check_all,
}
use proxy_core.Apply.Attempt.{finish, run_candidates, conclude}
use proxy_core.Apply.Observed.{Event, observed, log, asking}
use proxy_core.Apply.Checks.{
  is_check, accepted, staged, Checks, Silent, stage_all-Checks, after_stage-Silent,
  after_validate-Silent,
}
use proxy_core.Apply.Later.{
  Extends, Extends-refl, and_then-Extends, start_applying-log, promote_all-Extends,
  check_all-Extends, finish-Extends, conclude-Extends, conclude-silent,
}

-- A chain that went through, taken apart.
and_then-eq-go :
    {e : Env} {A B : Type 0} (p : Run e × Exit A) (f : A → M e B) {t : Run e} {b : B}
    → and_then p f ≡ (t, go b)
    → (a : A) × (u : Run e) × (p ≡ (u, go a)) × (f a u ≡ (t, go b))
unfolding and_then
and_then-eq-go (u, go a) f h = (a, u, refl, h)
and_then-eq-go (u, stop j) f h = cc
and_then-eq-go (u, failed m) f h = cc

exit_of-eq-go : {A : Type 0} (r : Result String A) {a : A} → exit_of r ≡ go a → r ≡ ok a
exit_of-eq-go (ok a) h = cc
exit_of-eq-go (err m) h = cc

-- A request that went through, where the answer was OK.
request-accepted :
    (e : Env) (operation : Operation) (c : Candidate) (s : Run (observed e)) {t : Run (observed e)}
    {r : Response}
    → request (observed e) operation c s ≡ (t, go r)
    → r.is_ok ≡ true
    → log e t ≡ log e s ++ accepted operation s.job.revision_id c ∷ []
unfolding request send
request-accepted e operation c s {t} {r} h k =
    let answer = (e.control (request_of operation c s.job) s.world.0).1 in
    let was_ok =
      ap is_accepted (exit_of-eq-go answer (ap (λ (p : Run (observed e) × Exit Response). p.1) h))
      ∙ k in
    sym (ap (λ (p : Run (observed e) × Exit Response). log e p.0) h)
    ∙ ap
        (λ (b : Bool).
          log e s ++ record { asked = asking operation s.job.revision_id c; accepted = b } ∷ [])
        was_ok

after_stage-eq-go :
    (e : Env) (c : Candidate) (r : Response) (s : Run e) {t : Run e} {u : Unit {0}}
    → after_stage e c r s ≡ (t, go u)
    → r.is_ok ≡ true
unfolding after_stage return_fail
after_stage-eq-go e c r s h = elim (Bool-cases r.is_ok) [
  | inl k ↦ k
  | inr k ↦ absurd (ground arith)
]

after_validate-eq-go :
    (e : Env) (c : Candidate) (outputs : Outputs) (r : Response) (s : Run e) {t : Run e}
    {o : Outputs}
    → after_validate e c outputs r s ≡ (t, go o)
    → r.is_ok ≡ true
unfolding after_validate return_fail
after_validate-eq-go e c outputs r s h = elim (Bool-cases r.is_ok) [
  | inl k ↦ k
  | inr k ↦ absurd (ground arith)
]

sent_chain :
    {l0 l1 l2 l3 l4 l5 : List Event} (x y : Event)
    → l1 ≡ l0
    → l2 ≡ l1 ++ x ∷ []
    → l3 ≡ l2
    → l4 ≡ l3 ++ y ∷ []
    → l5 ≡ l4
    → l5 ≡ l0 ++ x ∷ y ∷ []
sent_chain {l0 = l0} x y e1 e2 e3 e4 e5 =
    e5
    ∙ e4
    ∙ ap (λ (l : List Event). l ++ y ∷ []) (e3 ∙ e2 ∙ ap (λ (l : List Event). l ++ x ∷ []) e1)
    ∙ append_assoc l0 (x ∷ []) (y ∷ [])

-- The checks of candidates that went through.
pub record Staged (e : Env) (cs : List Candidate) (s t : Run (observed e)) : Type 0 where
  pub received : log e t ≡ log e s ++ staged s.job.revision_id cs
  pub same_job : t.job ≡ s.job

went_through :
    (e : Env) {A : Type 0} (s : Run (observed e)) (p : Run (observed e) × Exit A)
    {t : Run (observed e)} {a : A}
    → p ≡ (t, go a)
    → Silent e s p.0
    → Silent e s t
went_through e {A} s p h v = subst (λ (q : Run (observed e) × Exit A). Silent e s q.0) h v

answered :
    (e : Env) (operation : Operation) (c : Candidate) (s : Run (observed e)) (job : Job)
    {t : Run (observed e)} {r : Response}
    → s.job ≡ job
    → request (observed e) operation c s ≡ (t, go r)
    → r.is_ok ≡ true
    → (log e t ≡ log e s ++ accepted operation job.revision_id c ∷ []) × (t.job ≡ job)
unfolding request send
answered e operation c s job j h k = (
  request-accepted e operation c s h k
      ∙ ap (λ (i : Job). log e s ++ accepted operation i.revision_id c ∷ []) j,
  sym (ap (λ (p : Run (observed e) × Exit Response). p.0.job) h) ∙ j,
)

stage_one-Staged :
    (e : Env) (c : Candidate) (outputs : Outputs) (s : Run (observed e)) {t : Run (observed e)}
    {o : Outputs}
    → stage_one (observed e) c outputs s ≡ (t, go o)
    → Staged e (c ∷ []) s t
unfolding stage_one
stage_one-Staged e c outputs s {t} {o} h =
    let (_, s1, p1, h1) = and_then-eq-go (call ((observed e).write_candidate c) s) _ h in
    let (r, s2, p2, h2) = and_then-eq-go (request (observed e) stage c s1) _ h1 in
    let (_, s3, p3, h3) = and_then-eq-go (after_stage (observed e) c r s2) _ h2 in
    let (v, s4, p4, h4) = and_then-eq-go (request (observed e) validate c s3) _ h3 in
    let silent1 =
      went_through e s (call ((observed e).write_candidate c) s) p1 (refl, refl, refl) in
    let (stages, job2) =
      answered e stage c s1 s.job silent1.2 p2 (after_stage-eq-go (observed e) c r s2 p3) in
    let silent3 =
      went_through e s2 (after_stage (observed e) c r s2) p3 (after_stage-Silent e c r s2) in
    let (validates, job4) =
      answered e validate c s3 s.job (silent3.2 ∙ job2) p4
        (after_validate-eq-go (observed e) c outputs v s4 h4) in
    let silent5 =
      went_through e s4 (after_validate (observed e) c outputs v s4) h4
        (after_validate-Silent e c outputs v s4) in
    record {
      received = sent_chain _ _ silent1.0 stages silent3.0 validates silent5.0;
      same_job = silent5.2 ∙ job4;
    }

stage_all-Staged :
    (e : Env) (cs : List Candidate) (outputs : Outputs) (s : Run (observed e))
    {t : Run (observed e)} {o : Outputs}
    → stage_all (observed e) cs outputs s ≡ (t, go o)
    → Staged e cs s t
unfolding stage_all
stage_all-Staged e [] outputs s h =
    let same = went_through e s (s, go outputs) h (refl, refl, refl) in
    record { received = same.0 ∙ sym (append-nil (log e s)); same_job = same.2 }
stage_all-Staged e (c ∷ cs) outputs s h =
    let (o, u, p, k) =
      and_then-eq-go (stage_one (observed e) c outputs s) (stage_all (observed e) cs) h in
    let first = stage_one-Staged e c outputs s p in
    let rest = stage_all-Staged e cs o u k in
    record {
      received =
          rest.received
          ∙ ap (λ (vs : List Event). vs ++ staged u.job.revision_id cs) first.received
          ∙ ap
              (λ (j : Job).
                (log e s ++ staged s.job.revision_id (c ∷ [])) ++ staged j.revision_id cs)
              first.same_job
          ∙ append_assoc (log e s) (staged s.job.revision_id (c ∷ []))
              (staged s.job.revision_id cs);
      same_job = rest.same_job ∙ first.same_job;
    }

-- Control has received nothing but checks, or it has received the checks of every candidate, each
-- of them accepted, before anything else.
abbrev pub Gated : (e : Env) → List Candidate → Run (observed e) → (observed e).World → Type 0
Gated e cs s w =
    ((events : List Event) × (w.1 ≡ log e s ++ events) × (all is_check events ≡ true))
    ⊎ ((rest : List Event) × (w.1 ≡ log e s ++ (staged s.job.revision_id cs ++ rest)))

later-Extends :
    (e : Env) (cs : List Candidate) (v : Outputs) (t : Run (observed e))
    → Extends e t
        (and_then (start_applying (observed e) v t) λ _ u.
          and_then
            (promote_all (observed e) cs [] u)
            λ a w. and_then (check_all (observed e) cs [] w) (finish (observed e) a)).0.world
later-Extends e cs v t =
    and_then-Extends e t _ _
      (Extends-refl e t (start_applying (observed e) v t).0.world (start_applying-log e v t))
      λ _ u.
        and_then-Extends e u _ _ (promote_all-Extends e cs [] u)
          λ a w. and_then-Extends e w _ _ (check_all-Extends e cs [] w) (finish-Extends e a)

-- A phase that ends the run before anything is promoted.
pub stopped :
    (e : Env) (cs : List Candidate) (s t : Run (observed e)) (x : Exit Job)
    → s.promoted ≡ []
    → Checks e s t
    → Gated e cs s (conclude (observed e) (t, x)).0
stopped e cs s t x h ((events, received, checks), same, _) =
    inl (events, conclude-silent e t x (same ∙ h) ∙ received, checks)

-- From the candidates on, whatever the surroundings answer: an attempt in which nothing was promoted
-- yet ends with control having received nothing but requests to stage and to validate, or control
-- has first received, for each candidate in turn, the request to stage it and the request to
-- validate it, with the service, checksum and path of the candidate and the revision of the job, and
-- has answered OK to all of them. The attempt includes the rollback that follows an error.
pub run_candidates-Gated :
    (e : Env) (cs : List Candidate) (s : Run (observed e))
    → s.promoted ≡ []
    → Gated e cs s (conclude (observed e) (run_candidates (observed e) cs s)).0
unfolding run_candidates and_then
run_candidates-Gated e cs s h = gate (stage_all (observed e) cs [] s) refl
  where
    gate :
        (p : Run (observed e) × Exit Outputs)
        → stage_all (observed e) cs [] s ≡ p
        → Gated e cs s
            (conclude (observed e) (
              and_then p λ v t. and_then (start_applying (observed e) v t) λ _ u.
                and_then
                  (promote_all (observed e) cs [] u)
                  λ a w. and_then (check_all (observed e) cs [] w) (finish (observed e) a))).0
    gate (t, go v) q =
        let checks = stage_all-Staged e cs [] s q in
        let (rest, more) = conclude-Extends e t _ (later-Extends e cs v t) in
        inr (
          rest,
          more
              ∙ ap (λ (vs : List Event). vs ++ rest) checks.received
              ∙ append_assoc (log e s) (staged s.job.revision_id cs) rest,
        )
    gate (t, stop j) q =
        stopped e cs s t (stop j) h (subst (λ r. Checks e s r.0) q (stage_all-Checks e cs [] s))
    gate (t, failed m) q =
        stopped e cs s t (failed m) h (subst (λ r. Checks e s r.0) q (stage_all-Checks e cs [] s))
