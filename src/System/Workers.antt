-- ===== src/System/Workers.antt =====
-- What is left of a job while image workers of services/worker-image work on their deliveries, a
-- statement at a time.
use mathlib.Core.Path.{subst}
use media_forge.Prelude.{
  ℕ, ◌≡◌, ◌≢◌, ◌⊎◌, inl, inr, refl, sym, ◌∙◌, Option, none, some, List, [], ◌∷◌, ◌++◌, All,
  Any-append_right,
}
use media_forge.Text.{Text, codes}
use media_forge.Errors.{Error}
use media_forge.Database.{
  Tables, JobRow, Statement, set_status, execute, find_job, row_status, read_status,
}
use media_forge.Database.Abstract.{run_statements, run_statements-Keeps}
use media_forge.Worker.Consume.{Job, Delivery, Unmarshalled, decoded, refused, settle, attempt}
use media_forge.Worker.Consume.Queues.{Parked}
use media_forge.Worker.Handler.Frame.{Rows, execute-Rows}
use media_forge.Worker.Handler.Recorded.{IsCompleted, HasRow, HasRow-keep}
use media_forge.Worker.Handler.Recorded as Recorded
use media_forge.System.{
  Deployment, State, unmarshal, IsOn, parked_by, worked, Ended, completes, skips, fails, settled,
}
use media_forge.System.Rows.{Whatever, SameRow, HasRow-SameRow, is_id}
use media_forge.System.Account.{
  Carries, differs, Held, queued, Held-rows, Held-without, Held-park, Kept,
}
use media_forge.System.Round.{perform-Kept, settled-Kept}

row_status-IsCompleted :
    (u : Text) (t : Tables)
    → row_status (find_job u t.jobs) ≡ some (codes "completed")
    → IsCompleted u t
row_status-IsCompleted u t e = go (find_job u t.jobs) refl e
  where
    go :
        (o : Option JobRow)
        → find_job u t.jobs ≡ o
        → row_status o ≡ some (codes "completed")
        → IsCompleted u t
    go none p h = cc
    go (some row) p h = (row, p, cc)

module _ (D : Deployment) (u : Text) where
  Carries-cases : (body : Text) → Carries D u body ⊎ (Carries D u body → ⊥)
  Carries-cases body = go (unmarshal D body) refl
    where
      go : (m : Unmarshalled) → unmarshal D body ≡ m → Carries D u body ⊎ (Carries D u body → ⊥)
      go (refused e) p = inr (λ c. cc (sym p ∙ c.1))
      go (decoded job) p = elim (is_id u (D.services.uuid job.id)) [
        | inl known ↦ inl (job, p, known)
        | inr other ↦ inr (differs D u body job p other)
      ]

  statement-HasRow :
      (d : Delivery) (s : Statement) (now : ℕ) (t t' : Tables)
      → IsOn D d (s, now)
      → execute D.services.uuid s now t ≡ some t'
      → HasRow u t
      → HasRow u t'
  statement-HasRow d s now t t' (job, p, about) e here = elim (is_id u (D.services.uuid job.id)) [
    | inl known ↦ HasRow-keep D.services job u known Whatever s now t t' about e here
    | inr other ↦
        HasRow-SameRow u t t'
          (execute-Rows D.services.uuid job u [] t other s now t t' about e (refl, refl)).0 here
  ]

  statement-Rows :
      (d : Delivery)
      → (Carries D u d.body → ⊥)
      → (t₀ : Tables) (s : Statement) (now : ℕ) (t t' : Tables) → IsOn D d (s, now)
      → execute D.services.uuid s now t ≡ some t'
      → Rows t₀ u [] t
      → Rows t₀ u [] t'
  statement-Rows d apart t₀ s now t t' (job, p, about) e rows =
      execute-Rows D.services.uuid job u [] t₀ (λ known. apart (job, p, known)) s now t t' about e
        rows

  statements-Held :
      (ds : List Delivery) (d : Delivery) (es waiting : List Delivery) (parked : List Parked)
      (ops : List (Statement × ℕ)) (t : Tables)
      → All (IsOn D d) ops
      → Held D u (ds ++ d ∷ es) waiting parked t
      → Held D u (ds ++ d ∷ es) waiting parked (run_statements D.services.uuid ops t)
  statements-Held ds d es waiting parked ops t on held = elim (Carries-cases d.body) [
    | inl c ↦ queued (Any-append_right _ ds (d ∷ es) (inl c))
    | inr apart ↦
        Held-rows D u (ds ++ d ∷ es) waiting parked t _
          (run_statements-Keeps D.services.uuid (Rows t u []) (IsOn D d) (statement-Rows d apart t)
            ops t on (refl, refl)).0
          held
  ]

  -- Any statements of a worker keep the job.
  pub worked-Kept :
      (ds : List Delivery) (d : Delivery) (es : List Delivery) (ops : List (Statement × ℕ))
      (outside : D.services.Outside) (reason : Option Text) (s : State D)
      → s.queues.ready ≡ ds ++ d ∷ es
      → All (IsOn D d) ops
      → Kept D u s.queues
      → Kept D u (worked D d ops outside reason s).queues
  worked-Kept ds d es ops outside reason s e on k =
      let HeldIn : List Delivery → Tables → Type 0 =
        λ ready t. Held D u ready s.queues.waiting s.queues.parked t in
      let after = run_statements D.services.uuid ops s.queues.world.tables in
      record {
        here =
            run_statements-Keeps D.services.uuid (HasRow u) (IsOn D d) (statement-HasRow d) ops
              s.queues.world.tables on k.here;
        account =
            Held-park D u (parked_by D reason d) s.queues.ready s.queues.waiting s.queues.parked _ (
              subst (λ ready. HeldIn ready after) (sym e)
                (statements-Held ds d es s.queues.waiting s.queues.parked ops s.queues.world.tables
                  on (subst (λ ready. HeldIn ready s.queues.world.tables) e k.account)));
      }

  read_status-IsCompleted :
      (id : Text) (t : Tables)
      → D.services.uuid id ≡ some u
      → read_status D.services.uuid id t ≡ some (codes "completed")
      → IsCompleted u t
  unfolding read_status
  read_status-IsCompleted id t known e = row_status-IsCompleted u t (rw known at e)

  -- The end of a handler, where the delivery is that of the job.
  Ended-IsCompleted :
      (s : State D) (job : Job) (r : Option Error) (t : Tables)
      → D.services.uuid job.id ≡ some u
      → HasRow u s.queues.world.tables
      → Ended D s job r t
      → HasRow u t × (r ≡ none → IsCompleted u t)
  Ended-IsCompleted s job r t known here (completes now t' e) = (
    HasRow-keep D.services job u known Whatever (set_status job.id (codes "completed") []) now
        s.queues.world.tables t' refl e here,
    λ p. Recorded.completes D.services job u known now s.queues.world.tables t' here e,
  )
  Ended-IsCompleted s job r t known here (skips e) =
      (here, λ p. read_status-IsCompleted job.id s.queues.world.tables known e)
  Ended-IsCompleted s job r t known here (fails e) = (here, λ p. cc)

  -- The end of a handler, where the delivery is another job's.
  Ended-SameRow :
      (s : State D) (job : Job) (r : Option Error) (t : Tables)
      → D.services.uuid job.id ≢ some u
      → Ended D s job r t
      → SameRow u s.queues.world.tables t
  Ended-SameRow s job r t other (completes now t' e) =
      (execute-Rows D.services.uuid job u [] s.queues.world.tables other
        (set_status job.id (codes "completed") []) now s.queues.world.tables t' refl e
        (refl, refl)).0
  Ended-SameRow s job r t other (skips e) = refl
  Ended-SameRow s job r t other (fails e) = refl

  -- A worker that settles its delivery keeps the job.
  pub turn_settled-Kept :
      (ds : List Delivery) (d : Delivery) (es : List Delivery) (job : Job) (r : Option Error)
      (t : Tables) (s : State D)
      → s.queues.ready ≡ ds ++ d ∷ es
      → unmarshal D d.body ≡ decoded job
      → Ended D s job r t
      → Kept D u s.queues
      → Kept D u (settled D (ds ++ es) d r t s).queues
  turn_settled-Kept ds d es job r t s e p ended k = elim (is_id u (D.services.uuid job.id)) [
    | inl known ↦
        let (here, complete) = Ended-IsCompleted s job r t known k.here ended in
        settled-Kept D u (attempt d) d r _ (job, p, known) here complete
    | inr other ↦
        let same = Ended-SameRow s job r t other ended in
        perform-Kept D u (settle D.max_retries d (attempt d) r) d _ (record {
          here = HasRow-SameRow u s.queues.world.tables t same k.here;
          account =
              Held-without D u ds d es s.queues.waiting s.queues.parked s.queues.world.tables t
                (differs D u d.body job p other) same
                (subst
                  (λ ready. Held D u ready s.queues.waiting s.queues.parked s.queues.world.tables) e
                  k.account);
        })
  ]
