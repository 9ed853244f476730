-- ===== src/System/Submission.antt =====
-- What a submission to services/api-gateway/internal/httpapi/handlers.go does to the jobs that are
-- under way, and what it adds.
use media_forge.Prelude.{
  ℕ, ◌≡◌, ◌≢◌, inl, inr, refl, Option, none, some, List, Any, Any-append_left,
}
use media_forge.Text.{Text}
use media_forge.Database.{Tables, JobRow, NewJob, create_job, find_job, execute}
use media_forge.Database.Rows.{find_job-append}
use media_forge.Database.Effects.{execute-create_job}
use media_forge.Gateway.Submit.{Request, Object, Message, Response, submit}
use media_forge.Gateway.Submit as Gateway
use media_forge.Gateway.Submit.Answers.{
  Outcome, refused, not_stored, not_persisted, not_enqueued, enqueued,
}
use media_forge.Gateway.Submit.Outcome.{submit-Outcome}
use media_forge.Worker.Handler.Recorded.{HasRow}
use media_forge.System.{Deployment, State, gateway_of, submitted}
use media_forge.System.Rows.{SameRow, HasRow-SameRow}
use media_forge.System.Account.{Kept, Held-more, Held-rows}

-- An INSERT leaves the rows that are there.
created-SameRow :
    (uuid : Text → Option Text) (j : NewJob) (now : ℕ) (u : Text) (t t' : Tables)
    → execute uuid (create_job j) now t ≡ some t'
    → HasRow u t
    → SameRow u t t'
unfolding HasRow
created-SameRow uuid j now u t t' e here =
    let (v, known, new, same) = execute-create_job uuid j now t t' e in
    rw same (rw find_job-append (go _ (find_job u t.jobs) here))
  where
    go : (rest o : Option JobRow) → o ≢ none → elim o [ none ↦ rest | some j ↦ some j ] ≡ o
    go rest none h = absurd (h refl)
    go rest (some row) h = refl

module _ (D : Deployment) where
  abbrev world_after : Request → State D → Gateway.World D.backends.Outside
  world_after r s =
      (submit D.backends D.max_upload D.fold D.parse_float D.token r (gateway_of D s)).1

  -- An object with this key was stored.
  abbrev pub HasObject : Text → List Object → Type 0
  HasObject key = Any (λ (o : Object). o.key ≡ key)

  module _ (r : Request) (s : State D) where
    Outcome-of :
        Outcome D.backends D.max_upload D.fold D.parse_float r
          (submit D.backends D.max_upload D.fold D.parse_float D.token r (gateway_of D s)).0
          (gateway_of D s)
          (world_after r s)
    Outcome-of =
        submit-Outcome D.backends D.max_upload D.fold D.parse_float r D.token (gateway_of D s)

    Outcome-SameRow :
        (a : Response) (w : Gateway.World D.backends.Outside) (u : Text)
        → Outcome D.backends D.max_upload D.fold D.parse_float r a (gateway_of D s) w
        → HasRow u s.queues.world.tables
        → SameRow u s.queues.world.tables w.tables
    Outcome-SameRow a w u (refused x same) here = rw same.tables refl
    Outcome-SameRow a w u (not_stored x o) here = rw o.tables refl
    Outcome-SameRow a w u (not_persisted t x st (inl same) p) here = rw same refl
    Outcome-SameRow a w u (not_persisted t x st (inr (now, e)) p) here =
        created-SameRow D.backends.uuid _ now u s.queues.world.tables w.tables e here
    Outcome-SameRow a w u (not_enqueued t x st (now, e) p) here =
        created-SameRow D.backends.uuid _ now u s.queues.world.tables w.tables e here
    Outcome-SameRow a w u (enqueued t x st (now, e) p) here =
        created-SameRow D.backends.uuid _ now u s.queues.world.tables w.tables e here

    Outcome-HasObject :
        (a : Response) (w : Gateway.World D.backends.Outside) (key : Text)
        → Outcome D.backends D.max_upload D.fold D.parse_float r a (gateway_of D s) w
        → HasObject key s.stored
        → HasObject key w.stored
    Outcome-HasObject a w key (refused x same) h = rw same.stored h
    Outcome-HasObject a w key (not_stored x o) h = elim o.stored [
      | inl same ↦ rw same h
      | inr more ↦ rw more (Any-append_left _ s.stored _ h)
    ]
    Outcome-HasObject a w key (not_persisted t x st i p) h = rw st (Any-append_left _ s.stored _ h)
    Outcome-HasObject a w key (not_enqueued t x st i p) h = rw st (Any-append_left _ s.stored _ h)
    Outcome-HasObject a w key (enqueued t x st i p) h = rw st (Any-append_left _ s.stored _ h)

    -- A submission keeps every job that is under way.
    pub submitted-Kept : (u : Text) → Kept D u s.queues → Kept D u (submitted D r s).queues
    submitted-Kept u k =
        let same = Outcome-SameRow _ (world_after r s) u Outcome-of k.here in
        record {
          here = HasRow-SameRow u s.queues.world.tables (world_after r s).tables same k.here;
          account =
              Held-more D u s.queues.ready _ s.queues.waiting s.queues.parked
                (world_after r s).tables
                (Held-rows D u s.queues.ready s.queues.waiting s.queues.parked s.queues.world.tables
                  (world_after r s).tables same k.account);
        }

    pub submitted-HasObject :
        (key : Text) → HasObject key s.stored → HasObject key (submitted D r s).stored
    submitted-HasObject key h = Outcome-HasObject _ (world_after r s) key Outcome-of h
