-- ===== src/Worker/Handler/Outcome.antt =====
-- The skip of completed jobs and the outcome label in services/worker-image/cmd/worker/main.go,
-- against what services/worker-image/internal/broker/broker.go does with the delivery.
use media_forge.Prelude.{
  ◌≡◌, refl, ap, Bool, true, false, ◌||◌, none, some, List, [], ◌∷◌, ℤ, pos, leℤ, if◌then◌else◌,
  ◌∙◌,
}
use media_forge.Text.{Text, codes, ◌==◌}
use media_forge.Text.Equality.{eq_refl}
use media_forge.Database.{JobRow, find_job, read_status, row_status, status_at}
use media_forge.Errors.{Error, message, is_permanent}
use media_forge.Worker.Consume.{Job, Delivery, Action, ack, nack, park, settle}
use media_forge.Worker.Processor.{Imaging, Options}
use media_forge.Worker.Services.{Services, World, runs, status_of, status_over}
use media_forge.Worker.Handler.{is_completed, handle_job, handle, outcome}

module _ (S : Services) (I : Imaging) (options : Options) (job : Job) where
  open S use {Outside}

  -- A job that is completed is skipped, where its status can be read: the handler returns no error,
  -- and the tables, the events and the artifacts counted are what they were.
  handle_completed :
      (attempt : ℤ) (w : World Outside) (u : Text) (row : JobRow)
      → S.uuid job.id ≡ some u
      → find_job u w.tables.jobs ≡ some row
      → row.status ≡ codes "completed"
      → (S.link w.outside).0 ≡ runs
      → ((handle S I options job attempt w).0 ≡ none)
        × ((handle S I options job attempt w).1.tables ≡ w.tables)
        × ((handle S I options job attempt w).1.sent ≡ w.sent)
        × ((handle S I options job attempt w).1.produced ≡ w.produced)
  unfolding handle handle_job status_of
  handle_completed attempt w u row known there done link =
      let read : read_status S.uuid job.id w.tables ≡ some (codes "completed") =
        (unfold read_status in
          ap (status_at w.tables) known ∙ ap row_status there ∙ ap some done) in
      let seen : is_completed S I options job (status_over S job.id (S.link w.outside).0 w) ≡ true =
        rw (link, read) (eq_refl (codes "completed")) in
      rw seen (refl, refl, refl, refl)

by_label :
    (b : Bool) (x y : List Action)
    → (if b then x else y)
      ≡ (if (if b then codes "parked" else codes "retry") == codes "parked" then x else y)
unfolding codes ◌==◌
by_label true x y = refl
by_label false x y = refl

-- The label "parked" of an error is right if `max_retries` is 5: the delivery is parked exactly where
-- the handler counts it so.
pub outcome-settle :
    (d : Delivery) (n : ℤ) (e : Error)
    → settle (pos 5) d n (some e) ≡ (
        if outcome (some e) n == codes "parked"
        then park d.routing_key (message e) d.body ∷ ack ∷ []
        else nack ∷ [])
unfolding settle outcome
outcome-settle d n e = by_label (is_permanent e || leℤ (pos 5) n) _ _
