-- ===== src/System/Rows.antt =====
-- What the handler of services/worker-image/cmd/worker/main.go, and any statements about its job,
-- leave of a row of the jobs table: the job's own, or another's.
use media_forge.Prelude.{
  ◌≡◌, ◌≢◌, ◌⊎◌, inl, inr, sym, ap, ◌∙◌, Option, none, some, [], ℤ, Bool-cases,
}
use media_forge.Text.{Text, ◌==◌}
use media_forge.Text.Equality.{eq_iff, eq_refl}
use media_forge.Database.{Tables, find_job}
use media_forge.Worker.Consume.{Job}
use media_forge.Worker.Processor.{Imaging, Options, Variant}
use media_forge.Worker.Services.{Services, World}
use media_forge.Worker.Handler.{handle}
use media_forge.Worker.Handler.Keeps.{handle-Keeps}
use media_forge.Worker.Handler.Frame.{handle-Rows, All-Any}
use media_forge.Worker.Handler.Recorded.{IsCompleted, HasRow, HasRow-keep}

-- No property of a variant.
abbrev pub Whatever : Variant → Type 0
Whatever v = Unit {0}

-- The row of a UUID in other tables.
abbrev pub SameRow : Text → Tables → Tables → Type 0
SameRow u t t' = find_job u t'.jobs ≡ find_job u t.jobs

pub HasRow-SameRow : (u : Text) (t t' : Tables) → SameRow u t t' → HasRow u t → HasRow u t'
unfolding HasRow
HasRow-SameRow u t t' same here gone = here (sym same ∙ gone)

pub IsCompleted-SameRow :
    (u : Text) (t t' : Tables) → SameRow u t t' → IsCompleted u t → IsCompleted u t'
IsCompleted-SameRow u t t' same (row, found, done) = (row, same ∙ found, done)

pub is_id : (u : Text) (o : Option Text) → (o ≡ some u) ⊎ (o ≢ some u)
is_id u none = inr (λ e. cc)
is_id u (some v) = elim (Bool-cases (v == u)) [
  | inl same ↦ inl (ap some ((eq_iff v u).0 same))
  | inr other ↦ inr (λ e. let eq : v ≡ u = cc in cc (ap (λ x. x == u) eq ∙ eq_refl u))
]

module _ (S : Services) (u : Text) where
  open S use {Outside}

  module _ (I : Imaging) (options : Options) (job : Job) (attempt : ℤ) (w : World Outside) where
    pub handle-SameRow :
        S.uuid job.id ≢ some u → SameRow u w.tables (handle S I options job attempt w).1.tables
    handle-SameRow other = (handle-Rows S I options job attempt u [] w other).0

    -- The handler keeps every row there, whatever fails on the way.
    pub handle-HasRow : HasRow u w.tables → HasRow u (handle S I options job attempt w).1.tables
    handle-HasRow here = elim (is_id u (S.uuid job.id)) [
      | inl known ↦
          handle-Keeps S I options job Whatever (HasRow u) (HasRow-keep S job u known Whatever)
            (λ src vs e. All-Any vs) attempt w here
      | inr other ↦ HasRow-SameRow u w.tables _ (handle-SameRow other) here
    ]
