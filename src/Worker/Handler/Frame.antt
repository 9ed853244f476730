-- ===== src/Worker/Handler/Frame.antt =====
-- What the handler of services/worker-image/cmd/worker/main.go leaves alone in the database.
use media_forge.Prelude.{
  ℕ, ◌≡◌, ◌≢◌, refl, sym, ap, ◌∙◌, Option, some, List, [], ◌∷◌, ℤ, All, arith,
}
use media_forge.Text.{Text}
use media_forge.Text.Equality.{eq_iff}
use media_forge.Database.{
  Tables, Statement, create_job, set_status, add_artifact, find_job, find_artifact, execute,
}
use media_forge.Database.Rows.{find_job-update_status, find_artifact-upsert}
use media_forge.Database.Effects.{execute-set_status, execute-add_artifact}
use media_forge.Worker.Consume.{Job}
use media_forge.Worker.Processor.{Imaging, Options, Variant}
use media_forge.Worker.Services.{Services, World}
use media_forge.Worker.Handler.{handle}
use media_forge.Worker.Handler.Keeps.{About, handle-Keeps}

-- No property of a variant.
abbrev Any : Variant → Type 0
Any v = Unit

pub All-Any : (vs : List Variant) → All Any vs
All-Any [] = tt
All-Any (v ∷ vs) = (tt, All-Any vs)

-- What a statement about another job keeps.
abbrev pub Rows : Tables → Text → Text → Tables → Type 0
Rows t v name t' =
    (find_job v t'.jobs ≡ find_job v t.jobs)
    × (find_artifact v name t'.artifacts ≡ find_artifact v name t.artifacts)

pub execute-Rows :
    (uuid : Text → Option Text) (job : Job) (v name : Text) (t₀ : Tables)
    → uuid job.id ≢ some v
    → (s : Statement) (now : ℕ) (t t' : Tables) → About job Any s
    → execute uuid s now t ≡ some t'
    → Rows t₀ v name t
    → Rows t₀ v name t'
execute-Rows uuid job v name t₀ other (create_job j) now t t' a e h = absurd a
execute-Rows uuid job v name t₀ other (set_status i status text) now t t' a e h =
    let (u, known, same) = execute-set_status uuid i status text now t t' e in
    let apart : u ≢ v = λ p. other (ap uuid (sym a) ∙ known ∙ ap some p) in
    rw same (rw find_job-update_status (ground (arith, eq_iff u v, apart, h.0)), h.1)
execute-Rows uuid job v name t₀ other (add_artifact i new) now t t' a e h =
    let (u, known, same) = execute-add_artifact uuid i new now t t' e in
    let apart : u ≢ v = λ p. other (ap uuid (sym a.0) ∙ known ∙ ap some p) in
    rw same (h.0, rw find_artifact-upsert (ground (arith, eq_iff u v, apart, h.1)))

module _ (S : Services) (I : Imaging) (options : Options) (job : Job) (attempt : ℤ) where
  open S use {Outside}

  -- Whatever fails on the way, the handler leaves the rows of every other job as they were: the job's
  -- own row, and its artifact of any name.
  pub handle-Rows :
      (v name : Text) (w : World Outside)
      → S.uuid job.id ≢ some v
      → (find_job v (handle S I options job attempt w).1.tables.jobs ≡ find_job v w.tables.jobs)
        × (find_artifact v name (handle S I options job attempt w).1.tables.artifacts
            ≡ find_artifact v name w.tables.artifacts)
  handle-Rows v name w other =
      handle-Keeps S I options job Any (Rows w.tables v name)
        (execute-Rows S.uuid job v name w.tables other) (λ src vs e. All-Any vs) attempt w
        (refl, refl)
