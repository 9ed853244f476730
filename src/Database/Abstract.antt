-- ===== src/Database/Abstract.antt =====
-- The tables as functions from their keys: what the stores of services/worker-image and
-- services/api-gateway promise, with no order of rows.
use mathlib.Core.Path.{fun_ext}
use media_forge.Prelude.{
  ℕ, ◌≡◌, refl, ap, ◌∙◌, ◌&&◌, Option, none, some, List, [], ◌∷◌, ◌++◌, arith, if◌then◌else◌,
  Option-cases, inl, inr, All,
}
use media_forge.Text.{Text, ◌==◌}
use media_forge.Text.Equality.{eq_iff}
use media_forge.Database.{
  Tables, JobRow, ArtifactRow, NewJob, NewArtifact, Statement, create_job, set_status, add_artifact,
  find_job, find_artifact, job_row, artifact_row, update_status, insert_job, insert_artifact,
  execute, with_uuid,
}
use media_forge.Database.Rows.{
  updated, first_created, find_job-append, find_job-update_status, find_artifact-upsert,
}

pub record View : Type 0 where
  pub job : Text → Option JobRow
  pub artifact : Text → Text → Option ArtifactRow

abbrev pub view : Tables → View
view t = record {
  job = λ u. find_job u t.jobs;
  artifact = λ u name. find_artifact u name t.artifacts;
}

-- A function changed at one key.
abbrev pub put_job : Text → Option JobRow → View → View
put_job u row s = record s { job = λ v. if u == v then row else s.job v }

abbrev pub put_artifact : Text → NewArtifact → ℕ → View → View
put_artifact u a now s = record s {
  artifact = λ v name.
      if u == v && a.name == name
      then some (artifact_row u a (first_created now (s.artifact v name)))
      else s.artifact v name;
}

abbrev pub create_if_new : Text → NewJob → ℕ → Option JobRow → View → Option View
create_if_new u j now none s = some (put_job u (some (job_row u j now)) s)
create_if_new u j now (some old) s = none

abbrev pub add_if_job : Text → NewArtifact → ℕ → Option JobRow → View → Option View
add_if_job u a now none s = none
add_if_job u a now (some row) s = some (put_artifact u a now s)

abbrev pub effect_at : Option Text → Statement → ℕ → View → Option View
effect_at none statement now s = none
effect_at (some u) (create_job j) now s = create_if_new u j now (s.job u) s
effect_at (some u) (set_status id status message) now s =
    some (put_job u (updated status message now (s.job u)) s)
effect_at (some u) (add_artifact id a) now s = add_if_job u a now (s.job u) s

abbrev pub id_of : Statement → Text
id_of (create_job j) = j.id
id_of (set_status id status message) = id
id_of (add_artifact id a) = id

abbrev pub view_of : Option Tables → Option View
view_of none = none
view_of (some t) = some (view t)

create_view :
    (u : Text) (j : NewJob) (now : ℕ) (t : Tables)
    → view_of (insert_job u j now t) ≡ create_if_new u j now (find_job u t.jobs) (view t)
unfolding insert_job find_job
create_view u j now t = elim (Option-cases (find_job u t.jobs)) [
  | inl new ↦ rw new (
      ap (λ (f : Text → Option JobRow). some (record (view t) { job = f }))
        (fun_ext
          λ v. ground (arith, new, eq_iff u v, find_job-append v t.jobs (job_row u j now ∷ []))))
  | inr (old, e) ↦ rw e refl
]

status_view :
    (u status message : Text) (now : ℕ) (t : Tables)
    → view (record t { jobs = update_status u status message now t.jobs })
      ≡ put_job u (updated status message now (find_job u t.jobs)) (view t)
status_view u status message now t =
    ap (λ (f : Text → Option JobRow). record (view t) { job = f })
      (fun_ext
        λ v. ground (arith, eq_iff u v, find_job-update_status u v status message now t.jobs))

artifact_view :
    (u : Text) (a : NewArtifact) (now : ℕ) (t : Tables)
    → view_of (insert_artifact u a now t) ≡ add_if_job u a now (find_job u t.jobs) (view t)
unfolding insert_artifact
artifact_view u a now t = elim (Option-cases (find_job u t.jobs)) [
  | inl gone ↦ rw gone refl
  | inr (row, e) ↦ rw e (
      ap (λ (f : Text → Text → Option ArtifactRow). some (record (view t) { artifact = f }))
        (fun_ext λ v. fun_ext λ name. find_artifact-upsert u v name a now t.artifacts))
]

module _ (uuid : Text → Option Text) where
  -- A statement on the abstract state, with no value where Postgres refuses it.
  abbrev pub effect : Statement → ℕ → View → Option View
  effect s now v = effect_at (uuid (id_of s)) s now v

  -- A statement does to the tables, seen as functions, what its effect says, and is refused where
  -- that has no value.
  pub execute-view :
      (s : Statement) (now : ℕ) (t : Tables)
      → view_of (execute uuid s now t) ≡ effect s now (view t)
  unfolding execute
  execute-view (create_job j) now t =
      elim (uuid j.id)
        as (λ o.
          view_of (with_uuid o (λ u. insert_job u j now t))
          ≡ effect_at o (create_job j) now (view t)) [
            | none ↦ refl
            | some u ↦ create_view u j now t
          ]
  execute-view (set_status id status message) now t =
      elim (uuid id)
        as (λ o.
          view_of (
            with_uuid o (λ u. some (record t { jobs = update_status u status message now t.jobs })))
          ≡ effect_at o (set_status id status message) now (view t)) [
            | none ↦ refl
            | some u ↦ ap some (status_view u status message now t)
          ]
  execute-view (add_artifact id a) now t =
      elim (uuid id)
        as (λ o.
          view_of (with_uuid o (λ u. insert_artifact u a now t))
          ≡ effect_at o (add_artifact id a) now (view t)) [
            | none ↦ refl
            | some u ↦ artifact_view u a now t
          ]

  abbrev pub or_same {ℓ} : {A : Type ℓ} → A → Option A → A
  or_same a none = a
  or_same a (some b) = b

  -- Any sequence of statements of both services, each with its time; one that is refused changes
  -- nothing.
  unfoldable pub run_statements : List (Statement × ℕ) → Tables → Tables
  run_statements [] t = t
  run_statements ((s, now) ∷ rest) t = run_statements rest (or_same t (execute uuid s now t))

  pub run_statements-last :
      (ops : List (Statement × ℕ)) (s : Statement) (now : ℕ) (t : Tables)
      → run_statements (ops ++ (s, now) ∷ []) t
        ≡ or_same (run_statements ops t) (execute uuid s now (run_statements ops t))
  unfolding run_statements
  run_statements-last [] s now t = refl
  run_statements-last ((r, at) ∷ ops) s now t = run_statements-last ops s now _

  -- What every accepted statement of a list keeps, the list keeps.
  pub run_statements-Keeps :
      (P : Tables → Type 0) (Q : Statement × ℕ → Type 0)
      (keep : (s : Statement) (now : ℕ) (t t' : Tables)
        → Q (s, now)
        → execute uuid s now t ≡ some t'
        → P t
        → P t')
      (ops : List (Statement × ℕ)) (t : Tables)
      → All Q ops
      → P t
      → P (run_statements ops t)
  unfolding run_statements
  run_statements-Keeps P Q keep [] t a p = p
  run_statements-Keeps P Q keep ((s, now) ∷ rest) t a p =
      run_statements-Keeps P Q keep rest _ a.1 (next (execute uuid s now t) refl)
    where
      next : (o : Option Tables) → execute uuid s now t ≡ o → P (or_same t o)
      next none e = p
      next (some t') e = keep s now t t' a.0 e p

  unfoldable pub replay : List (Statement × ℕ) → View → View
  replay [] v = v
  replay ((s, now) ∷ rest) v = replay rest (or_same v (effect s now v))

  view-or_same :
      (t : Tables) (o : Option Tables) → view (or_same t o) ≡ or_same (view t) (view_of o)
  view-or_same t none = refl
  view-or_same t (some t') = refl

  -- After any sequence of statements, whether or not Postgres refuses some, the tables read as the
  -- replay of their effects on the functions that they were.
  pub run_statements_refines :
      (ops : List (Statement × ℕ)) (t : Tables) → view (run_statements ops t) ≡ replay ops (view t)
  unfolding run_statements replay
  run_statements_refines [] t = refl
  run_statements_refines ((s, now) ∷ rest) t =
      run_statements_refines rest (or_same t (execute uuid s now t))
      ∙ ap (replay rest)
          (view-or_same t (execute uuid s now t) ∙ ap (or_same (view t)) (execute-view s now t))
