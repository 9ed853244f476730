-- ===== src/Wire/Shown.antt =====
-- What services/worker-image/cmd/worker/main.go has stored, on the status page of
-- services/api-gateway/internal/httpapi/handlers.go.
use mathlib.Core.List.{Perm, Mem, mem-cons_self, mem-cons_of_mem, mem-map_of_mem}
use mathlib.Core.List.Perm
use media_forge.Prelude.{
  ◌≡◌, ◌≢◌, ◌⊎◌, inl, inr, refl, sym, ap, ◌∙◌, ◌&&◌, if◌then◌else◌, Bool, true, false, Option, none,
  some, List, [], ◌∷◌, ℤ, All, map,
}
use media_forge.Text.{Text, codes, ◌==◌}
use media_forge.Text.Equality.{eq_iff}
use media_forge.Errors.{ok}
use media_forge.Database.{JobRow, ArtifactRow, Tables, find_job, find_artifact}
use media_forge.Gateway.Status.{
  artifacts_of, OutArtifact, out_artifact, url_of, StatusResponse, found, missing, invalid_id,
  failed, without_error, handle_status,
}
use media_forge.Gateway.Status.Answer.{Shows, handle_status-Shows}
use media_forge.Worker.Consume.{Job}
use media_forge.Worker.Processor.{Bytes, Imaging, Options, Variant, process}
use media_forge.Worker.Services.{Services, World, get}
use media_forge.Worker.Handler.{artifact_key, processor_params, handle}
use media_forge.Worker.Handler.Success.{Stored, handle-IsCompleted}
use media_forge.Worker.Handler.Recorded.{IsCompleted, IsRecorded}

-- One row: `p` and `q` are the tests of its job and of its name.
kept-Mem :
    (name : Text) (b a : ArtifactRow) (o : Option ArtifactRow) (others : List ArtifactRow)
    (p q : Bool)
    → (q ≡ true → b.name ≡ name)
    → (o ≡ some a → Mem a others × (a.name ≡ name))
    → (if p && q then some b else o) ≡ some a
    → Mem a (if p then b ∷ others else others) × (a.name ≡ name)
kept-Mem name b a o others true true same later e =
    let eq : b ≡ a = cc in
    (rw (← eq) mem-cons_self, ap (λ (x : ArtifactRow). x.name) (sym eq) ∙ same refl)
kept-Mem name b a o others true false same later e =
    let (m, n) = later e in (mem-cons_of_mem b m, n)
kept-Mem name b a o others false q same later e = later e

find_artifact-Mem :
    (u name : Text) (l : List ArtifactRow) (a : ArtifactRow)
    → find_artifact u name l ≡ some a
    → Mem a (artifacts_of u l) × (a.name ≡ name)
unfolding find_artifact artifacts_of
find_artifact-Mem u name [] a e = absurd cc
find_artifact-Mem u name (b ∷ l) a e =
    kept-Mem name b a (find_artifact u name l) (artifacts_of u l) (b.job_id == u) (b.name == name)
      (eq_iff b.name name).0 (find_artifact-Mem u name l a) e

module _ (S : Services) (I : Imaging) (options : Options) (job : Job) (u : Text)
    (known : S.uuid job.id ≡ some u) (is_uuid : Text → Bool) (presign : Text → Option Text) where
  open S use {Outside}

  -- The artifact of a variant, with its name, its key, its content type and a link to it.
  pub record IsLinked (artifacts : List OutArtifact) (v : Variant) : Type 0 where
    pub item : OutArtifact
    pub listed : Mem item artifacts
    pub name : item.artifact.name ≡ v.name
    pub object_key : item.artifact.object_key ≡ artifact_key job v
    pub content_type : item.artifact.content_type ≡ v.content_type
    pub url : item.url ≡ url_of is_uuid S.uuid presign (presign (artifact_key job v))

  -- The object of the source was read, and every variant that came of it is on the page.
  pub record HasVariants (artifacts : List OutArtifact) : Type 0 where
    pub source : Bytes
    pub reading : World Outside
    pub read : (get S job.source_key reading).0 ≡ ok source
    pub variants : List Variant
    pub made : process I options source job.operations (processor_params job) ≡ ok variants
    pub linked : All (IsLinked artifacts) variants

  pub record IsShown (before : Tables) (page : StatusResponse) : Type 0 where
    pub row : JobRow
    pub artifacts : List OutArtifact
    pub is_found : page ≡ found row artifacts
    pub completed : row.status ≡ codes "completed"
    pub worked : IsCompleted u before ⊎ HasVariants artifacts

  recorded-IsLinked :
      (t : Tables) (artifacts : List OutArtifact) (v : Variant)
      → Perm artifacts (map (out_artifact is_uuid S.uuid presign) (artifacts_of u t.artifacts))
      → IsRecorded job u t v
      → IsLinked artifacts v
  recorded-IsLinked t artifacts v p r =
      let (m, n) = find_artifact-Mem u v.name t.artifacts r.row r.found in
      record {
        item = out_artifact is_uuid S.uuid presign r.row;
        listed = (Perm.mem_iff p).1 (mem-map_of_mem (out_artifact is_uuid S.uuid presign) m);
        name = n;
        object_key = r.object_key;
        content_type = r.content_type;
        url = ap (λ key. url_of is_uuid S.uuid presign (presign key)) r.object_key;
      }

  all-IsLinked :
      (t : Tables) (artifacts : List OutArtifact) (vs : List Variant)
      → Perm artifacts (map (out_artifact is_uuid S.uuid presign) (artifacts_of u t.artifacts))
      → All (IsRecorded job u t) vs
      → All (IsLinked artifacts) vs
  all-IsLinked t artifacts [] p r = tt
  all-IsLinked t artifacts (v ∷ vs) p r =
      (recorded-IsLinked t artifacts v p r.0, all-IsLinked t artifacts vs p r.1)

  page-IsShown :
      (before t : Tables) (page : StatusResponse)
      → Shows is_uuid S.uuid presign u t page
      → IsCompleted u t
      → IsCompleted u before ⊎ Stored S I options job u known t
      → IsShown before page
  page-IsShown before t missing h (row, here, done) o = absurd cc
  page-IsShown before t invalid_id h c o = absurd h
  page-IsShown before t failed h c o = absurd h
  page-IsShown before t (found j artifacts) ((other, is, same), p) (row, here, done) o =
      let one : other ≡ row = cc in
      record {
        row = j;
        artifacts = artifacts;
        is_found = refl;
        completed = ap (λ (x : JobRow). x.status) (same ∙ ap without_error one) ∙ done;
        worked = elim o [
          | inl old ↦ inl old
          | inr s ↦ inr (record {
            source = s.source;
            reading = s.before;
            read = s.read;
            variants = s.variants;
            made = s.made;
            linked = all-IsLinked t artifacts s.variants p s.recorded;
          })
        ];
      }

  -- Once the worker's handler has returned no error, the status page of the job, where both queries
  -- of it see the tables that the handler has left, has status 200 and a completed row; and the job
  -- was completed before, or an object was read under its source key, and the page has, for every
  -- variant that came of it, an artifact with its name, its key, its content type and a link to it.
  pub handle-IsShown :
      (attempt : ℤ) (w : World Outside)
      → is_uuid job.id ≡ true
      → find_job u w.tables.jobs ≢ none
      → (handle S I options job attempt w).0 ≡ none
      → IsShown w.tables (
          handle_status is_uuid S.uuid presign job.id
            (some (handle S I options job attempt w).1.tables)
            (some (handle S I options job attempt w).1.tables))
  handle-IsShown attempt w valid here e =
      let (done, worked) = handle-IsCompleted S I options job u known attempt w here e in
      page-IsShown w.tables (handle S I options job attempt w).1.tables _
        (handle_status-Shows is_uuid S.uuid presign job.id u _ valid known) done worked
