-- ===== src/Gateway/Status/Page.antt =====
-- Every answer of `handleStatus` of services/api-gateway/internal/httpapi/handlers.go, by what the two
-- queries of `GetJob` of services/api-gateway/internal/store/postgres.go see.
use mathlib.Core.List.{Perm}
use media_forge.Prelude.{
  ◌≡◌, ◌≢◌, ◌≤◌, inl, inr, refl, Bool, true, false, Option, none, some, List, [], ◌∷◌, map, leb,
  Bool-cases, All, All-map, arith,
}
use media_forge.Text.{Text, ◌==◌}
use media_forge.Text.Equality.{eq_iff}
use media_forge.Database.{JobRow, ArtifactRow, Tables, find_job}
use media_forge.Gateway.Status.{
  artifacts_of, insert_artifact_row, by_time, without_error, with_job, get_job, url_of, OutArtifact,
  out_artifact, status_response, StatusResponse, found, missing, invalid_id, failed, handle_status,
}
use media_forge.Gateway.Status.Answer.{by_time-Perm}

-- The rows that are artifacts of the job `u`, in the order of the table
pub data Selection (u : Text) : List ArtifactRow → List ArtifactRow → Type 0 where
  nothing : Selection u [] []
  takes :
      (a : ArtifactRow) (rows chosen : List ArtifactRow)
      → a.job_id ≡ u
      → Selection u rows chosen
      → Selection u (a ∷ rows) (a ∷ chosen)
  leaves :
      (a : ArtifactRow) (rows chosen : List ArtifactRow)
      → a.job_id ≢ u
      → Selection u rows chosen
      → Selection u (a ∷ rows) chosen

abbrev pub OldestFirst : List ArtifactRow → Type 0
OldestFirst [] = Unit
OldestFirst (a ∷ l) = All (λ (b : ArtifactRow). a.created_at ≤ b.created_at) l × OldestFirst l

-- The link of an item, where there is one
pub data HasLink : Option Text → Text → Type 0 where
  linked : (url : Text) → HasLink (some url) url
  no_link : HasLink none []

artifacts_of-Selection :
    (u : Text) (rows : List ArtifactRow) → Selection u rows (artifacts_of u rows)
unfolding artifacts_of
artifacts_of-Selection u [] = nothing
artifacts_of-Selection u (a ∷ rows) = elim (Bool-cases (a.job_id == u)) [
  | inl e ↦ rw e (takes a rows _ ((eq_iff a.job_id u).0 e) (artifacts_of-Selection u rows))
  | inr e ↦
      rw e (leaves a rows _ (ground (arith, e, eq_iff a.job_id u)) (artifacts_of-Selection u rows))
]

All-insert_artifact_row :
    (P : ArtifactRow → Type 0) (a : ArtifactRow) (l : List ArtifactRow)
    → P a
    → All P l
    → All P (insert_artifact_row a l)
unfolding insert_artifact_row
All-insert_artifact_row P a [] h k = (h, tt)
All-insert_artifact_row P a (b ∷ l) h k = elim (Bool-cases (leb a.created_at b.created_at)) [
  | inl e ↦ rw e (h, k)
  | inr e ↦ rw e (k.0, All-insert_artifact_row P a l h k.1)
]

insert_artifact_row-OldestFirst :
    (a : ArtifactRow) (l : List ArtifactRow) → OldestFirst l → OldestFirst (insert_artifact_row a l)
unfolding insert_artifact_row
insert_artifact_row-OldestFirst a [] h = (tt, tt)
insert_artifact_row-OldestFirst a (b ∷ l) h = elim (Bool-cases (leb a.created_at b.created_at)) [
  | inl e ↦
      let first : a.created_at ≤ b.created_at = ground (arith, e) in
      rw e ((first, All-map _ _ l (λ c k. omega (arith, first, k)) h.0), h)
  | inr e ↦ rw e (
    All-insert_artifact_row (λ (c : ArtifactRow). b.created_at ≤ c.created_at) a l
        (ground (arith, e)) h.0,
    insert_artifact_row-OldestFirst a l h.1,
  )
]

by_time-OldestFirst : (l : List ArtifactRow) → OldestFirst (by_time l)
unfolding by_time
by_time-OldestFirst [] = tt
by_time-OldestFirst (a ∷ l) = insert_artifact_row-OldestFirst a (by_time l) (by_time-OldestFirst l)

module _ (is_uuid : Text → Bool) (uuid : Text → Option Text) (presign : Text → Option Text) where
  -- The items are the rows, each with its link.
  abbrev pub Items : List ArtifactRow → List OutArtifact → Type 0
  Items [] [] = Unit
  Items [] (i ∷ items) = ⊥
  Items (a ∷ rows) [] = ⊥
  Items (a ∷ rows) (i ∷ items) =
      (i.artifact ≡ a) × HasLink (presign a.object_key) i.url × Items rows items

  -- The items are those of the rows of the job, once each, and the oldest first.
  pub record IsPage (u : Text) (rows : List ArtifactRow) (items : List OutArtifact) : Type 0 where
    pub chosen : List ArtifactRow
    pub selection : Selection u rows chosen
    pub ordered : List ArtifactRow
    pub each_once : Perm ordered chosen
    pub oldest_first : OldestFirst ordered
    pub shown : Items ordered items

  -- How an answer comes about: `now` and `later` are what the two queries see, if they succeed.
  pub data Answers (id : Text) (now later : Option Tables) : StatusResponse → Type 0 where
    no_uuid : is_uuid id ≡ false → Answers id now later invalid_id
    no_row :
        (u : Text) (t : Tables)
        → is_uuid id ≡ true
        → uuid id ≡ some u
        → now ≡ some t
        → find_job u t.jobs ≡ none
        → Answers id now later missing
    -- The first query fails, also where Postgres does not take the id, or the second one does.
    first_fails : is_uuid id ≡ true → now ≡ none → Answers id now later failed
    id_fails : is_uuid id ≡ true → uuid id ≡ none → Answers id now later failed
    second_fails :
        (u : Text) (t : Tables)
        → is_uuid id ≡ true
        → uuid id ≡ some u
        → now ≡ some t
        → find_job u t.jobs ≢ none
        → later ≡ none
        → Answers id now later failed
    has_row :
        (u : Text) (t t' : Tables) (row : JobRow) (items : List OutArtifact)
        → is_uuid id ≡ true
        → uuid id ≡ some u
        → now ≡ some t
        → find_job u t.jobs ≡ some row
        → later ≡ some t'
        → IsPage u t'.artifacts items
        → Answers id now later (found (without_error row) items)

  map-Items : (rows : List ArtifactRow) → Items rows (map (out_artifact is_uuid uuid presign) rows)
  map-Items [] = tt
  map-Items (a ∷ rows) = (refl, url_of-HasLink (presign a.object_key), map-Items rows)
    where
      url_of-HasLink : (o : Option Text) → HasLink o (url_of is_uuid uuid presign o)
      url_of-HasLink none = no_link
      url_of-HasLink (some url) = linked url

  with_job-Answers :
      (id u : Text) (t : Tables) (later : Option Tables) (o : Option JobRow)
      → is_uuid id ≡ true
      → uuid id ≡ some u
      → find_job u t.jobs ≡ o
      → Answers id (some t) later (status_response is_uuid uuid presign (with_job u o later))
  with_job-Answers id u t later none valid known e = no_row u t valid known refl e
  with_job-Answers id u t none (some row) valid known e =
      second_fails u t valid known refl (λ k. cc) refl
  with_job-Answers id u t (some t') (some row) valid known e =
      has_row u t t' row _ valid known refl e refl (record {
        chosen = artifacts_of u t'.artifacts;
        selection = artifacts_of-Selection u t'.artifacts;
        ordered = by_time (artifacts_of u t'.artifacts);
        each_once = by_time-Perm (artifacts_of u t'.artifacts);
        oldest_first = by_time-OldestFirst (artifacts_of u t'.artifacts);
        shown = map-Items (by_time (artifacts_of u t'.artifacts));
      })

  get_job-Answers :
      (id : Text) (now later : Option Tables) (o : Option Text)
      → is_uuid id ≡ true
      → uuid id ≡ o
      → Answers id now later (status_response is_uuid uuid presign (get_job uuid id now later))
  unfolding get_job
  get_job-Answers id none later o valid known = first_fails valid refl
  get_job-Answers id (some t) later none valid known = rw known (id_fails valid known)
  get_job-Answers id (some t) later (some u) valid known =
      rw known (with_job-Answers id u t later _ valid known refl)

  -- Whatever the id is, and whatever the two queries see: 400 if the id is no UUID; 500 if a query
  -- fails; 404 if the job has no row; and otherwise 200, with its row, but for its error, and with
  -- those rows of the artifacts that are of the job, each once, the oldest first, and each with the
  -- link that the object store gives to its key, or with none.
  pub handle_status-Answers :
      (id : Text) (now later : Option Tables)
      → Answers id now later (handle_status is_uuid uuid presign id now later)
  unfolding handle_status
  handle_status-Answers id now later = elim (Bool-cases (is_uuid id)) [
    | inl valid ↦ rw valid (get_job-Answers id now later _ valid refl)
    | inr invalid ↦ rw invalid (no_uuid invalid)
  ]
