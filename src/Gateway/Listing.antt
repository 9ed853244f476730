-- ===== src/Gateway/Listing.antt =====
-- `ListJobs` of services/api-gateway/internal/store/postgres.go and `handleList` of
-- services/api-gateway/internal/httpapi/handlers.go. A query sees the tables, or fails: `none` stands
-- for a query that fails, here and for `PresignedGet`.
pub mod Order
pub mod Total
pub mod Page
mod Samples
use media_forge.Prelude.{
  ℕ, zero, suc, Bool, true, false, ◌&&◌, Option, none, some, List, [], ◌∷◌, ◌++◌, ℤ, pos, negsuc,
  length, take, drop, map, ltb, eqb, if◌then◌else◌,
}
use media_forge.Text.{Text, codes, ◌==◌, is_empty}
use media_forge.Database.{JobRow, ArtifactRow, Tables}
use media_forge.Gateway.Form.{form_int, limit_of, offset_of}

-- A row of the join, and `JobListItem`: the key is empty where a job has no thumbnail.
pub record Item : Type 0 where
  pub job : JobRow
  pub thumb_key : Text

unfoldable pub thumbnails : Text → List ArtifactRow → List Text
thumbnails id [] = []
thumbnails id (a ∷ rest) =
    let keys = thumbnails id rest in
    if a.job_id == id && a.name == codes "thumbnail" then a.object_key ∷ keys else keys

-- `LEFT JOIN artifacts` of one job, with the key of no artifact made empty.
abbrev pub join_row : JobRow → List Text → List Item
join_row j [] = record { job = j; thumb_key = [] } ∷ []
join_row j (k ∷ ks) = map (λ key. record { job = j; thumb_key = key }) (k ∷ ks)

unfoldable pub join : List JobRow → List ArtifactRow → List Item
join [] artifacts = []
join (j ∷ js) artifacts = join_row j (thumbnails j.id artifacts) ++ join js artifacts

-- The order of UUIDs, which is that of their texts.
unfoldable pub text_le : Text → Text → Bool
text_le [] t = true
text_le (c ∷ s) [] = false
text_le (c ∷ s) (d ∷ t) = if eqb c d then text_le s t else ltb c d

-- `ORDER BY j.created_at DESC, j.id`
unfoldable pub comes_first : Item → Item → Bool
comes_first x y =
    if eqb x.job.created_at y.job.created_at
    then text_le x.job.id y.job.id
    else ltb y.job.created_at x.job.created_at

unfoldable pub insert_item : Item → List Item → List Item
insert_item x [] = x ∷ []
insert_item x (y ∷ ys) =
    let rest = insert_item x ys in if comes_first x y then x ∷ (y ∷ ys) else y ∷ rest

unfoldable pub sort : List Item → List Item
sort [] = []
sort (x ∷ xs) = insert_item x (sort xs)

-- All the rows of the query, before LIMIT and OFFSET.
unfoldable pub rows : Tables → List Item
rows t = sort (join t.jobs t.artifacts)

-- The page of the query; the total is the window count of a row of the page, if there is one.
abbrev pub counted : List Item → ℕ → ℕ
counted [] n = 0
counted (x ∷ xs) n = n

abbrev pub fall_back : List Item → ℕ → ℕ → Option Tables → Option (List Item × ℕ)
fall_back [] zero n t = some ([], n)
fall_back [] (suc offset) n none = none
fall_back [] (suc offset) n (some t) = some ([], length t.jobs)
fall_back (x ∷ xs) offset n t = some (x ∷ xs, n)

abbrev pub list_page : ℕ → ℕ → Tables → Option Tables → Option (List Item × ℕ)
list_page limit offset t later =
    let items = take limit (drop offset (rows t)) in
    fall_back items offset (counted items (length (rows t))) later

-- `ListJobs`: `now` is what the page's query sees and `later` what the count after it sees. Postgres
-- refuses a LIMIT or OFFSET below 0.
unfoldable pub list_jobs : Option Tables → Option Tables → ℤ → ℤ → Option (List Item × ℕ)
list_jobs none later limit offset = none
list_jobs (some t) later (negsuc n) offset = none
list_jobs (some t) later (pos limit) (negsuc n) = none
list_jobs (some t) later (pos limit) (pos offset) = list_page limit offset t later

pub record OutJob : Type 0 where
  pub job : JobRow
  pub thumb_url : Text

pub data ListResponse : Type 0 where
  -- status 500
  failed : ListResponse
  -- status 200, with the jobs, the total, the limit and the offset
  listed : List OutJob → ℕ → ℤ → ℤ → ListResponse

module _ (presign : Text → Option Text) where
  abbrev pub url_or_empty : Option Text → Text
  url_or_empty none = []
  url_or_empty (some url) = url

  abbrev pub out_job : Item → OutJob
  out_job it = record {
    job = it.job;
    thumb_url = if is_empty it.thumb_key then [] else url_or_empty (presign it.thumb_key);
  }

  abbrev pub list_response : ℤ → ℤ → Option (List Item × ℕ) → ListResponse
  list_response limit offset none = failed
  list_response limit offset (some (items, total)) = listed (map out_job items) total limit offset

  -- `value` is `FormValue` of the query.
  unfoldable pub handle_list : (Text → Text) → Option Tables → Option Tables → ListResponse
  handle_list value now later =
      let limit = limit_of (form_int (value (codes "limit"))) in
      let offset = offset_of (form_int (value (codes "offset"))) in
      list_response limit offset (list_jobs now later limit offset)
