-- ===== src/Gateway/Listing/Samples.antt =====
-- The listing at concrete tables.
use mathlib.Core.List.{Perm}
use media_forge.Prelude.{ℕ, ◌≡◌, refl, Option, some, [], ◌∷◌, ◌++◌, pos, map, arith}
use media_forge.Text.{Text, codes, ◌==◌, is_space, trim_left, trim_right, trim_space}
use media_forge.Database.{JobRow, ArtifactRow, Tables, job_row, find_job, find_artifact}
use media_forge.Database.Integrity.{IsWellFormed}
use media_forge.Strconv.{atoi, digits}
use media_forge.Gateway.Form.{form_int}
use media_forge.Gateway.Listing.{
  Item, thumbnails, join, text_le, comes_first, insert_item, sort, rows, list_jobs, handle_list,
}
use media_forge.Gateway.Listing.Order.{NewestFirst}
use media_forge.Gateway.Listing.Page.{walk, walk-all, Listed, handle_list-Listed, list_jobs-total}

listing : Unit {0}
unfolding codes ◌==◌ is_space trim_left trim_right trim_space find_job find_artifact atoi digits
    form_int thumbnails join text_le comes_first insert_item sort rows list_jobs handle_list
listing = tt

abbrev job_at : Text → ℕ → JobRow
job_at id now =
    job_row id
      (record {
        id = id;
        kind = codes "image";
        status = codes "pending";
        source_key = [];
        source_mime = [];
        size_bytes = pos 0;
        operations = [];
      })
      now

abbrev thumbnail : ArtifactRow
thumbnail = record {
  job_id = codes "b";
  name = codes "thumbnail";
  object_key = codes "k";
  content_type = codes "image/png";
  size_bytes = pos 1;
  metadata = [];
  created_at = 9;
}

abbrev tables : Tables
tables = record {
  jobs = job_at (codes "a") 1 ∷ job_at (codes "c") 2 ∷ job_at (codes "b") 2 ∷ [];
  artifacts = thumbnail ∷ [];
}

tables-IsWellFormed : IsWellFormed tables
unfolding listing
tables-IsWellFormed = record {
  unique_ids = (refl, (refl, (refl, tt)));
  unique_names = (refl, tt);
  referenced = ((λ e. cc), tt);
}

abbrev presign : Text → Option Text
presign key = some (codes "http:" ++ key)

-- The second page of two, and one past the last: the total stays.
pages :
    (list_jobs (some tables) (some tables) (pos 2) (pos 2)
      ≡ some (record { job = job_at (codes "a") 1; thumb_key = [] } ∷ [], 3))
    × (list_jobs (some tables) (some tables) (pos 2) (pos 7) ≡ some ([], 3))
    × (list_jobs (some tables) (some tables) (pos 1) (pos 0)
        ≡ some (record { job = job_at (codes "b") 2; thumb_key = codes "k" } ∷ [], 3))
unfolding listing
pages = (refl, refl, refl)

list_jobs-total_example : list_jobs (some tables) (some tables) (pos 2) (pos 7) ≡ some ([], 3)
unfolding listing
list_jobs-total_example = list_jobs-total tables 1 7 tables-IsWellFormed

walk-all_example :
    Perm (map (λ (x : Item). x.job) (walk tables 2 2 0)) tables.jobs
    × NewestFirst (walk tables 2 2 0)
walk-all_example = walk-all tables 1 2 tables-IsWellFormed (omega arith)

handle_list-Listed_example :
    Listed presign tables tables-IsWellFormed
      (handle_list presign (λ key. codes "500") (some tables) (some tables))
handle_list-Listed_example =
    handle_list-Listed presign tables tables-IsWellFormed (λ key. codes "500")
