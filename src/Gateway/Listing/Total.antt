-- ===== src/Gateway/Listing/Total.antt =====
-- The rows of the listing of services/api-gateway/internal/store/postgres.go are one for each job,
-- and the total is their number.
use mathlib.Core.List.{Perm, map-append}
use mathlib.Core.List.Perm
use media_forge.Prelude.{
  ◌≤◌, ◌≡◌, inl, inr, refl, sym, ap, ◌∙◌, ◌&&◌, none, List, [], ◌∷◌, map, length, length-map, arith,
  Bool-cases,
}
use media_forge.Text.{Text, codes, ◌==◌}
use media_forge.Text.Equality.{eq_iff}
use media_forge.Database.{JobRow, ArtifactRow, Tables, find_artifact}
use media_forge.Database.Integrity.{IsWellFormed, UniqueNames}
use media_forge.Gateway.Listing.{Item, thumbnails, join_row, join, rows}
use media_forge.Gateway.Listing.Order.{Sorted, sort-Sorted, sort-Perm, length-sort}

thumbnails-none :
    (id : Text) (rest : List ArtifactRow)
    → find_artifact id (codes "thumbnail") rest ≡ none
    → thumbnails id rest ≡ []
unfolding thumbnails find_artifact
thumbnails-none id [] h = refl
thumbnails-none id (a ∷ rest) h = ground (arith, h, thumbnails-none id rest)

-- A job has one thumbnail at most.
thumbnails-length :
    (id : Text) (rest : List ArtifactRow) → UniqueNames rest → length (thumbnails id rest) ≤ 1
unfolding thumbnails
thumbnails-length id [] h = ground arith
thumbnails-length id (a ∷ rest) h =
    elim (Bool-cases (a.job_id == id && a.name == codes "thumbnail")) [
      | inl e ↦
          let same_id : a.job_id ≡ id = (eq_iff a.job_id id).0 (ground (arith, e)) in
          let same_name : a.name ≡ codes "thumbnail" =
            (eq_iff a.name (codes "thumbnail")).0 (ground (arith, e)) in
          let gone : thumbnails id rest ≡ [] =
            thumbnails-none id rest (rw (← same_id, ← same_name) h.0) in
          rw (e, gone) (ground arith)
      | inr e ↦ rw e (thumbnails-length id rest h.1)
    ]

join_row-jobs :
    (j : JobRow) (keys : List Text)
    → length keys ≤ 1
    → map (λ (x : Item). x.job) (join_row j keys) ≡ j ∷ []
join_row-jobs j [] h = refl
join_row-jobs j (k ∷ []) h = refl
join_row-jobs j (k ∷ l ∷ keys) h = absurd (omega (arith, h))

join-jobs :
    (js : List JobRow) (rest : List ArtifactRow)
    → UniqueNames rest
    → map (λ (x : Item). x.job) (join js rest) ≡ js
unfolding join
join-jobs [] rest h = refl
join-jobs (j ∷ js) rest h =
    map-append _ (join_row j (thumbnails j.id rest)) (join js rest)
    ∙ rw
        (
          join_row-jobs j (thumbnails j.id rest) (thumbnails-length j.id rest h),
          join-jobs js rest h,
        )
        refl

-- The jobs of the rows are the jobs of the table, each as often.
pub rows-jobs : (t : Tables) → IsWellFormed t → Perm (map (λ (x : Item). x.job) (rows t)) t.jobs
unfolding rows
rows-jobs t h =
    rw (join-jobs t.jobs t.artifacts h.unique_names) at
      (Perm.map (λ (x : Item). x.job) (sort-Perm (join t.jobs t.artifacts)))

pub length-rows : (t : Tables) → IsWellFormed t → length (rows t) ≡ length t.jobs
unfolding rows
length-rows t h =
    length-sort (join t.jobs t.artifacts)
    ∙ (sym (length-map (λ (x : Item). x.job) (join t.jobs t.artifacts))
        ∙ ap length (join-jobs t.jobs t.artifacts h.unique_names))

pub rows-Sorted : (t : Tables) → Sorted (rows t)
unfolding rows
rows-Sorted t = sort-Sorted (join t.jobs t.artifacts)
