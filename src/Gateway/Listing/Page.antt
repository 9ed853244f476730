-- ===== src/Gateway/Listing/Page.antt =====
-- What the pages of services/api-gateway/internal/store/postgres.go and of `handleList` in
-- services/api-gateway/internal/httpapi/handlers.go hold.
use mathlib.Core.List.{Perm}
use media_forge.Prelude.{
  ℕ, zero, suc, ◌+◌, ◌*◌, ◌≤◌, ◌≡◌, refl, sym, ap, ◌∙◌, true, Option, none, some, List, [], ◌∷◌,
  ◌++◌, ℤ, pos, negsuc, leℤ, map, length, take, drop, length-take, length-map, take-append-drop,
  take_nil, drop-drop, drop_all, arith,
}
use media_forge.Text.{Text, codes}
use media_forge.Database.{Tables}
use media_forge.Database.Integrity.{IsWellFormed}
use media_forge.Gateway.Form.{form_int, limit_of, offset_of}
use media_forge.Gateway.Form.Numbers.{limit_of-bounds, offset_of-bounds}
use media_forge.Gateway.Listing.{
  Item, rows, counted, fall_back, list_jobs, OutJob, ListResponse, failed, listed, list_response,
  handle_list, out_job,
}
use media_forge.Gateway.Listing.Order.{NewestFirst, Sorted-NewestFirst}
use media_forge.Gateway.Listing.Total.{rows-jobs, length-rows, rows-Sorted}

fall_back-total :
    (items : List Item) (offset n : ℕ) (t : Tables)
    → n ≡ length t.jobs
    → (offset ≡ 0 → items ≡ [] → length t.jobs ≡ 0)
    → fall_back items offset (counted items n) (some t) ≡ some (items, length t.jobs)
fall_back-total [] zero n t e h = ap (λ (k : ℕ). some ([], k)) (sym (h refl refl))
fall_back-total [] (suc offset) n t e h = refl
fall_back-total (x ∷ items) offset n t e h = ap (λ (k : ℕ). some (x ∷ items, k)) e

-- On well-formed tables, which both queries see, a page of a positive limit holds the rows from the
-- offset on, as many as the limit allows, and its total is the number of jobs, also where the offset
-- is past the last of them.
pub list_jobs-total :
    (t : Tables) (limit offset : ℕ)
    → IsWellFormed t
    → list_jobs (some t) (some t) (pos (suc limit)) (pos offset)
      ≡ some (take (suc limit) (drop offset (rows t)), length t.jobs)
unfolding list_jobs
list_jobs-total t limit offset h =
    fall_back-total (take (suc limit) (drop offset (rows t))) offset (length (rows t)) t
      (length-rows t h) (λ z e. sym (length-rows t h) ∙ take_nil limit (rows t) (rw z at e))

abbrev items_of : Option (List Item × ℕ) → List Item
items_of none = []
items_of (some (items, total)) = items

-- A client that asks for `n` pages one after the other, from an offset on.
abbrev pub walk : Tables → ℕ → ℕ → ℕ → List Item
walk t limit zero offset = []
walk t limit (suc n) offset =
    items_of (list_jobs (some t) (some t) (pos limit) (pos offset))
    ++ walk t limit n (offset + limit)

walk-rows :
    (t : Tables) (limit n offset : ℕ)
    → IsWellFormed t
    → length t.jobs ≤ offset + n * suc limit
    → walk t (suc limit) n offset ≡ drop offset (rows t)
walk-rows t limit zero offset h k =
    sym (drop_all offset (rows t) (omega (arith, k, length-rows t h)))
walk-rows t limit (suc n) offset h k =
    rw
      (
        list_jobs-total t limit offset h,
        walk-rows t limit n (offset + suc limit) h (omega (arith, k)),
        drop-drop offset (suc limit) (rows t),
      )
      (take-append-drop (suc limit) (drop offset (rows t)))

-- A client that walks over the pages of well-formed tables that do not change, until all are read,
-- gets every job of the table once, newest first, and by the id where the times are the same.
pub walk-all :
    (t : Tables) (limit n : ℕ)
    → IsWellFormed t
    → length t.jobs ≤ n * suc limit
    → Perm (map (λ (x : Item). x.job) (walk t (suc limit) n 0)) t.jobs
      × NewestFirst (walk t (suc limit) n 0)
walk-all t limit n h k =
    rw (walk-rows t limit n 0 h (omega (arith, k)))
      (rows-jobs t h, Sorted-NewestFirst (rows t) (rows-Sorted t))

-- What an answer to a listing holds: its limit and offset are in their bounds, it has no more jobs
-- than the limit, and its total is the number of all jobs.
pub record IsListing (t : Tables) (jobs : List OutJob) (count : ℕ) (limit offset : ℤ) : Type 0 where
  pub limit_bounds : (leℤ (pos 1) limit ≡ true) × (leℤ limit (pos 100) ≡ true)
  pub offset_bound : leℤ (pos 0) offset ≡ true
  pub size : leℤ (pos (length jobs)) limit ≡ true
  pub total : count ≡ length t.jobs

module _ (presign : Text → Option Text) (t : Tables) (h : IsWellFormed t) where
  abbrev pub Listed : ListResponse → Type 0
  Listed failed = ⊥
  Listed (listed jobs count limit offset) = IsListing t jobs count limit offset

  response-Listed :
      (limit offset : ℤ)
      → (leℤ (pos 1) limit ≡ true) × (leℤ limit (pos 100) ≡ true)
      → leℤ (pos 0) offset ≡ true
      → Listed (list_response presign limit offset (list_jobs (some t) (some t) limit offset))
  response-Listed (pos zero) offset b c = absurd (ground (arith, b.0))
  response-Listed (negsuc n) offset b c = absurd (ground (arith, b.0))
  response-Listed (pos (suc limit)) (negsuc n) b c = absurd (ground (arith, c))
  response-Listed (pos (suc limit)) (pos offset) b c =
      rw (list_jobs-total t limit offset h) (record {
        limit_bounds = b;
        offset_bound = c;
        size = ground (
          arith,
          length-map (out_job presign) (take (suc limit) (drop offset (rows t))),
          length-take (suc limit) (drop offset (rows t)),
        );
        total = refl;
      })

  -- A listing of well-formed tables, which both queries see, is answered with status 200, whatever the
  -- client asks for: the limit is between 1 and 100 and the offset not below 0, there are no more
  -- jobs than the limit, and the total is the number of all jobs.
  pub handle_list-Listed :
      (value : Text → Text) → Listed (handle_list presign value (some t) (some t))
  unfolding handle_list
  handle_list-Listed value =
      let limit = form_int (value (codes "limit")) in
      let offset = form_int (value (codes "offset")) in
      response-Listed (limit_of limit) (offset_of offset) (limit_of-bounds limit)
        (offset_of-bounds offset)
