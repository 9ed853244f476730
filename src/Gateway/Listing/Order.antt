-- ===== src/Gateway/Listing/Order.antt =====
-- The order of the listing of services/api-gateway/internal/store/postgres.go.
use mathlib.Core.List.{Perm}
use mathlib.Core.List.Perm
use media_forge.Prelude.{
  suc, ◌≡◌, ◌⊎◌, inl, inr, refl, ap, ◌∙◌, true, List, [], ◌∷◌, All, All-map, length, eqb, ◌<◌,
  arith, Bool-cases,
}
use media_forge.Text.{Text}
use media_forge.Gateway.Listing.{Item, text_le, comes_first, insert_item, sort}

text_le_total : (s t : Text) → (text_le s t ≡ true) ⊎ (text_le t s ≡ true)
unfolding text_le
text_le_total [] t = inl refl
text_le_total (c ∷ s) [] = inr refl
text_le_total (c ∷ s) (d ∷ t) = ground (arith, text_le_total s t)

text_le_trans : (s t u : Text) → text_le s t ≡ true → text_le t u ≡ true → text_le s u ≡ true
unfolding text_le
text_le_trans [] t u h k = refl
text_le_trans (c ∷ s) (d ∷ t) (e ∷ u) h k = ground (arith, h, k, text_le_trans s t u)
text_le_trans (c ∷ s) [] u h k = absurd cc
text_le_trans (c ∷ s) (d ∷ t) [] h k = absurd cc

comes_first_total : (x y : Item) → (comes_first x y ≡ true) ⊎ (comes_first y x ≡ true)
unfolding comes_first
comes_first_total x y = ground (arith, text_le_total x.job.id y.job.id)

comes_first_trans :
    (x y z : Item) → comes_first x y ≡ true → comes_first y z ≡ true → comes_first x z ≡ true
unfolding comes_first
comes_first_trans x y z h k = ground (arith, h, k, text_le_trans x.job.id y.job.id z.job.id)

-- Newest first, and by the id where the times are the same.
abbrev pub Sorted : List Item → Type 0
Sorted [] = Unit
Sorted (x ∷ xs) = All (λ y. comes_first x y ≡ true) xs × Sorted xs

All-comes_first :
    (x y : Item) (l : List Item)
    → comes_first x y ≡ true
    → All (λ z. comes_first y z ≡ true) l
    → All (λ z. comes_first x z ≡ true) l
All-comes_first x y [] h k = tt
All-comes_first x y (z ∷ l) h k = (comes_first_trans x y z h k.0, All-comes_first x y l h k.1)

All-insert_item :
    (x y : Item) (l : List Item)
    → comes_first x y ≡ true
    → All (λ z. comes_first x z ≡ true) l
    → All (λ z. comes_first x z ≡ true) (insert_item y l)
unfolding insert_item
All-insert_item x y [] h k = (h, tt)
All-insert_item x y (z ∷ l) h k = elim (Bool-cases (comes_first y z)) [
  | inl e ↦ rw e (h, k)
  | inr e ↦ rw e (k.0, All-insert_item x y l h k.1)
]

insert_item-Sorted : (x : Item) (l : List Item) → Sorted l → Sorted (insert_item x l)
unfolding insert_item
insert_item-Sorted x [] h = (tt, tt)
insert_item-Sorted x (y ∷ l) h = elim (Bool-cases (comes_first x y)) [
  | inl e ↦ rw e ((e, All-comes_first x y l e h.0), h)
  | inr e ↦ rw e (
    All-insert_item y x l (ground (arith, e, comes_first_total x y)) h.0,
    insert_item-Sorted x l h.1,
  )
]

pub sort-Sorted : (l : List Item) → Sorted (sort l)
unfolding sort
sort-Sorted [] = tt
sort-Sorted (x ∷ l) = insert_item-Sorted x (sort l) (sort-Sorted l)

-- A newer job stands before an older one, and the ids decide where the times are the same.
abbrev pub Precedes : Item → Item → Type 0
Precedes x y =
    (y.job.created_at < x.job.created_at)
    ⊎ ((y.job.created_at ≡ x.job.created_at) × (text_le x.job.id y.job.id ≡ true))

abbrev pub NewestFirst : List Item → Type 0
NewestFirst [] = Unit
NewestFirst (x ∷ xs) = All (Precedes x) xs × NewestFirst xs

comes_first-Precedes : (x y : Item) → comes_first x y ≡ true → Precedes x y
unfolding comes_first
comes_first-Precedes x y e = elim (Bool-cases (eqb x.job.created_at y.job.created_at)) [
  | inl same ↦ inr (ground (arith, same), rw same at e)
  | inr other ↦ inl (ground (arith, e, other))
]

pub Sorted-NewestFirst : (l : List Item) → Sorted l → NewestFirst l
Sorted-NewestFirst [] h = tt
Sorted-NewestFirst (x ∷ l) h = (
  All-map (λ y. comes_first x y ≡ true) (Precedes x) l (λ y. comes_first-Precedes x y) h.0,
  Sorted-NewestFirst l h.1,
)

insert_item-Perm : (x : Item) (l : List Item) → Perm (insert_item x l) (x ∷ l)
unfolding insert_item
insert_item-Perm x [] = Perm.refl (x ∷ [])
insert_item-Perm x (y ∷ l) = elim (Bool-cases (comes_first x y)) [
  | inl e ↦ rw e (Perm.refl (x ∷ y ∷ l))
  | inr e ↦ rw e (Perm.trans (Perm.cons y (insert_item-Perm x l)) (Perm.swap x y l))
]

pub sort-Perm : (l : List Item) → Perm (sort l) l
unfolding sort
sort-Perm [] = Perm.refl []
sort-Perm (x ∷ l) = Perm.trans (insert_item-Perm x (sort l)) (Perm.cons x (sort-Perm l))

insert_item-length : (x : Item) (l : List Item) → length (insert_item x l) ≡ suc (length l)
unfolding insert_item
insert_item-length x [] = refl
insert_item-length x (y ∷ l) = ground (arith, insert_item-length x l)

pub length-sort : (l : List Item) → length (sort l) ≡ length l
unfolding sort
length-sort [] = refl
length-sort (x ∷ l) = insert_item-length x (sort l) ∙ ap suc (length-sort l)
