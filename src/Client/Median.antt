-- ===== src/Client/Median.antt =====
-- The sorted copy of the offset buffer, and the offset that is taken from it.
use snapcast_client.Prelude.{
  ℕ, zero, suc, ◌≤◌, ◌<◌, ◌≡◌, refl, ap, ◌∙◌, arith, true, Bool-cases, inl, inr, some, List, [],
  ◌∷◌, ◌++◌, length, drop, get_elem?, get_or, All,
}
use mathlib.Core.List.{Perm}
use mathlib.Core.List.Perm
use snapcast_client.Outcome.{ok}
use snapcast_client.TimeVal.{TimeVal, leb_tv, tv_zero}
use snapcast_client.TimeVal.Order.{leb_tv_total, leb_tv_trans}
use snapcast_client.Client.Offsets.{overwrite, insert, sort}

-- Each item is at most those behind it.
abbrev pub IsSorted : List TimeVal → Type 0
IsSorted [] = Unit
IsSorted (x ∷ xs) = All (λ y. leb_tv x y ≡ true) xs × IsSorted xs

All-insert {κ} :
    (P : TimeVal → Type κ) (x : TimeVal) (ys : List TimeVal) → P x → All P ys → All P (insert x ys)
unfolding insert
All-insert P x [] h k = (h, tt)
All-insert P x (y ∷ ys) h k = elim (Bool-cases (leb_tv x y)) [
  | inl below ↦ rw below (h, k)
  | inr above ↦ rw above (k.0, All-insert P x ys h k.1)
]

All-trans :
    (x y : TimeVal) (ys : List TimeVal)
    → leb_tv x y ≡ true
    → All (λ z. leb_tv y z ≡ true) ys
    → All (λ z. leb_tv x z ≡ true) ys
All-trans x y [] h k = tt
All-trans x y (z ∷ ys) h k = (leb_tv_trans x y z h k.0, All-trans x y ys h k.1)

insert-IsSorted : (x : TimeVal) (ys : List TimeVal) → IsSorted ys → IsSorted (insert x ys)
unfolding insert
insert-IsSorted x [] h = (tt, tt)
insert-IsSorted x (y ∷ ys) h = elim (Bool-cases (leb_tv x y)) [
  | inl below ↦ rw below ((below, All-trans x y ys below h.0), h)
  | inr above ↦ rw above (
    All-insert (λ z. leb_tv y z ≡ true) x ys (leb_tv_total x y above) h.0,
    insert-IsSorted x ys h.1,
  )
]

pub sort-IsSorted : (xs : List TimeVal) → IsSorted (sort xs)
unfolding sort
sort-IsSorted [] = tt
sort-IsSorted (x ∷ xs) = insert-IsSorted x (sort xs) (sort-IsSorted xs)

insert-perm : (x : TimeVal) (ys : List TimeVal) → Perm (insert x ys) (x ∷ ys)
unfolding insert
insert-perm x [] = Perm.refl (x ∷ [])
insert-perm x (y ∷ ys) = elim (Bool-cases (leb_tv x y)) [
  | inl below ↦ rw below (Perm.refl (x ∷ y ∷ ys))
  | inr above ↦ rw above (Perm.trans (Perm.cons y (insert-perm x ys)) (Perm.swap x y ys))
]

pub sort-perm : (xs : List TimeVal) → Perm (sort xs) xs
unfolding sort
sort-perm [] = Perm.refl []
sort-perm (x ∷ xs) = Perm.trans (insert-perm x (sort xs)) (Perm.cons x (sort-perm xs))

length-insert : (x : TimeVal) (ys : List TimeVal) → length (insert x ys) ≡ suc (length ys)
unfolding insert
length-insert x [] = refl
length-insert x (y ∷ ys) = elim (Bool-cases (leb_tv x y)) [
  | inl below ↦ rw below
  | inr above ↦ rw above (ap suc (length-insert x ys))
]

pub length-sort : (xs : List TimeVal) → length (sort xs) ≡ length xs
unfolding sort
length-sort [] = refl
length-sort (x ∷ xs) = length-insert x (sort xs) ∙ ap suc (length-sort xs)

pub All-sort {κ} : (P : TimeVal → Type κ) (xs : List TimeVal) → All P xs → All P (sort xs)
unfolding sort
All-sort P [] h = tt
All-sort P (x ∷ xs) h = All-insert P x (sort xs) h.0 (All-sort P xs h.1)

pub overwrite-eq :
    (xs ys : List TimeVal)
    → length xs ≤ length ys
    → overwrite xs ys ≡ ok (xs ++ drop (length xs) ys)
unfolding overwrite
overwrite-eq [] ys h = refl
overwrite-eq (x ∷ xs) [] h = absurd (omega arith)
overwrite-eq (x ∷ xs) (y ∷ ys) h = rw (overwrite-eq xs ys (omega arith))

pub get_elem?-get_or :
    (xs : List TimeVal) (i : ℕ) → i < length xs → get_elem? xs i ≡ some (get_or xs i tv_zero)
get_elem?-get_or [] i h = elim h [ ]
get_elem?-get_or (x ∷ xs) zero h = refl
get_elem?-get_or (x ∷ xs) (suc i) h = get_elem?-get_or xs i (omega arith)

pub All-get_or {κ} :
    (P : TimeVal → Type κ) (xs : List TimeVal) (i : ℕ)
    → i < length xs
    → All P xs
    → P (get_or xs i tv_zero)
All-get_or P [] i h k = elim h [ ]
All-get_or P (x ∷ xs) zero h k = k.0
All-get_or P (x ∷ xs) (suc i) h k = All-get_or P xs i (omega arith) k.1

pub drop-all : (xs : List TimeVal) (n : ℕ) → length xs ≤ n → drop n xs ≡ []
drop-all [] zero h = refl
drop-all [] (suc n) h = refl
drop-all (x ∷ xs) zero h = absurd (omega arith)
drop-all (x ∷ xs) (suc n) h = drop-all xs n (omega arith)
