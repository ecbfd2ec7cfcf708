-- ===== src/Mdns/Labels.antt =====
-- `skip_name` of src/mdns.rs on the labels that a query writes.
use snapcast_client.Prelude.{
  ℕ, zero, suc, ◌+◌, ◌%◌, ◌<◌, ◌≤◌, ◌≡◌, refl, sym, ap, ◌∙◌, arith, List, [], ◌∷◌, ◌++◌, length,
  length-append, append_assoc, All, get_elem?, some, none, leb, ◌==◌, if◌then◌else◌, ne→==_false,
  le→leb, ◌⊎◌, inl, inr, lt→leb_false,
}
use mathlib.Core.Path.{ap₂}
use snapcast_client.Bytes.{Bytes}
use snapcast_client.Mdns.{found, missing, labels, skip_name, skip_name_fuel}

-- A label whose length is no terminator and no pointer.
abbrev pub IsLabel : Bytes → Type 0
IsLabel l = (0 < length l) × (length l < 192)

pub get_elem?-append :
    (xs : Bytes) (y : ℕ) (ys : Bytes) → get_elem? (xs ++ (y ∷ ys)) (length xs) ≡ some y
get_elem?-append [] y ys = refl
get_elem?-append (x ∷ xs) y ys = get_elem?-append xs y ys

turn :
    (fuel : ℕ) (buf : Bytes) (pos b : ℕ)
    → get_elem? buf pos ≡ some b
    → skip_name_fuel (suc fuel) buf pos ≡ (
        if b == 0
        then found (pos + 1)
        else if leb 192 b
        then found (pos + 2)
        else skip_name_fuel fuel buf (pos + (1 + b)))
unfolding skip_name_fuel
turn fuel buf pos b e =
    ap
      (λ o. elim o [
        | none ↦ missing
        | some b ↦
            if b == 0
            then found (pos + 1)
            else if leb 192 b
            then found (pos + 2)
            else skip_name_fuel fuel buf (pos + (1 + b))
      ])
      e

-- The length of the end of a name at a byte that is 0 or a pointer's first.
abbrev pub end_length : ℕ → ℕ
end_length t = if t == 0 then 1 else 2

skip_end :
    (fuel t : ℕ) (xs ys : Bytes)
    → (t ≡ 0) ⊎ (192 ≤ t)
    → skip_name_fuel (suc fuel) (xs ++ (t ∷ ys)) (length xs) ≡ found (length xs + end_length t)
skip_end fuel t xs ys h =
    turn fuel (xs ++ (t ∷ ys)) (length xs) t (get_elem?-append xs t ys) ∙ elim h [
      | inl root ↦ rw root refl
      | inr big ↦ rw (ne→==_false t 0 (omega arith), le→leb 192 t big)
    ]

skip_label :
    (fuel n : ℕ) (xs ys : Bytes)
    → 0 < n
    → n < 192
    → skip_name_fuel (suc fuel) (xs ++ (n ∷ ys)) (length xs)
      ≡ skip_name_fuel fuel (xs ++ (n ∷ ys)) (length xs + (1 + n))
skip_label fuel n xs ys h k =
    turn fuel (xs ++ (n ∷ ys)) (length xs) n (get_elem?-append xs n ys)
    ∙ rw (ne→==_false n 0 (omega arith), lt→leb_false 192 n k)

skip_labels :
    (ls : List Bytes) (fuel t : ℕ) (xs ys : Bytes)
    → (t ≡ 0) ⊎ (192 ≤ t)
    → All IsLabel ls
    → length ls < fuel
    → skip_name_fuel fuel (xs ++ (labels ls ++ (t ∷ ys))) (length xs)
      ≡ found (length xs + length (labels ls) + end_length t)
unfolding labels
skip_labels ls zero t xs ys e h k = absurd (let e : ⊥ = omega arith in e)
skip_labels [] (suc fuel) t xs ys e h k = skip_end fuel t xs ys e ∙ ap found (omega arith)
skip_labels (l ∷ ls) (suc fuel) t xs ys e h k =
    skip_label fuel (length l % 256) xs ((l ++ labels ls) ++ (t ∷ ys)) (omega arith) (omega arith)
    ∙ ap₂ (skip_name_fuel fuel) moved (omega (arith, length-append xs (length l % 256 ∷ l)))
    ∙ skip_labels ls fuel t (xs ++ (length l % 256 ∷ l)) ys e h.1 (omega arith)
    ∙ ap found (omega (arith, length-append xs (length l % 256 ∷ l), length-append l (labels ls)))
  where
    moved :
        xs ++ (length l % 256 ∷ ((l ++ labels ls) ++ (t ∷ ys)))
        ≡ (xs ++ (length l % 256 ∷ l)) ++ (labels ls ++ (t ∷ ys))
    moved =
        ap (λ r. xs ++ (length l % 256 ∷ r)) (append_assoc l (labels ls) (t ∷ ys))
        ∙ sym (append_assoc xs (length l % 256 ∷ l) (labels ls ++ (t ∷ ys)))

labels_long : (ls : List Bytes) → length ls ≤ length (labels ls)
unfolding labels
labels_long [] = omega arith
labels_long (l ∷ ls) = omega (arith, labels_long ls, length-append l (labels ls))

-- Anywhere in a buffer, a name of labels with 1 to 191 bytes that ends with a zero byte or a
-- pointer is skipped exactly.
pub skip_name-labels :
    (ls : List Bytes) (t : ℕ) (xs ys : Bytes)
    → (t ≡ 0) ⊎ (192 ≤ t)
    → All IsLabel ls
    → skip_name (xs ++ (labels ls ++ (t ∷ ys))) (length xs)
      ≡ found (length xs + length (labels ls) + end_length t)
unfolding skip_name
skip_name-labels ls t xs ys e h =
    skip_labels ls (length (xs ++ (labels ls ++ (t ∷ ys))) + 1) t xs ys e h (
      omega (
        arith,
        length-append xs (labels ls ++ (t ∷ ys)),
        length-append (labels ls) (t ∷ ys),
        labels_long ls,
      ))
