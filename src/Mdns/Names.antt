-- ===== src/Mdns/Names.antt =====
-- The walks of src/mdns.rs over the names and records of any response.
use snapcast_client.Prelude.{
  ℕ, zero, suc, ◌+◌, ◌≤◌, ◌<◌, ◌≡◌, refl, arith, Bool-cases, Option-cases, Option, none, some, List,
  [], ◌∷◌, length, get_elem?, inl, inr, leb, ◌==◌, if◌then◌else◌, ◌&&◌, leb→le, lt→ltb,
  le→ltb_false,
}
use native.Mathlib.Decide.{dec_lt}
use snapcast_client.Bytes.{Bytes}
use snapcast_client.Mdns.{
  Attempt, found, missing, panic, stuck, ◌>>=◌, or_missing, index, skip_name, skip_name_fuel,
  skip_questions, see_record, get_range, read_record, read_records, count_at, Seen, type_a,
  type_srv, of_u16_be, parse_response,
}

-- The call comes back with an address or with `None`.
abbrev pub Answers {ℓ} : {A : Type ℓ} → Attempt A → Type 0
Answers (found _) = Unit
Answers missing = Unit
Answers panic = ⊥
Answers stuck = ⊥

get_elem?_beyond : {A : Type 0} (xs : List A) (i : ℕ) → length xs ≤ i → get_elem? xs i ≡ none
get_elem?_beyond [] i h = refl
get_elem?_beyond (x ∷ xs) zero h = absurd (let e : ⊥ = omega arith in e)
get_elem?_beyond (x ∷ xs) (suc i) h = get_elem?_beyond xs i (omega arith)

get_elem?_within :
    {A : Type 0} (xs : List A) (i : ℕ) → i < length xs → (x : A) × (get_elem? xs i ≡ some x)
get_elem?_within [] i h = absurd (let e : ⊥ = omega arith in e)
get_elem?_within (x ∷ xs) zero h = (x, refl)
get_elem?_within (x ∷ xs) (suc i) h = get_elem?_within xs i (omega arith)

get_elem?_bound :
    {A : Type 0} (xs : List A) (i : ℕ) {x : A} → get_elem? xs i ≡ some x → i < length xs
get_elem?_bound xs i e = elim (dec_lt i (length xs)) [
  | yes h ↦ h
  | no h ↦ absurd (let f = get_elem?_beyond xs i (omega arith) in let g : ⊥ = cc in g)
]

bind-Answers {ℓ κ} :
    {A : Type ℓ} {B : Type κ} (m : Attempt A) (f : A → Attempt B)
    → Answers m
    → ((a : A) → Answers (f a))
    → Answers (m >>= f)
bind-Answers (found a) f h k = k a
bind-Answers missing f h k = tt
bind-Answers panic f h k = h
bind-Answers stuck f h k = h

-- With fuel for every byte that is left, and one more turn, the walk over a name ends.
skip_name_fuel-Answers :
    (fuel : ℕ) (buf : Bytes) (pos : ℕ)
    → length buf < fuel + pos
    → 0 < fuel
    → Answers (skip_name_fuel fuel buf pos)
unfolding skip_name_fuel
skip_name_fuel-Answers zero buf pos h k = absurd (let e : ⊥ = omega arith in e)
skip_name_fuel-Answers (suc fuel) buf pos h k = elim (Option-cases (get_elem? buf pos)) [
  | inl e ↦ rw (e, Answers) tt
  | inr (b, e) ↦
      rw (e, Answers)
        (let within = get_elem?_bound buf pos e in
          by_byte b (skip_name_fuel-Answers fuel buf (pos + (1 + b)) (omega arith) (omega arith)))
]
  where
    by_byte :
        (b : ℕ)
        → Answers (skip_name_fuel fuel buf (pos + (1 + b)))
        → Answers (
            if b == 0
            then found (pos + 1)
            else if leb 192 b
            then found (pos + 2)
            else skip_name_fuel fuel buf (pos + (1 + b)))
    by_byte b again = elim (Bool-cases (b == 0)) [
      | inl z ↦ rw z tt
      | inr z ↦
          rw z (elim (Bool-cases (leb 192 b)) [ inl big ↦ rw big tt | inr small ↦ rw small again ])
    ]

skip_name-Answers : (buf : Bytes) (pos : ℕ) → Answers (skip_name buf pos)
unfolding skip_name
skip_name-Answers buf pos =
    skip_name_fuel-Answers (length buf + 1) buf pos (omega arith) (omega arith)

or_missing-Answers {ℓ} : {A : Type ℓ} (o : Option A) → Answers (or_missing o)
or_missing-Answers none = tt
or_missing-Answers (some a) = tt

index-Answers : (buf : Bytes) (i : ℕ) → i < length buf → Answers (index buf i)
index-Answers buf i h = let (x, e) = get_elem?_within buf i h in rw (e, Answers) tt

skip_questions-Answers : (buf : Bytes) (n pos : ℕ) → Answers (skip_questions buf n pos)
unfolding skip_questions
skip_questions-Answers buf zero pos = tt
skip_questions-Answers buf (suc n) pos =
    bind-Answers (skip_name buf pos) (λ q. skip_questions buf n (q + 4)) (skip_name-Answers buf pos)
      (λ q. skip_questions-Answers buf n (q + 4))

see_record-Answers :
    (rtype : ℕ) (rdata : Bytes) (seen : Seen) → Answers (see_record rtype rdata seen)
unfolding see_record
see_record-Answers rtype rdata seen = elim (Bool-cases (rtype == type_a && (length rdata == 4))) [
  | inl a ↦ rw a tt
  | inr a ↦ rw a (elim (Bool-cases (leb 6 (length rdata))) [
    | inl long ↦ elim (Bool-cases (rtype == type_srv)) [
      | inl srv ↦ rw (srv, long) (by_port (leb→le 6 (length rdata) long))
      | inr srv ↦ rw srv tt
    ]
    | inr long ↦ elim (Bool-cases (rtype == type_srv)) [
      | inl srv ↦ rw (srv, long) tt
      | inr srv ↦ rw srv tt
    ]
  ])
]
  where
    by_port :
        6 ≤ length rdata
        → Answers (
            index rdata 4 >>= λ hi.
            index rdata 5 >>= λ lo. found (record seen { port = some (of_u16_be hi lo) }))
    by_port h =
        bind-Answers (index rdata 4)
          (λ hi. index rdata 5 >>= λ lo. found (record seen { port = some (of_u16_be hi lo) }))
          (index-Answers rdata 4 (omega arith))
          (λ hi.
            bind-Answers (index rdata 5)
              (λ lo. found (record seen { port = some (of_u16_be hi lo) }))
              (index-Answers rdata 5 (omega arith)) (λ lo. tt))

get_range-Answers : (lo hi : ℕ) (buf : Bytes) → Answers (get_range lo hi buf)
get_range-Answers lo hi buf = elim (Bool-cases (leb lo hi && leb hi (length buf))) [
  | inl e ↦ rw e tt
  | inr e ↦ rw e tt
]

read_record-Answers : (buf : Bytes) (start : ℕ) (seen : Seen) → Answers (read_record buf start seen)
unfolding read_record
read_record-Answers buf start seen = bind-Answers _ _ (skip_name-Answers buf start) (λ pos.
    bind-Answers _ _ (or_missing-Answers (get_elem? buf pos)) (λ t_hi.
      bind-Answers _ _ (or_missing-Answers (get_elem? buf (pos + 1))) (λ t_lo.
        bind-Answers _ _ (or_missing-Answers (get_elem? buf (pos + 8))) (λ l_hi.
          bind-Answers _ _ (or_missing-Answers (get_elem? buf (pos + 9))) (λ l_lo.
            bind-Answers _ _ (get_range-Answers (pos + 10) (pos + 10 + of_u16_be l_hi l_lo) buf)
              (λ rdata.
                bind-Answers _ _ (see_record-Answers (of_u16_be t_hi t_lo) rdata seen)
                  (λ s. tt)))))))

read_records-Answers :
    (buf : Bytes) (n pos : ℕ) (seen : Seen) → Answers (read_records buf n pos seen)
unfolding read_records
read_records-Answers buf zero pos seen = tt
read_records-Answers buf (suc n) pos seen =
    bind-Answers (read_record buf pos seen) (λ r. read_records buf n r.0 r.1)
      (read_record-Answers buf pos seen) (λ r. read_records-Answers buf n r.0 r.1)

count_at-Answers : (buf : Bytes) (i : ℕ) → i + 1 < length buf → Answers (count_at buf i)
unfolding count_at
count_at-Answers buf i h =
    bind-Answers _ _ (index-Answers buf i (omega arith))
      (λ hi. bind-Answers _ _ (index-Answers buf (i + 1) h) (λ lo. tt))

-- On every datagram `parse_response` ends and does not panic: it gives an address or `None`.
pub parse_response-Answers : (buf : Bytes) → Answers (parse_response buf)
unfolding parse_response
parse_response-Answers buf = elim (dec_lt (length buf) 12) [
  | yes short ↦ rw (lt→ltb (length buf) 12 short) tt
  | no long ↦ rw (le→ltb_false (length buf) 12 (omega arith)) (
      bind-Answers _ _ (count_at-Answers buf 4 (omega arith)) (λ qd.
        bind-Answers _ _ (count_at-Answers buf 6 (omega arith)) (λ an.
          bind-Answers _ _ (count_at-Answers buf 8 (omega arith)) (λ ns.
            bind-Answers _ _ (count_at-Answers buf 10 (omega arith)) (λ ar.
              bind-Answers _ _ (skip_questions-Answers buf qd 12) (λ pos.
                bind-Answers _ _
                  (read_records-Answers buf (an + ns + ar) pos (record { ip = none; port = none }))
                  (λ seen.
                    bind-Answers _ _ (or_missing-Answers seen.ip)
                      (λ ip. bind-Answers _ _ (or_missing-Answers seen.port) (λ port. tt)))))))))
]
