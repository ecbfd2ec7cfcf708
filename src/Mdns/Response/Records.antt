-- ===== src/Mdns/Response/Records.antt =====
-- `read_record` of src/mdns.rs on a record that was written.
use snapcast_client.Prelude.{
  ℕ, suc, ◌+◌, ◌-◌, ◌/◌, ◌%◌, ◌^◌, ◌≤◌, ◌<◌, ◌≡◌, refl, sym, ap, ◌∙◌, arith, some, List, [], ◌∷◌,
  ◌++◌, append_assoc, length, length-append, take, take-append, drop-append, get_elem?, inl, inr,
  le→leb, if◌then◌else◌, ne→==_false,
}
use snapcast_client.Bytes.{Bytes}
use snapcast_client.Mdns.{
  found, labels, skip_name, Seen, type_a, type_srv, u16_be, of_u16_be, get_range, see_record,
  read_record,
}
use snapcast_client.Mdns.Labels.{end_length, get_elem?-append, skip_name-labels}
use snapcast_client.Mdns.Response.{
  End, root, pointer, Name, Content, address, service, another, Record, end_bytes, name_bytes,
  type_of, data_bytes, fields_bytes, record_bytes, IsEnd, IsName, IsContent, IsRecord, note,
}

pointer_length : (t : ℕ) → 192 ≤ t → end_length t ≡ 2
pointer_length t h = rw (ne→==_false t 0 (omega (arith, h))) refl

pub skip_name-Name :
    (n : Name) (xs ys : Bytes)
    → IsName n
    → skip_name (xs ++ (name_bytes n ++ ys)) (length xs) ≡ found (length (xs ++ name_bytes n))
skip_name-Name n xs ys (h, e) = by_end n.end e
  where
    ls : List Bytes
    ls = n.label_list

    by_end :
        (t : End)
        → IsEnd t
        → skip_name (xs ++ ((labels ls ++ end_bytes t) ++ ys)) (length xs)
          ≡ found (length (xs ++ (labels ls ++ end_bytes t)))
    by_end root e =
        ap (λ b. skip_name (xs ++ b) (length xs)) (append_assoc (labels ls) (0 ∷ []) ys)
        ∙ skip_name-labels ls 0 xs ys (inl refl) h
        ∙ ap found (
            omega
              (arith, length-append xs (labels ls ++ (0 ∷ [])), length-append (labels ls) (0 ∷ [])))
    by_end (pointer hi lo) e =
        ap (λ b. skip_name (xs ++ b) (length xs)) (append_assoc (labels ls) (hi ∷ lo ∷ []) ys)
        ∙ skip_name-labels ls hi xs (lo ∷ ys) (inr e) h
        ∙ ap (λ k. found (length xs + length (labels ls) + k)) (pointer_length hi e)
        ∙ ap found (
            omega (
              arith,
              length-append xs (labels ls ++ (hi ∷ lo ∷ [])),
              length-append (labels ls) (hi ∷ lo ∷ []),
            ))

get_elem?-at : (xs ys : Bytes) (i : ℕ) → get_elem? (xs ++ ys) (length xs + i) ≡ get_elem? ys i
get_elem?-at [] ys i = ap (get_elem? ys) (omega arith)
get_elem?-at (x ∷ xs) ys i =
    ap (get_elem? (x ∷ (xs ++ ys)))
      (let e : suc (length xs) + i ≡ suc (length xs + i) = omega arith in e)
    ∙ get_elem?-at xs ys i

see_record-note :
    (c : Content) (seen : Seen)
    → IsContent c
    → see_record (type_of c) (data_bytes c) seen ≡ found (note c seen)
unfolding see_record
see_record-note (address a b c d) seen h = refl
see_record-note (service priority weight port target) seen h =
    ap
      (λ long.
        if long
        then found (record seen { port = some (of_u16_be (port / 256 % 256) (port % 256)) })
        else found seen)
      (le→leb 6 (length (data_bytes (service priority weight port target))) (omega arith))
    ∙ (ap (λ p. found (record seen { port = some p }))
        (let e : of_u16_be (port / 256 % 256) (port % 256) ≡ port = omega (arith, h.0) in e))
see_record-note (another rtype bytes) seen (small, no_a, no_srv, fits) =
    rw (ne→==_false rtype type_a no_a, ne→==_false rtype type_srv no_srv) refl

get_range-data :
    (xs bytes ys : Bytes)
    → get_range (length xs) (length xs + length bytes) (xs ++ (bytes ++ ys)) ≡ found bytes
get_range-data xs bytes ys =
    rw
      (
        le→leb (length xs) (length xs + length bytes) (omega arith),
        le→leb (length xs + length bytes) (length (xs ++ (bytes ++ ys)))
            (omega (arith, length-append xs (bytes ++ ys), length-append bytes ys)),
        drop-append xs (bytes ++ ys),
      )
      (ap (λ n. found (take n (bytes ++ ys)))
          (let e : length xs + length bytes - length xs ≡ length bytes = omega arith in e)
        ∙ ap found (take-append bytes ys))

read_record-steps :
    (buf : Bytes) (start pos t_hi t_lo l_hi l_lo : ℕ) (rdata : Bytes) (seen seen' : Seen)
    → skip_name buf start ≡ found pos
    → get_elem? buf pos ≡ some t_hi
    → get_elem? buf (pos + 1) ≡ some t_lo
    → get_elem? buf (pos + 8) ≡ some l_hi
    → get_elem? buf (pos + 9) ≡ some l_lo
    → get_range (pos + 10) (pos + 10 + of_u16_be l_hi l_lo) buf ≡ found rdata
    → see_record (of_u16_be t_hi t_lo) rdata seen ≡ found seen'
    → read_record buf start seen ≡ found (pos + 10 + of_u16_be l_hi l_lo, seen')
unfolding read_record
read_record-steps buf start pos t_hi t_lo l_hi l_lo rdata seen seen' e0 e1 e2 e3 e4 e5 e6 =
    rw e0 (rw e1 (rw e2 (rw e3 (rw e4 (rw e5 (rw e6 refl))))))

-- A number below 2 ^ 16 is read as it was written.
pub u16_read : (n : ℕ) → n < 2 ^ 16 → of_u16_be (n / 256 % 256) (n % 256) ≡ n
u16_read n h = omega (arith, h)

content_bounds :
    (c : Content) → IsContent c → (type_of c < 2 ^ 16) × (length (data_bytes c) < 2 ^ 16)
content_bounds (address a b c d) h = (omega arith, omega arith)
content_bounds (service priority weight port target) h = (omega arith, omega (arith, h.1))
content_bounds (another rtype bytes) h = (h.0, h.3)

data_range :
    (zs ten d ys : Bytes) (n : ℕ)
    → length ten ≡ 10
    → n ≡ length d
    → get_range (length zs + 10) (length zs + 10 + n) (zs ++ (ten ++ (d ++ ys))) ≡ found d
data_range zs ten d ys n e k =
    (λ i.
      get_range
        (let e : length zs + 10 ≡ length (zs ++ ten) = omega (arith, length-append zs ten) in e i)
        (let e : length zs + 10 + n ≡ length (zs ++ ten) + length d =
            omega (arith, length-append zs ten) in
          e i)
        (sym (append_assoc zs ten (d ++ ys)) i))
    ∙ get_range-data (zs ++ ten) d ys

-- A record anywhere in a buffer is noted, and the position is then behind it.
pub read_record-note :
    (r : Record) (xs ys : Bytes) (seen : Seen)
    → IsRecord r
    → read_record (xs ++ (record_bytes r ++ ys)) (length xs) seen
      ≡ found (length (xs ++ record_bytes r), note r.content seen)
read_record-note r xs ys seen (named, h) =
    ap (λ b. read_record b (length xs) seen) split
    ∙ read_record-steps (zs ++ (ten ++ (d ++ ys))) (length xs) (length zs) (t / 256 % 256) (t % 256)
        (length d / 256 % 256) (length d % 256) d seen (note c seen)
        (ap (λ b. skip_name b (length xs)) (append_assoc xs name (ten ++ (d ++ ys)))
          ∙ skip_name-Name r.name xs (ten ++ (d ++ ys)) named)
        (get_elem?-append zs (t / 256 % 256) _) (at 1) (at 8) (at 9)
        (data_range zs ten d ys _ refl (u16_read (length d) (content_bounds c h).1))
        (ap (λ t. see_record t d seen) (u16_read t (content_bounds c h).0)
          ∙ see_record-note c seen h)
    ∙ ap (λ n. found (n, note c seen)) behind
  where
    c : Content
    c = r.content

    d : Bytes
    d = data_bytes c

    t : ℕ
    t = type_of c

    name : Bytes
    name = name_bytes r.name

    ten : Bytes
    ten = fields_bytes r ++ u16_be (length d)

    zs : Bytes
    zs = xs ++ name

    at :
        (i : ℕ)
        → get_elem? (zs ++ (ten ++ (d ++ ys))) (length zs + i) ≡ get_elem? (ten ++ (d ++ ys)) i
    at i = get_elem?-at zs (ten ++ (d ++ ys)) i

    split : xs ++ (record_bytes r ++ ys) ≡ zs ++ (ten ++ (d ++ ys))
    split =
        ap (λ b. xs ++ b) (append_assoc name (ten ++ d) ys)
        ∙ sym (append_assoc xs name (ten ++ (d ++ ys)))

    behind :
        length zs + 10 + of_u16_be (length d / 256 % 256) (length d % 256)
        ≡ length (xs ++ record_bytes r)
    behind = omega (
      arith,
      u16_read (length d) (content_bounds c h).1,
      length-append xs name,
      length-append xs (record_bytes r),
      length-append name (ten ++ d),
      length-append ten d,
    )
