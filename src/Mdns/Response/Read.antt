-- ===== src/Mdns/Response/Read.antt =====
-- `parse_response` of src/mdns.rs on a response that was written.
use snapcast_client.Prelude.{
  ℕ, suc, ◌+◌, ◌≡◌, refl, sym, ap, ◌∙◌, arith, Option, none, some, List, [], ◌∷◌, ◌++◌,
  append_assoc, length, length-append, All, ltb, false, le→ltb_false,
}
use mathlib.Core.Path.{ap₂}
use snapcast_client.Bytes.{Bytes}
use snapcast_client.Mdns.{
  found, ◌>>=◌, or_missing, skip_questions, Seen, u16_be, read_records, count_at, parse_response,
}
use snapcast_client.Mdns.Response.{
  Record, Question, Response, IsResponse, name_bytes, record_bytes, question_bytes, questions_bytes,
  records_bytes, response_bytes, counts_bytes, all_records, IsName, IsRecord, note, notes,
  to_address,
}
use snapcast_client.Mdns.Response.Records.{read_record-note, skip_name-Name, u16_read}

read_records-notes :
    (rs : List Record) (xs ys : Bytes) (seen : Seen)
    → All IsRecord rs
    → read_records (xs ++ (records_bytes rs ++ ys)) (length rs) (length xs) seen
      ≡ found (notes rs seen)
unfolding read_records records_bytes notes
read_records-notes [] xs ys seen h = refl
read_records-notes (r ∷ rs) xs ys seen (one, others) =
    ap (λ b. read_records b (suc (length rs)) (length xs) seen)
      (ap (λ b. xs ++ b) (append_assoc (record_bytes r) (records_bytes rs) ys))
    ∙ ap (λ o. o >>= λ p. read_records (xs ++ (record_bytes r ++ rest)) (length rs) p.0 p.1)
        (read_record-note r xs rest seen one)
    ∙ ap (λ b. read_records b (length rs) (length (xs ++ record_bytes r)) (note r.content seen))
        (sym (append_assoc xs (record_bytes r) rest))
    ∙ read_records-notes rs (xs ++ record_bytes r) ys (note r.content seen) others
  where
    rest : Bytes
    rest = records_bytes rs ++ ys

skip_questions-bytes :
    (qs : List Question) (xs ys : Bytes)
    → All (λ (q : Question). IsName q.name) qs
    → skip_questions (xs ++ (questions_bytes qs ++ ys)) (length qs) (length xs)
      ≡ found (length (xs ++ questions_bytes qs))
unfolding skip_questions questions_bytes
skip_questions-bytes [] xs ys h = ap found (omega (arith, length-append xs []))
skip_questions-bytes (q ∷ qs) xs ys (one, others) =
    ap (λ b. skip_questions b (suc (length qs)) (length xs)) split
    ∙ ap (λ o. o >>= λ p. skip_questions (xs ++ (name_bytes q.name ++ rest)) (length qs) (p + 4))
        (skip_name-Name q.name xs rest one)
    ∙ ap₂ (λ b p. skip_questions b (length qs) p) joined
        (omega (
          arith,
          length-append xs (name_bytes q.name),
          length-append xs (question_bytes q),
          length-append (name_bytes q.name) four,
        ))
    ∙ skip_questions-bytes qs (xs ++ question_bytes q) ys others
    ∙ ap (λ b. found (length b)) (append_assoc xs (question_bytes q) (questions_bytes qs))
  where
    four : Bytes
    four = u16_be q.qtype ++ u16_be q.qclass

    rest : Bytes
    rest = four ++ (questions_bytes qs ++ ys)

    split :
        xs ++ ((question_bytes q ++ questions_bytes qs) ++ ys) ≡ xs ++ (name_bytes q.name ++ rest)
    split =
        ap (λ b. xs ++ b)
          (append_assoc (question_bytes q) (questions_bytes qs) ys
            ∙ append_assoc (name_bytes q.name) four (questions_bytes qs ++ ys))

    joined :
        xs ++ (name_bytes q.name ++ rest) ≡ (xs ++ question_bytes q) ++ (questions_bytes qs ++ ys)
    joined =
        ap (λ b. xs ++ b) (sym (append_assoc (name_bytes q.name) four (questions_bytes qs ++ ys)))
        ∙ sym (append_assoc xs (question_bytes q) (questions_bytes qs ++ ys))

header_long :
    (m : Response) (rest : Bytes)
    → ltb (length (u16_be m.id ++ (u16_be m.flags ++ (counts_bytes m ++ rest)))) 12 ≡ false
header_long m rest =
    le→ltb_false (length (u16_be m.id ++ (u16_be m.flags ++ (counts_bytes m ++ rest)))) 12
      (omega arith)

address_read :
    (seen : Seen)
    → (or_missing seen.ip >>= λ ip.
        or_missing seen.port >>= λ port. found (record { ip = ip; port = port }))
      ≡ to_address seen.ip seen.port
address_read seen = by_parts seen.ip seen.port
  where
    by_parts :
        (i : Option Bytes) (n : Option ℕ)
        → (or_missing i >>= λ ip. or_missing n >>= λ port. found (record { ip = ip; port = port }))
          ≡ to_address i n
    by_parts none n = refl
    by_parts (some ip) none = refl
    by_parts (some ip) (some port) = refl

parse_steps :
    (buf : Bytes) (qd an ns ar pos : ℕ) (seen : Seen)
    → ltb (length buf) 12 ≡ false
    → count_at buf 4 ≡ found qd
    → count_at buf 6 ≡ found an
    → count_at buf 8 ≡ found ns
    → count_at buf 10 ≡ found ar
    → skip_questions buf qd 12 ≡ found pos
    → read_records buf (an + ns + ar) pos (record { ip = none; port = none }) ≡ found seen
    → parse_response buf ≡ to_address seen.ip seen.port
unfolding parse_response
parse_steps buf qd an ns ar pos seen e0 e1 e2 e3 e4 e5 e6 =
    rw e0 (rw e1 (rw e2 (rw e3 (rw e4 (rw e5 (rw e6 (address_read seen)))))))

-- A response with counts that fit, names of labels with 1 to 191 bytes that end at the root or with
-- a pointer, and data as its type says, is written as bytes, and any bytes may follow:
-- `parse_response` gives the last IPv4 address and the last port of a service of all its records,
-- whichever section they stand in, and `None` if either is not there.
pub parse_response-address :
    (m : Response) (trailing : Bytes)
    → IsResponse m
    → (let seen = notes (all_records m) (record { ip = none; port = none }) in
        parse_response (response_bytes m ++ trailing) ≡ to_address seen.ip seen.port)
unfolding response_bytes count_at
parse_response-address m trailing h =
    ap (λ b. parse_response (header ++ b)) (append_assoc questions records trailing)
    ∙ parse_steps (header ++ (questions ++ (records ++ trailing))) (length m.questions)
        (length m.answers) (length m.authority) (length m.additional) (length (header ++ questions))
        (notes (all_records m) (record { ip = none; port = none }))
        (header_long m (questions ++ (records ++ trailing)))
        (ap found (u16_read (length m.questions) h.few_questions))
        (ap found (u16_read (length m.answers) h.few_answers))
        (ap found (u16_read (length m.authority) h.few_authority))
        (ap found (u16_read (length m.additional) h.few_additional))
        (skip_questions-bytes m.questions header (records ++ trailing) h.named)
        (ap
            (λ n.
              read_records (header ++ (questions ++ (records ++ trailing))) n
                (length (header ++ questions)) (record { ip = none; port = none }))
            counted
          ∙ read_records-notes (all_records m) (header ++ questions) trailing
              (record { ip = none; port = none }) h.well_formed)
  where
    header : Bytes
    header = u16_be m.id ++ (u16_be m.flags ++ counts_bytes m)

    questions : Bytes
    questions = questions_bytes m.questions

    records : Bytes
    records = records_bytes (all_records m)

    counted : length m.answers + length m.authority + length m.additional ≡ length (all_records m)
    counted = omega (
      arith,
      length-append m.answers (m.authority ++ m.additional),
      length-append m.authority m.additional,
    )
