-- ===== src/Mdns.antt =====
-- src/mdns.rs: the bytes of a query, and the address in a response. Mdns.Discover is the loop that
-- receives.
pub mod Names
pub mod Labels
pub mod Discover
pub mod Response
use snapcast_client.Prelude.{
  ℕ, zero, suc, ◌+◌, ◌*◌, ◌-◌, ◌/◌, ◌%◌, ◌&&◌, if◌then◌else◌, leb, ltb, ◌==◌, Option, none, some,
  List, [], ◌∷◌, ◌++◌, length, take, drop, get_elem?, true, false,
}
use snapcast_client.Bytes.{Bytes}

abbrev pub type_a : ℕ
type_a = 1

abbrev pub type_ptr : ℕ
type_ptr = 12

abbrev pub type_srv : ℕ
type_srv = 33

abbrev pub class_in : ℕ
class_in = 1

-- `u16::to_be_bytes` and `u16::from_be_bytes`
abbrev pub u16_be : ℕ → Bytes
u16_be n = n / 256 % 256 ∷ n % 256 ∷ []

abbrev pub of_u16_be : ℕ → ℕ → ℕ
of_u16_be hi lo = hi * 256 + lo

abbrev pub push_label : ℕ → List Bytes → List Bytes
push_label b [] = (b ∷ []) ∷ []
push_label b (l ∷ ls) = (b ∷ l) ∷ ls

-- `split('.')`, which always gives at least one label.
unfoldable pub split : Bytes → List Bytes
split [] = [] ∷ []
split (b ∷ bs) = let rest = split bs in if b == 46 then [] ∷ rest else push_label b rest

-- The labels, each behind its length.
unfoldable pub labels : List Bytes → Bytes
labels [] = []
labels (l ∷ ls) = length l % 256 ∷ (l ++ labels ls)

unfoldable pub build_query : Bytes → Bytes
unfolding split labels
build_query service =
    (0 ∷ 0 ∷ 0 ∷ 0 ∷ [])
    ++ (u16_be 1
        ++ ((0 ∷ 0 ∷ 0 ∷ 0 ∷ 0 ∷ 0 ∷ [])
            ++ (labels (split service) ++ (0 ∷ (u16_be type_ptr ++ u16_be class_in)))))

-- What a call with an `Option` as its result comes to; `stuck` is a loop of the model without fuel.
pub data Attempt {ℓ} (A : Type ℓ) : Type ℓ where
  found : A → Attempt A
  missing : Attempt A
  panic : Attempt A
  stuck : Attempt A

infixl 5 ◌>>=◌
abbrev pub ◌>>=◌ {ℓ κ} : {A : Type ℓ} {B : Type κ} → Attempt A → (A → Attempt B) → Attempt B
found a >>= f = f a
missing >>= f = missing
panic >>= f = panic
stuck >>= f = stuck

-- `buf.get(i)?`, and `buf[i]`
abbrev pub or_missing {ℓ} : {A : Type ℓ} → Option A → Attempt A
or_missing none = missing
or_missing (some a) = found a

abbrev pub index : Bytes → ℕ → Attempt ℕ
index buf i = elim (get_elem? buf i) [ none ↦ panic | some b ↦ found b ]

-- The bytes are below 256, so `b & 0xC0 == 0xC0` is `192 <= b`. A position stays far below 2 ^ 64, so
-- `checked_add` gives the sum.
pub skip_name_fuel : ℕ → Bytes → ℕ → Attempt ℕ
skip_name_fuel zero buf pos = stuck
skip_name_fuel (suc fuel) buf pos = elim (get_elem? buf pos) [
  | none ↦ missing
  | some b ↦
      let next = skip_name_fuel fuel buf (pos + (1 + b)) in
      if b == 0 then found (pos + 1) else if leb 192 b then found (pos + 2) else next
]

-- Each turn of the loop advances, and ends it beyond the buffer.
unfoldable pub skip_name : Bytes → ℕ → Attempt ℕ
skip_name buf pos = skip_name_fuel (length buf + 1) buf pos

pub record SocketAddr : Type 0 where
  pub ip : Bytes
  pub port : ℕ

-- The locals `ip` and `port` of the loop over the records.
pub record Seen : Type 0 where
  pub ip : Option Bytes
  pub port : Option ℕ

unfoldable pub skip_questions : Bytes → ℕ → ℕ → Attempt ℕ
unfolding skip_name
skip_questions buf zero pos = found pos
skip_questions buf (suc n) pos = skip_name buf pos >>= λ q. skip_questions buf n (q + 4)

-- The `match rtype`, on the data of the record.
unfoldable pub see_record : ℕ → Bytes → Seen → Attempt Seen
see_record rtype rdata seen =
    if rtype == type_a && (length rdata == 4)
    then found (record seen { ip = some rdata })
    else if rtype == type_srv && leb 6 (length rdata)
    then (index rdata 4 >>= λ hi.
        index rdata 5 >>= λ lo. found (record seen { port = some (of_u16_be hi lo) }))
    else found seen

-- `buf.get(start..end)?`
abbrev pub get_range : ℕ → ℕ → Bytes → Attempt Bytes
get_range lo hi buf =
    if leb lo hi && leb hi (length buf) then found (take (hi - lo) (drop lo buf)) else missing

unfoldable pub read_record : Bytes → ℕ → Seen → Attempt (ℕ × Seen)
unfolding skip_name see_record
read_record buf start seen = do
  pos ← skip_name buf start
  t_hi ← or_missing (get_elem? buf pos)
  t_lo ← or_missing (get_elem? buf (pos + 1))
  l_hi ← or_missing (get_elem? buf (pos + 8))
  l_lo ← or_missing (get_elem? buf (pos + 9))
  let rdata_start = pos + 10
  let rdata_end = rdata_start + of_u16_be l_hi l_lo
  rdata ← get_range rdata_start rdata_end buf
  seen' ← see_record (of_u16_be t_hi t_lo) rdata seen
  found (rdata_end, seen')

unfoldable pub read_records : Bytes → ℕ → ℕ → Seen → Attempt Seen
unfolding read_record
read_records buf zero pos seen = found seen
read_records buf (suc n) pos seen = read_record buf pos seen >>= λ r. read_records buf n r.0 r.1

-- Two bytes at an index that was checked.
unfoldable pub count_at : Bytes → ℕ → Attempt ℕ
count_at buf i = index buf i >>= λ hi. index buf (i + 1) >>= λ lo. found (of_u16_be hi lo)

unfoldable pub parse_response : Bytes → Attempt SocketAddr
unfolding skip_questions read_records count_at
parse_response buf = if ltb (length buf) 12 then missing else (do
  qd ← count_at buf 4
  an ← count_at buf 6
  ns ← count_at buf 8
  ar ← count_at buf 10
  pos ← skip_questions buf qd 12
  seen ← read_records buf (an + ns + ar) pos (record { ip = none; port = none })
  ip ← or_missing seen.ip
  port ← or_missing seen.port
  found (record { ip = ip; port = port }))
