-- ===== src/Mdns/Response.antt =====
-- The messages of RFC 1035 and RFC 2782 that `parse_response` of src/mdns.rs reads.
pub mod Records
pub mod Read
use snapcast_client.Prelude.{
  ℕ, zero, suc, ◌+◌, ◌-◌, ◌*◌, ◌/◌, ◌%◌, ◌^◌, ◌≤◌, ◌<◌, ◌≡◌, ◌≢◌, refl, sym, ap, ◌∙◌, arith, Option,
  none, some, List, [], ◌∷◌, ◌++◌, append_assoc, length, length-append, All, take, drop,
  take-append, drop-append, get_elem?, ◌⊎◌, inl, inr, le→leb, ltb, false, le→ltb_false,
  if◌then◌else◌, ne→==_false,
}
use mathlib.Core.Path.{ap₂}
use snapcast_client.Bytes.{Bytes}
use snapcast_client.Mdns.{
  Attempt, found, missing, ◌>>=◌, or_missing, index, labels, skip_name, skip_questions, Seen,
  SocketAddr, type_a, type_srv, u16_be, of_u16_be, get_range, see_record, read_record, read_records,
  count_at, parse_response,
}
use snapcast_client.Mdns.Labels.{IsLabel, end_length, get_elem?-append, skip_name-labels}

-- The end of a name: the root, or a pointer of two bytes.
pub data End : Type 0 where
  root : End
  pointer : ℕ → ℕ → End

pub record Name : Type 0 where
  pub label_list : List Bytes
  pub end : End

-- The data of a record: an IPv4 address; priority, weight, port and target of a service; or bytes of
-- another type.
pub data Content : Type 0 where
  address : ℕ → ℕ → ℕ → ℕ → Content
  service : ℕ → ℕ → ℕ → Bytes → Content
  another : ℕ → Bytes → Content

pub record Record : Type 0 where
  pub name : Name
  pub cls : ℕ
  pub ttl : ℕ
  pub content : Content

abbrev pub end_bytes : End → Bytes
end_bytes root = 0 ∷ []
end_bytes (pointer hi lo) = hi ∷ lo ∷ []

abbrev pub name_bytes : Name → Bytes
name_bytes n = labels n.label_list ++ end_bytes n.end

abbrev pub type_of : Content → ℕ
type_of (address a b c d) = type_a
type_of (service priority weight port target) = type_srv
type_of (another rtype bytes) = rtype

abbrev pub data_bytes : Content → Bytes
data_bytes (address a b c d) = a ∷ b ∷ c ∷ d ∷ []
data_bytes (service priority weight port target) =
    u16_be priority ++ (u16_be weight ++ (u16_be port ++ target))
data_bytes (another rtype bytes) = bytes

abbrev pub content_bytes : Content → Bytes
content_bytes c = u16_be (length (data_bytes c)) ++ data_bytes c

-- Type, class and time to live.
abbrev pub fields_bytes : Record → Bytes
fields_bytes r =
    u16_be (type_of r.content) ++ (u16_be r.cls ++ (u16_be (r.ttl / 65536) ++ u16_be r.ttl))

abbrev pub record_bytes : Record → Bytes
record_bytes r = name_bytes r.name ++ (fields_bytes r ++ content_bytes r.content)

pub record Question : Type 0 where
  pub name : Name
  pub qtype : ℕ
  pub qclass : ℕ

abbrev pub question_bytes : Question → Bytes
question_bytes q = name_bytes q.name ++ (u16_be q.qtype ++ u16_be q.qclass)

unfoldable pub questions_bytes : List Question → Bytes
questions_bytes [] = []
questions_bytes (q ∷ qs) = question_bytes q ++ questions_bytes qs

unfoldable pub records_bytes : List Record → Bytes
records_bytes [] = []
records_bytes (r ∷ rs) = record_bytes r ++ records_bytes rs

abbrev pub IsEnd : End → Type 0
IsEnd root = Unit
IsEnd (pointer hi lo) = 192 ≤ hi

abbrev pub IsName : Name → Type 0
IsName n = All IsLabel n.label_list × IsEnd n.end

abbrev pub IsContent : Content → Type 0
IsContent (address a b c d) = Unit
IsContent (service priority weight port target) = (port < 2 ^ 16) × (6 + length target < 2 ^ 16)
IsContent (another rtype bytes) =
    (rtype < 2 ^ 16) × ◌≢◌ rtype type_a × ◌≢◌ rtype type_srv × (length bytes < 2 ^ 16)

abbrev pub IsRecord : Record → Type 0
IsRecord r = IsName r.name × IsContent r.content

-- The last address and the last port of the records.
abbrev pub note : Content → Seen → Seen
note (address a b c d) seen = record seen { ip = some (a ∷ b ∷ c ∷ d ∷ []) }
note (service priority weight port target) seen = record seen { port = some port }
note (another rtype bytes) seen = seen

unfoldable pub notes : List Record → Seen → Seen
notes [] seen = seen
notes (r ∷ rs) seen = notes rs (note r.content seen)

pub record Response : Type 0 where
  pub id : ℕ
  pub flags : ℕ
  pub questions : List Question
  pub answers : List Record
  pub authority : List Record
  pub additional : List Record

abbrev pub all_records : Response → List Record
all_records m = m.answers ++ (m.authority ++ m.additional)

abbrev pub counts_bytes : Response → Bytes
counts_bytes m =
    u16_be (length m.questions)
    ++ (u16_be (length m.answers) ++ (u16_be (length m.authority) ++ u16_be (length m.additional)))

unfoldable pub response_bytes : Response → Bytes
unfolding questions_bytes records_bytes
response_bytes m =
    u16_be m.id
    ++ (u16_be m.flags
        ++ (counts_bytes m ++ (questions_bytes m.questions ++ records_bytes (all_records m))))

-- Each count fits its two bytes.
pub record IsResponse (m : Response) : Type 0 where
  pub few_questions : length m.questions < 2 ^ 16
  pub few_answers : length m.answers < 2 ^ 16
  pub few_authority : length m.authority < 2 ^ 16
  pub few_additional : length m.additional < 2 ^ 16
  pub named : All (λ (q : Question). IsName q.name) m.questions
  pub well_formed : All IsRecord (all_records m)

-- The address, if there are an IPv4 address and a port.
abbrev pub to_address : Option Bytes → Option ℕ → Attempt SocketAddr
to_address none port = missing
to_address (some ip) none = missing
to_address (some ip) (some port) = found (record { ip = ip; port = port })
