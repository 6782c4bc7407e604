-- ===== src/Util/Dns.antt =====
-- util/dns.go: what a response holds. Messages and records are those of miekg/dns, cut down to the
-- fields that the code reads or writes.
use gudgeon.Prelude.{
  ℕ, List, [], ◌∷◌, ◌++◌, Bool, true, false, not, ◌&&◌, ◌||◌, Option, none, some, length, ltb, leb,
  ◌==◌, if◌then◌else◌,
}
use gudgeon.Prelude.Text.{Text, codes, is_empty}

-- The data of a record, for the types that the switches name; an address is its bytes, `none` is the
-- nil address.
pub data RecordData : Type 0 where
  a aaaa : Option (List ℕ) → RecordData
  ptr : Text → RecordData
  txt : List Text → RecordData
  cname : Text → RecordData
  soa : Text → RecordData
  generic : RecordData

-- dns.RR, not nil: its header and its data.
pub record Record : Type 0 where
  pub name : Text
  pub rrtype : ℕ
  pub ttl : ℕ
  pub body : RecordData

pub record Question : Type 0 where
  pub name : Text
  pub qtype : ℕ
  pub qclass : ℕ

-- dns.Msg
pub record Message : Type 0 where
  pub id : ℕ
  pub rcode : ℕ
  pub truncated : Bool
  pub question : List Question
  pub answer : List Record
  pub ns : List Record
  pub extra : List Record

-- dns.RcodeNameError and dns.TypeNone
abbrev pub rcode_name_error : ℕ
rcode_name_error = 3

abbrev pub type_none : ℕ
type_none = 0

-- How miekg/dns and net print what they hold.
pub record Printing : Type 0 where
  pub header_string : Record → Text
  pub record_string : Record → Text
  pub ip_string : List ℕ → Text
  pub type_string : ℕ → Text
  pub class_string : ℕ → Text

unfoldable pub is_none {ℓ} : {A : Type ℓ} → Option A → Bool
is_none none = true
is_none (some x) = false

-- strings.Join(parts, " ")
unfoldable pub join_space : List Text → Text
join_space [] = []
join_space (t ∷ []) = t
join_space (t ∷ u ∷ parts) = t ++ codes " " ++ join_space (u ∷ parts)

module _ (printing : Printing) where
  open printing use {header_string, record_string, ip_string, type_string}

  -- IsRecordEmpty
  unfoldable pub is_record_empty : Record → Bool
  unfolding is_none
  is_record_empty r = elim r.body [
    | a ip ↦ is_none ip
    | aaaa ip ↦ is_none ip
    | ptr t ↦ is_empty t
    | txt ts ↦ length ts == 0
    | cname t ↦ is_empty t
    | soa t ↦ is_empty t
    | generic ↦ leb (length (record_string r)) (length (header_string r))
  ]

  -- The inner loop of IsEmptyResponse: some record has a type and content.
  unfoldable pub some_content : List Record → Bool
  unfolding is_record_empty
  some_content [] = false
  some_content (r ∷ records) =
      (not (r.rrtype == type_none) && not (is_record_empty r)) || some_content records

  -- The outer loop: the first section that is not empty decides.
  unfoldable pub sections_empty : List (List Record) → Bool
  unfolding some_content
  sections_empty [] = true
  sections_empty ([] ∷ sections) = sections_empty sections
  sections_empty ((r ∷ records) ∷ sections) = not (some_content (r ∷ records))

  -- IsEmptyResponse; `none` is nil.
  unfoldable pub is_empty_response : Option Message → Bool
  unfolding sections_empty
  is_empty_response none = true
  is_empty_response (some m) =
      if m.rcode == rcode_name_error
      then true
      else if ltb (length m.answer) 1 && (ltb (length m.ns) 1 && ltb (length m.extra) 1)
      then true
      else sections_empty (m.answer ∷ m.ns ∷ m.extra ∷ [])

  -- The printed address, "" for nil.
  unfoldable pub address : Option (List ℕ) → Text
  address none = []
  address (some ip) = ip_string ip

  -- The loop of GetFirstIPResponse.
  unfoldable pub first_ip : List Record → Text
  first_ip [] = []
  first_ip (r ∷ records) =
      let rest = first_ip records in
      let shown : Option (List ℕ) → Text = λ ip. elim ip [ none ↦ rest | some b ↦ ip_string b ] in
      elim r.body [
        | a ip ↦ shown ip
        | aaaa ip ↦ shown ip
        | ptr t ↦ rest
        | txt ts ↦ rest
        | cname t ↦ rest
        | soa t ↦ rest
        | generic ↦ rest
      ]

  -- GetFirstIPResponse
  unfoldable pub get_first_ip_response : Option Message → Text
  unfolding is_empty_response first_ip
  get_first_ip_response none = []
  get_first_ip_response (some m) = if is_empty_response (some m) then [] else first_ip m.answer

  -- GetRecordValue
  unfoldable pub get_record_value : Record → Text
  unfolding address join_space
  get_record_value r =
      let other = type_string r.rrtype ++ codes "= " ++ record_string r in
      elim r.body [
        | a ip ↦ address ip
        | aaaa ip ↦ address ip
        | ptr t ↦ t
        | txt ts ↦ join_space ts
        | cname t ↦ other
        | soa t ↦ other
        | generic ↦ other
      ]

  -- The loop of GetAnswerValues.
  unfoldable pub answer_values : List Record → List Text
  unfolding get_record_value
  answer_values [] = []
  answer_values (r ∷ records) =
      let rest = answer_values records in
      if is_empty (get_record_value r) then rest else get_record_value r ∷ rest

  -- GetAnswerValues
  unfoldable pub get_answer_values : Option Message → List Text
  unfolding answer_values
  get_answer_values none = []
  get_answer_values (some m) = answer_values m.answer
