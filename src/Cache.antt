-- ===== src/Cache.antt =====
-- cache/cache.go: the response cache, with one backing cache for each partition.
pub mod Laws
pub mod Samples
mod Tests
use gudgeon.Prelude.{
  ℕ, ◌+◌, ◌-◌, ◌*◌, ◌/◌, ◌%◌, ◌≤◌, ◌<◌, List, [], ◌∷◌, ◌++◌, map, Bool, true, false, ◌||◌, ◌≡◌,
  Option, none, some, length, ltb, leb, if◌then◌else◌,
}
use gudgeon.Prelude.Text.{Text, codes, is_empty, to_lower, same}
use gudgeon.Prelude.Dict.{Dict, lookup, insert}
use gudgeon.Util.Dns.{Record, Question, Message, Printing, is_empty_response}

-- envelope; a time is a number of nanoseconds.
pub record Envelope : Type 0 where
  pub message : Message
  pub time : ℕ

abbrev pub second : ℕ
second = 1000000000

-- patrickmn/go-cache, which is not the repository's. An item is found until the nanosecond after its
-- duration has passed, a write to one key leaves the others, and a flush leaves nothing.
pub record Backer : Type 1 where
  pub Items : Type 0
  pub new : Items
  pub set : ℕ → Text → Envelope → ℕ → Items → Items
  pub get : ℕ → Text → Items → Option Envelope
  pub item_count : Items → ℕ
  pub flush : Items → Items
  pub get-set_live :
      (now t : ℕ) (key : Text) (e : Envelope) (duration : ℕ) (s : Items)
      → t ≤ now + duration
      → get t key (set now key e duration s) ≡ some e
  pub get-set_expired :
      (now t : ℕ) (key : Text) (e : Envelope) (duration : ℕ) (s : Items)
      → now + duration < t
      → get t key (set now key e duration s) ≡ none
  pub get-set_other :
      (now t : ℕ) (key other : Text) (e : Envelope) (duration : ℕ) (s : Items)
      → same key other ≡ false
      → get t other (set now key e duration s) ≡ get t other s
  pub get-new : (t : ℕ) (key : Text) → get t key new ≡ none
  pub get-flush : (t : ℕ) (key : Text) (s : Items) → get t key (flush s) ≡ none

abbrev pub dns_max_ttl : ℕ
dns_max_ttl = 604800

-- min
unfoldable pub min : ℕ → ℕ → ℕ
min m n = if leb m n then m else n

-- minTTL
unfoldable pub min_ttl : ℕ → List Record → ℕ
unfolding min
min_ttl current_min [] = current_min
min_ttl current_min (r ∷ records) = min_ttl (min current_min r.ttl) records

-- adjustTtls, which writes to the records of a copy
unfoldable pub adjust_ttl : ℕ → Record → Record
adjust_ttl time_delta r = record r { ttl = if ltb time_delta r.ttl then r.ttl - time_delta else 0 }

unfoldable pub adjust_ttls : ℕ → List Record → List Record
unfolding adjust_ttl
adjust_ttls time_delta records = map (adjust_ttl time_delta) records

-- The lifetime of Store: the lowest of the first section that holds a record.
unfoldable pub lifetime : Message → ℕ
unfolding min_ttl
lifetime m =
    if ltb (length m.answer) 1
    then (if ltb (length m.ns) 1 then min_ttl dns_max_ttl m.extra else min_ttl dns_max_ttl m.ns)
    else min_ttl dns_max_ttl m.answer

module _ (printing : Printing) where
  open printing use {type_string, class_string}

  -- `_keyPattern` for one question
  unfoldable pub key_part : Question → Text
  key_part q = q.name ++ codes "|" ++ class_string q.qclass ++ codes "|" ++ type_string q.qtype

  -- The loop over many questions, behind the first.
  unfoldable pub key_rest : List Question → Text
  unfolding key_part
  key_rest [] = []
  key_rest (q ∷ questions) = codes "|" ++ key_part q ++ key_rest questions

  -- key
  unfoldable pub key : List Question → Text
  unfolding key_rest
  key [] = []
  key (q ∷ []) = to_lower (key_part q)
  key (q ∷ r ∷ questions) = to_lower (key_part q ++ key_rest (r ∷ questions))

  module _ (backer : Backer) where
    open backer use {Items, new, set, get, item_count, flush}

    -- gocache, less its locks and its pool of builders: the backers by partition.
    abbrev pub Cache : Type 0
    Cache = Dict Items

    abbrev pub or_new : Option Items → Items
    or_new none = new
    or_new (some s) = s

    -- Store behind its guards; `now` is the clock at the envelope and `set_at` that of the backer.
    unfoldable pub put : ℕ → ℕ → Text → Text → Message → Cache → Bool × Cache
    put now set_at partition k response c = (
      true,
      insert partition
          (set set_at k (record { message = response; time = now }) (lifetime response * second)
            (or_new (lookup partition c)))
          c,
    )

    -- Store
    unfoldable pub store : ℕ → ℕ → Text → Message → Option Message → Cache → Bool × Cache
    unfolding put is_empty_response key lifetime
    store now set_at partition request none c = (false, c)
    store now set_at partition request (some response) c =
        if is_empty_response printing (some response) || response.truncated
        then (false, c)
        else if ltb 0 (lifetime response)
        then (if is_empty (key request.question)
            then (false, c)
            else put now set_at partition (key request.question) response c)
        else (false, c)

    -- Query's answer for an item: a copy with the id of the request and its times to live counted down
    -- by the seconds that have passed, as a number of 32 bits.
    unfoldable pub aged : ℕ → ℕ → Envelope → Message
    unfolding adjust_ttls
    aged now id e =
        let seconds = (now - e.time) / second % 4294967296 in
        record e.message {
          id = id;
          answer = adjust_ttls seconds e.message.answer;
          ns = adjust_ttls seconds e.message.ns;
          extra = adjust_ttls seconds e.message.extra;
        }

    -- Query once the item was looked up.
    unfoldable pub served : ℕ → ℕ → Option Envelope → Option Message
    unfolding aged is_empty_response
    served now id none = none
    served now id (some e) =
        if is_empty_response printing (some e.message) then none else some (aged now id e)

    -- Query; `get_at` is the clock of the backer, `now` that of the count down.
    unfoldable pub query : ℕ → ℕ → Text → Message → Cache → Option Message
    unfolding served key
    query get_at now partition request c =
        if is_empty (key request.question) then none else elim (lookup partition c) [
          | none ↦ none
          | some s ↦ served now request.id (get get_at (key request.question) s)
        ]

    -- Size, a number of 32 bits
    unfoldable pub size : Cache → ℕ
    size [] = 0
    size ((partition, s) ∷ c) = (item_count s % 4294967296 + size c) % 4294967296

    -- Clear
    unfoldable pub clear : Cache → Cache
    clear [] = []
    clear ((partition, s) ∷ c) = (partition, flush s) ∷ clear c
