-- ===== src/Cache/Samples.antt =====
-- Small inputs for the cache and the resolvers.
use gudgeon.Prelude.{
  ℕ, ◌+◌, ◌≤◌, ◌<◌, [], ◌∷◌, false, Option, none, some, ◌≡◌, refl, length, arith, leb,
  if◌then◌else◌,
}
use gudgeon.Prelude.Text.{Text, codes, same, same_refl}
use gudgeon.Prelude.Dict.{Dict, lookup, insert, lookup-insert}
use gudgeon.Util.Dns.{a, Message, Printing}
use gudgeon.Cache.{Envelope, Backer}

-- Printing that shows nothing but the record's data.
abbrev pub plain : Printing
plain = record {
  header_string = λ r. [];
  record_string = λ r. codes "record";
  ip_string = λ ip. ip;
  type_string = λ t. codes "A";
  class_string = λ c. codes "IN";
}

-- A backing cache that keeps each item with the last moment of its life.
abbrev pub alive : ℕ → Option (Envelope × ℕ) → Option Envelope
alive t none = none
alive t (some (e, last)) = if leb t last then some e else none

abbrev pub flushed : Dict (Envelope × ℕ) → Dict (Envelope × ℕ)
flushed s = []

pub set_live :
    (now t : ℕ) (k : Text) (e : Envelope) (duration : ℕ) (s : Dict (Envelope × ℕ))
    → t ≤ now + duration
    → alive t (lookup k (insert k (e, now + duration) s)) ≡ some e
set_live now t k e duration s h = rw (lookup-insert k k, same_refl k) (ground (arith, h))

pub set_expired :
    (now t : ℕ) (k : Text) (e : Envelope) (duration : ℕ) (s : Dict (Envelope × ℕ))
    → now + duration < t
    → alive t (lookup k (insert k (e, now + duration) s)) ≡ none
set_expired now t k e duration s h = rw (lookup-insert k k, same_refl k) (ground (arith, h))

pub set_other :
    (now t : ℕ) (k other : Text) (e : Envelope) (duration : ℕ) (s : Dict (Envelope × ℕ))
    → same k other ≡ false
    → alive t (lookup other (insert k (e, now + duration) s)) ≡ alive t (lookup other s)
set_other now t k other e duration s h = rw (lookup-insert k other, h)

pub nothing_kept : (t : ℕ) (k : Text) → alive t (lookup k (flushed [])) ≡ none
unfolding lookup
nothing_kept t k = refl

abbrev pub backer : Backer
backer = record {
  Items = Dict (Envelope × ℕ);
  new = [];
  set = λ now k e duration s. insert k (e, now + duration) s;
  get = λ t k s. alive t (lookup k s);
  item_count = λ s. length s;
  flush = flushed;
  get-set_live = set_live;
  get-set_expired = set_expired;
  get-set_other = set_other;
  get-new = nothing_kept;
  get-flush = λ t k s. nothing_kept t k;
}

-- A request, and a response with one address that lives for a minute.
abbrev pub asked : Message
asked = record {
  id = 7;
  rcode = 0;
  truncated = false;
  question = record { name = codes "A.org."; qtype = 1; qclass = 1 } ∷ [];
  answer = [];
  ns = [];
  extra = [];
}

abbrev pub answered : Message
answered = record asked {
  answer =
      record { name = codes "a.org."; rrtype = 1; ttl = 60; body = a (some (1 ∷ 2 ∷ 3 ∷ 4 ∷ [])) }
      ∷ [];
}

-- The same request of another asker.
abbrev pub again : Message
again = record asked { id = 9 }

abbrev pub elsewhere : Message
elsewhere = record asked { question = record { name = codes "b.org."; qtype = 1; qclass = 1 } ∷ [] }
