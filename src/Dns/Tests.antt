-- ===== src/Dns/Tests.antt =====
-- Queries on small inputs, and the theorem at a concrete input.
use localproxy.Base.{
  ℕ, ◌≡◌, refl, Bytes, codes, List, [], ◌∷◌, Option, none, some, true, bytes_beq, if◌then◌else◌,
}
use localproxy.Dns.{
  upstream_of, read_upstream_nameservers, QuestionType, a, aaaa, Question, answered, relayed,
  handle_forward, answer_all, handle_query,
}
use localproxy.Dns.Query.{handle_query_lem}

abbrev question : Bytes → QuestionType → Question
question name kind = record { name = name; kind = kind }

-- The second name server gives a response.
abbrev exchange : Bytes → Option ℕ
exchange ns = if bytes_beq ns (codes "8.8.4.4:53") then some 7 else none

abbrev upstream : List Bytes
upstream = codes "8.8.8.8:53" ∷ codes "8.8.4.4:53" ∷ []

-- One name that is not internal, and the whole query is passed on.
mixed :
    handle_query exchange true
      (some 1)
      upstream
      (question (codes "shop.internal.") a ∷ question (codes "example.com.") a ∷ [])
    ≡ relayed 7
unfolding handle_query answer_all handle_forward
mixed = refl

handle_query_lem_example :
    handle_query exchange true
      (some 3232235777)
      upstream
      (question (codes "Shop.INTERNAL.") a ∷ question (codes "internal.") aaaa ∷ [])
    ≡ answered (record { name = codes "Shop.INTERNAL."; address = 3232235777 } ∷ [])
handle_query_lem_example =
    handle_query_lem exchange true (some 3232235777) upstream
      (question (codes "Shop.INTERNAL.") a ∷ question (codes "internal.") aaaa ∷ [])

-- The machine's own resolver is left out, and an IPv6 address gets its brackets.
reads_upstream :
    upstream_of (some (codes "127.0.0.1" ∷ codes "fe80::1" ∷ codes "9.9.9.9" ∷ [], codes "53"))
    ≡ codes "[fe80::1]:53" ∷ codes "9.9.9.9:53" ∷ []
unfolding upstream_of read_upstream_nameservers
reads_upstream = refl

default_upstream :
    upstream_of (some (codes "::1" ∷ [], codes "53")) ≡ codes "8.8.8.8:53" ∷ codes "8.8.4.4:53" ∷ []
unfolding upstream_of read_upstream_nameservers
default_upstream = refl
