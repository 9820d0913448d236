-- ===== src/Dns.antt =====
-- internal/dns/server.go: how a query is answered. The DNS client is the argument `exchange`, from the
-- address of a name server to its response, if it gives one; `R` is the type of a response.
pub mod Query
mod Tests
use localproxy.Base.{
  keep_if, map, not, ℕ, ◌+◌, Bytes, codes, List, [], ◌∷◌, ◌++◌, map, Option, none, some, Bool, true,
  false, ◌&&◌, ◌||◌, not, if◌then◌else◌, bytes_beq, leb,
}
use localproxy.Base.Text.{to_lower, has_suffix, has_byte}

-- The types of a question that are told apart.
pub data QuestionType : Type 0 where
  a : QuestionType
  aaaa : QuestionType
  other : QuestionType

pub record Question : Type 0 where
  pub name : Bytes
  pub kind : QuestionType  -- the field `Qtype`

-- An A record, with the name and the four bytes of the address as a number; its TTL is always 60.
pub record Answer : Type 0 where
  pub name : Bytes
  pub address : ℕ

-- The message that is written: the authoritative reply with its answers, the response of a name
-- server, or a failure.
pub data Reply {ℓ} (R : Type ℓ) : Type ℓ where
  answered : List Answer → Reply R
  relayed : R → Reply R
  server_failure : Reply R

abbrev pub is_internal_domain : Bytes → Bool
is_internal_domain name = bytes_beq name (codes "internal.") || has_suffix (codes ".internal.") name

-- `handleInternal`, on the answers so far; `host` is `hostIP.To4()`.
pub handle_internal : Option ℕ → Question → List Answer → List Answer
handle_internal host q answers = elim q.kind [
  | a ↦ elim host [
    | none ↦ answers
    | some address ↦ answers ++ (record { name = q.name; address = address } ∷ [])
  ]
  | aaaa ↦ answers
  | other ↦ answers
]

module _ {ℓ} {R : Type ℓ} (exchange : Bytes → Option R) where
  -- `handleForward`, with the name servers of `upstreamNS`.
  pub handle_forward : List Bytes → Reply R
  handle_forward [] = server_failure
  handle_forward (ns ∷ upstream) = elim (exchange ns) [
    | none ↦ handle_forward upstream
    | some response ↦ relayed response
  ]

  -- The loop over the questions.
  pub answer_all : Option ℕ → List Bytes → List Question → List Answer → Reply R
  answer_all host upstream [] answers = answered answers
  answer_all host upstream (q ∷ questions) answers =
      let rest = answer_all host upstream questions (handle_internal host q answers) in
      if is_internal_domain (to_lower q.name) then rest else handle_forward upstream

  -- `handleQuery`; the Boolean says whether the address of the client can be read.
  pub handle_query : Bool → Option ℕ → List Bytes → List Question → Reply R
  unfolding answer_all
  handle_query addressed host upstream questions =
      if addressed then answer_all host upstream questions [] else handle_forward upstream

-- `net.JoinHostPort`
abbrev pub join_host_port : Bytes → Bytes → Bytes
join_host_port host port =
    if has_byte b':' host
    then codes "[" ++ (host ++ (codes "]:" ++ port))
    else host ++ (b':' ∷ port)

abbrev own_resolver : Bytes → Bool
own_resolver s = bytes_beq s (codes "127.0.0.1") || bytes_beq s (codes "::1")

-- `readUpstreamNameservers`, from the servers and the port of /etc/resolv.conf.
pub read_upstream_nameservers : Option (List Bytes × Bytes) → List Bytes
read_upstream_nameservers none = []
read_upstream_nameservers (some (servers, port)) =
    map (λ s. join_host_port s port) (keep_if (λ s. not (own_resolver s)) servers)

-- `upstreamNS` of a new server.
pub upstream_of : Option (List Bytes × Bytes) → List Bytes
unfolding read_upstream_nameservers
upstream_of config = elim (read_upstream_nameservers config) [
  | [] ↦ codes "8.8.8.8:53" ∷ codes "8.8.4.4:53" ∷ []
  | s ∷ servers ↦ s ∷ servers
]
