-- ===== src/Dns/Query.antt =====
-- Which reply `handleQuery` writes.
use localproxy.Base.{
  ℕ, ◌≡◌, refl, sym, ap, ◌∙◌, Bytes, List, [], ◌∷◌, ◌++◌, append_assoc, append-nil, Option, none,
  some, Bool, true, false, ◌&&◌, if◌then◌else◌, is_some, Bool-cases, Option-cases, inl, inr, arith,
}
use localproxy.Base.Text.{to_lower}
use localproxy.Dns.{
  QuestionType, a, aaaa, other, Question, Answer, answered, relayed, server_failure,
  is_internal_domain, handle_internal, handle_forward, answer_all, handle_query,
}

-- Every question is for an internal name, in any case.
abbrev pub all_internal : List Question → Bool
all_internal [] = true
all_internal (q ∷ questions) = is_internal_domain (to_lower q.name) && all_internal questions

abbrev pub is_a : QuestionType → Bool
is_a a = true
is_a aaaa = false
is_a other = false

-- One A record for each A question, with the name as it was asked for.
abbrev pub records : ℕ → List Question → List Answer
records address [] = []
records address (q ∷ questions) =
    let rest = records address questions in
    if is_a q.kind then record { name = q.name; address = address } ∷ rest else rest

abbrev pub records_of : Option ℕ → List Question → List Answer
records_of none questions = []
records_of (some address) questions = records address questions

handle_internal_lem :
    (host : Option ℕ) (q : Question) (questions : List Question) (answers : List Answer)
    → handle_internal host q answers ++ records_of host questions
      ≡ answers ++ records_of host (q ∷ questions)
unfolding handle_internal
handle_internal_lem none q questions answers = ground arith
handle_internal_lem (some address) q questions answers = ground (
  arith,
  append_assoc answers (record { name = q.name; address = address } ∷ [])
      (records address questions),
)

module _ {ℓ} {R : Type ℓ} (exchange : Bytes → Option R) where
  answer_all-internal :
      (host : Option ℕ) (upstream : List Bytes) (questions : List Question) (answers : List Answer)
      → answer_all exchange host upstream questions answers ≡ (
          if all_internal questions
          then answered (answers ++ records_of host questions)
          else handle_forward exchange upstream)
  unfolding answer_all
  answer_all-internal none upstream [] answers = ap answered (sym (append-nil answers))
  answer_all-internal (some address) upstream [] answers = ap answered (sym (append-nil answers))
  answer_all-internal host upstream (q ∷ questions) answers =
      elim (Bool-cases (is_internal_domain (to_lower q.name))) [
        | inr outside ↦ rw outside refl
        | inl inside ↦ rw inside (
            answer_all-internal host upstream questions (handle_internal host q answers)
            ∙ ap
                (λ l.
                  if all_internal questions then answered l else handle_forward exchange upstream)
                (handle_internal_lem host q questions answers))
      ]

  -- A name server is asked that gives a response.
  abbrev pub first_response : List Bytes → Option R
  first_response [] = none
  first_response (ns ∷ upstream) =
      let later = first_response upstream in if is_some (exchange ns) then exchange ns else later

  handle_forward-first :
      (upstream : List Bytes)
      → handle_forward exchange upstream ≡ elim (first_response upstream) [
        | none ↦ server_failure
        | some response ↦ relayed response
      ]
  unfolding handle_forward
  handle_forward-first [] = refl
  handle_forward-first (ns ∷ upstream) = elim (Option-cases (exchange ns)) [
    | inl silent ↦ rw (handle_forward, silent) (handle_forward-first upstream)
    | inr (response, e) ↦ rw (handle_forward, e) refl
  ]

  -- A query from a client whose address can be read, with internal names only, in whatever case, gets
  -- one A record for each of its A questions, in order, with the name as it was asked for, or none at
  -- all if the host has no IPv4 address. Any other query is passed on as a whole: the reply is the
  -- response of the first name server that gives one, or a failure if none does.
  pub handle_query_lem :
      (addressed : Bool) (host : Option ℕ) (upstream : List Bytes) (questions : List Question)
      → handle_query exchange addressed host upstream questions ≡ (
          if addressed && all_internal questions
          then answered (records_of host questions)
          else elim (first_response upstream) [
            | none ↦ server_failure
            | some response ↦ relayed response
          ])
  unfolding handle_query
  handle_query_lem true host upstream questions =
      answer_all-internal host upstream questions []
      ∙ ap (λ r. if all_internal questions then answered (records_of host questions) else r)
          (handle_forward-first upstream)
  handle_query_lem false host upstream questions = handle_forward-first upstream
