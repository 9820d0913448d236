-- ===== src/Tshark/PgSql/Columns.antt =====
-- The columns of a row description and the parameters of a startup message.
use localproxy.Base.{
  ℕ, zero, suc, ◌+◌, ◌≡◌, refl, ap, ◌∙◌, ℤ, Bytes, codes, List, [], ◌∷◌, get_elem?, none, some,
  bytes_eq, arith,
}
use localproxy.Tshark.Json.{Fields, ek_string_slice}
use localproxy.Tshark.PgSql.{pg_row_description, PgColumnDesc, column, columns, message_of}

get_elem?-columns :
    (clean : Fields) (j : ℕ) (names : List Bytes) (i : ℕ)
    → get_elem? (columns clean j names) i
      ≡ elim (get_elem? names i) [ none ↦ none | some name ↦ some (column clean (j + i) name) ]
unfolding columns
get_elem?-columns clean j [] i = refl
get_elem?-columns clean j (name ∷ names) zero =
    ap (λ k. some (column clean k name)) {x = j} (omega arith)
get_elem?-columns clean j (name ∷ names) (suc i) =
    get_elem?-columns clean (j + 1) names i
    ∙ ap (λ k. elim (get_elem? names i) [ none ↦ none | some name' ↦ some (column clean k name') ])
        {x = j + 1 + i} (omega arith)

-- A row description has a column for each name and no other. The column at a position has the name and
-- the table, index, type, modifier and format at that position of their lists, and an empty text where
-- such a list is shorter than the names.
message_of-columns :
    (size : ℤ) (clean : Fields)
    → (cols : List PgColumnDesc) × (message_of (codes "Row description") size clean
        ≡ pg_row_description cols size)
      × ((i : ℕ)
          → get_elem? cols i ≡ elim (get_elem? (ek_string_slice clean (codes "col_name")) i) [
            | none ↦ none
            | some name ↦ some (column clean i name)
          ])
unfolding message_of
message_of-columns size clean =
    let names = ek_string_slice clean (codes "col_name") in
    (
      columns clean 0 names,
      refl,
      λ i.
          get_elem?-columns clean 0 names i
          ∙ ap
              (λ k. elim (get_elem? names i) [
                | none ↦ none
                | some name ↦ some (column clean k name)
              ])
              {x = 0 + i} (omega arith),
    )
