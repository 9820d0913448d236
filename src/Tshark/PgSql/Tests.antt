-- ===== src/Tshark/PgSql/Tests.antt =====
-- PostgreSQL messages on small inputs, and the theorem at a concrete input.
use localproxy.Base.{◌≡◌, refl, pos, codes, List, [], ◌∷◌, map, some, bytes_eq}
use localproxy.Base.Atoi.{atoi}
use localproxy.Base.Uint.{scan_uint}
use localproxy.Tshark.Json.{
  Json, null, string, array, object, no_items, item, no_entries, entry, Fields, trim_onto,
}
use localproxy.Tshark.PgSql.{
  columns, column, pg_row_description, PgMessage, pg_query, message_type, message_of,
  startup_parameters, parse_pgsql_layer,
}
use localproxy.Tshark.PgSql.Types.{parse_pgsql_layer-types}

-- A query, something that is no object, and an object without a type.
abbrev sample_layer : Json
sample_layer = array (
    item
      (object (
        entry (codes "pgsql_pgsql_type") (string (codes "Simple query")) (
          entry (codes "pgsql_pgsql_length") (string (codes "12"))
            (entry (codes "pgsql_pgsql_query") (string (codes "select")) no_entries))))
      (item null (item (object (entry (codes "pgsql_text") null no_entries)) no_items)))

reads_query : parse_pgsql_layer (some sample_layer) ≡ some (pg_query (codes "select") (pos 12) ∷ [])
unfolding parse_pgsql_layer trim_onto message_of atoi scan_uint
reads_query = refl

-- A parameter without a value is dropped.
pairs_parameters :
    startup_parameters 0 (codes "user" ∷ codes "database" ∷ []) (codes "shop" ∷ [])
    ≡ record { name = codes "user"; value = codes "shop" } ∷ []
unfolding startup_parameters
pairs_parameters = refl

parse_pgsql_layer-types_example :
    (messages : List PgMessage) × (parse_pgsql_layer (some sample_layer) ≡ some messages)
    × (map message_type messages ≡ codes "Simple query" ∷ [])
unfolding trim_onto
parse_pgsql_layer-types_example = parse_pgsql_layer-types sample_layer

abbrev description : Fields
description =
    (codes "col_name", array (item (string (codes "id")) (item (string (codes "name")) no_items)))
    ∷ (codes "oid_type", string (codes "23"))
    ∷ []

-- A row description has a column for each name.
short_types :
    message_of (codes "Row description") (pos 2) description
    ≡ pg_row_description
        (column description 0 (codes "id") ∷ column description 1 (codes "name") ∷ [])
        (pos 2)
unfolding message_of columns
short_types = refl
