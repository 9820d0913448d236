-- ===== src/Tshark/PgSql.antt =====
-- pkg/tshark/pgsql.go: the PostgreSQL messages of a packet.
pub mod Types
pub mod Columns
mod Tests
use localproxy.Base.{
  ℕ, ◌+◌, ℤ, Bytes, codes, List, [], ◌∷◌, Option, none, some, Bool, if◌then◌else◌, bytes_beq,
  bytes_eq, get_or, get_elem?,
}
use localproxy.Base.Atoi.{atoi}
use localproxy.Tshark.Json.{
  Json, null, bool, number, string, array, object, Fields, fields_of, items_of, ek_string,
  ek_string_slice, trim_onto, trim_prefixes,
}

pub record PgParameter : Type 0 where
  pub name : Bytes
  pub value : Bytes

pub record PgErrorFields : Type 0 where
  pub severity : Bytes
  pub code : Bytes
  pub message : Bytes
  pub file : Bytes
  pub line : Bytes
  pub routine : Bytes

pub record PgColumnDesc : Type 0 where
  pub name : Bytes
  pub table_oid : Bytes
  pub col_index : Bytes
  pub type_oid : Bytes
  pub type_mod : Bytes
  pub format : Bytes

-- `PgSQLMessage`: one constructor for each type that implements it, with the length last.
pub data PgMessage : Type 0 where
  pg_startup : List PgParameter → ℤ → PgMessage
  pg_auth_request : ℤ → ℤ → PgMessage
  pg_query : Bytes → ℤ → PgMessage
  pg_parse : Bytes → Bytes → ℤ → PgMessage  -- statement and query
  pg_bind : Bytes → Bytes → ℤ → PgMessage  -- portal and statement
  pg_error : PgErrorFields → ℤ → PgMessage
  pg_parameter_status : Bytes → Bytes → ℤ → PgMessage
  pg_row_description : List PgColumnDesc → ℤ → PgMessage
  pg_data_row : List Bytes → ℤ → PgMessage
  pg_unknown : Bytes → Fields → ℤ → PgMessage

-- `MessageType`
abbrev pub message_type : PgMessage → Bytes
message_type (pg_startup _ _) = codes "Startup message"
message_type (pg_auth_request _ _) = codes "Authentication request"
message_type (pg_query _ _) = codes "Simple query"
message_type (pg_parse _ _ _) = codes "Parse"
message_type (pg_bind _ _ _) = codes "Bind"
message_type (pg_error _ _) = codes "Error"
message_type (pg_parameter_status _ _ _) = codes "Parameter status"
message_type (pg_row_description _ _) = codes "Row description"
message_type (pg_data_row _ _) = codes "Data row"
message_type (pg_unknown t _ _) = t

-- The loop over the names of a startup message, from index `i`.
pub startup_parameters : ℕ → List Bytes → List Bytes → List PgParameter
startup_parameters i [] values = []
startup_parameters i (name ∷ names) values =
    let rest = startup_parameters (i + 1) names values in
    elim (get_elem? values i) [
      | none ↦ rest
      | some value ↦ record { name = name; value = value } ∷ rest
    ]

-- `if i < len(l) { field = l[i] }`, on a field that is empty.
abbrev pub text_at : List Bytes → ℕ → Bytes
text_at l i = get_or l i []

abbrev pub column : Fields → ℕ → Bytes → PgColumnDesc
column clean i name = record {
  name = name;
  table_oid = text_at (ek_string_slice clean (codes "oid_table")) i;
  col_index = text_at (ek_string_slice clean (codes "col_index")) i;
  type_oid = text_at (ek_string_slice clean (codes "oid_type")) i;
  type_mod = text_at (ek_string_slice clean (codes "col_typemod")) i;
  format = text_at (ek_string_slice clean (codes "format")) i;
}

-- The loop over the names of a row description, from index `i`.
pub columns : Fields → ℕ → List Bytes → List PgColumnDesc
columns clean i [] = []
columns clean i (name ∷ names) = column clean i name ∷ columns clean (i + 1) names

-- The `switch` over the type.
pub message_of : Bytes → ℤ → Fields → PgMessage
unfolding startup_parameters columns
message_of typ size clean =
    if bytes_beq typ (codes "Startup message")
    then pg_startup
        (startup_parameters 0 (ek_string_slice clean (codes "parameter_name"))
          (ek_string_slice clean (codes "parameter_value")))
        size
    else if bytes_beq typ (codes "Authentication request")
    then pg_auth_request (atoi (ek_string clean (codes "authtype"))) size
    else if bytes_beq typ (codes "Simple query")
    then pg_query (ek_string clean (codes "query")) size
    else if bytes_beq typ (codes "Parse")
    then pg_parse (ek_string clean (codes "statement")) (ek_string clean (codes "query")) size
    else if bytes_beq typ (codes "Bind")
    then pg_bind (ek_string clean (codes "portal")) (ek_string clean (codes "statement")) size
    else if bytes_beq typ (codes "Error")
    then pg_error
        (record {
          severity = ek_string clean (codes "severity");
          code = ek_string clean (codes "code");
          message = ek_string clean (codes "message");
          file = ek_string clean (codes "file");
          line = ek_string clean (codes "line");
          routine = ek_string clean (codes "routine");
        })
        size
    else if bytes_beq typ (codes "Parameter status")
    then pg_parameter_status (ek_string clean (codes "parameter_name"))
        (ek_string clean (codes "parameter_value")) size
    else if bytes_beq typ (codes "Row description")
    then pg_row_description (columns clean 0 (ek_string_slice clean (codes "col_name"))) size
    else if bytes_beq typ (codes "Data row")
    then pg_data_row (ek_string_slice clean (codes "val_data")) size
    else pg_unknown typ clean size

abbrev pub clean_fields : Fields → Fields
clean_fields m = trim_prefixes m (codes "pgsql_pgsql_")

-- The loop over the maps.
pub messages_of : List Fields → List PgMessage
unfolding message_of trim_onto
messages_of [] = []
messages_of (m ∷ maps) =
    let clean = clean_fields m in
    let typ = ek_string clean (codes "type") in
    let rest = messages_of maps in
    if bytes_beq typ []
    then rest
    else message_of typ (atoi (ek_string clean (codes "length"))) clean ∷ rest

-- The objects among the items of an array.
abbrev pub objects_among : List Json → List Fields
objects_among [] = []
objects_among (object entries ∷ items) = fields_of entries ∷ objects_among items
objects_among (_ ∷ items) = objects_among items

abbrev pub maps_of : Json → List Fields
maps_of (object entries) = fields_of entries ∷ []
maps_of (array items) = objects_among (items_of items)
maps_of _ = []

-- `parsePgSQLLayer`, with what the text of the layer holds; a nil slice is an empty one, and `none` an
-- error.
unfoldable pub parse_pgsql_layer : Option Json → Option (List PgMessage)
unfolding messages_of
parse_pgsql_layer none = none
parse_pgsql_layer (some pgsql) = some (messages_of (maps_of pgsql))
