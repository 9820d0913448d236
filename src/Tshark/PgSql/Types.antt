-- ===== src/Tshark/PgSql/Types.antt =====
-- Which messages `parsePgSQLLayer` makes.
use localproxy.Base.{
  ◌≡◌, ◌∙◌, refl, ap, ap₂, ◌++◌, append-nil, ℤ, Bytes, codes, List, [], ◌∷◌, map, some, Bool, not,
  if◌then◌else◌, bytes_beq, bytes_beq_iff, bytes_eq, keep_if, Bool-cases, inl, inr, arith,
}
use localproxy.Tshark.Json.{
  Json, null, bool, number, string, array, object, Items, no_items, item, Entries, Fields,
  fields_of, items_of, ek_string,
}
use localproxy.Tshark.PgSql.{
  PgMessage, message_type, message_of, clean_fields, messages_of, objects_among, maps_of,
  parse_pgsql_layer,
}

-- The text under the key of the type, with or without its prefix.
abbrev pub type_text : Fields → Bytes
type_text m = ek_string (clean_fields m) (codes "type")

abbrev pub has_type : Fields → Bool
has_type m = not (bytes_beq (type_text m) [])

-- One case of the `switch`.
type-if :
    (typ name : Bytes) (yes_message no_message : PgMessage)
    → message_type yes_message ≡ name
    → message_type no_message ≡ typ
    → message_type (if bytes_beq typ name then yes_message else no_message) ≡ typ
type-if typ name yes_message no_message e f = ground (arith, bytes_beq_iff typ name)

message_type-message_of :
    (typ : Bytes) (size : ℤ) (clean : Fields) → message_type (message_of typ size clean) ≡ typ
unfolding message_of
message_type-message_of typ size clean = type-if typ (codes "Startup message") _ _ refl (
    type-if typ (codes "Authentication request") _ _ refl (
      type-if typ (codes "Simple query") _ _ refl (
        type-if typ (codes "Parse") _ _ refl (
          type-if typ (codes "Bind") _ _ refl (
            type-if typ (codes "Error") _ _ refl (
              type-if typ (codes "Parameter status") _ _ refl (
                type-if typ (codes "Row description") _ _ refl
                  (type-if typ (codes "Data row") _ _ refl refl))))))))

messages_of-types :
    (maps : List Fields)
    → map message_type (messages_of maps) ≡ map type_text (keep_if has_type maps)
unfolding messages_of
messages_of-types [] = refl
messages_of-types (m ∷ maps) = elim (Bool-cases (bytes_beq (type_text m) [])) [
  | inl empty ↦ rw empty (messages_of-types maps)
  | inr typed ↦ rw typed (
      ap₂ (λ x xs. x ∷ xs) (message_type-message_of (type_text m) _ (clean_fields m))
        (messages_of-types maps))
]

-- The types of a layer, read off the value itself: an object has its own, and an array those of its items
-- that are objects. A type that is missing, empty or no text is none.
abbrev pub type_of : Entries → List Bytes
type_of entries =
    let typ = type_text (fields_of entries) in if bytes_beq typ [] then [] else typ ∷ []

abbrev pub types_among : Items → List Bytes
types_among no_items = []
types_among (item (object entries) items) = type_of entries ++ types_among items
types_among (item _ items) = types_among items

abbrev pub layer_types : Json → List Bytes
layer_types (object entries) = type_of entries
layer_types (array items) = types_among items
layer_types _ = []

keep_if-type_of :
    (entries : Entries) (maps : List Fields)
    → map type_text (keep_if has_type (fields_of entries ∷ maps))
      ≡ type_of entries ++ map type_text (keep_if has_type maps)
keep_if-type_of entries maps = elim (Bool-cases (bytes_beq (type_text (fields_of entries)) [])) [
  | inl empty ↦ rw empty refl
  | inr typed ↦ rw typed refl
]

objects_among-types :
    (items : Items)
    → map type_text (keep_if has_type (objects_among (items_of items))) ≡ types_among items
objects_among-types no_items = refl
objects_among-types (item (object entries) items) =
    keep_if-type_of entries (objects_among (items_of items))
    ∙ ap (λ l. type_of entries ++ l) (objects_among-types items)
objects_among-types (item null items) = objects_among-types items
objects_among-types (item (bool b) items) = objects_among-types items
objects_among-types (item (number n) items) = objects_among-types items
objects_among-types (item (string s) items) = objects_among-types items
objects_among-types (item (array l) items) = objects_among-types items

maps_of-types :
    (pgsql : Json) → map type_text (keep_if has_type (maps_of pgsql)) ≡ layer_types pgsql
maps_of-types null = refl
maps_of-types (bool b) = refl
maps_of-types (number n) = refl
maps_of-types (string s) = refl
maps_of-types (array items) = objects_among-types items
maps_of-types (object entries) = keep_if-type_of entries [] ∙ append-nil (type_of entries)

-- For a layer that is JSON there is one message for each object that has a type, be it the layer or an item
-- of the array that the layer is, in order, and `MessageType` gives that type.
pub parse_pgsql_layer-types :
    (pgsql : Json)
    → (messages : List PgMessage) × (parse_pgsql_layer (some pgsql) ≡ some messages)
      × (map message_type messages ≡ layer_types pgsql)
unfolding parse_pgsql_layer
parse_pgsql_layer-types pgsql =
    (messages_of (maps_of pgsql), refl, messages_of-types (maps_of pgsql) ∙ maps_of-types pgsql)
