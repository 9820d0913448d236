-- ===== src/Tshark/Json.antt =====
-- pkg/tshark/packet.go and pgsql.go: JSON values as `encoding/json` gives them, and what the program
-- reads from them.
use localproxy.Base.{
  Bytes, codes, List, [], ◌∷◌, Option, none, some, Bool, false, ◌||◌, if◌then◌else◌, bytes_beq,
  bytes_eq,
}
use localproxy.Base.GoMap.{GoMap, lookup, put}
use localproxy.Base.Hex.{hex_decode}
use localproxy.Base.Text.{trim_prefix}

-- A number is kept as its text, which the program never reads.
mutual
  pub data Json : Type 0 where
    null : Json
    bool : Bool → Json
    number : Bytes → Json
    string : Bytes → Json
    array : Items → Json
    object : Entries → Json

  pub data Items : Type 0 where
    no_items : Items
    item : Json → Items → Items

  pub data Entries : Type 0 where
    no_entries : Entries
    entry : Bytes → Json → Entries → Entries

-- `map[string]any`
abbrev pub Fields : Type 0
Fields = GoMap Bytes Json

abbrev pub fields_of : Entries → Fields
fields_of no_entries = []
fields_of (entry key v entries) = (key, v) ∷ fields_of entries

abbrev pub items_of : Items → List Json
items_of no_items = []
items_of (item v items) = v ∷ items_of items

-- `json.Unmarshal` into a `map[string]any`, from the value that the text holds, if it is JSON.
abbrev pub as_fields : Option Json → Option Fields
as_fields (some (object entries)) = some (fields_of entries)
as_fields (some null) = some []
as_fields _ = none

abbrev pub text_or_empty : Option Json → Bytes
text_or_empty (some (string s)) = s
text_or_empty _ = []

-- `ekString`
abbrev pub ek_string : Fields → Bytes → Bytes
ek_string obj key = text_or_empty (lookup key obj)

abbrev pub truth : Option Json → Bool
truth (some (bool b)) = b
truth (some (string s)) = bytes_beq s (codes "1") || bytes_beq s (codes "true")
truth _ = false

-- `ekBool`
abbrev pub ek_bool : Fields → Bytes → Bool
ek_bool obj key = truth (lookup key obj)

-- `ekPayloadBytes`; a nil slice is an empty one.
abbrev pub ek_payload_bytes : Fields → Bytes → Bytes
ek_payload_bytes obj key = let s = ek_string obj key in if bytes_beq s [] then [] else hex_decode s

-- The strings among the items.
abbrev pub strings : List Json → List Bytes
strings [] = []
strings (string s ∷ items) = s ∷ strings items
strings (_ ∷ items) = strings items

abbrev pub texts : Option Json → List Bytes
texts (some (string s)) = s ∷ []
texts (some (array items)) = strings (items_of items)
texts _ = []

-- `ekStringSlice`
abbrev pub ek_string_slice : Fields → Bytes → List Bytes
ek_string_slice obj key = texts (lookup key obj)

-- The loop of `trimPrefixes`, on the result so far.
unfoldable pub trim_onto : Fields → Bytes → Fields → Fields
trim_onto [] prefix result = result
trim_onto ((key, v) ∷ obj) prefix result =
    trim_onto obj prefix (put (trim_prefix key prefix) v result)

abbrev pub trim_prefixes : Fields → Bytes → Fields
trim_prefixes obj prefix = trim_onto obj prefix []
