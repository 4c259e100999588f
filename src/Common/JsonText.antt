-- ===== src/Common/JsonText.antt =====
-- JSON values as far as the code builds and reads them, and `canonical_json` (src/app/_json.py): no
-- spaces, keys in the order of their characters, characters outside ASCII kept.
use Prim.Native.Nat.{ℕ, ◌/◌, ◌%◌}
use Prim.Native.Char.{Char, code}
use Prim.Native.String.{String, ◌++◌ as append}
use mathlib.Core.Option.{Option, none, some}
use mathlib.Core.List.{List, [], ◌∷◌, map}
use portfolio_management.Common.Tests.{ltb, ◌==◌, if◌then◌else◌, str_eq, str_lt, join_text}
use portfolio_management.Common.Lists.{get_or}

-- `raw_json` is a value that the code only passes on, by its canonical text.
mutual
  pub data Json : Type 0 where
    null_json : Json
    text_json : String → Json
    texts_json : List String → Json
    raw_json : String → Json
    object_json : Members → Json

  pub data Members : Type 0 where
    end : Members
    member : String → Json → Members → Members

-- `d[k] = v`
abbrev pub set_member : String → Json → Members → Members
set_member k v end = member k v end
set_member k v (member j w d) =
    let rest = set_member k v d in if str_eq j k then member j v d else member j w rest

-- `{**d, **e}`
abbrev pub merge : Members → Members → Members
merge d end = d
merge d (member k v e) = merge (set_member k v d) e

-- `d.get(k)`
abbrev pub get_member : String → Members → Option Json
get_member k end = none
get_member k (member j v d) = let rest = get_member k d in if str_eq j k then some v else rest

-- The members of a value that is an object; any other value has none.
abbrev pub members : Json → Members
members (object_json d) = d
members _ = end

abbrev pub members_of : Option Json → Members
members_of none = end
members_of (some j) = members j

-- `x if x is not None else None`, as a value
abbrev pub nullable_text : Option String → Json
nullable_text none = null_json
nullable_text (some s) = text_json s

hex_digit : ℕ → String
hex_digit n =
    get_or
      ("0" ∷ "1" ∷ "2" ∷ "3" ∷ "4" ∷ "5" ∷ "6" ∷ "7" ∷ "8" ∷ "9" ∷ "a" ∷ "b" ∷ "c" ∷ "d" ∷ "e" ∷ "f"
        ∷ [])
      n "0"

escape_char : Char → String
unfolding hex_digit
escape_char c =
    if code c == 34
    then "\\\""
    else if code c == 92
    then "\\\\"
    else if code c == 10
    then "\\n"
    else if code c == 13
    then "\\r"
    else if code c == 9
    then "\\t"
    else if code c == 12
    then "\\f"
    else if code c == 8
    then "\\b"
    else if ltb (code c) 32
    then join_text ("\\u00" ∷ hex_digit (code c / 16) ∷ hex_digit (code c % 16) ∷ [])
    else String.◌∷◌ c String.[]

escape_text : String → String
unfolding escape_char
escape_text String.[] = String.[]
escape_text (String.◌∷◌ c s) = append (escape_char c) (escape_text s)

unfoldable pub quote_text : String → String
unfolding escape_text
quote_text s = join_text ("\"" ∷ escape_text s ∷ "\"" ∷ [])

-- the texts with commas between them
unfoldable pub commas : List String → String
commas [] = ""
commas (s ∷ []) = s
commas (s ∷ t ∷ rest) = join_text (s ∷ "," ∷ commas (t ∷ rest) ∷ [])

insert_key : String → String → List (String × String) → List (String × String)
insert_key k v [] = (k, v) ∷ []
insert_key k v ((j, w) ∷ d) =
    let rest = insert_key k v d in if str_lt k j then (k, v) ∷ (j, w) ∷ d else (j, w) ∷ rest

print_member : String × String → String
unfolding quote_text
print_member (k, v) = join_text (quote_text k ∷ ":" ∷ v ∷ [])

unfoldable mutual
  unfolding quote_text commas insert_key print_member

  pub canonical_json : Json → String
  canonical_json null_json = "null"
  canonical_json (text_json s) = quote_text s
  canonical_json (texts_json ss) = join_text ("[" ∷ commas (map quote_text ss) ∷ "]" ∷ [])
  canonical_json (raw_json s) = s
  canonical_json (object_json d) =
      join_text ("{" ∷ commas (map print_member (sorted_members d)) ∷ "}" ∷ [])

  pub sorted_members : Members → List (String × String)
  sorted_members end = []
  sorted_members (member k v d) = insert_key k (canonical_json v) (sorted_members d)
