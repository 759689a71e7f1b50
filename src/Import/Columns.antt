-- ===== src/Import/Columns.antt =====
-- The columns of a file: `detect_columns` and `_resolve_header`.
use emailmarketing.Normalize.{at_sign}
use emailmarketing.Dict.{get, set}
use emailmarketing.Sending.SendOne.Message.{non_empty}
use emailmarketing.Models.{Fields}
use emailmarketing.Base.{
  ℕ, zero, suc, ◌+◌, Bool, true, false, ◌&&◌, ◌||◌, not, Option, none, some, List, [], ◌∷◌,
  if◌then◌else◌, ◌++◌, ◌/◌, ◌%◌, ltb, any, is_some,
}
use emailmarketing.Text.{◌==◌, Text, codes, contains, is_empty, lower, strip, mem}

-- the columns by their names; a header may lack any of them
pub record Mapping : Type 0 where
  pub email : Option Text
  pub first_name : Option Text
  pub last_name : Option Text

abbrev pub no_columns : Mapping
no_columns = record { email = none; first_name = none; last_name = none }

abbrev pub email_headers : List Text
email_headers =
    codes "email"
    ∷ codes "e-mail"
    ∷ codes "email address"
    ∷ codes "emailaddress"
    ∷ codes "email_address"
    ∷ codes "mail"
    ∷ []

abbrev pub first_headers : List Text
first_headers =
    codes "first_name"
    ∷ codes "first name"
    ∷ codes "firstname"
    ∷ codes "first"
    ∷ codes "fname"
    ∷ codes "given_name"
    ∷ codes "given name"
    ∷ []

abbrev pub last_headers : List Text
last_headers =
    codes "last_name"
    ∷ codes "last name"
    ∷ codes "lastname"
    ∷ codes "last"
    ∷ codes "lname"
    ∷ codes "surname"
    ∷ codes "family_name"
    ∷ codes "family name"
    ∷ []

-- the branches of the loop on one name
unfoldable pub detect_one : Text → Mapping → Mapping
detect_one name m =
    let low = lower (strip name) in
    if not (is_some m.email) && mem low email_headers
    then record m { email = some name }
    else if not (is_some m.first_name) && mem low first_headers
    then record m { first_name = some name }
    else if not (is_some m.last_name) && mem low last_headers
    then record m { last_name = some name }
    else m

unfoldable pub detect_loop : List Text → Mapping → Mapping
detect_loop [] m = m
detect_loop (name ∷ header) m = detect_loop header (detect_one name m)

-- a header of a single column is the address
unfoldable pub single_column : List Text → Mapping → Mapping
single_column (name ∷ []) m = if is_some m.email then m else record m { email = some name }
single_column header m = m

unfoldable pub detect_columns : List Text → Mapping
detect_columns header = single_column header (detect_loop header no_columns)

-- `if override.get(k): mapping[k] = override[k]`
unfoldable pub prefer : Option Text → Option Text → Option Text
prefer given old = elim (non_empty given) [ none ↦ old | some t ↦ some t ]

unfoldable pub override_mapping : Option Mapping → Mapping → Mapping
override_mapping none m = m
override_mapping (some o) m = record {
  email = prefer o.email m.email;
  first_name = prefer o.first_name m.first_name;
  last_name = prefer o.last_name m.last_name;
}

pub record Header : Type 0 where
  pub has_header : Bool
  pub colnames : List Text
  pub mapping : Mapping

unfoldable pub strip_all : List Text → List Text
strip_all [] = []
strip_all (c ∷ cs) = strip c ∷ strip_all cs

-- `str(i)`, with fuel for its digits
unfoldable pub digits : ℕ → ℕ → Text
digits zero n = []
digits (suc fuel) n =
    let rest = digits fuel (n / 10) in
    if ltb n 10 then (48 + n) ∷ [] else rest ++ (48 + n % 10) ∷ []

abbrev pub column_name : ℕ → Text
column_name i = codes "column_" ++ digits (suc i) i

unfoldable pub column_names : ℕ → List Text → List Text
column_names i [] = []
column_names i (c ∷ cs) = column_name i ∷ column_names (i + 1) cs

-- the name of the first cell with an `@`
unfoldable pub email_column : ℕ → List Text → Option Text
email_column i [] = none
email_column i (c ∷ cs) =
    let rest = email_column (i + 1) cs in if contains at_sign c then some (column_name i) else rest

unfoldable pub resolve_header : List Text → Option Mapping → Header
resolve_header first_row override =
    if any (λ c. contains at_sign c) first_row
    then record {
      has_header = false;
      colnames = column_names 0 first_row;
      mapping = record no_columns { email = email_column 0 first_row };
    }
    else record {
      has_header = true;
      colnames = strip_all first_row;
      mapping = override_mapping override (detect_columns (strip_all first_row));
    }

-- `dict(zip(colnames, raw))`
unfoldable pub zip_row : List Text → List Text → Fields → Fields
zip_row [] raw row = row
zip_row (n ∷ names) [] row = row
zip_row (n ∷ names) (v ∷ raw) row = zip_row names raw (set n v row)

-- `row.get(key)`, for a column that may be missing
unfoldable pub cell : Option Text → Fields → Option Text
cell none row = none
cell (some key) row = get key row

abbrev pub is_key : Text → Option Text → Bool
is_key k none = false
is_key k (some key) = k == key

-- the values of the columns that are not mapped
unfoldable pub custom_fields : Mapping → Fields → Fields
custom_fields m [] = []
custom_fields m ((k, v) ∷ row) =
    let rest = custom_fields m row in
    if is_key k m.email || is_key k m.first_name || is_key k m.last_name || is_empty v
    then rest
    else (k, v) ∷ rest
