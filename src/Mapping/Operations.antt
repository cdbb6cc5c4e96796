-- ===== src/Mapping/Operations.antt =====
-- pfp_core/ext/mapping: built-in operations on one value. None stands for a `ValueError` or a `TypeError`. `str(value)` of an
-- object that is not a text is a parameter, and `int` has no limit on digits.
use Prim.Native.Nat.{zero, suc}
use product_feed_protocol.Prelude.{
  ℕ, String, Bool, true, false, Option, none, some, List, [], ◌∷◌, ◌==◌, nat_eq, string_eq, any,
  leb, ltb, if◌then◌else◌,
}
use product_feed_protocol.Dict.{lookup}
use product_feed_protocol.Text.{
  ◌⧺◌, codes, split, is_empty, strip_text, lower_text, upper_text, take_text, text_length, rfind,
  collapse_whitespace,
}
use product_feed_protocol.Value.{
  value, omit, null, ℤ, pos, negsuc, Value, missing, none', bool, int, float, str, list, emission,
  items,
}
use product_feed_protocol.Mapping.{MappingOp, read_digits, extract_segments}

abbrev pub is_one_of : List String → String → Bool
is_one_of names s = any (λ name. name == s) names

-- An operation on texts that gives back `MISSING` and None.
abbrev pub map_text : (String → String) → MappingOp
map_text f missing args = some missing
map_text f none' args = some none'
map_text f (str s) args = some (str (f s))
map_text f _ args = none

-- `_trim`
unfoldable pub trim : MappingOp
unfolding strip_text
trim = map_text strip_text

-- `_upper`
unfoldable pub upper : MappingOp
unfolding upper_text
upper = map_text upper_text

-- `_lower`
unfoldable pub lower : MappingOp
unfolding lower_text
lower = map_text lower_text

abbrev collapse_and_strip : String → String
collapse_and_strip s = strip_text (collapse_whitespace s)

-- `_normalize_whitespace`
unfoldable pub normalize_whitespace : MappingOp
unfolding collapse_whitespace strip_text
normalize_whitespace = map_text collapse_and_strip

-- `_default_value`
unfoldable pub default_value : MappingOp
unfolding lookup
default_value v args = elim (lookup "value" args) [
  | none ↦ none
  | some default ↦ elim v [ missing ↦ some default | none' ↦ some default | present ↦ some present ]
]

-- `_emit_null_if_missing`
unfoldable pub emit_null_if_missing : MappingOp
emit_null_if_missing v args = some (emission null)

-- `_omit_if_missing`
unfoldable pub omit_if_missing : MappingOp
omit_if_missing v args = some (emission omit)

abbrev availability : Bool → Value
availability is_available = str (if is_available then "in_stock" else "out_of_stock")

-- The texts of a Boolean: those that are true, those that are false.
abbrev bool_of : List String → List String → String → Option Bool
bool_of trues falses s =
    if is_one_of trues s then some true else if is_one_of falses s then some false else none

abbrev bool_of_int : ℤ → Option Bool
bool_of_int (pos zero) = some false
bool_of_int (pos (suc zero)) = some true
bool_of_int _ = none

abbrev pub map_some : {A B : Type 0} → (A → B) → Option A → Option B
map_some f none = none
map_some f (some a) = some (f a)

-- `_bool_to_availability`
unfoldable pub bool_to_availability : MappingOp
unfolding strip_text lower_text
bool_to_availability missing args = some missing
bool_to_availability none' args = some none'
bool_to_availability (bool b) args = some (availability b)
bool_to_availability (str s) args =
    map_some availability
      (bool_of ("true" ∷ "1" ∷ "yes" ∷ []) ("false" ∷ "0" ∷ "no" ∷ []) (lower_text (strip_text s)))
bool_to_availability (int n) args = map_some availability (bool_of_int n)
bool_to_availability _ args = none

-- `_int_to_availability`
unfoldable pub int_to_availability : MappingOp
int_to_availability missing args = some missing
int_to_availability none' args = some (str "out_of_stock")
int_to_availability (int (pos n)) args = some (availability (ltb 0 n))
int_to_availability (int (negsuc n)) args = some (availability false)
int_to_availability _ args = none

-- `_to_bool`
unfoldable pub to_bool : MappingOp
unfolding strip_text lower_text
to_bool missing args = some missing
to_bool none' args = some none'
to_bool (bool b) args = some (bool b)
to_bool (int n) args = map_some bool (bool_of_int n)
to_bool (str s) args = map_some bool (
    bool_of ("true" ∷ "1" ∷ "yes" ∷ "y" ∷ "on" ∷ []) ("false" ∷ "0" ∷ "no" ∷ "n" ∷ "off" ∷ [])
      (lower_text (strip_text s)))
to_bool _ args = none

abbrev negated : ℕ → ℤ
negated zero = pos 0
negated (suc n) = negsuc n

-- `int(s)` of a text without spaces around it.
unfoldable pub parse_int : List ℕ → Option ℤ
unfolding read_digits
parse_int [] = none
parse_int (c ∷ cs) =
    if c == b'-'
    then map_some negated (read_digits false 0 cs)
    else if c == b'+'
    then map_some pos (read_digits false 0 cs)
    else map_some pos (read_digits false 0 (c ∷ cs))

-- `_to_int`
unfoldable pub to_int : MappingOp
unfolding strip_text parse_int
to_int missing args = some missing
to_int none' args = some none'
to_int (int n) args = some (int n)
to_int (str s) args =
    let stripped = strip_text s in
    if is_empty stripped then none else map_some int (parse_int (codes stripped))
to_int _ args = none

-- The argument `path`, if it is a text that is not empty.
abbrev path_of : Option Value → Option String
path_of (some (str s)) = if is_empty s then none else some s
path_of _ = none

-- `_get_path`, whose loop is that of `_extract_by_source_path`.
unfoldable pub get_path : MappingOp
unfolding lookup split extract_segments
get_path v args = elim (path_of (lookup "path" args)) [
  | none ↦ none
  | some path ↦ some (extract_segments (split b'.' path) v)
]

-- The argument `max_length`, if it is an `int` of at least 1.
abbrev max_length_of : Option Value → Option ℕ
max_length_of (some (int (pos n))) = if leb 1 n then some n else none
max_length_of _ = none

-- The delimiters, if they are a list of texts.
unfoldable pub delimiters_of : List Value → Option (List String)
delimiters_of [] = some []
delimiters_of (str d ∷ ds) = map_some (λ rest. d ∷ rest) (delimiters_of ds)
delimiters_of (_ ∷ ds) = none

-- `_parse_delimiters`
unfoldable pub parse_delimiters : Option Value → Option (List String)
unfolding delimiters_of
parse_delimiters (some (list vs)) = elim (items vs) [ [] ↦ none | d ∷ ds ↦ delimiters_of (d ∷ ds) ]
parse_delimiters _ = none

-- The greater of two positions.
abbrev later : Option ℕ → Option ℕ → Option ℕ
later best none = best
later none (some n) = some n
later (some m) (some n) = if ltb m n then some n else some m

-- The loop over the delimiters.
unfoldable pub best_position : String → List String → Option ℕ → Option ℕ
unfolding rfind
best_position s [] best = best
best_position s (d ∷ ds) best = best_position s ds (later best (rfind d s))

unfoldable pub before_delimiter : List String → String → String
unfolding best_position take_text
before_delimiter ds s = elim (best_position s ds none) [ none ↦ s | some n ↦ take_text n s ]

unfoldable pub shortened : ℕ → String → String
unfolding take_text text_length
shortened n s = if ltb n (text_length s) then take_text n s else s

module _ (show_value : Value → String) where
  -- `str(value)`
  abbrev pub text : Value → String
  text (str s) = s
  text v = show_value v

  -- An operation on the texts of values that gives back `MISSING` and None.
  abbrev pub map_shown : (String → String) → Value → Option Value
  map_shown f missing = some missing
  map_shown f none' = some none'
  map_shown f v = some (str (f (text v)))

  -- `_to_str`
  unfoldable pub to_str : MappingOp
  to_str v args = map_shown (λ s. s) v

  -- `_emit_if_present`
  unfoldable pub emit_if_present : MappingOp
  emit_if_present missing args = some (emission omit)
  emit_if_present none' args = some (emission null)
  emit_if_present v args = some (emission (value (text v)))

  -- `_truncate`
  unfoldable pub truncate : MappingOp
  unfolding lookup shortened
  truncate v args = elim (max_length_of (lookup "max_length" args)) [
    | none ↦ none
    | some n ↦ map_shown (shortened n) v
  ]

  -- `_strip_suffix`
  unfoldable pub strip_suffix : MappingOp
  unfolding lookup parse_delimiters before_delimiter
  strip_suffix v args = elim (parse_delimiters (lookup "delimiters" args)) [
    | none ↦ none
    | some ds ↦ map_shown (before_delimiter ds) v
  ]

  abbrev join_price : String → String → String
  join_price amount currency = if is_empty currency then amount else amount ⧺ " " ⧺ currency

  -- The amount, with what `args` has as its currency.
  unfoldable pub priced : String → Option Value → Value
  unfolding strip_text
  priced amount none = str amount
  priced amount (some none') = str amount
  priced amount (some missing) = str amount
  priced amount (some v) = str (join_price amount (strip_text (text v)))

  unfoldable pub price : String → Option Value → Value
  unfolding priced
  price amount currency = if is_empty amount then missing else priced amount currency

  -- `_format_price`
  unfoldable pub format_price : MappingOp
  unfolding price strip_text lookup
  format_price missing args = some missing
  format_price none' args = some none'
  format_price (str s) args = some (price (strip_text s) (lookup "currency" args))
  format_price (int n) args =
      some (price (strip_text (show_value (int n))) (lookup "currency" args))
  format_price (float s) args =
      some (price (strip_text (show_value (float s))) (lookup "currency" args))
  format_price _ args = none
