-- ===== src/Catalog/Typing.antt =====
-- Values and the types of a compiled schema: what the operations return, and what a field's transforms give.
use product_feed_protocol.Prelude.{
  String, ◌≡◌, inl, inr, refl, Bool, true, false, Option, none, some, ◌==◌, string_eq, Bool-cases,
  if◌then◌else◌,
}
use product_feed_protocol.Text.{is_empty}
use product_feed_protocol.Value.{
  TypeId, ℤ, pos, negsuc, Value, missing, none', bool, int, float, str, emission, Record,
}
use product_feed_protocol.Mapping.Operations.{
  bool_to_availability, int_to_availability, to_bool, to_int, emit_if_present, truncate,
  strip_suffix, price, priced, format_price, map_text, map_shown, map_some, shortened,
  before_delimiter,
}
use product_feed_protocol.Validation.Modules.{matches_type}
use product_feed_protocol.Compiler.{OpSpec, to_plan_type_id}

-- Whether a value may stand where a type is known: it has the type for the module `type`, is absent, or is an emission, which the
-- operations that emit call an object.
unfoldable pub fits : Option TypeId → Value → Bool
unfolding matches_type
fits none v = true
fits (some t) missing = true
fits (some t) none' = true
fits (some t) (emission e) = t == "object"
fits (some t) v = matches_type v t

-- What an operation returns fits a type.
abbrev pub Returns : Option TypeId → Option Value → Type 0
Returns t none = Unit
Returns t (some v) = fits t v ≡ true

pub Returns-map_text :
    (f : String → String) (v : Value) (args : Record) → Returns (some "string") (map_text f v args)
unfolding fits
Returns-map_text f missing args = refl
Returns-map_text f none' args = refl
Returns-map_text f (str s) args = refl
Returns-map_text f _ args = tt

pub Returns-map_shown :
    (show_value : Value → String) (f : String → String) (v : Value)
    → Returns (some "string") (map_shown show_value f v)
unfolding fits
Returns-map_shown show_value f missing = refl
Returns-map_shown show_value f none' = refl
Returns-map_shown show_value f _ = refl

pub Returns-map_some :
    {A : Type 0} (t : Option TypeId) (f : A → Value) (a : Option A)
    → ((x : A) → fits t (f x) ≡ true)
    → Returns t (map_some f a)
Returns-map_some t f none h = tt
Returns-map_some t f (some x) h = h x

-- An operation gives values of its output type, when it gives any.
abbrev pub IsSound : OpSpec → Type 0
IsSound op = (v : Value) (args : Record) → Returns (to_plan_type_id op.output_type) (op.call v args)

pub bool_to_availability-Returns :
    (v : Value) (args : Record) → Returns (some "string") (bool_to_availability v args)
unfolding fits bool_to_availability
bool_to_availability-Returns missing args = refl
bool_to_availability-Returns none' args = refl
bool_to_availability-Returns (bool b) args = refl
bool_to_availability-Returns (str s) args = Returns-map_some (some "string") _ _ (λ b. refl)
bool_to_availability-Returns (int n) args = Returns-map_some (some "string") _ _ (λ b. refl)
bool_to_availability-Returns _ args = tt

pub int_to_availability-Returns :
    (v : Value) (args : Record) → Returns (some "string") (int_to_availability v args)
unfolding fits int_to_availability
int_to_availability-Returns missing args = refl
int_to_availability-Returns none' args = refl
int_to_availability-Returns (int (pos n)) args = refl
int_to_availability-Returns (int (negsuc n)) args = refl
int_to_availability-Returns _ args = tt

pub to_bool-Returns : (v : Value) (args : Record) → Returns (some "bool") (to_bool v args)
unfolding fits to_bool
to_bool-Returns missing args = refl
to_bool-Returns none' args = refl
to_bool-Returns (bool b) args = refl
to_bool-Returns (int n) args = Returns-map_some (some "bool") bool _ (λ b. refl)
to_bool-Returns (str s) args = Returns-map_some (some "bool") bool _ (λ b. refl)
to_bool-Returns _ args = tt

pub int_of_text-Returns :
    (is_blank : Bool) (n : Option ℤ)
    → Returns (some "int") (if is_blank then none else map_some int n)
unfolding fits
int_of_text-Returns true n = tt
int_of_text-Returns false n = Returns-map_some (some "int") int n (λ m. refl)

pub to_int-Returns : (v : Value) (args : Record) → Returns (some "int") (to_int v args)
unfolding fits to_int
to_int-Returns missing args = refl
to_int-Returns none' args = refl
to_int-Returns (int n) args = refl
to_int-Returns (str s) args = int_of_text-Returns _ _
to_int-Returns _ args = tt

pub Returns-any : (v : Option Value) → Returns none v
unfolding fits
Returns-any none = tt
Returns-any (some v) = refl

pub Returns-if_read :
    {A : Type 0} (t : Option TypeId) (f : A → Option Value) (a : Option A)
    → ((x : A) → Returns t (f x))
    → Returns t (elim a [ none ↦ none | some x ↦ f x ])
Returns-if_read t f none h = tt
Returns-if_read t f (some x) h = h x

module _ (show_value : Value → String) where
  pub priced-fits :
      (amount : String) (currency : Option Value)
      → fits (some "string") (priced show_value amount currency) ≡ true
  unfolding fits priced
  priced-fits amount none = refl
  priced-fits amount (some none') = refl
  priced-fits amount (some missing) = refl
  priced-fits amount (some _) = refl

  pub emit_if_present-Returns :
      (v : Value) (args : Record) → Returns (some "object") (emit_if_present show_value v args)
  unfolding fits emit_if_present
  emit_if_present-Returns missing args = refl
  emit_if_present-Returns none' args = refl
  emit_if_present-Returns _ args = refl

  pub truncate-Returns :
      (v : Value) (args : Record) → Returns (some "string") (truncate show_value v args)
  unfolding truncate
  truncate-Returns v args =
      Returns-if_read (some "string") (λ n. map_shown show_value (shortened n) v) _
        (λ n. Returns-map_shown show_value (shortened n) v)

  pub strip_suffix-Returns :
      (v : Value) (args : Record) → Returns (some "string") (strip_suffix show_value v args)
  unfolding strip_suffix
  strip_suffix-Returns v args =
      Returns-if_read (some "string") (λ ds. map_shown show_value (before_delimiter ds) v) _
        (λ ds. Returns-map_shown show_value (before_delimiter ds) v)

  pub price-fits :
      (amount : String) (currency : Option Value)
      → fits (some "string") (price show_value amount currency) ≡ true
  unfolding fits price
  price-fits amount currency = elim (Bool-cases (is_empty amount)) [
    | inl blank ↦ rw (price, blank) refl
    | inr filled ↦ rw (price, filled) (priced-fits amount currency)
  ]

  pub format_price-Returns :
      (v : Value) (args : Record) → Returns (some "string") (format_price show_value v args)
  unfolding fits format_price
  format_price-Returns missing args = refl
  format_price-Returns none' args = refl
  format_price-Returns (str s) args = price-fits _ _
  format_price-Returns (int n) args = price-fits _ _
  format_price-Returns (float s) args = price-fits _ _
  format_price-Returns _ args = tt
