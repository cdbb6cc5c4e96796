-- ===== src/Writers/Csv/Markers.antt =====
-- When `CSVWriter` writes all records, and what that says of the markers.
use product_feed_protocol.Prelude.{
  String, ◌≡◌, refl, ap, ◌∙◌, arith, Bool, true, false, not, ◌&&◌, ◌||◌, Option, none, some, List,
  [], ◌∷◌, ◌++◌, ◌==◌, nat_eq, string_eq, any, any-append, map, if◌then◌else◌, Bool-cases, inl, inr,
}
use product_feed_protocol.Writers.{Written, Encoded, encoded, refused}
use product_feed_protocol.Writers.Csv.{
  Cell, Row, tuple, object, Config, Seen, nothing_seen, is_missing, is_none, see, is_conflict,
  serialize_value, serialize_row, size_matches, then_write, write_serialized, write_rows, write,
}

abbrev pub is_some {ℓ} : {A : Type ℓ} → Option A → Bool
is_some none = false
is_some (some _) = true

abbrev pub succeeds : {B : Type 0} → Written B → Bool
succeeds w = not (is_some w.failure)

-- What is seen after all the cells.
unfoldable pub see_all : List Cell → Seen → Seen
see_all cells s = record {
  saw_missing = any is_missing cells || s.saw_missing;
  saw_none = any is_none cells || s.saw_none;
}

seen_eq :
    (a b c d : Bool)
    → a ≡ c
    → b ≡ d
    → ◌≡◌ {A = Seen}
        (record { saw_missing = a; saw_none = b })
        (record { saw_missing = c; saw_none = d })
seen_eq a b c d p q = rw (p, q) refl

or_swap : (a b c : Bool) → (a || (b || c)) ≡ ((b || a) || c)
or_swap a b c = ground arith

or_assoc : (a b c : Bool) → ((a || b) || c) ≡ (b || (a || c))
or_assoc a b c = ground arith

see_all-see :
    (c : Cell) (cells : List Cell) (s : Seen) → see_all cells (see c s) ≡ see_all (c ∷ cells) s
unfolding see see_all
see_all-see c cells s =
    seen_eq _ _ _ _ (or_swap (any is_missing cells) (is_missing c) s.saw_missing)
      (or_swap (any is_none cells) (is_none c) s.saw_none)

see_all-append : (xs ys : List Cell) (s : Seen) → see_all (xs ++ ys) s ≡ see_all ys (see_all xs s)
unfolding see_all
see_all-append xs ys s =
    seen_eq _ _ _ _
      (ap (λ b. b || s.saw_missing) (any-append is_missing xs ys)
        ∙ or_assoc (any is_missing xs) (any is_missing ys) s.saw_missing)
      (ap (λ b. b || s.saw_none) (any-append is_none xs ys)
        ∙ or_assoc (any is_none xs) (any is_none ys) s.saw_none)

see_all-nil : (s : Seen) → see_all [] s ≡ s
unfolding see_all
see_all-nil s = refl

is_conflict-see_all :
    (config : Config) (cells : List Cell) (s : Seen)
    → is_conflict config s ≡ true
    → is_conflict config (see_all cells s) ≡ true
unfolding is_conflict see_all
is_conflict-see_all config cells s h = ground (arith, h)

abbrev pub texts_of : Config → List Cell → List String
unfolding serialize_value
texts_of config cells = map (serialize_value config) cells

-- A row is serialised value by value, unless the markers cannot tell apart what was seen by its end.
serialized :
    (config : Config) (cells : List Cell) (s : Seen)
    → is_conflict config s ≡ false
    → serialize_row config cells s ≡ (
        if is_conflict config (see_all cells s)
        then none
        else some (texts_of config cells, see_all cells s))
unfolding serialize_row
serialized config [] s h = rw (see_all-nil s, h) refl
serialized config (c ∷ cells) s h = elim (Bool-cases (is_conflict config (see c s))) [
  | inl t ↦
      rw (serialize_row, ← see_all-see c cells s, t, is_conflict-see_all config cells (see c s) t)
        refl
  | inr f ↦
      rw (serialize_row, ← see_all-see c cells s, f, serialized config cells (see c s) f)
        (ground arith)
]

-- A tuple with as many values as there are columns.
abbrev pub is_well_formed : Config → Row → Bool
is_well_formed config object = false
is_well_formed config (tuple cells) = size_matches config.columns cells

abbrev pub all : {A : Type 0} → (A → Bool) → List A → Bool
all p [] = true
all p (x ∷ xs) = p x && all p xs

abbrev pub cells_of : List Row → List Cell
cells_of [] = []
cells_of (object ∷ rows) = cells_of rows
cells_of (tuple cells ∷ rows) = cells ++ cells_of rows

abbrev pub is_encoded : {B : Type 0} → Encoded B → Bool
is_encoded (encoded chunk) = true
is_encoded (refused message) = false

succeeds-then_write :
    {B : Type 0} (e : Encoded B) (w : Written B)
    → succeeds (then_write e w) ≡ (is_encoded e && succeeds w)
succeeds-then_write (encoded chunk) w = refl
succeeds-then_write (refused message) w = refl

succeeds-if :
    {B : Type 0} (b : Bool) (w v : Written B)
    → succeeds v ≡ false
    → succeeds (if b then w else v) ≡ (b && succeeds w)
succeeds-if true w v h = refl
succeeds-if false w v h = h

-- The order in which the conditions on a row and on the others are met does not matter.
conditions_swap :
    (size taken sizes others differ : Bool)
    → (size && (taken && (sizes && (others && differ))))
      ≡ ((size && sizes) && ((taken && others) && differ))
conditions_swap size taken sizes others differ = ground arith

module _ {B : Type 0} (write_row : List String → Encoded B) (repr : String → String)
    (config : Config) where
  -- `csv` and the encoding take the header, if one is written.
  abbrev pub header_is_accepted : Bool → Option (List String) → Bool
  header_is_accepted false columns = true
  header_is_accepted true none = true
  header_is_accepted true (some columns) = is_encoded (write_row columns)

  -- They take the texts of a record.
  abbrev pub row_is_accepted : Row → Bool
  row_is_accepted object = false
  row_is_accepted (tuple cells) = is_encoded (write_row (texts_of config cells))

  succeeds-write_rows :
      (rows : List Row) (s : Seen)
      → is_conflict config s ≡ false
      → succeeds (write_rows write_row repr config rows s) ≡ (
          all (is_well_formed config) rows
          && (all row_is_accepted rows && not (is_conflict config (see_all (cells_of rows) s))))
  unfolding write_rows write_serialized
  succeeds-write_rows [] s h = rw (see_all-nil s, h) refl
  succeeds-write_rows (object ∷ rows) s h = refl
  succeeds-write_rows (tuple cells ∷ rows) s h =
      succeeds-if (size_matches config.columns cells) _ _ refl
      ∙ elim (Bool-cases (is_conflict config (see_all cells s))) [
        | inl t ↦
            rw
              (
                serialized config cells s h,
                see_all-append cells (cells_of rows) s,
                t,
                is_conflict-see_all config (cells_of rows) (see_all cells s) t,
              )
              (ground arith)
        | inr f ↦
            rw (serialized config cells s h, see_all-append cells (cells_of rows) s, f)
              (ap (λ b. size_matches config.columns cells && b)
                  (succeeds-then_write (write_row (texts_of config cells)) _
                    ∙ ap (λ b. is_encoded (write_row (texts_of config cells)) && b)
                        (succeeds-write_rows rows (see_all cells s) f))
                ∙ conditions_swap (size_matches config.columns cells) _ _ _ _)
      ]

  succeeds-header :
      (b : Bool) (columns : Option (List String)) (w : Written B)
      → succeeds
          (if b then elim columns [ some cs ↦ then_write (write_row cs) w | none ↦ w ] else w)
        ≡ (header_is_accepted b columns && succeeds w)
  succeeds-header false columns w = refl
  succeeds-header true none w = refl
  succeeds-header true (some cs) w = succeeds-then_write (write_row cs) w

  -- The writer writes all records exactly when each is a tuple of the size of the columns, if there are columns, `csv` and
  -- the encoding refuse neither the header, if one is written, nor the texts of a record, and the markers of missing and
  -- null values are different, if values of both kinds occur in the records.
  pub succeeds-write :
      (rows : List Row)
      → succeeds (write write_row repr config rows) ≡ (
          header_is_accepted config.include_header config.columns
          && (all (is_well_formed config) rows
              && (all row_is_accepted rows
                  && not (
                      any is_missing (cells_of rows)
                      && (any is_none (cells_of rows)
                          && (config.missing_value_marker == config.null_value_marker))))))
  unfolding write is_conflict see_all
  succeeds-write rows =
      succeeds-header config.include_header config.columns _
      ∙ ap (λ b. header_is_accepted config.include_header config.columns && b)
          (succeeds-write_rows rows nothing_seen refl ∙ ground arith)
