-- ===== src/Writers/Jsonl/Fields.antt =====
-- What `JSONLWriter` keeps of a record, and how many lines it writes.
use mathlib.Core.Path.{subst}
use mathlib.Core.List.{Memᴰ}
use mathlib.Core.List.Memᴰ
use product_feed_protocol.Prelude.{
  ℕ, suc, String, ◌≡◌, ◌⊎◌, refl, ap, ◌∙◌, arith, Bool, false, Option, none, some, List, [], ◌∷◌,
  map, length, ◌==◌, string_eq, eq_iff, if◌then◌else◌, Option-cases, inl, inr,
}
use product_feed_protocol.Dict.{Dict, lookup, insert, lookup-insert}
use product_feed_protocol.Dict.Keys.{keys, contains, Unique, contains_of_lookup}
use product_feed_protocol.Writers.{Written, Encoded}
use product_feed_protocol.Writers.Jsonl.{
  JsonValue, missing, none', other, JsonRecord, mapping, object, is_left_out, filter_record,
  write_filtered, write,
}

-- The items of a mapping whose keys are texts.
abbrev pub text_items :
    {J : Type 0} → Dict String (JsonValue J) → List (Option String × JsonValue J)
text_items d = map (λ p. (some p.0, p.1)) d

-- What a value leaves in the output: never a missing value, null unless nulls are omitted, and every other object.
abbrev pub kept_or :
    {J : Type 0} → Bool → Option (JsonValue J) → Option (JsonValue J) → Option (JsonValue J)
kept_or omit_nulls none before = before
kept_or omit_nulls (some missing) before = before
kept_or omit_nulls (some none') before = if omit_nulls then before else some none'
kept_or omit_nulls (some (other j)) before = some (other j)

kept_or-if :
    {J : Type 0} (omit_nulls : Bool) (v : JsonValue J) (before : Option (JsonValue J))
    → kept_or omit_nulls (some v) before ≡ (if is_left_out omit_nulls v then before else some v)
unfolding is_left_out
kept_or-if omit_nulls missing before = refl
kept_or-if omit_nulls none' before = refl
kept_or-if omit_nulls (other j) before = refl

field_step :
    {J : Type 0} (omit_nulls : Bool) (key k : String) (v : JsonValue J)
    (d output : Dict String (JsonValue J))
    → contains key (keys d) ≡ false
    → kept_or omit_nulls
        (lookup k d)
        (lookup k (if is_left_out omit_nulls v then output else insert key v output))
      ≡ kept_or omit_nulls (if key == k then some v else lookup k d) (lookup k output)
field_step omit_nulls key k v d output fresh = elim (Option-cases (lookup k d)) [
  | inl h ↦ rw h (
      ground (
        arith,
        eq_iff key k,
        lookup-insert key k v output,
        kept_or-if omit_nulls v (lookup k output),
      ))
  | inr (w, h) ↦ ground (
    arith,
    h,
    fresh,
    eq_iff key k,
    lookup-insert key k v output,
    contains_of_lookup k w d h,
    kept_or-if omit_nulls w (lookup k output),
  )
]

filtered_from :
    {J : Type 0} (omit_nulls : Bool) (d output : Dict String (JsonValue J))
    → Unique (keys d)
    → (result : Dict String (JsonValue J)) × (filter_record omit_nulls (text_items d) output
        ≡ some result)
      × ((k : String) → lookup k result ≡ kept_or omit_nulls (lookup k d) (lookup k output))
unfolding filter_record lookup
filtered_from omit_nulls [] output u = (output, refl, λ k. refl)
filtered_from omit_nulls ((key, v) ∷ d) output (fresh, u) =
    let output' = if is_left_out omit_nulls v then output else insert key v output in
    let (result, same, at) = filtered_from omit_nulls d output' u in
    (result, same, λ k. at k ∙ field_step omit_nulls key k v d output fresh)

lookup-filter_record :
    {J : Type 0} (omit_nulls : Bool) (d : Dict String (JsonValue J))
    → Unique (keys d)
    → (result : Dict String (JsonValue J)) × (filter_record omit_nulls (text_items d) []
        ≡ some result)
      × ((k : String) → lookup k result ≡ kept_or omit_nulls (lookup k d) none)
unfolding lookup
lookup-filter_record omit_nulls d u = filtered_from omit_nulls d [] u

-- The keys that are texts.
abbrev pub text_keys : {J : Type 0} → List (Option String × JsonValue J) → List String
text_keys [] = []
text_keys ((none, v) ∷ items) = text_keys items
text_keys ((some key, v) ∷ items) = key ∷ text_keys items

-- Some key is no text.
abbrev pub HasOtherKey : {J : Type 0} → List (Option String × JsonValue J) → Type 0
HasOtherKey {J} items = (v : JsonValue J) × Memᴰ (none, v) items

text_keys-text_items :
    {J : Type 0} (d : Dict String (JsonValue J)) → text_keys (text_items d) ≡ keys d
text_keys-text_items [] = refl
text_keys-text_items ((key, v) ∷ d) = ap (◌∷◌ key) (text_keys-text_items d)

HasOtherKey-cases :
    {J : Type 0} (items : List (Option String × JsonValue J))
    → HasOtherKey items ⊎ ((d : Dict String (JsonValue J)) × (items ≡ text_items d))
HasOtherKey-cases [] = inr ([], refl)
HasOtherKey-cases ((none, v) ∷ items) = inl (v, Memᴰ.head refl)
HasOtherKey-cases ((some key, v) ∷ items) = elim (HasOtherKey-cases items) [
  | inl (w, there) ↦ inl (w, Memᴰ.tail there)
  | inr (d, same) ↦ inr ((key, v) ∷ d, ap (◌∷◌ (some key, v)) same)
]

refused_key :
    {J : Type 0} (omit_nulls : Bool) (items : List (Option String × JsonValue J)) (w : JsonValue J)
    (output : Dict String (JsonValue J))
    → Memᴰ (none, w) items
    → filter_record omit_nulls items output ≡ none
unfolding filter_record
refused_key omit_nulls [] w output m = absurd (Memᴰ.not-nil m)
refused_key omit_nulls ((none, v) ∷ items) w output m = refl
refused_key omit_nulls ((some key, v) ∷ items) w output m = elim (Memᴰ.cases_cons m) [
  | inl e ↦
      let differ : ◌≡◌ {A = Option String} none (some key) = ap (λ p. p.0) e in
      absurd (ground (arith, differ))
  | inr there ↦ refused_key omit_nulls items w _ there
]

-- What the writer makes of the items of a mapping.
abbrev pub IsFiltered : {J : Type 0} → Bool → List (Option String × JsonValue J) → Type 0
IsFiltered {J} omit_nulls items =
    (HasOtherKey items × (filter_record omit_nulls items [] ≡ none))
    ⊎ ((d : Dict String (JsonValue J)) × (result : Dict String (JsonValue J)) × (items
          ≡ text_items d)
        × (filter_record omit_nulls items [] ≡ some result)
        × ((k : String) → lookup k result ≡ kept_or omit_nulls (lookup k d) none))

-- A mapping with a key that is no text is refused. Of any other, whose keys are different, the writer keeps the values that
-- are not missing and, if nulls are omitted, not null, each under its key.
pub filter_record-IsFiltered :
    {J : Type 0} (omit_nulls : Bool) (items : List (Option String × JsonValue J))
    → Unique (text_keys items)
    → IsFiltered omit_nulls items
filter_record-IsFiltered omit_nulls items u = elim (HasOtherKey-cases items) [
  | inl (w, there) ↦ inl ((w, there), refused_key omit_nulls items w [] there)
  | inr (d, same) ↦
      let (result, made, at) =
        lookup-filter_record omit_nulls d
          (subst Unique (ap text_keys same ∙ text_keys-text_items d) u) in
      inr (d, result, same, ap (λ xs. filter_record omit_nulls xs []) same ∙ made, at)
]

module _ {J B : Type 0} (dumps : Dict String (JsonValue J) → Option String)
    (message_of : Dict String (JsonValue J) → String) (encode : String → Encoded B)
    (omit_nulls : Bool) (line_terminator : String) where
  one_more :
      (o : Option (Dict String (JsonValue J))) (w : Written B) (n : ℕ)
      → (w.failure ≡ none → length w.chunks ≡ n)
      → (write_filtered dumps message_of encode omit_nulls line_terminator o w).failure ≡ none
      → length (write_filtered dumps message_of encode omit_nulls line_terminator o w).chunks
        ≡ suc n
  unfolding write_filtered
  one_more none w n rest h = ground (arith, h)
  one_more (some output) w n rest h = ground (arith, rest, h)

  -- If the writer ends without an error it has written one line for each record.
  pub length-write :
      (rs : List (JsonRecord J))
      → (write dumps message_of encode omit_nulls line_terminator rs).failure ≡ none
      → length (write dumps message_of encode omit_nulls line_terminator rs).chunks ≡ length rs
  unfolding write write_filtered
  length-write [] h = refl
  length-write (object ∷ rs) h = ground (arith, h)
  length-write (mapping items ∷ rs) h =
      one_more (filter_record omit_nulls items [])
        (write dumps message_of encode omit_nulls line_terminator rs) (length rs) (length-write rs)
        h
