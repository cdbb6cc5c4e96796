-- ===== src/Mapping/Outputs.antt =====
-- What `run_one` promises of the outputs: CSV rows, tombstones, JSON objects and the issues.
use mathlib.Core.List.{Perm}
use product_feed_protocol.Prelude.{
  suc, String, ◌≡◌, refl, sym, ap, ◌∙◌, arith, Bool, ◌||◌, inl, inr, Option, none, some, List, [],
  ◌∷◌, ◌==◌, string_eq, eq_iff, length, any, Option-cases, if◌then◌else◌,
}
use product_feed_protocol.Dict.{Dict, lookup, lookup-insert}
use product_feed_protocol.Dict.Keys.{keys, contains, contains_of_lookup}
use product_feed_protocol.Text.{str_le}
use product_feed_protocol.Text.Order.{texts_le_total, texts_le_trans}
use product_feed_protocol.Sorting.{sorted, sorted-perm, IsSorted, sorted-IsSorted, any-sorted}
use product_feed_protocol.Value.{Emission, value, omit, null, Value, Record}
use product_feed_protocol.Mapping.{Catalog}
use product_feed_protocol.Mapping.Fields.{execute_field}
use product_feed_protocol.Mapping.Executor.{
  OutputKind, csv_row, json_object, Plan, should_project_delete_tombstone, sorted_fields,
  ordered_csv_fields, issue_le, issue_key, ordered_issues, row, object, csv_fields, put_emission,
  json_field, json_fields, run_kind, run_fields, run_one,
}

contains-eq-any : (j : String) (ks : List String) → contains j ks ≡ any (λ k. k == j) ks
contains-eq-any j [] = refl
contains-eq-any j (k ∷ ks) = ap (λ b. (k == j) || b) (contains-eq-any j ks)

contains-sorted : (j : String) (ks : List String) → contains j (sorted str_le ks) ≡ contains j ks
contains-sorted j ks =
    contains-eq-any j (sorted str_le ks)
    ∙ any-sorted str_le (λ k. k == j) ks
    ∙ sym (contains-eq-any j ks)

-- What a JSON object keeps of an emission.
abbrev pub kept : Emission → Option Emission
kept omit = none
kept e = some e

abbrev pub or_before : Option Emission → Option Emission → Option Emission
or_before none before = before
or_before (some e) _ = some e

or_before-none : (e : Option Emission) → or_before e none ≡ e
or_before-none none = refl
or_before-none (some e) = refl

lookup-put_emission :
    (field_id j : String) (e : Emission) (d : Dict String Emission)
    → lookup j (put_emission field_id e d)
      ≡ (if field_id == j then or_before (kept e) (lookup j d) else lookup j d)
unfolding put_emission
lookup-put_emission field_id j omit d = ground arith
lookup-put_emission field_id j null d = lookup-insert field_id j null d
lookup-put_emission field_id j (value v) d = lookup-insert field_id j (value v) d

module _ (catalog : Catalog) (str : Value → String) (plan : Plan) (input : Record) where
  length-csv_fields :
      (tombstone : Bool) (field_ids : List String)
      → length (csv_fields catalog str plan input tombstone field_ids).0 ≡ length field_ids
  unfolding csv_fields
  length-csv_fields tombstone [] = refl
  length-csv_fields tombstone (field_id ∷ field_ids) =
      ap suc (length-csv_fields tombstone field_ids)

  -- The emission of a field of the plan in a JSON object, if it is not left out.
  unfoldable pub object_field : String → Option Emission
  unfolding lookup
  object_field field_id = elim (lookup field_id plan.fields) [
    | none ↦ none
    | some field_plan ↦ kept (execute_field catalog str field_plan input).0
  ]

  lookup-json_field :
      (f j : String) (d : Dict String Emission)
      → lookup j (json_field catalog str plan input f d).0
        ≡ (if f == j then or_before (object_field f) (lookup j d) else lookup j d)
  unfolding json_field object_field
  lookup-json_field f j d = elim (Option-cases (lookup f plan.fields)) [
    | inl h ↦ rw (json_field, object_field, h) (ground arith)
    | inr (p, h) ↦
        rw (json_field, object_field, h)
          (lookup-put_emission f j (execute_field catalog str p input).0 d)
  ]

  lookup-json_fields :
      (fs : List String) (j : String) (d : Dict String Emission)
      → lookup j (json_fields catalog str plan input fs d).0
        ≡ (if contains j fs then or_before (object_field j) (lookup j d) else lookup j d)
  unfolding json_fields
  lookup-json_fields [] j d = refl
  lookup-json_fields (f ∷ fs) j d = ground (
    arith,
    eq_iff f j,
    lookup-json_field f j d,
    lookup-json_fields fs j (json_field catalog str plan input f d).0,
  )

  object_field_of_listed :
      (j : String)
      → (if contains j (keys plan.fields) then or_before (object_field j) none else none)
        ≡ object_field j
  unfolding object_field
  object_field_of_listed j = elim (Option-cases (lookup j plan.fields)) [
    | inl h ↦ rw (object_field, h) (ground arith)
    | inr (p, h) ↦ rw (contains_of_lookup j p plan.fields h) (or_before-none (object_field j))
  ]

  pub output_of_kind :
      (kind : OutputKind) (profile : String)
      → plan.output_kind ≡ kind
      → (run_one catalog str plan input profile).0
        ≡ (run_kind catalog str plan input kind profile).0
  unfolding run_one run_fields
  output_of_kind kind profile h = ap (λ k. (run_kind catalog str plan input k profile).0) h

  lookup-sorted_fields :
      (j : String)
      → lookup j (json_fields catalog str plan input (sorted_fields plan) []).0 ≡ object_field j
  unfolding object_field lookup
  lookup-sorted_fields j =
      rw (lookup-json_fields (sorted_fields plan) j [], contains-sorted j (keys plan.fields))
        (object_field_of_listed j)

  -- A plan for JSON makes an object whose fields are, whatever the order in which the plan lists them, the fields of
  -- the plan that emit a value or null, each with its emission.
  pub json_output :
      (profile : String)
      → plan.output_kind ≡ json_object
      → (d : Dict String Emission) × ((run_one catalog str plan input profile).0 ≡ object d)
        × ((j : String) → lookup j d ≡ object_field j)
  unfolding run_one run_fields
  json_output profile h = (
    (json_fields catalog str plan input (sorted_fields plan) []).0,
    output_of_kind json_object profile h,
    lookup-sorted_fields,
  )

  -- A plan for CSV makes a row with one emission for each field of its order, or of its sorted fields where it has
  -- no order.
  pub csv_output :
      (profile : String)
      → plan.output_kind ≡ csv_row
      → (es : List Emission) × ((run_one catalog str plan input profile).0 ≡ row es)
        × (length es ≡ length (ordered_csv_fields plan).0)
  unfolding run_kind
  csv_output profile h = (
    _,
    output_of_kind csv_row profile h,
    length-csv_fields (should_project_delete_tombstone plan input) (ordered_csv_fields plan).0,
  )

  -- The issues of a record are those that its fields and the tombstone check report, none lost and none added, listed by
  -- code, path and message.
  pub issues_output :
      (profile : String)
      → (let issues = (run_one catalog str plan input profile).1 in
          Perm issues (run_fields catalog str plan input profile).1 × IsSorted issue_le issues)
  unfolding run_one ordered_issues
  issues_output profile =
      let issues = (run_fields catalog str plan input profile).1 in
      (
        sorted-perm issue_le issues,
        sorted-IsSorted issue_le (λ x y. texts_le_total (issue_key x) (issue_key y))
            (λ x y z. texts_le_trans (issue_key x) (issue_key y) (issue_key z)) issues,
      )
