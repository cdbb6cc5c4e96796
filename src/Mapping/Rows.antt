-- ===== src/Mapping/Rows.antt =====
-- The CSV rows of `run_one`, with the tombstones of runtime_tombstone.py.
use mathlib.Core.List.{Perm}
use product_feed_protocol.Prelude.{
  ℕ, String, ◌≡◌, ◌≢◌, refl, arith, Bool, true, false, not, ◌&&◌, ◌⊎◌, inl, inr, none, some, List,
  [], ◌∷◌, ◌==◌, string_eq, nat_eq, eq_iff, Option-cases, Bool-cases, if◌then◌else◌,
}
use product_feed_protocol.Dict.{lookup}
use product_feed_protocol.Dict.Keys.{keys}
use product_feed_protocol.Text.{codes, strip, lower, same_codes, is_one_of, str_le}
use product_feed_protocol.Text.Order.{str_le_total, str_le_trans}
use product_feed_protocol.Sorting.{sorted-perm, IsSorted, sorted-IsSorted}
use product_feed_protocol.Value.{Emission, omit, Value, bool, str, Record}
use product_feed_protocol.Mapping.{FieldPlan, Catalog}
use product_feed_protocol.Mapping.Fields.{execute_field}
use product_feed_protocol.Mapping.Executor.{
  csv_row, Plan, is_delete_intent, delete_flag, should_project_delete_tombstone, ordered_csv_fields,
  row, csv_field, csv_fields, run_kind, run_one,
}
use product_feed_protocol.Mapping.Outputs.{output_of_kind}

-- The text says yes, but for its case and the space around it.
abbrev pub IsYes : List ℕ → Type 0
IsYes text =
    (text ≡ codes "true") ⊎ ((text ≡ codes "1") ⊎ ((text ≡ codes "yes") ⊎ (text ≡ codes "y")))

-- The value asks to delete the record.
abbrev pub Asks : Value → Type 0
Asks (bool b) = b ≡ true
Asks (str s) = IsYes (lower (strip (codes s)))
Asks _ = ⊥

-- The record is to be deleted, and the plan has tombstones.
abbrev pub IsDeleted : Plan → Record → Type 0
IsDeleted plan input = (plan.delete_tombstone_enabled ≡ true) × Asks (delete_flag plan input)

-- The fields of a row: in the order of the plan, or sorted where it has no order.
abbrev pub IsOrder : Plan → List String → Type 0
IsOrder plan fields =
    (plan.output_order ≡ some fields)
    ⊎ ((plan.output_order ≡ none) × Perm fields (keys plan.fields) × IsSorted str_le fields)

same_codes-eq : (xs ys : List ℕ) → same_codes xs ys ≡ true → ys ≡ xs
unfolding same_codes
same_codes-eq [] [] h = refl
same_codes-eq [] (y ∷ ys) h = ground (arith, h)
same_codes-eq (x ∷ xs) [] h = ground (arith, h)
same_codes-eq (x ∷ xs) (y ∷ ys) h = ground (arith, h, same_codes-eq xs ys)

same_codes_refl : (xs : List ℕ) → same_codes xs xs ≡ true
unfolding same_codes
same_codes_refl [] = refl
same_codes_refl (x ∷ xs) = ground (arith, same_codes_refl xs)

is_yes : List ℕ → Bool
unfolding same_codes
is_yes text = is_one_of ("true" ∷ "1" ∷ "yes" ∷ "y" ∷ []) text

IsYes-is_yes : (text : List ℕ) → is_yes text ≡ true → IsYes text
unfolding is_yes
IsYes-is_yes text h = elim (Bool-cases (same_codes (codes "true") text)) [
  | inl t ↦ inl (same_codes-eq (codes "true") text t)
  | inr f ↦ elim (Bool-cases (same_codes (codes "1") text)) [
    | inl t ↦ inr (inl (same_codes-eq (codes "1") text t))
    | inr g ↦ elim (Bool-cases (same_codes (codes "yes") text)) [
      | inl t ↦ inr (inr (inl (same_codes-eq (codes "yes") text t)))
      | inr k ↦ inr (inr (inr (same_codes-eq (codes "y") text (ground (arith, h, f, g, k)))))
    ]
  ]
]

is_yes-IsYes : (text : List ℕ) → IsYes text → is_yes text ≡ true
unfolding is_yes same_codes
is_yes-IsYes text (inl e) = rw e refl
is_yes-IsYes text (inr (inl e)) = rw e refl
is_yes-IsYes text (inr (inr (inl e))) = rw e refl
is_yes-IsYes text (inr (inr (inr e))) = rw e refl

-- A Boolean test decides the proposition.
abbrev Decides : Bool → Type 0 → Type 0
Decides b P = ((b ≡ true) × P) ⊎ ((b ≡ false) × ¬ P)

Decides-is_yes : (text : List ℕ) → Decides (is_yes text) (IsYes text)
Decides-is_yes text = elim (Bool-cases (is_yes text)) [
  | inl t ↦ inl (t, IsYes-is_yes text t)
  | inr f ↦ inr (f, λ y. let t = is_yes-IsYes text y in ground (arith, t, f))
]

Decides-bool : (b : Bool) → Decides b (b ≡ true)
Decides-bool true = inl (refl, refl)
Decides-bool false = inr (refl, λ h. ground (arith, h))

Decides-is_delete_intent : (v : Value) → Decides (is_delete_intent v) (Asks v)
unfolding is_delete_intent is_yes
Decides-is_delete_intent (bool b) = Decides-bool b
Decides-is_delete_intent (str s) = Decides-is_yes (lower (strip (codes s)))
Decides-is_delete_intent _ = inr (refl, λ h. h)

Decides-and :
    (a b : Bool) (P : Type 0) → Decides b P → Decides (if a then b else false) ((a ≡ true) × P)
Decides-and true b P (inl (h, p)) = inl (h, (refl, p))
Decides-and true b P (inr (h, n)) = inr (h, λ (_, p). n p)
Decides-and false b P d = inr (refl, λ (e, _). ground (arith, e))

module _ (catalog : Catalog) (show_value : Value → String) (plan : Plan) (input : Record) where
  Decides-tombstone : Decides (should_project_delete_tombstone plan input) (IsDeleted plan input)
  unfolding should_project_delete_tombstone
  Decides-tombstone =
      Decides-and plan.delete_tombstone_enabled _ _
        (Decides-is_delete_intent (delete_flag plan input))

  -- What the field emits on its own; a field without a plan emits nothing.
  abbrev pub IsOfField : String → Emission → Type 0
  IsOfField field_id e =
      ((lookup field_id plan.fields ≡ none) × (e ≡ omit))
      ⊎ ((p : FieldPlan) × (lookup field_id plan.fields ≡ some p)
          × (e ≡ (execute_field catalog show_value p input).0))

  -- What stands in the row for the field.
  abbrev pub StandsFor : String → Emission → Type 0
  StandsFor field_id e =
      (IsDeleted plan input × (field_id ≢ plan.delete_tombstone_id_field) × (e ≡ omit))
      ⊎ ((¬ IsDeleted plan input ⊎ (field_id ≡ plan.delete_tombstone_id_field))
          × IsOfField field_id e)

  -- One emission for each field, in order.
  abbrev pub AreEmitted : List String → List Emission → Type 0
  AreEmitted [] es = es ≡ []
  AreEmitted (field_id ∷ fields) es =
      (e : Emission) × (rest : List Emission) × (es ≡ e ∷ rest)
      × StandsFor field_id e
      × AreEmitted fields rest

  deleted_field :
      (field_id : String)
      → field_id ≢ plan.delete_tombstone_id_field
      → (csv_field catalog show_value plan input true field_id).0 ≡ omit
  unfolding csv_field
  deleted_field field_id h = elim (Option-cases (lookup field_id plan.fields)) [
    | inl k ↦ rw (csv_field, k) refl
    | inr (p, k) ↦
        rw (csv_field, k) (ground (arith, eq_iff field_id plan.delete_tombstone_id_field))
  ]

  kept_field :
      (b : Bool) (field_id : String)
      → (b && not (field_id == plan.delete_tombstone_id_field)) ≡ false
      → IsOfField field_id (csv_field catalog show_value plan input b field_id).0
  unfolding csv_field
  kept_field b field_id h = elim (Option-cases (lookup field_id plan.fields)) [
    | inl k ↦ rw (csv_field, k) (inl (refl, refl))
    | inr (p, k) ↦ rw (csv_field, k, h) (inr (p, refl, refl))
  ]

  StandsFor-csv_field :
      (b : Bool) (field_id : String)
      → Decides b (IsDeleted plan input)
      → StandsFor field_id (csv_field catalog show_value plan input b field_id).0
  StandsFor-csv_field b field_id (inr (h, n)) =
      inr (inl n, kept_field b field_id (ground (arith, h)))
  StandsFor-csv_field b field_id (inl (h, d)) =
      elim (Bool-cases (field_id == plan.delete_tombstone_id_field)) [
        | inl t ↦ inr (
          inr (ground (arith, t, eq_iff field_id plan.delete_tombstone_id_field)),
          kept_field b field_id (ground (arith, t, h)),
        )
        | inr f ↦
            let other : field_id ≢ plan.delete_tombstone_id_field =
              λ e. ground (arith, f, e, eq_iff field_id plan.delete_tombstone_id_field) in
            inl (d, other, rw h (deleted_field field_id other))
      ]

  AreEmitted-csv_fields :
      (b : Bool) (fields : List String)
      → Decides b (IsDeleted plan input)
      → AreEmitted fields (csv_fields catalog show_value plan input b fields).0
  unfolding csv_fields
  AreEmitted-csv_fields b [] d = refl
  AreEmitted-csv_fields b (field_id ∷ fields) d =
      (_, _, refl, StandsFor-csv_field b field_id d, AreEmitted-csv_fields b fields d)

  IsOrder-ordered_csv_fields : IsOrder plan (ordered_csv_fields plan).0
  unfolding ordered_csv_fields
  IsOrder-ordered_csv_fields = elim (Option-cases plan.output_order) [
    | inl h ↦
        rw (ordered_csv_fields, h)
          (inr (
            refl,
            sorted-perm str_le (keys plan.fields),
            sorted-IsSorted str_le str_le_total str_le_trans (keys plan.fields),
          ))
    | inr (order, h) ↦ rw (ordered_csv_fields, h) (inl refl)
  ]

  -- A plan for CSV makes a row with one emission for each field, in the plan's order or, where it has none, in the order of the
  -- field names. If the plan has tombstones and the record's flag asks to delete it, by true or by a text that reads true, 1, yes or
  -- y but for case and space, then each field but the identifier is left out; else, and for the identifier, the emission is what the
  -- field's plan makes of the record, and a field without a plan is left out.
  pub csv_output-AreEmitted :
      (profile : String)
      → plan.output_kind ≡ csv_row
      → (fields : List String) × (es : List Emission) × IsOrder plan fields
        × ((run_one catalog show_value plan input profile).0 ≡ row es)
        × AreEmitted fields es
  unfolding run_kind
  csv_output-AreEmitted profile h = (
    (ordered_csv_fields plan).0,
    _,
    IsOrder-ordered_csv_fields,
    output_of_kind catalog show_value plan input csv_row profile h,
    AreEmitted-csv_fields (should_project_delete_tombstone plan input) (ordered_csv_fields plan).0
        Decides-tombstone,
  )
