-- ===== src/Compiler/Section/Plans.antt =====
-- What holds of a compiled mapping plan: of its fields always, and of their types and the output order if nothing is reported.
use product_feed_protocol.Prelude.{
  String, Option, none, some, List, [], ◌∷◌, ◌==◌, string_eq, All, inl, inr, Bool-cases,
  Option-cases,
}
use product_feed_protocol.Dict.{Dict, lookup, insert}
use product_feed_protocol.Dict.Keys.{keys}
use product_feed_protocol.Sorting.{sorted}
use product_feed_protocol.Text.{◌⧺◌, str_le}
use product_feed_protocol.Value.{Record}
use product_feed_protocol.Mapping.{FieldPlan}
use product_feed_protocol.Mapping.Executor.{Plan}
use product_feed_protocol.Compiler.{as_mapping, OpCatalog}
use product_feed_protocol.Compiler.Clean.{
  Always, Clean, Always-bind, Clean-bind, Clean-refuse, Any, Always-Any, Clean-Any,
}
use product_feed_protocol.Compiler.Presence.{read_global_presence}
use product_feed_protocol.Compiler.Fields.Chains.{IsTyped, Clean-compile_field_mapping}
use product_feed_protocol.Compiler.Fields.Links.{IsLinkedField, Always-compile_field_mapping}
use product_feed_protocol.Compiler.Outputs.{compile_output_order, read_delete_tombstone}
use product_feed_protocol.Compiler.Outputs.Orders.{IsOrdered, Clean-compile_output_order}
use product_feed_protocol.Compiler.Section.{
  read_output_kind, read_fields, compile_field, compile_fields, compile_section, compile_mapping,
}

abbrev OnFields : (FieldPlan → Type 0) → Dict String FieldPlan → Type 0
OnFields P d = All (λ (f : String × FieldPlan). P f.1) d

OnFields-insert :
    (P : FieldPlan → Type 0) (k : String) (plan : FieldPlan) (d : Dict String FieldPlan)
    → P plan
    → OnFields P d
    → OnFields P (insert k plan d)
unfolding insert
OnFields-insert P k plan [] h all = (h, tt)
OnFields-insert P k plan ((j, w) ∷ d) h (here, all) = elim (Bool-cases (j == k)) [
  | inl same ↦ rw same (h, all)
  | inr other ↦ rw other (here, OnFields-insert P k plan d h all)
]

module _ (catalog : OpCatalog) (global_default : String) where
  abbrev AllTyped : Dict String FieldPlan → Type 0
  AllTyped = OnFields IsTyped

  abbrev AllLinked : Dict String FieldPlan → Type 0
  AllLinked = OnFields (IsLinkedField catalog)

  Clean-compile_field :
      (field_id : String) (field_mapping : Option Record) (compiled : Dict String FieldPlan)
      → AllTyped compiled
      → Clean AllTyped (compile_field catalog global_default field_id field_mapping compiled)
  unfolding compile_field
  Clean-compile_field field_id none compiled all = Clean-refuse AllTyped compiled _ _ _
  Clean-compile_field field_id (some field_mapping) compiled all =
      Clean-bind IsTyped AllTyped _ _
        (Clean-compile_field_mapping catalog field_id ("mapping.fields." ⧺ field_id) global_default
          field_mapping)
        (λ plan h e. OnFields-insert IsTyped field_id plan compiled h all)

  Always-compile_field :
      (field_id : String) (field_mapping : Option Record) (compiled : Dict String FieldPlan)
      → AllLinked compiled
      → Always AllLinked (compile_field catalog global_default field_id field_mapping compiled)
  unfolding compile_field
  Always-compile_field field_id none compiled all = all
  Always-compile_field field_id (some field_mapping) compiled all =
      Always-bind (IsLinkedField catalog) AllLinked _ _
        (Always-compile_field_mapping catalog field_id ("mapping.fields." ⧺ field_id) global_default
          field_mapping)
        (λ plan h. OnFields-insert (IsLinkedField catalog) field_id plan compiled h all)

  Clean-compile_fields :
      (fields_obj : Record) (ids : List String) (compiled : Dict String FieldPlan)
      → AllTyped compiled
      → Clean AllTyped (compile_fields catalog global_default fields_obj ids compiled)
  unfolding compile_fields
  Clean-compile_fields fields_obj [] compiled all = λ e. all
  Clean-compile_fields fields_obj (id ∷ ids) compiled all =
      Clean-bind AllTyped AllTyped _ _
        (Clean-compile_field id (as_mapping (lookup id fields_obj)) compiled all)
        (λ grown h. Clean-compile_fields fields_obj ids grown h)

  Always-compile_fields :
      (fields_obj : Record) (ids : List String) (compiled : Dict String FieldPlan)
      → AllLinked compiled
      → Always AllLinked (compile_fields catalog global_default fields_obj ids compiled)
  unfolding compile_fields
  Always-compile_fields fields_obj [] compiled all = all
  Always-compile_fields fields_obj (id ∷ ids) compiled all =
      Always-bind AllLinked AllLinked _ _
        (Always-compile_field id (as_mapping (lookup id fields_obj)) compiled all)
        (λ grown h. Always-compile_fields fields_obj ids grown h)

-- The transforms of each field follow one another by their types, and the order lists the fields.
abbrev pub IsSound : Plan → Type 0
IsSound plan =
    OnFields IsTyped plan.fields × IsOrdered plan.output_kind (keys plan.fields) plan.output_order

-- Each call of each field is of an operation of the catalog.
abbrev pub IsLinkedPlan : OpCatalog → Plan → Type 0
IsLinkedPlan catalog plan = OnFields (IsLinkedField catalog) plan.fields

module _ (catalog : OpCatalog) where
  Clean-compile_section : (section : Record) → Clean IsSound (compile_section catalog section)
  unfolding compile_section
  Clean-compile_section section =
      Clean-bind Any IsSound (read_global_presence section) _ (Clean-Any _) (λ global_default _.
        Clean-bind Any IsSound (read_output_kind (lookup "output_kind" section)) _ (Clean-Any _)
          (λ kind _.
            Clean-bind Any IsSound (read_fields (as_mapping (lookup "fields" section))) _
              (Clean-Any _)
              (λ fields_obj _.
                Clean-bind (OnFields IsTyped) IsSound _ _
                  (Clean-compile_fields catalog global_default fields_obj
                    (sorted str_le (keys fields_obj)) [] tt)
                  (λ fields typed.
                    Clean-bind (IsOrdered kind (keys fields)) IsSound _ _
                      (Clean-compile_output_order kind section (keys fields))
                      (λ order ordered.
                        Clean-bind Any IsSound
                          (read_delete_tombstone (lookup "delete_tombstone" section)) _
                          (Clean-Any _) (λ tombstone _ e. (typed, ordered)))))))

  Always-compile_section :
      (section : Record) → Always (IsLinkedPlan catalog) (compile_section catalog section)
  unfolding compile_section
  Always-compile_section section =
      let P = IsLinkedPlan catalog in
      Always-bind Any P (read_global_presence section) _ (Always-Any _) (λ global_default _.
        Always-bind Any P (read_output_kind (lookup "output_kind" section)) _ (Always-Any _)
          (λ kind _.
            Always-bind Any P (read_fields (as_mapping (lookup "fields" section))) _ (Always-Any _)
              (λ fields_obj _.
                Always-bind (OnFields (IsLinkedField catalog)) P _ _
                  (Always-compile_fields catalog global_default fields_obj
                    (sorted str_le (keys fields_obj)) [] tt)
                  (λ fields linked.
                    Always-bind Any P (compile_output_order kind section (keys fields)) _
                      (Always-Any _)
                      (λ order _.
                        Always-bind Any P
                          (read_delete_tombstone (lookup "delete_tombstone" section)) _
                          (Always-Any _) (λ tombstone _. linked))))))

  pub Clean-compile_mapping : (doc : Record) → Clean IsSound (compile_mapping catalog doc)
  unfolding compile_mapping
  Clean-compile_mapping doc = elim (Option-cases (as_mapping (lookup "mapping" doc))) [
    | inl h ↦ rw (compile_mapping, h) (λ e. cc)
    | inr (section, h) ↦ rw (compile_mapping, h) (Clean-compile_section section)
  ]

  pub Always-compile_mapping :
      (doc : Record) → Always (IsLinkedPlan catalog) (compile_mapping catalog doc)
  unfolding compile_mapping
  Always-compile_mapping doc = elim (Option-cases (as_mapping (lookup "mapping" doc))) [
    | inl h ↦ rw (compile_mapping, h) tt
    | inr (section, h) ↦ rw (compile_mapping, h) (Always-compile_section section)
  ]
