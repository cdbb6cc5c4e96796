-- ===== src/Producer/Streams.antt =====
-- The loop as a stream: what it makes of each item, and where it ends.
use product_feed_protocol.Prelude.{
  String, ◌≡◌, refl, ap, ◌⊎◌, inl, inr, Option, none, some, List, [], ◌∷◌, ◌++◌, map, Option-cases,
}
use product_feed_protocol.Dict.{Dict}
use product_feed_protocol.Value.{Emission, value, omit, null, Value, Record}
use product_feed_protocol.Diagnostics.{Diagnostic}
use product_feed_protocol.Validation.{Decision, pass}
use product_feed_protocol.Validation.Executor.{ExecutionResult}
use product_feed_protocol.Mapping.{Issue}
use product_feed_protocol.Mapping.Executor.{Output, row, object}
use product_feed_protocol.Producer.{
  round, go_on, stop, raise, Round, Ending, exhausted, stopped, raised, Production, Isolation,
  skip_item, fail_fast, ignore, Item, WriterValue, absent, empty, text, WriterRecord, cells,
  members, handle_error, extract_item_ref, validation_diagnostics, emission_to_writer_value,
  writer_members, mapped_output_to_writer_record, decide, map_item, produce_item, continue, produce,
}

-- The value of each cell for the writer: nothing for what is left out, none for a null, and the text of a value.
abbrev pub CellsOf : List Emission → List WriterValue → Type 0
CellsOf [] ws = ws ≡ []
CellsOf (omit ∷ es) ws = (rest : List WriterValue) × (ws ≡ absent ∷ rest) × CellsOf es rest
CellsOf (null ∷ es) ws = (rest : List WriterValue) × (ws ≡ empty ∷ rest) × CellsOf es rest
CellsOf (value s ∷ es) ws = (rest : List WriterValue) × (ws ≡ text s ∷ rest) × CellsOf es rest

-- An object has no member for what is left out.
abbrev pub MembersOf : Dict String Emission → Dict String WriterValue → Type 0
MembersOf [] ws = ws ≡ []
MembersOf ((key, omit) ∷ d) ws = MembersOf d ws
MembersOf ((key, null) ∷ d) ws =
    (rest : Dict String WriterValue) × (ws ≡ (key, empty) ∷ rest) × MembersOf d rest
MembersOf ((key, value s) ∷ d) ws =
    (rest : Dict String WriterValue) × (ws ≡ (key, text s) ∷ rest) × MembersOf d rest

abbrev pub RecordOf : Output → WriterRecord → Type 0
RecordOf (row es) r = (ws : List WriterValue) × (r ≡ cells ws) × CellsOf es ws
RecordOf (object d) r = (ws : Dict String WriterValue) × (r ≡ members ws) × MembersOf d ws

abbrev pub IsKept : Decision → Type 0
IsKept d = (d ≡ pass) ⊎ (d ≡ Decision.warn)

-- The policies that let the loop go on after an exception, and the others.
abbrev pub IsIsolated : Option Isolation → Type 0
IsIsolated isolation = (isolation ≡ some skip_item) ⊎ (isolation ≡ some ignore)

abbrev pub IsFailFast : Option Isolation → Type 0
IsFailFast isolation = (isolation ≡ none) ⊎ (isolation ≡ some fail_fast)

handle_error-cases :
    (isolation : Option Isolation)
    → ((handle_error isolation ≡ go_on) × IsIsolated isolation)
      ⊎ ((handle_error isolation ≡ raise) × IsFailFast isolation)
unfolding handle_error
handle_error-cases none = inr (refl, inl refl)
handle_error-cases (some skip_item) = inl (refl, inl refl)
handle_error-cases (some fail_fast) = inr (refl, inr refl)
handle_error-cases (some ignore) = inl (refl, inr refl)

CellsOf-map : (es : List Emission) → CellsOf es (map emission_to_writer_value es)
unfolding emission_to_writer_value
CellsOf-map [] = refl
CellsOf-map (omit ∷ es) = (_, refl, CellsOf-map es)
CellsOf-map (null ∷ es) = (_, refl, CellsOf-map es)
CellsOf-map (value s ∷ es) = (_, refl, CellsOf-map es)

MembersOf-writer_members : (d : Dict String Emission) → MembersOf d (writer_members d)
unfolding writer_members emission_to_writer_value
MembersOf-writer_members [] = refl
MembersOf-writer_members ((key, omit) ∷ d) = MembersOf-writer_members d
MembersOf-writer_members ((key, null) ∷ d) = (_, refl, MembersOf-writer_members d)
MembersOf-writer_members ((key, value s) ∷ d) = (_, refl, MembersOf-writer_members d)

RecordOf-mapped : (o : Output) → RecordOf o (mapped_output_to_writer_record o)
unfolding mapped_output_to_writer_record
RecordOf-mapped (row es) = (_, refl, CellsOf-map es)
RecordOf-mapped (object d) = (_, refl, MembersOf-writer_members d)

module _ (validate : Record → Option ExecutionResult)
    (convert : Record → Option (Output × List Issue)) (isolation : Option Isolation) where
  -- The item is no mapping, or its validation drops it.
  abbrev pub IsDropped : Item → Type 0
  IsDropped item =
      (item ≡ none)
      ⊎ ((r : Record) × (v : ExecutionResult) × (item ≡ some r)
          × (validate r ≡ some v)
          × (v.decision ≡ Decision.drop))

  -- Its validation fails it.
  abbrev pub IsFailed : Item → Type 0
  IsFailed item =
      (r : Record) × (v : ExecutionResult) × (item ≡ some r)
      × (validate r ≡ some v)
      × (v.decision ≡ Decision.fail)

  -- The validation raises on it, or lets it pass to a mapping that raises.
  abbrev pub Raises : Item → Type 0
  Raises item =
      ((r : Record) × (item ≡ some r) × (validate r ≡ none))
      ⊎ ((r : Record) × (v : ExecutionResult) × (item ≡ some r)
          × (validate r ≡ some v)
          × IsKept v.decision
          × (convert r ≡ none))

  -- The validation lets it pass, and the record is what it is mapped to.
  abbrev pub IsWritten : Item → WriterRecord → Type 0
  IsWritten item w =
      (r : Record) × (v : ExecutionResult) × (o : Output × List Issue) × (item ≡ some r)
      × (validate r ≡ some v)
      × IsKept v.decision
      × (convert r ≡ some o)
      × RecordOf o.0 w

  abbrev pub IsSkipped : Item → Type 0
  IsSkipped item = IsDropped item ⊎ (Raises item × IsIsolated isolation)

  -- Each item is skipped or becomes the next record, and there are no other records.
  abbrev pub AreRecords : List Item → List WriterRecord → Type 0
  AreRecords [] ws = ws ≡ []
  AreRecords (item ∷ items) ws =
      (IsSkipped item × AreRecords items ws)
      ⊎ ((w : WriterRecord) × (rest : List WriterRecord) × (ws ≡ w ∷ rest)
          × IsWritten item w
          × AreRecords items rest)

  -- Why the loop does not go on with what is left.
  abbrev pub EndsAt : Ending → List Item → Type 0
  EndsAt exhausted left = left ≡ []
  EndsAt stopped left = (item : Item) × (more : List Item) × (left ≡ item ∷ more) × IsFailed item
  EndsAt raised left =
      (item : Item) × (more : List Item) × (left ≡ item ∷ more) × Raises item × IsFailFast isolation

  abbrev pub IsProduced : List Item → Production → Type 0
  IsProduced items p =
      (done : List Item) × (left : List Item) × (items ≡ done ++ left)
      × AreRecords done p.records
      × EndsAt p.ending left

  -- What a round makes of an item.
  abbrev Outcome : Item → Round → Type 0
  Outcome item r =
      ((r.flow ≡ go_on) × (r.yielded ≡ none) × IsSkipped item)
      ⊎ (((w : WriterRecord) × (r.flow ≡ go_on) × (r.yielded ≡ some w) × IsWritten item w)
          ⊎ (((r.flow ≡ stop) × (r.yielded ≡ none) × IsFailed item)
              ⊎ ((r.flow ≡ raise) × (r.yielded ≡ none) × Raises item × IsFailFast isolation)))

  Outcome-raises :
      (item : Item) (ds : List Diagnostic)
      → Raises item
      → Outcome item (round none ds (handle_error isolation))
  Outcome-raises item ds e = elim (handle_error-cases isolation) [
    | inl (h, k) ↦ inl (h, refl, inr (e, k))
    | inr (h, k) ↦ inr (inr (inr (h, refl, e, k)))
  ]

  module _ (show_value : Value → String) where
    Outcome-map_item :
        (ref : String) (r : Record) (v : ExecutionResult) (ds : List Diagnostic)
        → validate r ≡ some v
        → IsKept v.decision
        → Outcome (some r) (map_item show_value validate convert isolation ref r ds)
    unfolding map_item
    Outcome-map_item ref r v ds h k = elim (Option-cases (convert r)) [
      | inl c ↦ rw (map_item, c) (Outcome-raises (some r) ds (inr (r, v, refl, h, k, c)))
      | inr (o, c) ↦
          rw (map_item, c)
            (inr (inl (_, refl, refl, (r, v, o, refl, h, k, c, RecordOf-mapped o.0))))
    ]

    Outcome-decide :
        (ref : String) (r : Record) (v : ExecutionResult) (ds : List Diagnostic) (d : Decision)
        → validate r ≡ some v
        → v.decision ≡ d
        → Outcome (some r) (decide show_value validate convert isolation ref r ds d)
    unfolding decide
    Outcome-decide ref r v ds Decision.drop h k = inl (refl, refl, inl (inr (r, v, refl, h, k)))
    Outcome-decide ref r v ds Decision.fail h k = inr (inr (inl (refl, refl, (r, v, refl, h, k))))
    Outcome-decide ref r v ds pass h k = Outcome-map_item ref r v ds h (inl k)
    Outcome-decide ref r v ds Decision.warn h k = Outcome-map_item ref r v ds h (inr k)

    Outcome-produce_item :
        (item : Item) → Outcome item (produce_item show_value validate convert isolation item)
    unfolding produce_item
    Outcome-produce_item none = inl (refl, refl, inl (inl refl))
    Outcome-produce_item (some r) = elim (Option-cases (validate r)) [
      | inl h ↦ rw (produce_item, h) (Outcome-raises (some r) [] (inl (r, refl, h)))
      | inr (v, h) ↦
          rw (produce_item, h)
            (Outcome-decide (extract_item_ref show_value r) r v
              (validation_diagnostics (extract_item_ref show_value r) v) v.decision h refl)
    ]

    IsProduced-continue :
        (item : Item) (items : List Item) (r : Round) (p : Production)
        → Outcome item r
        → IsProduced items p
        → IsProduced (item ∷ items) (continue r p)
    unfolding continue
    IsProduced-continue item items r p (inl (f, y, s)) (done, left, split, records, ends) =
        rw (f, y) (item ∷ done, left, ap (◌∷◌ item) split, inl (s, records), ends)
    IsProduced-continue item items r p (inr (inl (w, f, y, s))) (done, left, split, records, ends) =
        rw (f, y)
          (item ∷ done, left, ap (◌∷◌ item) split, inr (w, p.records, refl, s, records), ends)
    IsProduced-continue item items r p (inr (inr (inl (f, y, s)))) _ =
        rw (f, y) ([], item ∷ items, refl, refl, (item, items, refl, s))
    IsProduced-continue item items r p (inr (inr (inr (f, y, s, k)))) _ =
        rw (f, y) ([], item ∷ items, refl, refl, (item, items, refl, s, k))

    -- The items of a feed are processed in order up to some item. Up to there, each is skipped or becomes the next record: it is
    -- skipped if it is no mapping, if its validation drops it, or if an executor raises on it and the policy isolates that; else
    -- its validation passes or warns, and its record has what the mapping makes of it, cell by cell or member by member. There the
    -- feed is exhausted, or the next item fails its validation, or an executor raises on it and no policy isolates that.
    pub produce-IsProduced :
        (items : List Item) → IsProduced items (produce show_value validate convert isolation items)
    unfolding produce
    produce-IsProduced [] = ([], [], refl, refl, refl)
    produce-IsProduced (item ∷ items) =
        IsProduced-continue item items (produce_item show_value validate convert isolation item)
          (produce show_value validate convert isolation items) (Outcome-produce_item item)
          (produce-IsProduced items)
