-- ===== src/Producer/Decisions.antt =====
-- What the decisions of the validation make of the loop.
use product_feed_protocol.Prelude.{
  String, ◌≡◌, refl, arith, Bool, false, Option, none, some, List, [], ◌∷◌, map, any, if◌then◌else◌,
}
use product_feed_protocol.Value.{Value, Record}
use product_feed_protocol.Diagnostics.{has_errors}
use product_feed_protocol.Validation.{ItemSeverity, fail, warn, drop, ReportItem}
use product_feed_protocol.Validation.Executor.{ExecutionResult, is_failure}
use product_feed_protocol.Mapping.{Issue}
use product_feed_protocol.Mapping.Executor.{Output}
use product_feed_protocol.Producer.{
  go_on, stop, Round, exhausted, stopped, Isolation, Item, handle_error, normalize_severity,
  severity_token, decision_token, diagnostic, validation_diagnostics, decide, map_item,
  produce_item, continue, produce,
}

not_an_error :
    (code message path item_ref action : String) (s : ItemSeverity)
    → has_errors
        (diagnostic (normalize_severity (severity_token s)) code message path item_ref action ∷ [])
      ≡ false
unfolding normalize_severity has_errors
not_an_error code message path item_ref action fail = refl
not_an_error code message path item_ref action warn = refl
not_an_error code message path item_ref action drop = refl

no_errors_from :
    (item_ref action : String) (items : List ReportItem)
    → has_errors (
        map
          (λ (i : ReportItem).
            diagnostic
              (normalize_severity (severity_token i.severity))
              i.code
              i.message
              i.path
              item_ref
              action)
          items)
      ≡ false
unfolding has_errors
no_errors_from item_ref action [] = refl
no_errors_from item_ref action (i ∷ items) = ground (
  arith,
  not_an_error i.code i.message i.path item_ref action i.severity,
  no_errors_from item_ref action items,
)

-- No item of a validation becomes an ERROR diagnostic, not even one that fails the record: the severities of the items are
-- FAIL, WARN and DROP, and the tokens that make an ERROR are ERROR, ERR and E.
pub no_errors-validation_diagnostics :
    (item_ref : String) (validation : ExecutionResult)
    → has_errors (validation_diagnostics item_ref validation) ≡ false
unfolding validation_diagnostics
no_errors-validation_diagnostics item_ref validation =
    no_errors_from item_ref (decision_token validation.decision) validation.items

-- The item is a record that its validation fails.
unfoldable pub fails : (Record → Option ExecutionResult) → Item → Bool
fails validate none = false
fails validate (some item) = elim (validate item) [ none ↦ false | some v ↦ is_failure v.decision ]

module _ (show_value : Value → String) (validate : Record → Option ExecutionResult)
    (convert : Record → Option (Output × List Issue)) (isolation : Option Isolation) where
  abbrev round_of : Item → Round
  round_of = produce_item show_value validate convert isolation

  flow_round :
      (item : Item)
      → handle_error isolation ≡ go_on
      → (round_of item).flow ≡ (if fails validate item then stop else go_on)
  unfolding produce_item fails decide map_item
  flow_round none h = refl
  flow_round (some item) h = ground (arith, h)

  -- Where a fault isolation policy lets the loop go on, the feed is read to its end exactly when no item fails its
  -- validation, and is stopped otherwise: neither a malformed item nor an exception ends it.
  pub ending-produce :
      (items : List Item)
      → handle_error isolation ≡ go_on
      → (produce show_value validate convert isolation items).ending
        ≡ (if any (fails validate) items then stopped else exhausted)
  unfolding produce continue
  ending-produce [] h = refl
  ending-produce (item ∷ items) h = ground (arith, h, flow_round item h, ending-produce items h)
