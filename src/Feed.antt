-- ===== src/Feed.antt =====
-- The producer with the executors of this program and the CSV writer, put together as
-- `ArtifactProducer.produce_artifacts` does.
pub mod Rows
mod Tests
use product_feed_protocol.Prelude.{String, Bool, Option, some, List, map}
use product_feed_protocol.Value.{Value, Record}
use product_feed_protocol.Validation as Validation
use product_feed_protocol.Validation.{RulePlan}
use product_feed_protocol.Validation.Executor as ValidationExecutor
use product_feed_protocol.Validation.Executor.{Policy, ExecutionResult}
use product_feed_protocol.Mapping as Mapping
use product_feed_protocol.Mapping.{Issue}
use product_feed_protocol.Mapping.Executor as MappingExecutor
use product_feed_protocol.Mapping.Executor.{Output}
use product_feed_protocol.Producer.{
  Isolation, Item, Production, WriterRecord, WriterValue, absent, empty, text, cells, members,
  produce,
}
use product_feed_protocol.Writers.{Written, Encoded}
use product_feed_protocol.Writers.Csv as Csv
use product_feed_protocol.Writers.Csv.{Cell, Row, tuple, object}

-- What the CSV writer sees of a record of the producer.
unfoldable pub to_cell : WriterValue → Cell
to_cell absent = Cell.missing
to_cell empty = Cell.none'
to_cell (text s) = Cell.other s

unfoldable pub to_row : WriterRecord → Row
unfolding to_cell
to_row (cells vs) = tuple (map to_cell vs)
to_row (members d) = object

-- The prepared executors, for a profile. They do not raise here: a raising `str` is left out.
module _ (modules : Validation.Catalog) (operations : Mapping.Catalog) (show_value : Value → String)
    (policy : Option Policy) (rules : List RulePlan) (plan : MappingExecutor.Plan)
    (profile : String) (isolation : Option Isolation) where
  unfoldable pub validate : Record → Option ExecutionResult
  unfolding ValidationExecutor.run_one
  validate item = some (ValidationExecutor.run_one modules policy rules item profile)

  unfoldable pub convert : Record → Option (Output × List Issue)
  unfolding MappingExecutor.run_one
  convert item = some (MappingExecutor.run_one operations show_value plan item profile)

  -- The payload that the writer is given.
  unfoldable pub payload : List Item → Production
  unfolding validate convert produce
  payload items = produce show_value validate convert isolation items

  -- The artifact of a feed with the CSV writer: its chunks, and the writer's own failure.
  unfoldable pub csv_artifact :
      {B : Type 0}
      → (List String → Encoded B)
      → (String → String)
      → Csv.Config
      → List Item
      → Written B
  unfolding payload to_row Csv.write
  csv_artifact write_row repr config items =
      Csv.write write_row repr config (map to_row (payload items).records)
