-- ===== src/Value.antt =====
-- The objects that records hold and that mapping operations and validation modules pass on, and
-- `Emission` of pfp_core/ext/ext_types.py.
use product_feed_protocol.Prelude.{ℕ, String, Bool, Option, none, some, List, [], ◌∷◌}
use product_feed_protocol.Dict.{Dict}

-- `__post_init__` asks for a payload with VALUE and for none with the other kinds.
pub data Emission : Type 0 where
  value : String → Emission
  omit null : Emission

-- `TypeId`, by its name.
abbrev pub TypeId : Type 0
TypeId = String

-- Python's `int`: a natural number, or one below zero, `- (n + 1)`.
pub data ℤ : Type 0 where
  pos negsuc : ℕ → ℤ

-- `missing` is the sentinel `MISSING`; the numbers that are not `int`, the dates and the times are known by their texts.
mutual
  pub data Value : Type 0 where
    missing none' : Value
    bool : Bool → Value
    int : ℤ → Value
    float decimal date datetime : String → Value
    str : String → Value
    list : Items → Value
    mapping : Fields → Value
    emission : Emission → Value

  pub data Items : Type 0 where
    nil : Items
    cons : Value → Items → Items

  pub data Fields : Type 0 where
    end : Fields
    field : String → Value → Fields → Fields

abbrev pub items : Items → List Value
items nil = []
items (cons v vs) = v ∷ items vs

abbrev pub fields : Fields → Dict String Value
fields end = []
fields (field k v fs) = (k, v) ∷ fields fs

abbrev pub to_fields : Dict String Value → Fields
to_fields [] = end
to_fields ((k, v) ∷ d) = field k v (to_fields d)

-- `input_record: Mapping[str, object]`
abbrev pub Record : Type 0
Record = Dict String Value

-- `value if isinstance(value, str) else None`, for what `get` found.
abbrev pub text_of : Option Value → Option String
text_of (some (str s)) = some s
text_of _ = none
