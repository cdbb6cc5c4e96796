-- ===== src/Flood.antt =====
-- pfp_utils/logging/filters/flood_control_filter: what the strategies share. The clock is a natural
-- number of ticks and `get_context()` is an argument. A value that a key is built from is a `Part`.
pub mod Eviction
pub mod RateLimit
pub mod Deduplicate
pub mod Summary
pub mod Filter
mod Tests
use product_feed_protocol.Prelude.{
  ℕ, String, ◌≡◌, refl, ap, ◌↔◌, arith, Bool, true, false, ◌&&◌, ◌||◌, Option, none, some, List, [],
  ◌∷◌, map, Eq, ◌==◌, eq_iff, if◌then◌else◌, any, string_eq, nat_eq,
}
use product_feed_protocol.Dict.{Dict, lookup}

-- `unhashable r` is a value that `hash` refuses, with its `repr`.
pub data Part : Type 0 where
  null : Part
  number : ℕ → Part
  text : String → Part
  unhashable : String → Part

part_beq : Part → Part → Bool
part_beq null null = true
part_beq (number a) (number b) = a == b
part_beq (text a) (text b) = a == b
part_beq (unhashable a) (unhashable b) = a == b
part_beq _ _ = false

part_beq_iff : (a b : Part) → (part_beq a b ≡ true) ↔ (a ≡ b)
unfolding part_beq
part_beq_iff (number a) (number b) = ground arith
part_beq_iff (text a) (text b) = ground (arith, eq_iff a b)
part_beq_iff (unhashable a) (unhashable b) = ground (arith, eq_iff a b)
part_beq_iff _ _ = ground arith

-- `FloodControlKey`
abbrev pub Key : Type 0
Key = List Part

unfoldable pub key_beq : Key → Key → Bool
unfolding part_beq
key_beq [] [] = true
key_beq (a ∷ as') (b ∷ bs) = part_beq a b && key_beq as' bs
key_beq _ _ = false

pub key_beq_iff : (a b : Key) → (key_beq a b ≡ true) ↔ (a ≡ b)
unfolding key_beq
key_beq_iff (a ∷ as') (b ∷ bs) = ground (arith, part_beq_iff a b, key_beq_iff as' bs)
key_beq_iff _ _ = ground arith

instance abbrev pub key_eq : Eq Key
key_eq = record { same = key_beq; same_iff = key_beq_iff }

pub data Mode : Type 0 where
  off context_info_suppression rate_limit deduplicate : Mode

-- `FloodControlFilterConfig`
pub record Config : Type 0 where
  pub enabled : Bool
  pub mode : Mode
  pub context_keys : List String
  pub suppressed_levels : List ℕ
  pub force_log_attr : String
  pub key_fields : List String
  pub window_seconds : ℕ
  pub max_events_per_window : ℕ
  pub emit_summary : Bool
  pub summary_level : ℕ
  pub summary_interval_seconds : ℕ
  pub max_cache_size : ℕ

-- The attributes hold what `getattr` reads, the name and the level among them.
pub record LogRecord : Type 0 where
  pub name : String
  pub levelno : ℕ
  pub message : String
  pub attributes : Dict String Part

abbrev pub Context : Type 0
Context = Dict String Part

abbrev is_present : Option Part → Bool
is_present none = false
is_present (some _) = true

unfoldable pub is_context_active : Context → List String → Bool
unfolding lookup
is_context_active context [] = true
is_context_active context keys = any (λ key. is_present (lookup key context)) keys

unfoldable pub freeze_key_component : Part → Part
freeze_key_component (unhashable repr) = text repr
freeze_key_component value = value

abbrev or_null : Option Part → Part
or_null none = null
or_null (some value) = value

-- Where one field of the key comes from: the context, the message, or an attribute.
unfoldable pub field_value : LogRecord → Context → String → Part
unfolding lookup
field_value r context field = elim (lookup field context) [
  | some value ↦ value
  | none ↦ if field == "message" then text r.message else or_null (lookup field r.attributes)
]

unfoldable pub build_record_key : LogRecord → Context → List String → Key
unfolding freeze_key_component field_value
build_record_key r context fields =
    map (λ field. freeze_key_component (field_value r context field)) fields

-- `_get_active_context`: the context, when the record may be suppressed.
unfoldable pub get_active_context : Config → LogRecord → Context → Option Context
unfolding is_context_active
get_active_context config r context =
    if any (λ level. level == r.levelno) config.suppressed_levels
    then (if is_context_active context config.context_keys then some context else none)
    else none
