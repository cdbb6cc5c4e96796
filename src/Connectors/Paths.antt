-- ===== src/Connectors/Paths.antt =====
-- A value that a record holds under a dotted path is found there by the mapping of the core.
use Prim.Native.Char.{code}
use product_feed_protocol.Prelude.{
  ℕ, String, ◌≡◌, ◌≢◌, ◌⊎◌, inl, inr, refl, sym, ap, ◌∙◌, arith, false, Option, none, some, List,
  [], ◌∷◌, ◌++◌, ◌==◌, string_eq, nat_eq, eq_iff, All, Bool-cases, if◌then◌else◌,
}
use product_feed_protocol.Dict.{lookup, insert, lookup-insert}
use product_feed_protocol.Text.{split, split_from, push, is_empty}
use product_feed_protocol.Value.{
  Value, missing, none', bool, int, float, decimal, date, datetime, str, list, mapping, emission,
  Fields, fields, to_fields, Record,
}
use product_feed_protocol.Mapping.{extract_segment, extract_segments, extract_by_source_path}
use product_feed_protocol.Mapping.TaxCodes.Prefixes.{fields-to_fields}
use product_feed_protocol.Connectors.Records.{object_of, child, set_path, unflatten_onto, unflatten}

split_from-ne-nil :
    (sep : ℕ) (parts : List String) (cur s : String) → split_from sep parts cur s ≢ []
unfolding split_from
split_from-ne-nil sep [] cur String.[] = λ e. cc
split_from-ne-nil sep (p ∷ parts) cur String.[] = λ e. cc
split_from-ne-nil sep parts cur (String.◌∷◌ c s) = elim (Bool-cases (code c == sep)) [
  | inl h ↦ rw (split_from, h) (split_from-ne-nil sep (parts ++ cur ∷ []) "" s)
  | inr h ↦ rw (split_from, h) (split_from-ne-nil sep parts (push cur c) s)
]

split-ne-nil : (sep : ℕ) (s : String) → split sep s ≢ []
unfolding split
split-ne-nil sep s = split_from-ne-nil sep [] "" s

-- A walk through objects only.
unfoldable find_path : List String → Record → Option Value
unfolding child lookup
find_path [] d = none
find_path (s ∷ []) d = lookup s d
find_path (s ∷ t ∷ ss) d = find_path (t ∷ ss) (child s d)

-- Two paths part: neither begins the other.
abbrev pub Part : List String → List String → Type 0
Part (s ∷ ss) (t ∷ ts) = (s ≢ t) ⊎ ((s ≡ t) × Part ss ts)
Part _ _ = ⊥

lookup-insert_same : (s : String) (v : Value) (d : Record) → lookup s (insert s v d) ≡ some v
lookup-insert_same s v d =
    lookup-insert s s v d ∙ ap (λ b. if b then some v else lookup s d) ((eq_iff s s).1 refl)

lookup-insert_other :
    (s t : String) (v : Value) (d : Record) → s ≢ t → lookup t (insert s v d) ≡ lookup t d
lookup-insert_other s t v d apart = elim (Bool-cases (s == t)) [
  | inl same ↦ absurd (apart ((eq_iff s t).0 same))
  | inr other ↦ lookup-insert s t v d ∙ ap (λ b. if b then some v else lookup t d) other
]

child-insert_same : (s : String) (e d : Record) → child s (insert s (mapping (to_fields e)) d) ≡ e
unfolding child
child-insert_same s e d =
    ap object_of (lookup-insert_same s (mapping (to_fields e)) d) ∙ fields-to_fields e

child-insert_other :
    (s t : String) (v : Value) (d : Record) → s ≢ t → child t (insert s v d) ≡ child t d
unfolding child
child-insert_other s t v d apart = ap object_of (lookup-insert_other s t v d apart)

find_path-set_path :
    (ss : List String) (v : Value) (d : Record) → ss ≢ [] → find_path ss (set_path ss v d) ≡ some v
unfolding find_path set_path
find_path-set_path [] v d h = absurd (h refl)
find_path-set_path (s ∷ []) v d h = lookup-insert_same s v d
find_path-set_path (s ∷ t ∷ ss) v d h =
    ap (find_path (t ∷ ss)) (child-insert_same s (set_path (t ∷ ss) v (child s d)) d)
    ∙ find_path-set_path (t ∷ ss) v (child s d) (λ e. cc)

set_path-eq-insert :
    (s : String) (ss : List String) (v : Value) (d : Record)
    → (w : Value) × (set_path (s ∷ ss) v d ≡ insert s w d)
unfolding set_path
set_path-eq-insert s [] v d = (v, refl)
set_path-eq-insert s (t ∷ ss) v d = (mapping (to_fields (set_path (t ∷ ss) v (child s d))), refl)

find_path-insert :
    (s t : String) (ts : List String) (w : Value) (d : Record)
    → s ≢ t
    → find_path (t ∷ ts) (insert s w d) ≡ find_path (t ∷ ts) d
unfolding find_path
find_path-insert s t [] w d apart = lookup-insert_other s t w d apart
find_path-insert s t (u ∷ us) w d apart = ap (find_path (u ∷ us)) (child-insert_other s t w d apart)

find_path-set_path_other :
    (ss ts : List String) (v : Value) (d : Record)
    → Part ss ts
    → find_path ts (set_path ss v d) ≡ find_path ts d
unfolding find_path set_path
find_path-set_path_other [] ts v d h = absurd h
find_path-set_path_other (s ∷ ss) [] v d h = absurd h
find_path-set_path_other (s ∷ ss) (t ∷ ts) v d (inl apart) =
    let (w, set) = set_path-eq-insert s ss v d in
    ap (find_path (t ∷ ts)) set ∙ find_path-insert s t ts w d apart
find_path-set_path_other (s ∷ []) (t ∷ ts) v d (inr (same, h)) = absurd h
find_path-set_path_other (s ∷ p ∷ ss) (t ∷ []) v d (inr (same, h)) = absurd h
find_path-set_path_other (s ∷ p ∷ ss) (t ∷ q ∷ ts) v d (inr (same, h)) =
    ap (λ k. find_path (q ∷ ts) (child k (set_path (s ∷ p ∷ ss) v d))) (sym same)
    ∙ ap (find_path (q ∷ ts)) (child-insert_same s (set_path (p ∷ ss) v (child s d)) d)
    ∙ find_path-set_path_other (p ∷ ss) (q ∷ ts) v (child s d) h
    ∙ ap (λ k. find_path (q ∷ ts) (child k d)) same

find_path-nil : (ss : List String) → find_path ss [] ≡ none
unfolding find_path child lookup
find_path-nil [] = refl
find_path-nil (s ∷ []) = refl
find_path-nil (s ∷ t ∷ ss) = find_path-nil (t ∷ ss)

none_found : (ss : List String) (v : Value) → find_path ss [] ≡ some v → ⊥
none_found ss v h = ground (arith, find_path-nil ss, h)

-- What is found by a walk through objects is what the core extracts.
extract_from :
    (w : Value) (rest : List String) (v : Value)
    → ((fs : Fields) → find_path rest (fields fs) ≡ some v → extract_segments rest (mapping fs) ≡ v)
    → find_path rest (object_of (some w)) ≡ some v
    → extract_segments rest w ≡ v
extract_from (mapping fs) rest v ih h = ih fs h
extract_from missing rest v ih h = absurd (none_found rest v h)
extract_from none' rest v ih h = absurd (none_found rest v h)
extract_from (bool b) rest v ih h = absurd (none_found rest v h)
extract_from (int n) rest v ih h = absurd (none_found rest v h)
extract_from (float x) rest v ih h = absurd (none_found rest v h)
extract_from (decimal x) rest v ih h = absurd (none_found rest v h)
extract_from (date x) rest v ih h = absurd (none_found rest v h)
extract_from (datetime x) rest v ih h = absurd (none_found rest v h)
extract_from (str x) rest v ih h = absurd (none_found rest v h)
extract_from (list vs) rest v ih h = absurd (none_found rest v h)
extract_from (emission e) rest v ih h = absurd (none_found rest v h)

extract_next :
    (found : Option Value) (rest : List String) (v : Value)
    → ((fs : Fields) → find_path rest (fields fs) ≡ some v → extract_segments rest (mapping fs) ≡ v)
    → find_path rest (object_of found) ≡ some v
    → elim found [ none ↦ missing | some next ↦ extract_segments rest next ] ≡ v
extract_next none rest v ih h = absurd (none_found rest v h)
extract_next (some w) rest v ih h = extract_from w rest v ih h

extract_segments-find_path :
    (ss : List String) (v : Value) (fs : Fields)
    → find_path ss (fields fs) ≡ some v
    → extract_segments ss (mapping fs) ≡ v
unfolding extract_segments extract_segment find_path child
extract_segments-find_path [] v fs h = ground arith
extract_segments-find_path (s ∷ []) v fs h =
    ap (λ found. elim found [ none ↦ missing | some next ↦ next ]) h
extract_segments-find_path (s ∷ t ∷ ss) v fs h =
    extract_next (lookup s (fields fs)) (t ∷ ss) v (extract_segments-find_path (t ∷ ss) v) h

-- The paths of a record part from a path.
abbrev pub AllPart : List String → Record → Type 0
AllPart ss r = All (λ (e : String × Value). Part (split b'.' e.0) ss) r

find_path-unflatten_onto :
    (ss : List String) (result after : Record)
    → AllPart ss after
    → find_path ss (unflatten_onto result after) ≡ find_path ss result
unfolding unflatten_onto
find_path-unflatten_onto ss result [] h = refl
find_path-unflatten_onto ss result ((path, v) ∷ after) (here, h) =
    find_path-unflatten_onto ss (set_path (split b'.' path) v result) after h
    ∙ find_path-set_path_other (split b'.' path) ss v result here

unflatten_onto-append :
    (result before after : Record)
    → unflatten_onto result (before ++ after) ≡ unflatten_onto (unflatten_onto result before) after
unfolding unflatten_onto
unflatten_onto-append result [] after = refl
unflatten_onto-append result ((path, v) ∷ before) after =
    unflatten_onto-append (set_path (split b'.' path) v result) before after

-- If a flat record has a value at a path, and no later path begins it or begins with it, then the core extracts that value by that
-- path from the nested record.
pub extract-unflatten :
    (before after : Record) (path : String) (v : Value)
    → is_empty path ≡ false
    → AllPart (split b'.' path) after
    → extract_by_source_path (mapping (to_fields (unflatten (before ++ (path, v) ∷ after)))) path
      ≡ v
unfolding extract_by_source_path unflatten unflatten_onto
extract-unflatten before after path v given apart =
    let ss = split b'.' path in
    let placed = set_path ss v (unflatten_onto [] before) in
    let found : find_path ss (unflatten_onto [] (before ++ (path, v) ∷ after)) ≡ some v =
      ap (find_path ss) (unflatten_onto-append [] before ((path, v) ∷ after))
      ∙ find_path-unflatten_onto ss placed after apart
      ∙ find_path-set_path ss v (unflatten_onto [] before) (split-ne-nil b'.' path) in
    ap
      (λ b.
        if b
        then missing
        else extract_segments ss
            (mapping (to_fields (unflatten_onto [] (before ++ (path, v) ∷ after)))))
      given
    ∙ extract_segments-find_path ss v _ (ap (find_path ss) (fields-to_fields _) ∙ found)
