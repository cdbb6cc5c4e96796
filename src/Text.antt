-- ===== src/Text.antt =====
-- The parts of Python's `str` that the components use. Case is that of ASCII letters: the few other
-- letters with an ASCII capital or small letter are left as they are.
pub mod Order
use Prim.Native.Nat.{◌/◌, ◌%◌}
use Prim.Native.Char.{Char, code}
use Prim.Native.String
use Prim.Native.String.{compare}
use Prim.Native.Nat.{Ordering}
use product_feed_protocol.Prelude.{
  ℕ, zero, suc, ◌+◌, ◌-◌, ◌*◌, String, ◌≡◌, refl, Bool, true, false, not, ◌&&◌, ◌||◌, Option, none,
  some, List, [], ◌∷◌, ◌++◌, map, ◌==◌, nat_eq, string_eq, leb, ltb, if◌then◌else◌, any,
}
use mathlib.Core.List.{reverse}

infixr 60 ◌⧺◌
abbrev pub ◌⧺◌ : String → String → String
s ⧺ t = String.◌++◌ s t

abbrev pub codes : String → List ℕ
codes String.[] = []
codes (String.◌∷◌ c s) = code c ∷ codes s

-- `str.isspace`, for one character.
unfoldable pub is_space : ℕ → Bool
is_space c =
    (leb 9 c && leb c 13)
    || (leb 28 c && leb c 32)
    || (c == 133)
    || (c == 160)
    || (c == 5760)
    || (leb 8192 c && leb c 8202)
    || (c == 8232)
    || (c == 8233)
    || (c == 8239)
    || (c == 8287)
    || (c == 12288)

strip_left : List ℕ → List ℕ
strip_left [] = []
strip_left (c ∷ cs) = if is_space c then strip_left cs else c ∷ cs

-- `s.strip()`
unfoldable pub strip : List ℕ → List ℕ
unfolding strip_left is_space
strip cs = reverse (strip_left (reverse (strip_left cs)))

unfoldable pub upper_code : ℕ → ℕ
upper_code c = if leb b'a' c && leb c b'z' then c - 32 else c

unfoldable pub lower_code : ℕ → ℕ
lower_code c = if leb b'A' c && leb c b'Z' then c + 32 else c

-- `s.upper()` and `s.lower()`
abbrev pub upper : List ℕ → List ℕ
upper = map upper_code

abbrev pub lower : List ℕ → List ℕ
lower = map lower_code

strip_left_text : String → String
strip_left_text String.[] = String.[]
strip_left_text (String.◌∷◌ c s) =
    let rest = strip_left_text s in if is_space (code c) then rest else String.◌∷◌ c s

reverse_onto : String → String → String
reverse_onto done String.[] = done
reverse_onto done (String.◌∷◌ c s) = reverse_onto (String.◌∷◌ c done) s

-- `s.strip()`, as a text.
unfoldable pub strip_text : String → String
unfolding strip_left_text reverse_onto is_space
strip_text s = reverse_onto String.[] (strip_left_text (reverse_onto String.[] (strip_left_text s)))

nth_char : ℕ → Char → String → Char
nth_char n c String.[] = c
nth_char zero c (String.◌∷◌ d s) = d
nth_char (suc n) c (String.◌∷◌ d s) = nth_char n c s

lower_char : Char → Char
unfolding nth_char
lower_char c =
    if leb b'A' (code c) && leb (code c) b'Z'
    then nth_char (code c - 65) c "abcdefghijklmnopqrstuvwxyz"
    else c

-- `s.lower()`, as a text.
unfoldable pub lower_text : String → String
unfolding lower_char
lower_text String.[] = String.[]
lower_text (String.◌∷◌ c s) = String.◌∷◌ (lower_char c) (lower_text s)

lower-strip : lower_text (strip_text " Catalog_Delta\n") ≡ "catalog_delta"
unfolding lower_text strip_text
lower-strip = refl

unfoldable pub same_codes : List ℕ → List ℕ → Bool
same_codes [] [] = true
same_codes (a ∷ xs) (b ∷ ys) = (a == b) && same_codes xs ys
same_codes _ _ = false

-- `cs in (…)` for texts.
abbrev pub is_one_of : List String → List ℕ → Bool
is_one_of names cs = any (λ name. same_codes (codes name) cs) names

abbrev pub is_empty : String → Bool
is_empty s = s == ""

abbrev pub push : String → Char → String
push s c = s ⧺ String.◌∷◌ c String.[]

unfoldable pub split_from : ℕ → List String → String → String → List String
split_from sep parts cur String.[] = parts ++ cur ∷ []
split_from sep parts cur (String.◌∷◌ c s) =
    let closed = split_from sep (parts ++ cur ∷ []) "" s in
    let longer = split_from sep parts (push cur c) s in if code c == sep then closed else longer

-- `s.split(".")`, with the separator's code.
unfoldable pub split : ℕ → String → List String
unfolding split_from
split sep s = split_from sep [] "" s

digit : ℕ → String
digit n =
    if n == 0
    then "0"
    else if n == 1
    then "1"
    else if n == 2
    then "2"
    else if n == 3
    then "3"
    else if n == 4
    then "4"
    else if n == 5
    then "5"
    else if n == 6
    then "6"
    else if n == 7
    then "7"
    else if n == 8
    then "8"
    else "9"

show_from : ℕ → ℕ → String
unfolding digit
show_from zero n = ""
show_from (suc fuel) n =
    let rest = show_from fuel (n / 10) in if ltb n 10 then digit n else rest ⧺ digit (n % 10)

-- `str(n)`
unfoldable pub show : ℕ → String
unfolding show_from
show n = show_from (suc n) n

-- `s <= t`, by code points.
abbrev pub str_le : String → String → Bool
str_le s t = elim (compare s t) [ Ordering.gt ↦ false | _ ↦ true ]

show_1203 : show 1203 ≡ "1203"
unfolding show
show_1203 = refl

split_path : split b'.' "a..bc" ≡ "a" ∷ "" ∷ "bc" ∷ []
unfolding split
split_path = refl

upper-strip : upper (strip (codes "  Warn\n")) ≡ codes "WARN"
unfolding strip upper_code
upper-strip = refl

upper_char : Char → Char
unfolding nth_char
upper_char c =
    if leb b'a' (code c) && leb (code c) b'z'
    then nth_char (code c - 97) c "ABCDEFGHIJKLMNOPQRSTUVWXYZ"
    else c

-- `s.upper()`, as a text.
unfoldable pub upper_text : String → String
unfolding upper_char
upper_text String.[] = String.[]
upper_text (String.◌∷◌ c s) = String.◌∷◌ (upper_char c) (upper_text s)

-- `s[:n]`
unfoldable pub take_text : ℕ → String → String
take_text n String.[] = String.[]
take_text zero (String.◌∷◌ c s) = String.[]
take_text (suc n) (String.◌∷◌ c s) = String.◌∷◌ c (take_text n s)

-- `len(s)`
unfoldable pub text_length : String → ℕ
text_length String.[] = 0
text_length (String.◌∷◌ c s) = suc (text_length s)

-- `s.startswith(d)`
unfoldable pub starts_with : String → String → Bool
starts_with String.[] s = true
starts_with (String.◌∷◌ d ds) String.[] = false
starts_with (String.◌∷◌ d ds) (String.◌∷◌ c s) = (code d == code c) && starts_with ds s

-- `s.rfind(d)`, with none for -1.
unfoldable pub rfind : String → String → Option ℕ
unfolding starts_with
rfind d String.[] = if is_empty d then some 0 else none
rfind d (String.◌∷◌ c s) = elim (rfind d s) [
  | some n ↦ some (suc n)
  | none ↦ if starts_with d (String.◌∷◌ c s) then some 0 else none
]

-- `re.sub(r"\s+", " ", s)`; the Boolean says that a space came last.
collapse_from : Bool → String → String
unfolding is_space
collapse_from after String.[] = String.[]
collapse_from after (String.◌∷◌ c s) =
    let spaced = collapse_from true s in
    let rest = collapse_from false s in
    if is_space (code c) then (if after then spaced else " " ⧺ spaced) else String.◌∷◌ c rest

unfoldable pub collapse_whitespace : String → String
unfolding collapse_from
collapse_whitespace s = collapse_from false s

upper-collapse : upper_text (collapse_whitespace "a \n b") ≡ "A B"
unfolding upper_text collapse_whitespace
upper-collapse = refl

rfind-dash : rfind "-" "a-b-c" ≡ some 3
unfolding rfind
rfind-dash = refl
