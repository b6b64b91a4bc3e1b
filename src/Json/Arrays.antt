-- ===== src/Json/Arrays.antt =====
-- JSON arrays of strings. Whole texts are checked against the grammar before anything is read,
-- as `Unmarshal` does; a value that is not a string leaves its element empty.
use argocd_monorepo_controll.Base.{
  ℕ, zero, suc, Text, codes, Bool, ◌&&◌, ◌||◌, List, [], ◌∷◌, ◌++◌, map, Option, none, some, length,
  ◌==◌, leb, if◌then◌else◌,
}
use argocd_monorepo_controll.Json.Strings.{◌>>=◌, quote, marshal_string, escape_all, string_body}

-- The elements behind the first, and the closing bracket.
unfoldable pub marshal_rest : List Text → Text
unfolding escape_all
marshal_rest [] = b']' ∷ []
marshal_rest (s ∷ ss) = b',' ∷ (marshal_string s ++ marshal_rest ss)

unfoldable pub marshal : List Text → Text
unfolding marshal_rest
marshal [] = codes "[]"
marshal (s ∷ ss) = b'[' ∷ (marshal_string s ++ marshal_rest ss)

-- What a value is to an element of type string.
pub data Shape : Type 0 where
  null : Shape
  str : Text → Shape
  other : Shape

unfoldable pub is_space : ℕ → Bool
is_space c = c == 32 || c == 9 || c == 10 || c == 13

unfoldable pub skip_spaces : Text → Text
unfolding is_space
skip_spaces [] = []
skip_spaces (c ∷ s) = if is_space c then skip_spaces s else c ∷ s

-- The text behind a literal.
literal : Text → Text → Option Text
literal [] s = some s
literal (c ∷ word) [] = none
literal (c ∷ word) (d ∷ s) = if c == d then literal word s else none

is_digit : ℕ → Bool
is_digit c = leb b'0' c && leb c b'9'

skip_digits : Text → Text
unfolding is_digit
skip_digits [] = []
skip_digits (c ∷ s) = if is_digit c then skip_digits s else c ∷ s

digits : Text → Option Text
unfolding skip_digits
digits [] = none
digits (c ∷ s) = if is_digit c then some (skip_digits s) else none

skip_sign : Text → Text
skip_sign [] = []
skip_sign (c ∷ s) = if c == b'+' || c == b'-' then s else c ∷ s

exponent : Text → Option Text
unfolding digits skip_sign
exponent [] = some []
exponent (c ∷ s) = if c == b'e' || c == b'E' then digits (skip_sign s) else some (c ∷ s)

fraction : Text → Option Text
unfolding exponent
fraction [] = some []
fraction (c ∷ s) = if c == b'.' then digits s >>= exponent else exponent (c ∷ s)

-- A number behind its minus sign.
number : Text → Option Text
unfolding fraction
number [] = none
number (c ∷ s) =
    if c == b'0' then fraction s else if is_digit c then fraction (skip_digits s) else none

as_other : Option Text → Option (Shape × Text)
as_other none = none
as_other (some s) = some (other, s)

as_null : Option Text → Option (Shape × Text)
as_null none = none
as_null (some s) = some (null, s)

-- Behind an element: another one, or the end.
unfoldable pub after_element :
    (Text → Option (List Shape × Text)) → Shape → Text → Option (List Shape × Text)
after_element more shape [] = none
after_element more shape (c ∷ s) =
    if c == b']'
    then some (shape ∷ [], s)
    else if c == b','
    then (do (shapes, rest) ← more s; some (shape ∷ shapes, rest))
    else none

after_member : (Text → Option Text) → Text → Option Text
after_member more [] = none
after_member more (c ∷ s) = if c == b'}' then some s else if c == b',' then more s else none

-- The text behind a key and its colon.
after_key : Text → Option Text
after_key [] = none
after_key (c ∷ s) = if c == b':' then some s else none

-- An array behind its opening bracket: empty, or with elements.
unfoldable pub open_array : (Text → Option (List Shape × Text)) → Text → Option (List Shape × Text)
open_array more [] = none
open_array more (c ∷ s) = if c == b']' then some ([], s) else more (c ∷ s)

open_object : (Text → Option Text) → Text → Option Text
open_object more [] = none
open_object more (c ∷ s) = if c == b'}' then some s else more (c ∷ s)

member_key : Text → Option Text
unfolding string_body
member_key [] = none
member_key (c ∷ s) =
    if c == quote then (do (_, rest) ← string_body (suc (length s)) s; some rest) else none

-- A value that begins with this character.
unfoldable pub value_at :
    (Text → Option (List Shape × Text)) → (Text → Option Text) → ℕ → Text → Option (Shape × Text)
unfolding literal number as_other as_null open_array open_object string_body
value_at elements members c s =
    if c == quote
    then (do (text, rest) ← string_body (suc (length s)) s; some (str text, rest))
    else if c == b'['
    then (do (_, rest) ← open_array elements (skip_spaces s); some (other, rest))
    else if c == b'{'
    then as_other (open_object members (skip_spaces s))
    else if c == b'n'
    then as_null (literal (codes "ull") s)
    else if c == b't'
    then as_other (literal (codes "rue") s)
    else if c == b'f'
    then as_other (literal (codes "alse") s)
    else if c == b'-'
    then as_other (number s)
    else as_other (number (c ∷ s))

unfoldable pub first_value :
    (Text → Option (List Shape × Text)) → (Text → Option Text) → Text → Option (Shape × Text)
unfolding value_at
first_value elements members [] = none
first_value elements members (c ∷ s) = value_at elements members c s

unfoldable mutual
  unfolding first_value after_element after_member after_key member_key skip_spaces

  -- The elements of an array, each with the space around it, and the closing bracket.
  pub elements : ℕ → Text → Option (List Shape × Text)
  elements zero s = none
  elements (suc fuel) s = do
    (shape, rest) ← first_value (elements fuel) (members fuel) (skip_spaces s)
    after_element (elements fuel) shape (skip_spaces rest)

  -- The members of an object, and the closing brace.
  pub members : ℕ → Text → Option Text
  members zero s = none
  members (suc fuel) s = do
    after_name ← member_key (skip_spaces s)
    at_value ← after_key (skip_spaces after_name)
    (shape, rest) ← first_value (elements fuel) (members fuel) (skip_spaces at_value)
    after_member (members fuel) (skip_spaces rest)

-- A value that is not a string leaves the empty string in its place.
abbrev pub text_of : Shape → Text
text_of null = []
text_of (str text) = text
text_of other = []

abbrev texts_if_end : List Shape → Text → List Text
texts_if_end shapes [] = map text_of shapes
texts_if_end shapes (c ∷ s) = []

unfoldable pub read_array : Option (List Shape × Text) → List Text
unfolding skip_spaces
read_array none = []
read_array (some (shapes, rest)) = texts_if_end shapes (skip_spaces rest)

unfoldable pub read_value : Text → List Text
unfolding read_array open_array elements
read_value [] = []
read_value (c ∷ s) =
    if c == b'[' then read_array (open_array (elements (suc (length s))) (skip_spaces s)) else []

-- The slice after `json.Unmarshal(text, &result)`: nil after a syntax error and for a value that is
-- no array.
unfoldable pub unmarshal : Text → List Text
unfolding read_value
unmarshal s = read_value (skip_spaces s)
