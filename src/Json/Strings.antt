-- ===== src/Json/Strings.antt =====
-- JSON strings: `json.Marshal` of a string, and how `json.Unmarshal` reads one.
--
-- Texts are bytes, read as UTF-8. The fuel of the parsers and of the writer is the length of the text.
use argocd_monorepo_controll.Base.{
  ℕ, zero, suc, ◌+◌, ◌-◌, ◌*◌, ◌/◌, ◌%◌, Text, ◌&&◌, ◌||◌, [], ◌∷◌, ◌++◌, Option, none, some, ◌==◌,
  leb, ltb, length, text_eq, codes, take_rune, if◌then◌else◌,
}

infixl 5 ◌>>=◌
abbrev pub ◌>>=◌ {ℓ κ} : {A : Type ℓ} {B : Type κ} → Option A → (A → Option B) → Option B
none >>= k = none
some a >>= k = k a

abbrev pub quote : ℕ
quote = 34

abbrev pub backslash : ℕ
backslash = 92

unfoldable pub hex_digit : ℕ → ℕ
hex_digit d = if ltb d 10 then b'0' + d else b'a' + (d - 10)

-- One byte of a string; `<`, `>` and `&` are escaped too.
unfoldable pub escape : ℕ → Text
unfolding hex_digit
escape c =
    if c == quote || c == backslash
    then backslash ∷ c ∷ []
    else if c == 8
    then backslash ∷ b'b' ∷ []
    else if c == 12
    then backslash ∷ b'f' ∷ []
    else if c == 10
    then backslash ∷ b'n' ∷ []
    else if c == 13
    then backslash ∷ b'r' ∷ []
    else if c == 9
    then backslash ∷ b't' ∷ []
    else if ltb c 32 || c == b'<' || c == b'>' || c == b'&'
    then backslash ∷ b'u' ∷ b'0' ∷ b'0' ∷ hex_digit (c / 16) ∷ hex_digit (c % 16) ∷ []
    else c ∷ []

-- The line separators U+2028 and U+2029.
abbrev pub line_separator : Text
line_separator = 0xe2 ∷ 0x80 ∷ 0xa8 ∷ []

abbrev pub paragraph_separator : Text
paragraph_separator = 0xe2 ∷ 0x80 ∷ 0xa9 ∷ []

-- A rune, by its bytes.
unfoldable pub escape_rune : Text → Text
unfolding escape text_eq
escape_rune [] = []
escape_rune (c ∷ []) = escape c
escape_rune (c ∷ d ∷ s) =
    if text_eq (c ∷ d ∷ s) line_separator
    then codes "\\u2028"
    else if text_eq (c ∷ d ∷ s) paragraph_separator
    then codes "\\u2029"
    else c ∷ d ∷ s

-- The first rune escaped, and the text behind it; a byte that begins none stands for U+FFFD.
unfoldable pub escape_first : Option (Text × Text) → Text → Text × Text
unfolding escape_rune
escape_first none s = (codes "\\ufffd", s)
escape_first (some (bytes, rest)) s = (escape_rune bytes, rest)

unfoldable pub escape_from : ℕ → Text → Text
unfolding escape_first take_rune
escape_from zero s = []
escape_from (suc fuel) [] = []
escape_from (suc fuel) (c ∷ s) =
    let (out, rest) = escape_first (take_rune (c ∷ s)) s in out ++ escape_from fuel rest

unfoldable pub escape_all : Text → Text
unfolding escape_from
escape_all s = escape_from (length s) s

abbrev pub marshal_string : Text → Text
marshal_string s = quote ∷ (escape_all s ++ quote ∷ [])

-- Reading.
unfoldable pub hex_value : ℕ → Option ℕ
hex_value c =
    if leb b'0' c && leb c b'9'
    then some (c - b'0')
    else if leb b'a' c && leb c b'f'
    then some (c - b'a' + 10)
    else if leb b'A' c && leb c b'F'
    then some (c - b'A' + 10)
    else none

-- UTF-8.
unfoldable pub encode_rune : ℕ → Text
encode_rune r =
    if ltb r 0x80
    then r ∷ []
    else if ltb r 0x800
    then (0xc0 + r / 64) ∷ (0x80 + r % 64) ∷ []
    else if ltb r 0x10000
    then (0xe0 + r / 4096) ∷ (0x80 + r / 64 % 64) ∷ (0x80 + r % 64) ∷ []
    else (0xf0 + r / 262144) ∷ (0x80 + r / 4096 % 64) ∷ (0x80 + r / 64 % 64) ∷ (0x80 + r % 64) ∷ []

-- Four hexadecimal digits.
unfoldable pub hex4 : Text → Option (ℕ × Text)
unfolding hex_value
hex4 (a ∷ b ∷ c ∷ d ∷ s) = do
  p ← hex_value a
  q ← hex_value b
  r ← hex_value c
  t ← hex_value d
  some (p * 4096 + q * 256 + r * 16 + t, s)
hex4 _ = none

-- The low half of a surrogate pair, where it follows the high half.
low_half : Text → Option (ℕ × Text)
unfolding hex4
low_half (c ∷ u ∷ s) = if c == backslash && u == b'u' then hex4 s else none
low_half _ = none

abbrev replacement : ℕ
replacement = 0xfffd

unfoldable pub pair_up : ℕ → Text → Option (ℕ × Text) → Text × Text
unfolding encode_rune
pair_up high s none = (encode_rune replacement, s)
pair_up high s (some (low, rest)) =
    if ltb high 0xdc00 && (leb 0xdc00 low && ltb low 0xe000)
    then (encode_rune (0x10000 + (high - 0xd800) * 1024 + (low - 0xdc00)), rest)
    else (encode_rune replacement, s)

-- The character of a `\u` escape: half a surrogate pair alone stands for U+FFFD.
unfoldable pub unicode : Text → Option (Text × Text)
unfolding hex4 pair_up low_half
unicode s = do
  (r, rest) ← hex4 s
  some (
      if leb 0xd800 r && ltb r 0xe000
      then pair_up r rest (low_half rest)
      else (encode_rune r, rest))

-- The character behind a backslash.
unfoldable pub escaped : Text → Option (Text × Text)
unfolding unicode
escaped [] = none
escaped (c ∷ s) =
    if c == quote || c == backslash || c == b'/'
    then some (c ∷ [], s)
    else if c == b'b'
    then some (8 ∷ [], s)
    else if c == b'f'
    then some (12 ∷ [], s)
    else if c == b'n'
    then some (10 ∷ [], s)
    else if c == b'r'
    then some (13 ∷ [], s)
    else if c == b't'
    then some (9 ∷ [], s)
    else if c == b'u'
    then unicode s
    else none

-- A byte that begins no rune is read as U+FFFD.
unfoldable pub read_rune : Option (Text × Text) → Text → Text × Text
unfolding encode_rune
read_rune none s = (encode_rune replacement, s)
read_rune (some (bytes, rest)) s = (bytes, rest)

-- The next character of a string, which is no quote.
unfoldable pub character : Text → Option (Text × Text)
unfolding escaped read_rune take_rune
character [] = none
character (c ∷ s) =
    if c == backslash
    then escaped s
    else if ltb c 32
    then none
    else some (read_rune (take_rune (c ∷ s)) s)

-- The string behind its opening quote.
unfoldable pub string_body : ℕ → Text → Option (Text × Text)
unfolding character
string_body zero s = none
string_body (suc fuel) [] = none
string_body (suc fuel) (c ∷ s) =
    let more = (do
      (ch, rest) ← character (c ∷ s)
      (chs, end) ← string_body fuel rest
      some (ch ++ chs, end)) in
    if c == quote then some ([], s) else more
