-- ===== src/Json/RoundTrip.antt =====
-- Unmarshal of what Marshal writes.
use argocd_monorepo_controll.Base.{
  ℕ, zero, suc, ◌+◌, ◌*◌, ◌/◌, ◌%◌, ◌≤◌, ◌<◌, ◌≡◌, refl, sym, ap, subst, inl, inr, Text, Bool, true,
  false, ◌||◌, List, [], ◌∷◌, ◌++◌, append_assoc, length, length-append, map, some, arith, ◌==◌,
  ==_iff, All, IsUtf8, no_runes, rune, take_rune, take_rune-Splits, take_rune-given, text_eq,
  text_eq_iff, ◌∙◌, ltb, leb, Bool-cases, if◌then◌else◌,
}
use argocd_monorepo_controll.Json.Strings.{
  ◌>>=◌, quote, backslash, hex_digit, hex_value, escape, escape_all, escape_from, escape_first,
  escape_rune, read_rune, line_separator, paragraph_separator, marshal_string, character, escaped,
  unicode, string_body,
}
use argocd_monorepo_controll.Json.Arrays.{
  marshal, marshal_rest, unmarshal, str, text_of, elements, members, first_value,
}

hex_value-hex_digit : (d : ℕ) → d < 16 → hex_value (hex_digit d) ≡ some d
unfolding hex_value hex_digit
hex_value-hex_digit d h = ground arith

unicode_ascii :
    (c : ℕ) (r : Text)
    → c < 128
    → unicode (b'0' ∷ b'0' ∷ hex_digit (c / 16) ∷ hex_digit (c % 16) ∷ r) ≡ some (c ∷ [], r)
unfolding unicode
unicode_ascii c r h =
    let value : 0 + c / 16 * 16 + c % 16 ≡ c = omega arith in
    let below : leb 0xd800 c ≡ false = ground arith in
    let ascii : ltb c 0x80 ≡ true = ground arith in
    rw (hex_value-hex_digit (c / 16) (omega arith), hex_value-hex_digit (c % 16) (omega arith))
      (rw (value, below, ascii))

-- An escaped byte is read back.
abbrev IsRead : ℕ → Type 0
IsRead c = (r : Text) → ltb c 0x80 ≡ true → character (escape c ++ r) ≡ some (c ∷ [], r)

IsRead-at : (k c : ℕ) → (c == k) ≡ true → IsRead k → IsRead c
IsRead-at k c e h = subst IsRead (sym ((==_iff c k).0 e)) h

-- A byte with no short escape.
IsRead-other :
    (c : ℕ)
    → (c == quote || c == backslash) ≡ false
    → (c == 8) ≡ false
    → (c == 12) ≡ false
    → (c == 10) ≡ false
    → (c == 13) ≡ false
    → (c == 9) ≡ false
    → IsRead c
unfolding character escape
IsRead-other c n q w e t y r ascii =
    elim (Bool-cases (ltb c 32 || c == b'<' || c == b'>' || c == b'&')) [
      | inl low ↦ rw (n, q, w, e, t, y, low) (unicode_ascii c r (ground arith))
      | inr plain ↦ rw (n, q, w, e, t, y, plain) (ground arith)
    ]

character-escape : (c : ℕ) → IsRead c
unfolding character escape escaped
character-escape c = elim (Bool-cases (c == 8)) [
  | inl e ↦ IsRead-at 8 c e (λ r ascii. refl)
  | inr q ↦ elim (Bool-cases (c == 12)) [
    | inl e ↦ IsRead-at 12 c e (λ r ascii. refl)
    | inr w ↦ elim (Bool-cases (c == 10)) [
      | inl e ↦ IsRead-at 10 c e (λ r ascii. refl)
      | inr e ↦ elim (Bool-cases (c == 13)) [
        | inl a ↦ IsRead-at 13 c a (λ r ascii. refl)
        | inr t ↦ elim (Bool-cases (c == 9)) [
          | inl a ↦ IsRead-at 9 c a (λ r ascii. refl)
          | inr y ↦ elim (Bool-cases (c == quote)) [
            | inl a ↦ IsRead-at quote c a (λ r ascii. refl)
            | inr u ↦ elim (Bool-cases (c == backslash)) [
              | inl a ↦ IsRead-at backslash c a (λ r ascii. refl)
              | inr v ↦ IsRead-other c (rw (u, v)) q w e t y
            ]
          ]
        ]
      ]
    ]
  ]
]

-- No escape begins with a quote.
abbrev Headed : Text → Type 0
Headed t = (h : ℕ) × (u : Text) × (t ≡ h ∷ u) × ((h == quote) ≡ false)

if-Headed : (b : Bool) {t u : Text} → Headed t → Headed u → Headed (if b then t else u)
if-Headed true p q = p
if-Headed false p q = q

escape_head : (c : ℕ) → Headed (escape c)
unfolding escape
escape_head c = elim (Bool-cases (c == quote || c == backslash)) [
  | inl e ↦ rw e (backslash, c ∷ [], refl, refl)
  | inr n ↦
      let short =
        λ (d : ℕ). let p : Headed (backslash ∷ d ∷ []) = (backslash, d ∷ [], refl, refl) in p in
      let long : Headed
          (backslash ∷ b'u' ∷ b'0' ∷ b'0' ∷ hex_digit (c / 16) ∷ hex_digit (c % 16) ∷ []) =
        (backslash, _, refl, refl) in
      let plain : Headed (c ∷ []) = (c, [], refl, ground arith) in
      rw n (
        if-Headed (c == 8) (short b'b') (
          if-Headed (c == 12) (short b'f') (
            if-Headed (c == 10) (short b'n') (
              if-Headed (c == 13) (short b'r')
                (if-Headed (c == 9) (short b't') (if-Headed _ long plain))))))
]

escape_high : (c : ℕ) → ltb c 0x80 ≡ false → escape c ≡ c ∷ []
unfolding escape
escape_high c h = ground arith

-- A rune as it is written: it does not begin with a quote, is read back, and is not shorter.
record IsWritten (bytes : Text) : Type 0 where
  headed : Headed (escape_rune bytes)
  is_read : (r : Text) → character (escape_rune bytes ++ r) ≡ some (bytes, r)
  longer : length bytes ≤ length (escape_rune bytes)

-- A byte from 0x80 on is no backslash and no control character.
character_high :
    (c : ℕ) (s bytes r : Text)
    → ltb c 0x80 ≡ false
    → take_rune (c ∷ s) ≡ some (bytes, r)
    → character (c ∷ s) ≡ some (bytes, r)
unfolding character read_rune
character_high c s bytes r h e =
    let no_escape : (c == backslash) ≡ false = ground arith in
    let no_control : ltb c 32 ≡ false = ground arith in rw (no_escape, no_control, e)

high-Headed : (c : ℕ) (s : Text) → ltb c 0x80 ≡ false → Headed (c ∷ s)
high-Headed c s h = (c, s, refl, ground arith)

line_separator-IsWritten : IsWritten line_separator
unfolding escape_rune text_eq character escaped unicode
line_separator-IsWritten = record {
  headed = (backslash, _, refl, refl);
  is_read = λ r. refl;
  longer = omega arith;
}

paragraph_separator-IsWritten : IsWritten paragraph_separator
unfolding escape_rune text_eq character escaped unicode
paragraph_separator-IsWritten = record {
  headed = (backslash, _, refl, refl);
  is_read = λ r. refl;
  longer = omega arith;
}

high_of_many :
    (c d : ℕ) (s : Text) → take_rune ((c ∷ d ∷ s) ++ []) ≡ some (c ∷ d ∷ s, []) → ltb c 0x80 ≡ false
unfolding take_rune
high_of_many c d s e = elim (Bool-cases (ltb c 0x80)) [
  | inl b ↦ (let f = rw b at e in cc)
  | inr b ↦ b
]

-- The bytes of a rune, which are read in the same way in front of any text.
bytes-IsWritten :
    (bytes : Text)
    → 1 ≤ length bytes
    → ((r : Text) → take_rune (bytes ++ r) ≡ some (bytes, r))
    → IsWritten bytes
unfolding escape_rune
bytes-IsWritten [] h again = absurd (omega arith)
bytes-IsWritten (c ∷ []) h again =
    let (first, t, e, n) = escape_head c in
    elim (Bool-cases (ltb c 0x80)) [
      | inl b ↦ record {
        headed = escape_head c;
        is_read = λ r. character-escape c r b;
        longer = omega (arith, ap length e);
      }
      | inr b ↦ record {
        headed = escape_head c;
        is_read = λ r. rw (escape_high c b) (character_high c r (c ∷ []) r b (again r));
        longer = omega (arith, ap length e);
      }
    ]
bytes-IsWritten (c ∷ d ∷ s) h again =
    let b = high_of_many c d s (again []) in
    elim (Bool-cases (text_eq (c ∷ d ∷ s) line_separator)) [
      | inl l ↦
          subst IsWritten (sym ((text_eq_iff (c ∷ d ∷ s) line_separator).0 l))
            line_separator-IsWritten
      | inr l ↦ elim (Bool-cases (text_eq (c ∷ d ∷ s) paragraph_separator)) [
        | inl p ↦
            subst IsWritten (sym ((text_eq_iff (c ∷ d ∷ s) paragraph_separator).0 p))
              paragraph_separator-IsWritten
        | inr p ↦
            let same : escape_rune (c ∷ d ∷ s) ≡ c ∷ d ∷ s = rw (l, p) in
            record {
              headed = subst Headed (sym same) (high-Headed c (d ∷ s) b);
              is_read = λ r. rw same (character_high c (d ∷ (s ++ r)) (c ∷ d ∷ s) r b (again r));
              longer = omega (arith, ap length same);
            }
      ]
    ]

rune-IsWritten : (s bytes rest : Text) → take_rune s ≡ some (bytes, rest) → IsWritten bytes
rune-IsWritten s bytes rest e =
    bytes-IsWritten bytes (take_rune-given s bytes rest e) (take_rune-Splits s bytes rest e).1

string_body-cons :
    (f : ℕ) (bytes r : Text)
    → IsWritten bytes
    → string_body (suc f) (escape_rune bytes ++ r)
      ≡ (string_body f r >>= λ p. some (bytes ++ p.0, p.1))
unfolding string_body
string_body-cons f bytes r w =
    let (h, t, e, n) = w.headed in let read = w.is_read r in rw e (rw (n, rw e at read))

-- One round of the writer.
escape_from-cons :
    (n : ℕ) (s bytes rest : Text)
    → take_rune s ≡ some (bytes, rest)
    → escape_from (suc n) s ≡ escape_rune bytes ++ escape_from n rest
unfolding escape_from escape_first take_rune
escape_from-cons n [] bytes rest e = cc
escape_from-cons n (c ∷ s) bytes rest e = rw e

-- A rune is as long as what it takes from the text.
length_split :
    (s bytes rest : Text)
    → take_rune s ≡ some (bytes, rest)
    → (length s ≡ length bytes + length rest) × (1 ≤ length bytes)
length_split s bytes rest e = (
  ap length (take_rune-Splits s bytes rest e).0 ∙ length-append bytes rest,
  take_rune-given s bytes rest e,
)

-- The fuel is more than the length of the string.
string_body-escape_from :
    (f n : ℕ) (s rest : Text)
    → IsUtf8 s
    → length s < f
    → length s ≤ n
    → string_body f (escape_from n s ++ (quote ∷ rest)) ≡ some (s, rest)
unfolding string_body escape_from
string_body-escape_from zero n s rest u h k = absurd (omega arith)
string_body-escape_from (suc f) zero _ rest no_runes h k = refl
string_body-escape_from (suc f) (suc n) _ rest no_runes h k = refl
string_body-escape_from (suc f) zero _ rest (rune s bytes left e u) h k =
    let (l, g) = length_split s bytes left e in absurd (omega arith)
string_body-escape_from (suc f) (suc n) _ rest (rune s bytes left e u) h k =
    let (l, g) = length_split s bytes left e in
    let more = string_body-escape_from f n left rest u (omega arith) (omega arith) in
    rw (escape_from-cons n s bytes left e) (
      rw append_assoc (
        string_body-cons f bytes (escape_from n left ++ (quote ∷ rest))
          (rune-IsWritten s bytes left e)
        ∙ rw (more, (take_rune-Splits s bytes left e).0)))

-- Escaping makes no string shorter.
length-escape_from :
    (n : ℕ) (s : Text) → IsUtf8 s → length s ≤ n → length s ≤ length (escape_from n s)
unfolding escape_from
length-escape_from n _ no_runes k = omega arith
length-escape_from zero _ (rune s bytes left e u) k = omega arith
length-escape_from (suc n) _ (rune s bytes left e u) k =
    let (l, g) = length_split s bytes left e in
    let w = rune-IsWritten s bytes left e in
    omega (
      arith,
      ap length (escape_from-cons n s bytes left e),
      length-append (escape_rune bytes) (escape_from n left),
      length-escape_from n left u (omega arith),
      w.longer,
    )

-- The string behind an opening quote, as an array's element.
string_body-marshal_string :
    (s rest : Text)
    → IsUtf8 s
    → let body = (escape_all s ++ quote ∷ []) ++ rest in
      string_body (suc (length body)) body ≡ some (s, rest)
unfolding escape_all
string_body-marshal_string s rest u = rw (append_assoc (escape_all s) (quote ∷ []) rest) (
    string_body-escape_from _ (length s) s rest u
      (omega (
        arith,
        length-escape_from (length s) s u (omega arith),
        length-append (escape_all s) (quote ∷ rest),
      ))
      (omega arith))

first_value-marshal_string :
    (f g : ℕ) (s rest : Text)
    → IsUtf8 s
    → first_value (elements f) (members g) (marshal_string s ++ rest) ≡ some (str s, rest)
unfolding first_value
first_value-marshal_string f g s rest u = rw (string_body-marshal_string s rest u)

-- The fuel is more than the number of the elements behind the first.
elements-marshal :
    (f : ℕ) (s : Text) (ss : List Text)
    → All IsUtf8 (s ∷ ss)
    → length ss < f
    → elements f (marshal_string s ++ marshal_rest ss) ≡ some (str s ∷ map str ss, [])
unfolding elements marshal_rest
elements-marshal zero s ss u h = elim h [ ]
elements-marshal (suc f) s [] u h = rw (first_value-marshal_string f f s (marshal_rest []) u.0)
elements-marshal (suc f) s (t ∷ ts) u h =
    rw (first_value-marshal_string f f s (marshal_rest (t ∷ ts)) u.0)
      (rw (elements-marshal f t ts u.1 (omega arith)))

length-marshal_rest : (ss : List Text) → length ss ≤ length (marshal_rest ss)
unfolding marshal_rest
length-marshal_rest [] = omega arith
length-marshal_rest (s ∷ ss) =
    omega (arith, length-append (marshal_string s) (marshal_rest ss), length-marshal_rest ss)

map-text_of : (ss : List Text) → map text_of (map str ss) ≡ ss
map-text_of [] = refl
map-text_of (s ∷ ss) = ap (λ l. s ∷ l) (map-text_of ss)

-- A slice of strings of valid UTF-8 that is written as JSON is read back as it was.
pub unmarshal-marshal : (ss : List Text) → All IsUtf8 ss → unmarshal (marshal ss) ≡ ss
unfolding unmarshal marshal
unmarshal-marshal [] u = refl
unmarshal-marshal (s ∷ ss) u =
    rw
      (elements-marshal (suc (length (marshal_string s ++ marshal_rest ss))) s ss u
        (omega (arith, length-append (marshal_string s) (marshal_rest ss), length-marshal_rest ss)))
      (ap (λ l. s ∷ l) (map-text_of ss))
