-- ===== src/Reader/Cursor.antt =====
-- monitor-v2/journal_reader/cursor.py: `validate_cursor`. A text is the list of its code points.
use install_singboxhysteria.Common.{
  ℕ, [], ◌∷◌, none, some, false, Option, List, Bool, if◌then◌else◌, ◌+◌, ltb, leb, ◌&&◌, ◌||◌, all,
  not,
}

abbrev pub cursor_max_bytes : ℕ
cursor_max_bytes = 4096

-- The bytes of a code point in UTF-8; a surrogate cannot be encoded.
utf8_bytes : ℕ → Option ℕ
utf8_bytes cp =
    if ltb cp 0x80
    then some 1
    else if ltb cp 0x800
    then some 2
    else if leb 0xd800 cp && leb cp 0xdfff
    then none
    else if ltb cp 0x10000
    then some 3
    else some 4

add_bytes : Option ℕ → Option ℕ → Option ℕ
add_bytes (some a) (some b) = some (a + b)
add_bytes _ _ = none

-- `len(value.encode("utf-8"))`, `none` for the UnicodeEncodeError.
pub encoded_length : List ℕ → Option ℕ
unfolding utf8_bytes add_bytes
encoded_length [] = some 0
encoded_length (c ∷ cs) = add_bytes (utf8_bytes c) (encoded_length cs)

-- cp < 0x21 or 0x7f <= cp <= 0x9f
pub control : ℕ → Bool
control cp = ltb cp 0x21 || (leb 0x7f cp && leb cp 0x9f)

in_bounds : Option ℕ → Bool
in_bounds none = false
in_bounds (some n) = leb 1 n && leb n cursor_max_bytes

unfoldable pub validate_cursor : List ℕ → Bool
unfolding encoded_length in_bounds control
validate_cursor value = in_bounds (encoded_length value) && all (λ cp. not (control cp)) value
