-- ===== src/Text.antt =====
-- What the program uses of Python's text handling: code points, UTF-8, decimal numbers, the
-- strings of `json.dumps` (ensure_ascii) and `repr`. The `repr` of a non-ASCII character is taken
-- to be the character, which is so for the printable ones.
use market_support_crewai_ag.Prelude.{
  List, String, [], bool_Eq, elem, if◌then◌else◌, leb, list_Eq, ltb, nat_Eq, nat_eq, not, option_Eq,
  pair_Eq, string_Eq, suc, triple_Eq, zero, ℕ, ◌&&◌, ◌++◌, ◌+◌, ◌-◌, ◌||◌, ◌∷◌,
}
use Prim.Native.Char.{code}
use Prim.Native.Nat.{◌/◌, ◌%◌}

abbrev pub Bytes : Type 0
Bytes = List ℕ

unfoldable pub codes : String → List ℕ
codes String.[] = []
codes (String.◌∷◌ c s) = code c ∷ codes s

hex_digit : ℕ → ℕ
hex_digit d = if ltb d 10 then b'0' + d else b'a' + d - 10

hex4 : ℕ → List ℕ
unfolding hex_digit
hex4 n =
    hex_digit (n / 4096)
    ∷ hex_digit (n / 256 % 16)
    ∷ hex_digit (n / 16 % 16)
    ∷ hex_digit (n % 16)
    ∷ []

-- `str(n)`: one round for each digit, so `n + 1` rounds are enough
decimal_from : ℕ → ℕ → List ℕ → List ℕ
decimal_from zero n acc = acc
decimal_from (suc fuel) n acc =
    let rest = decimal_from fuel (n / 10) ((b'0' + n % 10) ∷ acc) in
    if ltb n 10 then (b'0' + n) ∷ acc else rest

unfoldable pub decimal : ℕ → List ℕ
unfolding decimal_from
decimal n = decimal_from (suc n) n []

utf8_char : ℕ → List ℕ
utf8_char c =
    if ltb c 0x80
    then c ∷ []
    else if ltb c 0x800
    then (0xc0 + c / 64) ∷ (0x80 + c % 64) ∷ []
    else if ltb c 0x10000
    then (0xe0 + c / 4096) ∷ (0x80 + c / 64 % 64) ∷ (0x80 + c % 64) ∷ []
    else (0xf0 + c / 262144) ∷ (0x80 + c / 4096 % 64) ∷ (0x80 + c / 64 % 64) ∷ (0x80 + c % 64) ∷ []

-- `.encode("utf-8")`, on code points
unfoldable pub utf8 : List ℕ → Bytes
unfolding utf8_char
utf8 [] = []
utf8 (c ∷ s) = utf8_char c ++ utf8 s

json_char : ℕ → List ℕ
unfolding hex4
json_char c =
    if nat_eq c b'"'
    then b'\\' ∷ b'"' ∷ []
    else if nat_eq c b'\\'
    then b'\\' ∷ b'\\' ∷ []
    else if nat_eq c 10
    then b'\\' ∷ b'n' ∷ []
    else if nat_eq c 13
    then b'\\' ∷ b'r' ∷ []
    else if nat_eq c 9
    then b'\\' ∷ b't' ∷ []
    else if nat_eq c 12
    then b'\\' ∷ b'f' ∷ []
    else if nat_eq c 8
    then b'\\' ∷ b'b' ∷ []
    else if leb 32 c && leb c 126
    then c ∷ []
    else if ltb c 0x10000
    then b'\\' ∷ b'u' ∷ hex4 c
    else (b'\\' ∷ b'u' ∷ hex4 (0xd800 + (c - 0x10000) / 1024))
      ++ (b'\\' ∷ b'u' ∷ hex4 (0xdc00 + (c - 0x10000) % 1024))

json_chars : List ℕ → List ℕ
unfolding json_char
json_chars [] = []
json_chars (c ∷ s) = json_char c ++ json_chars s

unfoldable pub json_string : List ℕ → List ℕ
unfolding json_chars
json_string s = (b'"' ∷ json_chars s) ++ b'"' ∷ []

repr_char : ℕ → ℕ → List ℕ
unfolding hex_digit
repr_char quote c =
    if nat_eq c quote || nat_eq c b'\\'
    then b'\\' ∷ c ∷ []
    else if nat_eq c 10
    then b'\\' ∷ b'n' ∷ []
    else if nat_eq c 13
    then b'\\' ∷ b'r' ∷ []
    else if nat_eq c 9
    then b'\\' ∷ b't' ∷ []
    else if ltb c 32 || nat_eq c 127
    then b'\\' ∷ b'x' ∷ hex_digit (c / 16) ∷ hex_digit (c % 16) ∷ []
    else c ∷ []

repr_chars : ℕ → List ℕ → List ℕ
unfolding repr_char
repr_chars quote [] = []
repr_chars quote (c ∷ s) = repr_char quote c ++ repr_chars quote s

-- single quotes, unless the text has a single quote and no double quote
unfoldable pub repr_string : List ℕ → List ℕ
unfolding repr_chars
repr_string s =
    let quote : ℕ = if elem b'\'' s && not (elem b'"' s) then b'"' else b'\'' in
    (quote ∷ repr_chars quote s) ++ quote ∷ []
