-- ===== src/Base/Text.antt =====
-- Python's texts: decimal numerals, `repr`, `str.join`, `str.split` and `str.strip`.
-- `repr` escapes as CPython does for ASCII; a character above 126 other than DEL is taken as printable.
use Prim.Native.Nat.{ℕ, zero, suc, ◌/◌, ◌%◌}
use Prim.Native.Char.{Char, code}
use Prim.Native.String.{String, ◌++◌ as ◌<>◌}
use mathlib.Core.Path.{◌≡◌, refl}
use mathlib.Core.Bool.{Bool, true, false, not, ◌&&◌, ◌||◌}
use mathlib.Core.Option.{none, some}
use mathlib.Core.List.{List, [], ◌∷◌}
use text.Mathlib.Text.{◌==◌, find?}
use project4_sentinel_ai_scr.Base.Tests.{leb, eqb, if◌then◌else◌}
use project4_sentinel_ai_scr.Base.Dict.{Dict}

-- One digit, also of the hexadecimal numerals.
digit : ℕ → String
digit n =
    if eqb n 0
    then "0"
    else if eqb n 1
    then "1"
    else if eqb n 2
    then "2"
    else if eqb n 3
    then "3"
    else if eqb n 4
    then "4"
    else if eqb n 5
    then "5"
    else if eqb n 6
    then "6"
    else if eqb n 7
    then "7"
    else if eqb n 8
    then "8"
    else if eqb n 9
    then "9"
    else if eqb n 10
    then "a"
    else if eqb n 11
    then "b"
    else if eqb n 12
    then "c"
    else if eqb n 13
    then "d"
    else if eqb n 14
    then "e"
    else "f"

decimal_fuel : ℕ → ℕ → String
decimal_fuel zero n = digit n
decimal_fuel (suc f) n =
    let more = decimal_fuel f (n / 10) <> digit (n % 10) in if leb n 9 then digit n else more

-- `str(n)`; a number has at most as many digits as its value and one
unfoldable pub decimal : ℕ → String
unfolding decimal_fuel digit
decimal n = decimal_fuel n n

-- `sep.join(xs)`
unfoldable pub join : String → List String → String
join sep [] = ""
join sep (x ∷ []) = x
join sep (x ∷ y ∷ xs) = x <> (sep <> join sep (y ∷ xs))

-- `str.isspace` of one character
unfoldable pub is_space : Char → Bool
is_space c =
    let n = code c in
    (leb 9 n && leb n 13)
    || (leb 28 n && leb n 32)
    || eqb n 133
    || eqb n 160
    || eqb n 5760
    || (leb 8192 n && leb n 8202)
    || eqb n 8232
    || eqb n 8233
    || eqb n 8239
    || eqb n 8287
    || eqb n 12288

unfoldable pub lstrip : String → String
lstrip String.[] = ""
lstrip (String.◌∷◌ c s) = if is_space c then lstrip s else String.◌∷◌ c s

-- A character in front of a text that is stripped at its end already.
strip_end : Char → String → String
strip_end c String.[] = if is_space c then "" else String.◌∷◌ c String.[]
strip_end c (String.◌∷◌ d s) = String.◌∷◌ c (String.◌∷◌ d s)

unfoldable pub rstrip : String → String
unfolding strip_end
rstrip String.[] = ""
rstrip (String.◌∷◌ c s) = strip_end c (rstrip s)

-- `s.strip()`
unfoldable pub strip : String → String
unfolding lstrip rstrip
strip s = rstrip (lstrip s)

-- `not s.strip()`
unfoldable pub is_blank : String → Bool
unfolding strip
is_blank s = strip s == ""

-- The part before the first separator in hand, in front of the parts that follow.
push_char : Char → List String → List String
push_char c [] = String.◌∷◌ c String.[] ∷ []
push_char c (x ∷ xs) = String.◌∷◌ c x ∷ xs

-- `s.split(sep)` for a separator of one character, given by its code
unfoldable pub split : ℕ → String → List String
unfolding push_char
split sep String.[] = "" ∷ []
split sep (String.◌∷◌ c s) =
    let rest = split sep s in if eqb (code c) sep then "" ∷ rest else push_char c rest

has_code : ℕ → String → Bool
has_code n String.[] = false
has_code n (String.◌∷◌ c s) = eqb (code c) n || has_code n s

-- One character of a `repr`; `quote` is the code of the quotation mark.
repr_char : ℕ → Char → String
unfolding digit
repr_char quote c =
    let n = code c in
    if eqb n 92
    then "\\\\"
    else if eqb n quote
    then "\\" <> String.◌∷◌ c String.[]
    else if eqb n 9
    then "\\t"
    else if eqb n 10
    then "\\n"
    else if eqb n 13
    then "\\r"
    else if leb n 31 || eqb n 127
    then "\\x" <> (digit (n / 16) <> digit (n % 16))
    else String.◌∷◌ c String.[]

repr_chars : ℕ → String → String
unfolding repr_char
repr_chars quote String.[] = ""
repr_chars quote (String.◌∷◌ c s) = repr_char quote c <> repr_chars quote s

-- `repr(s)`
unfoldable pub repr : String → String
unfolding repr_chars has_code
repr s =
    if has_code 39 s && not (has_code 34 s)
    then "\"" <> (repr_chars 34 s <> "\"")
    else "'" <> (repr_chars 39 s <> "'")

-- `part in s`
unfoldable pub has_part : String → String → Bool
has_part part s = elim (find? s part) [ none ↦ false | some _ ↦ true ]

repr_items : Dict String → List String
unfolding repr
repr_items [] = []
repr_items ((k, v) ∷ d) = (repr k <> (": " <> repr v)) ∷ repr_items d

-- `repr(d)` of a dict of texts
unfoldable pub repr_dict : Dict String → String
unfolding repr_items join
repr_dict d = "{" <> (join ", " (repr_items d) <> "}")

repr_dict_test : repr_dict (("a", "x'y") ∷ ("b", "\t\\") ∷ []) ≡ "{'a': \"x'y\", 'b': '\\t\\\\'}"
unfolding repr_dict
repr_dict_test = refl

decimal_test : decimal 10307 ≡ "10307"
unfolding decimal
decimal_test = refl

split_test : split 44 "a, b,," ≡ "a" ∷ " b" ∷ "" ∷ "" ∷ []
unfolding split
split_test = refl

strip_test : strip " \t a b \n" ≡ "a b"
unfolding strip is_space
strip_test = refl
