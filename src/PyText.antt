-- ===== src/PyText.antt =====
-- The methods of Python's str that the program uses, over code points.
use Prim.Native.Char.{Char, code}
use Prim.Native.String.compare.{cons-nil}
use text.Mathlib.TextLemmas.{cons-append}
use Prim.Native.String
use Prim.Native.String.{[], ◌∷◌}
use text.Mathlib.Text.{starts_with}
use agentis_backend.Prelude as P
use agentis_backend.Prelude.{
  ◌≡◌, refl, arith, true, false, ◌+◌, ◌*◌, ℕ, zero, suc, String, ◌-◌, ◌/◌, Bool, ◌&&◌, ◌||◌, Option,
  none, some, ◌==◌, leb, ltb, if◌then◌else◌, str_eq,
}
use Prim.Native.Nat.{◌%◌}

infixl 65 ◌⧺◌
abbrev pub ◌⧺◌ : String → String → String
s ⧺ t = String.◌++◌ s t

-- `not s`
abbrev pub is_empty : String → Bool
is_empty s = str_eq s ""

-- str.isspace of one character
abbrev is_space : Char → Bool
is_space ch =
    let c = code ch in
    (leb 9 c && leb c 13)
    || (leb 28 c && leb c 32)
    || c == 0x85
    || c == 0xa0
    || c == 0x1680
    || (leb 0x2000 c && leb c 0x200a)
    || c == 0x2028
    || c == 0x2029
    || c == 0x202f
    || c == 0x205f
    || c == 0x3000

drop_while : (Char → Bool) → String → String
drop_while p [] = []
drop_while p (c ∷ s) = let rest = drop_while p s in if p c then rest else c ∷ s

rev_onto : String → String → String
rev_onto acc [] = acc
rev_onto acc (c ∷ s) = rev_onto (c ∷ acc) s

-- s.strip() and s.rstrip()
unfoldable pub rstrip : String → String
unfolding drop_while rev_onto
rstrip s = rev_onto [] (drop_while is_space (rev_onto [] s))

unfoldable pub strip : String → String
unfolding rstrip drop_while
strip s = rstrip (drop_while is_space s)

-- s.lstrip("json"): drops any of the four letters
unfoldable pub lstrip_json : String → String
unfolding drop_while
lstrip_json = drop_while (λ ch. let c = code ch in c == b'j' || c == b's' || c == b'o' || c == b'n')

-- k in s
unfoldable pub contains : String → String → Bool
contains [] k = str_eq k ""
contains (c ∷ s) k = starts_with (c ∷ s) k || contains s k

-- The part of s before the first "```", all of it if there is none.
unfoldable pub until_fence : String → String
until_fence [] = []
until_fence (c ∷ s) = let rest = until_fence s in if starts_with (c ∷ s) "```" then [] else c ∷ rest

-- s[n:]
unfoldable pub drop_chars : ℕ → String → String
drop_chars zero s = s
drop_chars (suc n) [] = []
drop_chars (suc n) (c ∷ s) = drop_chars n s

-- s[:n]
unfoldable pub take_chars : ℕ → String → String
take_chars zero s = []
take_chars (suc n) [] = []
take_chars (suc n) (c ∷ s) = c ∷ take_chars n s

unfoldable pub len : String → ℕ
len [] = 0
len (c ∷ s) = suc (len s)

-- any(p(c) for c in s)
unfoldable pub any_char : (Char → Bool) → String → Bool
any_char p [] = false
any_char p (c ∷ s) = p c || any_char p s

-- s[-n:]
unfoldable pub last_chars : ℕ → String → String
unfolding len drop_chars
last_chars n s = drop_chars (len s - n) s

-- The rest of the text from its first "{".
unfoldable pub from_brace : String → Option String
from_brace [] = none
from_brace (c ∷ s) = let rest = from_brace s in if code c == b'{' then some (c ∷ s) else rest

-- The text up to its last "}", with it.
unfoldable pub to_last_brace : String → Option String
to_last_brace [] = none
to_last_brace (c ∷ s) = elim (to_last_brace s) [
  | some r ↦ some (c ∷ r)
  | none ↦ if code c == b'}' then some (c ∷ []) else none
]

-- The text of one decimal digit.
abbrev digit : ℕ → String
digit n =
    if n == 0
    then "0"
    else if n == 1
    then "1"
    else if n == 2
    then "2"
    else if n == 3
    then "3"
    else if n == 4
    then "4"
    else if n == 5
    then "5"
    else if n == 6
    then "6"
    else if n == 7
    then "7"
    else if n == 8
    then "8"
    else "9"

show_digits : ℕ → ℕ → String → String
show_digits zero n acc = acc
show_digits (suc f) n acc =
    let text = digit (n % 10) ⧺ acc in
    let rest = show_digits f (n / 10) text in if ltb n 10 then text else rest

-- str(n)
unfoldable pub show : ℕ → String
unfolding show_digits
show n = show_digits (suc n) n ""

-- The text before the first separator goes to the first part.
abbrev push_char : Char → P.List String → P.List String
push_char c P.[] = P.[]
push_char c (P.◌∷◌ part rest) = P.◌∷◌ (c ∷ part) rest

-- s.split(sep), for a separator of one character
unfoldable pub split_on : ℕ → String → P.List String
split_on sep [] = P.◌∷◌ [] P.[]
split_on sep (c ∷ s) =
    let parts = split_on sep s in if code c == sep then P.◌∷◌ [] parts else push_char c parts

-- A text that starts with a text that is not empty is not empty.
pub is_empty-append : (s t : String) → is_empty s ≡ false → is_empty (s ⧺ t) ≡ false
is_empty-append [] t h = absurd (ground (arith, h))
is_empty-append (c ∷ s) t h = rw (cons-append c s t, cons-nil c (s ⧺ t)) refl

-- str.isdigit over the characters that an HTTP header can have, those below 256: the superscripts two,
-- three and one are digits too.
abbrev is_decimal : Char → Bool
is_decimal ch = let c = code ch in leb b'0' c && leb c b'9'

abbrev is_digit : Char → Bool
is_digit ch = is_decimal ch || (let c = code ch in c == 0xb2 || c == 0xb3 || c == 0xb9)

unfoldable pub all_digits : String → Bool
all_digits [] = true
all_digits (c ∷ s) = is_digit c && all_digits s

-- int(s) of a text of digits: a superscript is none to it, which is a ValueError.
unfoldable pub int_onto : ℕ → String → Option ℕ
int_onto n [] = some n
int_onto n (c ∷ s) =
    let rest = int_onto (n * 10 + (code c - b'0')) s in if is_decimal c then rest else none
