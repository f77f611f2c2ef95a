-- ===== src/Prelude/Text.antt =====
-- What the program does with texts: `lower`, slices, `zfill`, `hex`, `str`, `<`, and `bytes.fromhex`.
-- The texts that it cuts and pads are ASCII.
use Prim.Native.Nat.{ℕ, zero, suc, ◌+◌, ◌-◌, ◌*◌, ◌/◌, ◌%◌, ◌^◌, ◌≤◌, ◌<◌}
use Prim.Native.Char.{Char, code, nul}
use Prim.Native.String.{String, ◌++◌, count, compare}
use mathlib.Core.Path.{◌≡◌, refl, ap}
use mathlib.Core.Logic.{inl, inr}
use mathlib.Core.Bool.{Bool, true, ◌&&◌}
use mathlib.Core.Option.{Option, none, some}
use mathlib.Core.List.{List, [], ◌∷◌}
use native.Mathlib.Omega.{arith}
use native.Mathlib.Nat.{pow-suc}
use text.Mathlib.Text.{is_lt}
use text.Mathlib.TextLemmas.{length-append, length-cons}
use text.Mathlib.Text.{◌==◌ as str_eq}
use compound_liquidation.Prelude.Errors.{Result, ok, err, value_error}
use compound_liquidation.Prelude.Tests.{leb, if◌then◌else◌, ◌==◌, Bool-cases}

abbrev nth_char : String → ℕ → Char
nth_char String.[] i = nul
nth_char (String.◌∷◌ c s) zero = c
nth_char (String.◌∷◌ c s) (suc i) = nth_char s i

unfoldable pub lower_char : Char → Char
lower_char c =
    if leb b'A' (code c) && leb (code c) b'Z'
    then nth_char "abcdefghijklmnopqrstuvwxyz" (code c - b'A')
    else c

-- `s.lower()`
unfoldable pub lower : String → String
unfolding lower_char
lower String.[] = String.[]
lower (String.◌∷◌ c s) = String.◌∷◌ (lower_char c) (lower s)

-- `s[n:]`
unfoldable pub slice_from : ℕ → String → String
slice_from zero s = s
slice_from (suc n) String.[] = String.[]
slice_from (suc n) (String.◌∷◌ c s) = slice_from n s

-- `s < t`
abbrev pub str_lt : String → String → Bool
str_lt s t = is_lt (compare s t)

-- n zeros
unfoldable pub zeros : ℕ → String
zeros zero = ""
zeros (suc n) = String.◌∷◌ "0" (zeros n)

-- `s.zfill(w)`: a sign stays in front of the zeros
unfoldable pub zfill : String → ℕ → String
unfolding zeros
zfill String.[] w = zeros w
zfill (String.◌∷◌ c s) w =
    let n = w - count (String.◌∷◌ c s) in
    if code c == b'-'
    then String.◌∷◌ c (zeros n ++ s)
    else if code c == b'+'
    then String.◌∷◌ c (zeros n ++ s)
    else zeros n ++ String.◌∷◌ c s

abbrev digit : ℕ → Char
digit n = nth_char "0123456789abcdef" n

-- the digits of n in a base, in front of those that are there; the fuel is the number of digits
unfoldable pub digits_from : ℕ → ℕ → ℕ → String → String
digits_from base zero n acc = acc
digits_from base (suc fuel) n acc =
    let rest = digits_from base fuel (n / base) (String.◌∷◌ (digit (n % base)) acc) in
    if n / base == 0 then String.◌∷◌ (digit (n % base)) acc else rest

-- `hex(n)[2:]`, and `str(n)`, of a number that is not negative
unfoldable pub hex_digits : ℕ → String
unfolding digits_from
hex_digits n = digits_from 16 (suc n) n ""

unfoldable pub str : ℕ → String
unfolding digits_from
str n = digits_from 10 (suc n) n ""

hex_value : ℕ → Option ℕ
hex_value c =
    if leb b'0' c && leb c b'9'
    then some (c - b'0')
    else if leb b'a' c && leb c b'f'
    then some (c - b'a' + 10)
    else if leb b'A' c && leb c b'F'
    then some (c - b'A' + 10)
    else none

is_space : ℕ → Bool
is_space c = if c == 32 then true else leb 9 c && leb c 13

-- `bytes.fromhex(s)`: pairs of digits, with blanks between the bytes; `none` is `ValueError`
unfoldable pub from_hex : String → Option (List ℕ)
unfolding hex_value is_space
from_hex String.[] = some []
from_hex (String.◌∷◌ c String.[]) = if is_space (code c) then some [] else none
from_hex (String.◌∷◌ c (String.◌∷◌ d s)) =
    let skip = from_hex (String.◌∷◌ d s) in
    let rest = from_hex s in
    if is_space (code c) then skip else byte (hex_value (code c)) (hex_value (code d)) rest
  where
    byte : Option ℕ → Option ℕ → Option (List ℕ) → Option (List ℕ)
    byte (some h) (some l) (some bs) = some ((h * 16 + l) ∷ bs)
    byte _ _ _ = none

text_samples :
    (lower "0xAbC" ≡ "0xabc")
    × (zfill "-5" 4 ≡ "-005")
    × (hex_digits 255 ≡ "ff")
    × (str 1000 ≡ "1000")
    × (slice_from 2 "0xff" ≡ "ff")
    × (from_hex "00fF" ≡ some (0 ∷ 255 ∷ []))
unfolding lower zfill hex_digits str slice_from from_hex
text_samples = (refl, refl, refl, refl, refl, refl)

pub count-zeros : (n : ℕ) → count (zeros n) ≡ n
unfolding zeros
count-zeros zero = refl
count-zeros (suc n) = rw length-cons (ap suc (count-zeros n))

-- Where the text is no longer than the width, the result has the width.
pub count-zfill : (s : String) (w : ℕ) → count s ≤ w → count (zfill s w) ≡ w
unfolding zfill
count-zfill String.[] w h = count-zeros w
count-zfill (String.◌∷◌ c s) w h =
    let n = w - count (String.◌∷◌ c s) in
    ground (
      arith,
      length-cons c s,
      length-cons c (zeros n ++ s),
      length-append (zeros n) s,
      length-append (zeros n) (String.◌∷◌ c s),
      count-zeros n,
    )

-- A number below 16^(k + 1) has at most k + 1 digits in front of what is there.
pub count-digits_from :
    (k fuel n : ℕ) (acc : String)
    → n < 16 ^ suc k
    → count (digits_from 16 fuel n acc) ≤ count acc + suc k
unfolding digits_from
count-digits_from k zero n acc h = omega arith
count-digits_from zero (suc fuel) n acc h =
    ground (arith, length-cons (digit (n % 16)) acc, pow-suc 16 0)
count-digits_from (suc k) (suc fuel) n acc h =
    let shifted : n / 16 < 16 ^ suc k = omega (arith, pow-suc 16 (suc k)) in
    let first = length-cons (digit (n % 16)) acc in
    elim (Bool-cases (n / 16 == 0)) [
      | inl last ↦ rw last (omega (arith, first))
      | inr more ↦ rw more (
          omega (
            arith,
            first,
            count-digits_from k fuel (n / 16) (String.◌∷◌ (digit (n % 16)) acc) shifted,
          ))
    ]

-- The digits of a number below 2^256 fill at most one word of 64.
pub count-hex_digits : (n : ℕ) → n < 2 ^ 256 → count (hex_digits n) ≤ 64
unfolding hex_digits
count-hex_digits n h = omega (arith, count-digits_from 63 (suc n) n "" h)

hex_from : ℕ → String → Option ℕ
unfolding hex_value
hex_from acc String.[] = some acc
hex_from acc (String.◌∷◌ c s) = elim (hex_value (code c)) [
  | none ↦ none
  | some d ↦ hex_from (acc * 16 + d) s
]

-- `int(s, 16)` of a text with the prefix 0x, or of digits alone; the blanks, signs and underscores that
-- Python also takes do not come from the nodes
unfoldable pub int_hex : String → Result ℕ
unfolding hex_from
int_hex s = digits (if str_eq (first_two s) "0x" then slice_from 2 s else s)
  where
    first_two : String → String
    first_two (String.◌∷◌ c (String.◌∷◌ d t)) = String.◌∷◌ c (String.◌∷◌ d String.[])
    first_two t = t

    or_error : Option ℕ → Result ℕ
    or_error none = err value_error
    or_error (some n) = ok n

    digits : String → Result ℕ
    digits String.[] = err value_error
    digits (String.◌∷◌ c t) = or_error (hex_from 0 (String.◌∷◌ c t))

-- the value of decimal digits behind those that are read
unfoldable pub dec_from : ℕ → String → Option ℕ
dec_from acc String.[] = some acc
dec_from acc (String.◌∷◌ c s) =
    if leb b'0' (code c) && leb (code c) b'9' then dec_from (acc * 10 + (code c - b'0')) s else none

-- `int(s)` of digits
unfoldable pub int_dec : String → Result ℕ
unfolding dec_from
int_dec String.[] = err value_error
int_dec (String.◌∷◌ c s) = or_error (dec_from 0 (String.◌∷◌ c s))
  where
    or_error : Option ℕ → Result ℕ
    or_error none = err value_error
    or_error (some n) = ok n
