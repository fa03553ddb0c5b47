-- ===== src/Prelude/Text.antt =====
-- Go strings: the native `String`, with the functions of `strings` and `fmt` that the program calls.
use Prim.Native.Nat.{ℕ, zero, suc, ◌+◌, ◌-◌, ◌*◌, ◌^◌, ◌/◌, ◌%◌}
use Prim.Native.Char.{Char, code}
use Prim.Native.String.{String}
use Prim.Native.String
use mathlib.Core.Path.{◌≡◌, refl}
use mathlib.Core.Bool.{Bool, true, false, ◌||◌, ◌&&◌}
use mathlib.Core.Option.{Option, none, some}
use mathlib.Core.List.{List, [], ◌∷◌}
use native.Mathlib.Omega.{arith}
use text.Mathlib.Text.{◌==◌ as str_eq, starts_with}
use text.Mathlib.TextEquality.{starts_with_iff}
use actionsspot.Prelude.Tests.{ltb, leb, ◌==◌, if◌then◌else◌}
use actionsspot.Prelude.Int.{ℤ, pos, negsuc, sub_ℕ}

infixr 65 ◌+++◌
abbrev pub ◌+++◌ : String → String → String
s +++ t = String.◌++◌ s t

abbrev pub is_blank : String → Bool
is_blank s = str_eq s ""

-- strings.HasPrefix
abbrev pub has_prefix : String → String → Bool
has_prefix s t = starts_with s t

-- strings.Contains
unfoldable pub contains_text : String → String → Bool
contains_text String.[] t = is_blank t
contains_text (String.◌∷◌ c s) t = starts_with (String.◌∷◌ c s) t || contains_text s t

-- A character goes in front of the first piece, or ends it.
push_char : Bool → Char → List String → List String
push_char true c pieces = "" ∷ pieces
push_char false c [] = String.◌∷◌ c "" ∷ []
push_char false c (p ∷ ps) = String.◌∷◌ c p ∷ ps

-- strings.Split at a separator of one character; the pieces are never none.
unfoldable pub split_char : ℕ → String → List String
unfolding push_char
split_char sep String.[] = "" ∷ []
split_char sep (String.◌∷◌ c s) = push_char (code c == sep) c (split_char sep s)

is_space : ℕ → Bool
is_space c = c == 32 || c == 9 || c == 10 || c == 11 || c == 12 || c == 13

trim_left : (ℕ → Bool) → String → String
trim_left p String.[] = ""
trim_left p (String.◌∷◌ c s) =
    let rest = trim_left p s in if p (code c) then rest else String.◌∷◌ c s

trim_right : (ℕ → Bool) → String → String
trim_right p String.[] = ""
trim_right p (String.◌∷◌ c s) =
    let rest = trim_right p s in if p (code c) && is_blank rest then "" else String.◌∷◌ c rest

-- strings.TrimSpace, for the ASCII spaces
unfoldable pub trim_space : String → String
unfolding trim_left trim_right is_space
trim_space s = trim_right is_space (trim_left is_space s)

-- strings.Trim with a cutset of one character
unfoldable pub trim_char : ℕ → String → String
unfolding trim_left trim_right
trim_char c s = trim_right (λ d. d == c) (trim_left (λ d. d == c) s)

-- strings.TrimSuffix
unfoldable pub trim_suffix : String → String → String
trim_suffix String.[] t = ""
trim_suffix (String.◌∷◌ c s) t =
    let rest = trim_suffix s t in if str_eq (String.◌∷◌ c s) t then "" else String.◌∷◌ c rest

digit : ℕ → String
digit zero = "0"
digit (suc zero) = "1"
digit (suc (suc zero)) = "2"
digit (suc (suc (suc zero))) = "3"
digit (suc (suc (suc (suc zero)))) = "4"
digit (suc (suc (suc (suc (suc zero))))) = "5"
digit (suc (suc (suc (suc (suc (suc zero)))))) = "6"
digit (suc (suc (suc (suc (suc (suc (suc zero))))))) = "7"
digit (suc (suc (suc (suc (suc (suc (suc (suc zero)))))))) = "8"
digit _ = "9"

-- A number of n + 1 has at most n + 1 digits, so the fuel of `decimal` suffices.
digits_of : ℕ → ℕ → String
unfolding digit
digits_of zero n = ""
digits_of (suc f) n =
    let rest = digits_of f (n / 10) in if ltb n 10 then digit n else rest +++ digit (n % 10)

unfoldable pub decimal : ℕ → String
unfolding digits_of
decimal n = digits_of (suc n) n

-- %d
unfoldable pub show_int : ℤ → String
unfolding decimal
show_int (pos n) = decimal n
show_int (negsuc n) = "-" +++ decimal (suc n)

digit_value : ℕ → Option ℕ
digit_value c = if leb b'0' c && leb c b'9' then some (c - b'0') else none

value_of : ℕ → String → Option ℕ
value_of acc String.[] = some acc
value_of acc (String.◌∷◌ c s) = elim (digit_value (code c)) [
  | none ↦ none
  | some d ↦ value_of (acc * 10 + d) s
]

unsigned : String → Option ℕ
unsigned String.[] = none
unsigned (String.◌∷◌ c s) = value_of 0 (String.◌∷◌ c s)

positive_of : Option ℕ → Option ℤ
positive_of none = none
positive_of (some n) = if ltb n (2 ^ 63) then some (pos n) else none

negative_of : Option ℕ → Option ℤ
negative_of none = none
negative_of (some n) = if leb n (2 ^ 63) then some (sub_ℕ 0 n) else none

-- strconv.Atoi: an optional sign and decimal digits, within int64
unfoldable pub atoi : String → Option ℤ
unfolding digit_value value_of unsigned positive_of negative_of
atoi String.[] = none
atoi (String.◌∷◌ c s) =
    if code c == b'-'
    then negative_of (unsigned s)
    else if code c == b'+'
    then positive_of (unsigned s)
    else positive_of (unsigned (String.◌∷◌ c s))

atoi_examples :
    (atoi "10" ≡ some (pos 10))
    × (atoi "-3" ≡ some (negsuc 2))
    × (atoi "1x" ≡ none)
    × (atoi "" ≡ none)
    × (atoi "9223372036854775808" ≡ none)
unfolding atoi
atoi_examples = (refl, refl, refl, refl, refl)

-- strings.Join
unfoldable pub join : String → List String → String
join sep [] = ""
join sep (s ∷ []) = s
join sep (s ∷ t ∷ ts) = s +++ sep +++ join sep (t ∷ ts)

abbrev pub member : String → List String → Bool
member s [] = false
member s (t ∷ ts) = str_eq t s || member s ts

-- A text that begins with `p` is no text that does not.
pub prefix_ne : (p s t : String) → starts_with t p ≡ false → p +++ s ≡ t → ⊥
prefix_ne p s t no_prefix e = ground (arith, (starts_with_iff t p).1 (s, e))

show_int_examples : (show_int (pos 1205) ≡ "1205") × (show_int (negsuc 6) ≡ "-7")
unfolding show_int
show_int_examples = (refl, refl)

split_examples : split_char b'/' "owner/repo" ≡ "owner" ∷ "repo" ∷ []
unfolding split_char
split_examples = refl

trim_examples :
    (trim_space "  a b " ≡ "a b")
    × (trim_suffix "https://h/" "/" ≡ "https://h")
    × (trim_char b'/' "/org/" ≡ "org")
    × (contains_text "the <html>" "<html" ≡ true)
unfolding trim_space trim_suffix trim_char contains_text
trim_examples = (refl, refl, refl, refl)
