-- ===== src/Prelude/Text.antt =====
-- Go's `strings` functions on native texts. Case mappings are exact on what they can turn into
-- ASCII: the ASCII letters and the few other characters that Unicode maps to one; any other
-- character is left as it is, which no comparison with an ASCII word can see.
pub mod Digits
use Prim.Native.Nat.{ℕ, zero, suc, ◌+◌, ◌-◌, ◌*◌, ◌/◌, ◌%◌, compare as compare_ℕ}
use Prim.Native.Char.{Char, code}
use Prim.Native.String.{String, char_at, find, len, slice, ◌++◌ as ◌<>◌}
use mathlib.Core.Bool.{Bool, false, ◌&&◌, ◌||◌}
use mathlib.Core.Path.{◌≡◌, ap, ◌∙◌}
use mathlib.Core.Option.{Option, none, some}
use mathlib.Core.List.{List, [], ◌∷◌}
use text.Mathlib.TextPositions.{len-append, starts_with-append, slice-append_right}
use text.Mathlib.Text.{◌==◌, is_le, starts_with}
use proxmaster.Prelude.Tests.{ltb, leb, eqb, if◌then◌else◌}
use proxmaster.Prelude.Int.{ℤ, pos, negsuc, int_limit, negated}

abbrev in_range : ℕ → ℕ → ℕ → Bool
in_range lo hi n = leb lo n && leb n hi

abbrev map_chars : (Char → Char) → String → String
map_chars f String.[] = ""
map_chars f (String.◌∷◌ c s) = String.◌∷◌ (f c) (map_chars f s)

abbrev lower_letter : ℕ → Char
lower_letter n = char_at "abcdefghijklmnopqrstuvwxyz" n

abbrev upper_letter : ℕ → Char
upper_letter n = char_at "ABCDEFGHIJKLMNOPQRSTUVWXYZ" n

-- U+0130 is mapped to i, and U+212A (the Kelvin sign) to k.
lower_char : Char → Char
lower_char c =
    if in_range 65 90 (code c)
    then lower_letter (code c - 65)
    else if eqb (code c) 0x130
    then lower_letter 8
    else if eqb (code c) 0x212a
    then lower_letter 10
    else c

-- U+0131 is mapped to I, and U+017F (the long s) to S.
upper_char : Char → Char
upper_char c =
    if in_range 97 122 (code c)
    then upper_letter (code c - 97)
    else if eqb (code c) 0x131
    then upper_letter 8
    else if eqb (code c) 0x17f
    then upper_letter 18
    else c

-- Simple folding, which joins K, k and U+212A, and S, s and U+017F.
fold_char : Char → Char
fold_char c =
    if in_range 65 90 (code c)
    then lower_letter (code c - 65)
    else if eqb (code c) 0x17f
    then lower_letter 18
    else if eqb (code c) 0x212a
    then lower_letter 10
    else c

-- strings.ToLower, strings.ToUpper
unfoldable pub to_lower : String → String
unfolding lower_char
to_lower s = map_chars lower_char s

unfoldable pub to_upper : String → String
unfolding upper_char
to_upper s = map_chars upper_char s

-- strings.EqualFold
unfoldable pub equal_fold : String → String → Bool
unfolding fold_char
equal_fold s t = map_chars fold_char s == map_chars fold_char t

-- unicode.IsSpace
is_space : ℕ → Bool
is_space n =
    in_range 9 13 n
    || eqb n 32
    || eqb n 0x85
    || eqb n 0xa0
    || eqb n 0x1680
    || in_range 0x2000 0x200a n
    || eqb n 0x2028
    || eqb n 0x2029
    || eqb n 0x202f
    || eqb n 0x205f
    || eqb n 0x3000

trim_left : String → String
trim_left String.[] = ""
trim_left (String.◌∷◌ c s) =
    let rest = trim_left s in if is_space (code c) then rest else String.◌∷◌ c s

drop_space : Char → String → String
drop_space c String.[] = if is_space (code c) then "" else String.◌∷◌ c ""
drop_space c (String.◌∷◌ d s) = String.◌∷◌ c (String.◌∷◌ d s)

trim_right : String → String
trim_right String.[] = ""
trim_right (String.◌∷◌ c s) = drop_space c (trim_right s)

-- strings.TrimSpace
unfoldable pub trim_space : String → String
unfolding trim_left trim_right drop_space is_space
trim_space s = trim_right (trim_left s)

-- strings.Contains and strings.HasPrefix
abbrev pub contains : String → String → Bool
contains s t = is_le (compare_ℕ (find s t) (len s))

abbrev pub has_prefix : String → String → Bool
has_prefix s t = starts_with s t

-- strings.TrimPrefix
abbrev pub trim_prefix : String → String → String
trim_prefix s t = if has_prefix s t then slice s (len t) (len s) else s

pub trim_prefix-append : (s t : String) → trim_prefix (s <> t) s ≡ t
trim_prefix-append s t =
    rw (starts_with-append s t)
      (ap (slice (s <> t) (len s)) (len-append s t) ∙ slice-append_right s t)

drop_last : ℕ → Char → String → String
drop_last n c String.[] = if eqb (code c) n then "" else String.◌∷◌ c ""
drop_last n c (String.◌∷◌ d s) = String.◌∷◌ c (String.◌∷◌ d s)

-- strings.TrimRight of one character
trim_right_char : ℕ → String → String
trim_right_char n String.[] = ""
trim_right_char n (String.◌∷◌ c s) = drop_last n c (trim_right_char n s)

unfoldable pub trim_right_slash : String → String
unfolding trim_right_char drop_last
trim_right_slash s = trim_right_char 47 s

abbrev push_char : Char → List String → List String
push_char c [] = String.◌∷◌ c "" ∷ []
push_char c (w ∷ ws) = String.◌∷◌ c w ∷ ws

-- strings.Split at one character
split_char : ℕ → String → List String
split_char n String.[] = "" ∷ []
split_char n (String.◌∷◌ c s) =
    let rest = split_char n s in if eqb (code c) n then "" ∷ rest else push_char c rest

unfoldable pub split_commas : String → List String
unfolding split_char
split_commas s = split_char 44 s

unfoldable pub split_lines : String → List String
unfolding split_char
split_lines s = split_char 10 s

-- strings.SplitN(s, "=", 2), none where there is no such character.
abbrev push_first : Char → Option (String × String) → Option (String × String)
push_first c none = none
push_first c (some (a, b)) = some (String.◌∷◌ c a, b)

unfoldable pub cut_equals : String → Option (String × String)
cut_equals String.[] = none
cut_equals (String.◌∷◌ c s) =
    let rest = cut_equals s in if eqb (code c) 61 then some ("", s) else push_first c rest

-- `if s == "" { s = fallback }`
abbrev pub default_text : String → String → String
default_text fallback s = if s == "" then fallback else s

-- `case a, b, c:` of a switch on a text
abbrev pub one_of : String → List String → Bool
one_of s [] = false
one_of s (t ∷ ts) = s == t || one_of s ts

-- %d of a number that is not negative; `fuel` bounds its digits.
show_fuel : ℕ → ℕ → String
show_fuel zero n = ""
show_fuel (suc fuel) n =
    let rest = show_fuel fuel (n / 10) in
    let digit = String.◌∷◌ (char_at "0123456789" (n % 10)) "" in
    if ltb n 10 then digit else rest <> digit

-- A number has no more digits than its value and one.
unfoldable pub show_nat : ℕ → String
unfolding show_fuel
show_nat n = show_fuel (n + 1) n

-- %06d
unfoldable pub show_padded : ℕ → String
unfolding show_nat
show_padded n =
    let zeros : String =
      (if ltb n 10
        then "00000"
        else if ltb n 100
        then "0000"
        else if ltb n 1000
        then "000"
        else if ltb n 10000
        then "00"
        else if ltb n 100000
        then "0"
        else "") in
    zeros <> show_nat n

-- strconv.Atoi: an optional sign, then digits, none if there is no digit or the number does not fit
-- into 64 bits.
abbrev digit : Char → Option ℕ
digit c = if in_range 48 57 (code c) then some (code c - 48) else none

abbrev next_digit : ℕ → Option ℕ → Option ℕ
next_digit acc none = none
next_digit acc (some d) = some (acc * 10 + d)

digits_value : Option ℕ → String → Option ℕ
digits_value acc String.[] = acc
digits_value none (String.◌∷◌ c s) = none
digits_value (some n) (String.◌∷◌ c s) = digits_value (next_digit n (digit c)) s

unfoldable pub natural : String → Option ℕ
unfolding digits_value
natural String.[] = none
natural (String.◌∷◌ c s) = digits_value (some 0) (String.◌∷◌ c s)

abbrev positive : Option ℕ → Option ℤ
positive none = none
positive (some n) = if ltb n int_limit then some (pos n) else none

abbrev negative : Option ℕ → Option ℤ
negative none = none
negative (some zero) = some (pos 0)
negative (some (suc n)) = if ltb n int_limit then some (negsuc n) else none

unfoldable pub atoi : String → Option ℤ
unfolding natural
atoi String.[] = none
atoi (String.◌∷◌ c s) =
    if eqb (code c) 45
    then negative (natural s)
    else if eqb (code c) 43
    then positive (natural s)
    else positive (natural (String.◌∷◌ c s))

-- strconv.ParseInt(s, 10, 64) with its error passed over: 0 for what is no number, and the nearest
-- number for one out of range.
abbrev clamped : Option ℕ → ℤ
clamped none = pos 0
clamped (some n) = pos (if ltb n int_limit then n else int_limit - 1)

abbrev clamped_below : Option ℕ → ℤ
clamped_below none = pos 0
clamped_below (some n) = negated (if ltb n int_limit then n else int_limit)

unfoldable pub parse_int : String → ℤ
unfolding natural
parse_int String.[] = pos 0
parse_int (String.◌∷◌ c s) =
    if eqb (code c) 45
    then clamped_below (natural s)
    else if eqb (code c) 43
    then clamped (natural s)
    else clamped (natural (String.◌∷◌ c s))

split_spaces : String → List String
unfolding is_space
split_spaces String.[] = "" ∷ []
split_spaces (String.◌∷◌ c s) =
    let rest = split_spaces s in if is_space (code c) then "" ∷ rest else push_char c rest

abbrev words_of : List String → List String
words_of [] = []
words_of (w ∷ ws) = if w == "" then words_of ws else w ∷ words_of ws

-- strings.Fields
unfoldable pub words : String → List String
unfolding split_spaces
words s = words_of (split_spaces s)
