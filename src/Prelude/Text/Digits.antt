-- ===== src/Prelude/Text/Digits.antt =====
-- The digits of a number determine it.
use Prim.Native.Nat.{ℕ, zero, suc, ◌+◌, ◌-◌, ◌*◌, ◌/◌, ◌%◌, ◌<◌, ◌≤◌}
use Prim.Native.Char.{code}
use Prim.Native.String.{String, char_at, ◌++◌ as ◌<>◌}
use mathlib.Core.Path.{◌≡◌, refl, sym, ap, ◌∙◌}
use mathlib.Core.Logic.{inl, inr}
use mathlib.Core.Bool.{Bool, true, false}
use native.Mathlib.Omega.{arith}
use text.Mathlib.TextLemmas.{cons-append, nil-append}
use proxmaster.Prelude.Tests.{ltb, if◌then◌else◌, Bool-cases}
use proxmaster.Prelude.Text.{show_nat, show_padded, show_fuel}

-- The number that a text of digits stands for, behind a number that was read.
read_digits : ℕ → String → ℕ
read_digits acc String.[] = acc
read_digits acc (String.◌∷◌ c s) = read_digits (acc * 10 + (code c - 48)) s

read-append :
    (acc : ℕ) (s t : String) → read_digits acc (s <> t) ≡ read_digits (read_digits acc s) t
unfolding read_digits
read-append acc String.[] t = ap (read_digits acc) (nil-append t)
read-append acc (String.◌∷◌ c s) t =
    ap (read_digits acc) (cons-append c s t) ∙ read-append (acc * 10 + (code c - 48)) s t

digit_code : (d : ℕ) → d < 10 → code (char_at "0123456789" d) - 48 ≡ d
digit_code zero h = refl
digit_code (suc zero) h = refl
digit_code (suc (suc zero)) h = refl
digit_code (suc (suc (suc zero))) h = refl
digit_code (suc (suc (suc (suc zero)))) h = refl
digit_code (suc (suc (suc (suc (suc zero))))) h = refl
digit_code (suc (suc (suc (suc (suc (suc zero)))))) h = refl
digit_code (suc (suc (suc (suc (suc (suc (suc zero))))))) h = refl
digit_code (suc (suc (suc (suc (suc (suc (suc (suc zero)))))))) h = refl
digit_code (suc (suc (suc (suc (suc (suc (suc (suc (suc zero))))))))) h = refl
digit_code (suc (suc (suc (suc (suc (suc (suc (suc (suc (suc d)))))))))) h =
    absurd (omega (arith, h))

read-digit :
    (acc d : ℕ) → d < 10 → read_digits acc (String.◌∷◌ (char_at "0123456789" d) "") ≡ acc * 10 + d
unfolding read_digits
read-digit acc d h = ap (λ k. acc * 10 + k) (digit_code d h)

read-show_fuel : (fuel n : ℕ) → n < fuel → read_digits 0 (show_fuel fuel n) ≡ n
unfolding show_fuel
read-show_fuel zero n h = absurd (omega (arith, h))
read-show_fuel (suc fuel) n h = elim (Bool-cases (ltb n 10)) [
  | inl one_digit ↦
      let small : n < 10 = ground arith in
      rw (one_digit, show_fuel) (read-digit 0 (n % 10) (omega (arith)) ∙ omega (arith, small))
  | inr more ↦
      let large : 10 ≤ n = ground arith in
      let last : n % 10 < 10 = omega arith in
      rw (more, show_fuel)
        (read-append 0 (show_fuel fuel (n / 10)) (String.◌∷◌ (char_at "0123456789" (n % 10)) "")
          ∙ read-digit (read_digits 0 (show_fuel fuel (n / 10))) (n % 10) last
          ∙ ap (λ k. k * 10 + n % 10) (read-show_fuel fuel (n / 10) (omega (arith, large, h)))
          ∙ omega arith)
]

read-show_nat : (n : ℕ) → read_digits 0 (show_nat n) ≡ n
unfolding show_nat
read-show_nat n = read-show_fuel (n + 1) n (omega arith)

read-zeros :
    (zeros : String) (n : ℕ) → read_digits 0 zeros ≡ 0 → read_digits 0 (zeros <> show_nat n) ≡ n
read-zeros zeros n h =
    read-append 0 zeros (show_nat n) ∙ ap (λ k. read_digits k (show_nat n)) h ∙ read-show_nat n

read-show_padded : (n : ℕ) → read_digits 0 (show_padded n) ≡ n
unfolding show_padded read_digits
read-show_padded n =
    read-zeros _ n (pad (ltb n 10) (ltb n 100) (ltb n 1000) (ltb n 10000) (ltb n 100000))
  where
    pad :
        (a b c d e : Bool)
        → read_digits 0 (
            if a
            then "00000"
            else if b
            then "0000"
            else if c
            then "000"
            else if d
            then "00"
            else if e
            then "0"
            else "")
          ≡ 0
    pad true b c d e = refl
    pad false true c d e = refl
    pad false false true d e = refl
    pad false false false true e = refl
    pad false false false false true = refl
    pad false false false false false = refl

-- Different numbers have different digits.
pub show_padded-injective : (m n : ℕ) → show_padded m ≡ show_padded n → m ≡ n
show_padded-injective m n e = sym (read-show_padded m) ∙ ap (read_digits 0) e ∙ read-show_padded n
