-- ===== src/Prelude/Texts.antt =====
-- JavaScript strings: literals, the order `<` on code units, decimal numerals.
use Prim.Native.Char.{code}
use Prim.Native.Nat.{ℕ, zero, suc, ◌+◌, ◌-◌, ◌*◌, ◌/◌, ◌%◌, ◌^◌, ◌≤◌, ◌<◌, compare, Ordering}
use native.Mathlib.Nat.{pow-suc}
use Prim.Native.String.{String}
use mathlib.Core.Path.{◌≡◌, refl, ap, ◌∙◌}
use mathlib.Core.Bool.{Bool, true, ◌&&◌}
use mathlib.Core.List.{[], ◌∷◌, ◌++◌}
use mathlib.Core.Option.{Option, none, some}
use mathlib.Core.Logic.{◌↔◌, inl, inr}
use native.Mathlib.Omega.{arith}
use privchat_sdk_typescript.Prelude.Tests.{ltb, leb, if◌then◌else◌, Bool-cases}
use privchat_sdk_typescript.Prelude.Equality.{Text}
use privchat_sdk_typescript.Prelude.Lists.{length, replicate, All}

-- A literal's code units.
abbrev pub codes : String → Text
codes String.[] = []
codes (String.◌∷◌ c s) = code c ∷ codes s

-- `s < t`, `s === t` and `s > t` in one.
unfoldable pub text_compare : Text → Text → Ordering
text_compare [] [] = Ordering.eq
text_compare [] (y ∷ ys) = Ordering.lt
text_compare (x ∷ xs) [] = Ordering.gt
text_compare (x ∷ xs) (y ∷ ys) = elim (compare x y) [
  | Ordering.lt ↦ Ordering.lt
  | Ordering.eq ↦ text_compare xs ys
  | Ordering.gt ↦ Ordering.gt
]

pub text_compare_eq : (s t : Text) → (text_compare s t ≡ Ordering.eq) ↔ (s ≡ t)
unfolding text_compare
text_compare_eq [] [] = ground arith
text_compare_eq [] (y ∷ ys) = ground arith
text_compare_eq (x ∷ xs) [] = ground arith
text_compare_eq (x ∷ xs) (y ∷ ys) = ground (arith, text_compare_eq xs ys)

-- One order, and where it ties, the next.
abbrev pub then_by : Ordering → Ordering → Ordering
then_by Ordering.lt o = Ordering.lt
then_by Ordering.eq o = o
then_by Ordering.gt o = Ordering.gt

pub text_compare-append :
    (s s' t t' : Text)
    → length s ≡ length s'
    → text_compare (s ++ t) (s' ++ t') ≡ then_by (text_compare s s') (text_compare t t')
unfolding text_compare
text_compare-append [] [] t t' h = refl
text_compare-append [] (y ∷ ys) t t' h = absurd (omega arith)
text_compare-append (x ∷ xs) [] t t' h = absurd (omega arith)
text_compare-append (x ∷ xs) (y ∷ ys) t t' h =
    ground (arith, text_compare-append xs ys t t' (omega arith))

abbrev pub IsDigit : ℕ → Type 0
IsDigit c = (48 ≤ c) × (c ≤ 57)

abbrev pub is_digit : ℕ → Bool
is_digit c = leb 48 c && leb c 57

abbrev pub IsDecimal : Text → Type 0
IsDecimal = All IsDigit

-- The number that a numeral denotes, read from the left.
unfoldable pub value_from : ℕ → Text → ℕ
value_from acc [] = acc
value_from acc (c ∷ s) = value_from (acc * 10 + (c - 48)) s

abbrev pub value : Text → ℕ
value = value_from 0

pub value_from_lt :
    (s t : Text) (a b : ℕ)
    → length s ≡ length t
    → IsDecimal s
    → IsDecimal t
    → a < b
    → value_from a s < value_from b t
unfolding value_from
value_from_lt [] [] a b e hs ht h = h
value_from_lt [] (y ∷ ys) a b e hs ht h = absurd (omega arith)
value_from_lt (x ∷ xs) [] a b e hs ht h = absurd (omega arith)
value_from_lt (x ∷ xs) (y ∷ ys) a b e hs ht h =
    value_from_lt xs ys (a * 10 + (x - 48)) (b * 10 + (y - 48)) (omega arith) hs.1 ht.1
      (omega arith)

-- On numerals of one width the order of texts is the order of numbers.
pub text_compare-value_from :
    (s t : Text) (a : ℕ)
    → length s ≡ length t
    → IsDecimal s
    → IsDecimal t
    → text_compare s t ≡ compare (value_from a s) (value_from a t)
unfolding text_compare value_from
text_compare-value_from [] [] a e hs ht = ground arith
text_compare-value_from [] (y ∷ ys) a e hs ht = absurd (omega arith)
text_compare-value_from (x ∷ xs) [] a e hs ht = absurd (omega arith)
text_compare-value_from (x ∷ xs) (y ∷ ys) a e hs ht = ground (
  arith,
  text_compare-value_from xs ys (a * 10 + (x - 48)) (omega arith),
  value_from_lt xs ys (a * 10 + (x - 48)) (a * 10 + (y - 48)) (omega arith),
  value_from_lt ys xs (a * 10 + (y - 48)) (a * 10 + (x - 48)) (omega arith),
)

pub value-zeros : (n : ℕ) (s : Text) → value (replicate n 48 ++ s) ≡ value s
unfolding value_from
value-zeros zero s = refl
value-zeros (suc n) s = value-zeros n s

-- String(n): the decimal numeral of a number. The fuel `n + 1` is more than its digits.
unfoldable pub decimal_from : ℕ → ℕ → Text → Text
decimal_from zero n acc = acc
decimal_from (suc f) n acc =
    let acc' : Text = (48 + n % 10) ∷ acc in
    let rest = decimal_from f (n / 10) acc' in if ltb n 10 then acc' else rest

unfoldable pub to_decimal : ℕ → Text
unfolding decimal_from
to_decimal n = decimal_from (suc n) n []

-- BigInt(s), where the digits are all that is read: a sign or a radix prefix is refused.
unfoldable pub all_digits : Text → Bool
all_digits [] = true
all_digits (c ∷ s) = is_digit c && all_digits s

unfoldable pub big_int : Text → Option ℕ
unfolding all_digits value_from
big_int s = if all_digits s then some (value s) else none

pub IsDecimal→all_digits : (s : Text) → IsDecimal s → all_digits s ≡ true
unfolding all_digits
IsDecimal→all_digits [] h = refl
IsDecimal→all_digits (c ∷ s) h = ground (arith, IsDecimal→all_digits s h.1)

decimal_from-IsDecimal : (f n : ℕ) (acc : Text) → IsDecimal acc → IsDecimal (decimal_from f n acc)
unfolding decimal_from
decimal_from-IsDecimal zero n acc h = h
decimal_from-IsDecimal (suc f) n acc h =
    ground (arith, h, decimal_from-IsDecimal f (n / 10) ((48 + n % 10) ∷ acc) (omega arith, h))

pub to_decimal-IsDecimal : (n : ℕ) → IsDecimal (to_decimal n)
unfolding to_decimal
to_decimal-IsDecimal n = decimal_from-IsDecimal (suc n) n [] tt

value_from-decimal_from :
    (f n : ℕ) (acc : Text) → n < f → value_from 0 (decimal_from f n acc) ≡ value_from n acc
unfolding decimal_from value_from
value_from-decimal_from zero n acc h = absurd (omega arith)
value_from-decimal_from (suc f) n acc h = elim (Bool-cases (ltb n 10)) [
  | inl small ↦
      let e : 0 * 10 + (48 + n % 10 - 48) ≡ n = ground arith in
      rw small (ap (λ a. value_from a acc) e)
  | inr large ↦
      let e : n / 10 * 10 + (48 + n % 10 - 48) ≡ n = ground arith in
      rw large (
        value_from-decimal_from f (n / 10) ((48 + n % 10) ∷ acc) (ground arith)
        ∙ ap (λ a. value_from a acc) e)
]

-- Reading back the numeral of a number gives the number.
pub value-to_decimal : (n : ℕ) → value (to_decimal n) ≡ n
unfolding to_decimal value_from
value-to_decimal n = value_from-decimal_from (suc n) n [] (omega arith)

pub big_int-to_decimal : (n : ℕ) → big_int (to_decimal n) ≡ some n
unfolding big_int
big_int-to_decimal n =
    rw (IsDecimal→all_digits (to_decimal n) (to_decimal-IsDecimal n)) (ap some (value-to_decimal n))

length-decimal_from :
    (f k n : ℕ) (acc : Text) → n < 10 ^ suc k → length (decimal_from f n acc) ≤ suc k + length acc
unfolding decimal_from
length-decimal_from zero k n acc h = omega arith
length-decimal_from (suc f) zero n acc h = ground arith
length-decimal_from (suc f) (suc k) n acc h =
    ground (arith, length-decimal_from f k (n / 10) ((48 + n % 10) ∷ acc) smaller)
  where
    smaller : n / 10 < 10 ^ suc k
    smaller = omega (arith, pow-suc 10 (suc k))

pub length-to_decimal : (k n : ℕ) → n < 10 ^ suc k → length (to_decimal n) ≤ suc k
unfolding to_decimal
length-to_decimal k n h = omega (arith, length-decimal_from (suc n) k n [] h)
