-- ===== src/Tests/Numbers.antt =====
-- A concrete `parseInt` for the examples, on the digits of natural numbers.
use repram.Common.{
  ℕ, zero, suc, ◌+◌, ◌*◌, ◌-◌, ◌/◌, ◌%◌, ◌<◌, ◌≡◌, refl, ap, ◌∙◌, Option, none, some, [], ◌∷◌, ◌++◌,
  Str, arith, ltb, Bool-cases, inl, inr, truthy, decimal, decimal_digits, decimal-truthy,
  if◌then◌else◌,
}

digits_value : ℕ → Str → ℕ
digits_value acc [] = acc
digits_value acc (c ∷ s) = digits_value (10 * acc + (c - 48)) s

digits_value-append :
    (acc : ℕ) (s : Str) (c : ℕ)
    → digits_value acc (s ++ c ∷ []) ≡ 10 * digits_value acc s + (c - 48)
unfolding digits_value
digits_value-append acc [] c = refl
digits_value-append acc (d ∷ s) c = digits_value-append (10 * acc + (d - 48)) s c

digits_value-decimal : (fuel n : ℕ) → n < fuel → digits_value 0 (decimal_digits fuel n) ≡ n
unfolding decimal_digits
digits_value-decimal zero n h = absurd (omega (arith, h))
digits_value-decimal (suc fuel) n h = elim (Bool-cases (ltb n 10)) [
  | inl small ↦ rw small (unfold digits_value in omega arith)
  | inr large ↦
      let front = digits_value-decimal fuel (n / 10) (ground (arith, h, large)) in
      rw large
        (digits_value-append 0 (decimal_digits fuel (n / 10)) (48 + n % 10) ∙ omega (arith, front))
]

unfoldable pub parse_digits : Str → Option ℕ
unfolding digits_value
parse_digits s = if truthy s then some (digits_value 0 s) else none

pub parse_digits-decimal : (n : ℕ) → parse_digits (decimal n) ≡ some n
unfolding parse_digits decimal
parse_digits-decimal n =
    rw (decimal-truthy n) (ap some (digits_value-decimal (suc n) n (omega arith)))
