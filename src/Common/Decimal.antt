-- ===== src/Common/Decimal.antt =====
-- `std::to_string` on an unsigned number, as the codes of its digits, and that no two numbers have the
-- same text.
use mathlib.Core.List.{reverse, reverse-reverse}
use livox_ros_driver.Common.{
  ℕ, zero, suc, ◌+◌, ◌-◌, ◌*◌, ◌/◌, ◌%◌, ◌≤◌, ◌≡◌, sym, ap, ◌∙◌, List, [], ◌∷◌, arith, ltb,
  if◌then◌else◌, Bool-cases, inl, inr,
}

-- The digits, the lowest first. The fuel is the number itself, which is enough.
digits_rev : ℕ → ℕ → List ℕ
digits_rev zero n = (b'0' + n % 10) ∷ []
digits_rev (suc fuel) n =
    let rest = digits_rev fuel (n / 10) in
    if ltb n 10 then (b'0' + n % 10) ∷ [] else (b'0' + n % 10) ∷ rest

value_rev : List ℕ → ℕ
value_rev [] = 0
value_rev (c ∷ cs) = (c - b'0') + 10 * value_rev cs

value-digits_rev : (fuel n : ℕ) → n ≤ fuel → value_rev (digits_rev fuel n) ≡ n
unfolding value_rev digits_rev
value-digits_rev zero n h = omega arith
value-digits_rev (suc fuel) n h = elim (Bool-cases (ltb n 10)) [
  | inl small ↦ rw small (ground (arith, small))
  | inr large ↦ rw large (ground (arith, value-digits_rev fuel (n / 10), large))
]

unfoldable pub to_string : ℕ → List ℕ
unfolding digits_rev
to_string n = reverse (digits_rev n n)

pub to_string_injective : (a b : ℕ) → to_string a ≡ to_string b → a ≡ b
unfolding to_string
to_string_injective a b e =
    let same : digits_rev a a ≡ digits_rev b b =
      sym (reverse-reverse (digits_rev a a)) ∙ ap reverse e ∙ reverse-reverse (digits_rev b b) in
    sym (value-digits_rev a a (omega arith))
    ∙ ap value_rev same
    ∙ value-digits_rev b b (omega arith)
