-- ===== src/Comm/Names.antt =====
-- src/comm/comm.cpp: the test of a path, and the names of topics that are made of addresses.
use mathlib.Core.Path.{subst}
use livox_ros_driver.Common.{
  ℕ, zero, suc, ◌≤◌, ◌≡◌, refl, ap, sym, ◌∙◌, Bool, true, false, ◌&&◌, List, [], ◌∷◌, Option, none,
  some, map, ltb, ◌==◌, if◌then◌else◌, length, set, arith, Bool-cases, Option-cases, inl, inr,
}

-- `strlen` of the path against the two bounds of `kPathStrMinSize` and `kPathStrMaxSize`.
unfoldable pub is_file_path_valid : List ℕ → Bool
is_file_path_valid path = ltb 4 (length path) && ltb (length path) 256

abbrev period : ℕ
period = b'.'

abbrev pub underline : ℕ
underline = b'_'

-- `str.find(".")`.
unfoldable pub find_period : List ℕ → Option ℕ
find_period [] = none
find_period (c ∷ cs) =
    if c == period then some 0 else elim (find_period cs) [ none ↦ none | some i ↦ some (suc i) ]

-- The loop; the fuel is the length, which `replace_periods_enough` shows to be enough.
unfoldable pub replace_periods : ℕ → List ℕ → List ℕ
replace_periods zero text = text
replace_periods (suc fuel) text = elim (find_period text) [
  | none ↦ text
  | some i ↦ replace_periods fuel (set text i underline)
]

unfoldable pub replace_period_by_underline : List ℕ → List ℕ
replace_period_by_underline text = replace_periods (length text) text

-- The reference: one character at a time.
abbrev pub underlined : ℕ → ℕ
underlined c = if c == period then underline else c

unfoldable pub periods : List ℕ → ℕ
periods [] = 0
periods (c ∷ cs) = let rest = periods cs in if c == period then suc rest else rest

-- What `find` answers: no period is left, or one fewer behind the replacement, which changes no name.
FindOutcome : List ℕ → Option ℕ → Type 0
FindOutcome text none = map underlined text ≡ text
FindOutcome text (some i) =
    (periods text ≡ suc (periods (set text i underline)))
    × (map underlined (set text i underline) ≡ map underlined text)

outcome_behind :
    (c : ℕ) (cs : List ℕ) (rest : Option ℕ)
    → (c == period) ≡ false
    → FindOutcome cs rest
    → FindOutcome (c ∷ cs) (elim rest as (λ o. Option ℕ) [ none ↦ none | some i ↦ some (suc i) ])
unfolding FindOutcome periods
outcome_behind c cs none other h = rw (other, h) refl
outcome_behind c cs (some i) other (fewer, same) =
    (rw other fewer, ap (λ (t : List ℕ). underlined c ∷ t) same)

outcome_here : (c : ℕ) (cs : List ℕ) → (c == period) ≡ true → FindOutcome (c ∷ cs) (some 0)
unfolding FindOutcome periods
outcome_here c cs dot = (rw dot refl, ap (λ (d : ℕ). d ∷ map underlined cs) (ground (arith, dot)))

find_period-Outcome : (text : List ℕ) → FindOutcome text (find_period text)
unfolding find_period FindOutcome periods
find_period-Outcome [] = refl
find_period-Outcome (c ∷ cs) = elim (Bool-cases (c == period)) [
  | inl dot ↦ rw (dot, find_period) (outcome_here c cs dot)
  | inr other ↦
      rw (other, find_period) (outcome_behind c cs (find_period cs) other (find_period-Outcome cs))
]

periods_short : (text : List ℕ) → periods text ≤ length text
unfolding periods
periods_short [] = omega arith
periods_short (c ∷ cs) = ground (arith, periods_short cs)

periods-none : (text : List ℕ) → periods text ≡ 0 → find_period text ≡ none
unfolding periods find_period
periods-none [] h = refl
periods-none (c ∷ cs) h = elim (Bool-cases (c == period)) [
  | inl dot ↦ absurd (ground (arith, dot, h))
  | inr other ↦ rw (other, find_period) (rw (periods-none cs (ground (arith, other, h))) refl)
]

replace_periods_enough :
    (fuel : ℕ) (text : List ℕ)
    → periods text ≤ fuel
    → replace_periods fuel text ≡ map underlined text
unfolding replace_periods FindOutcome
replace_periods_enough zero text h =
    let left : find_period text ≡ none = periods-none text (omega arith) in
    sym (subst (FindOutcome text) left (find_period-Outcome text))
replace_periods_enough (suc fuel) text h = elim (Option-cases (find_period text)) [
  | inl left ↦
      rw (left, replace_periods) (sym (subst (FindOutcome text) left (find_period-Outcome text)))
  | inr (i, found) ↦
      let (fewer, same) = subst (FindOutcome text) found (find_period-Outcome text) in
      rw (found, replace_periods)
        (replace_periods_enough fuel (set text i underline) (omega (arith, fewer, h)) ∙ same)
]

-- Every period becomes an underline, and nothing else changes.
pub replace_period_by_underline_lem :
    (text : List ℕ) → replace_period_by_underline text ≡ map underlined text
unfolding replace_period_by_underline
replace_period_by_underline_lem text =
    replace_periods_enough (length text) text (periods_short text)
