-- ===== src/Monitor/Alarms.antt =====
-- src/lidar_dtc_monitor.h: what the loop over the alarm codes in `Evaluate` computes, each flag and
-- each condition by itself.
use livox_ros_driver.Common.{
  ℕ, zero, suc, ◌≡◌, refl, ◌<◌, ap, sym, ◌∙◌, Bool, true, false, not, ◌&&◌, ◌||◌, Option, none,
  some, List, [], ◌∷◌, inl, inr, ◌==◌, if◌then◌else◌, get_elem?, length, length-set, ==_iff,
  get_elem?-set_self, get_elem?-set_ne, Bool-cases, arith, replicate,
}
use livox_ros_driver.Monitor.State.{Monitor, Condition, unknown, pass, fail, categories}
use livox_ros_driver.Monitor.Evaluate.{
  category, Scan, scan_code, scan_codes, scan_start, scan_of, hms_fresh, healthy_ptp, code_id,
  code_level, is_gps_only, in_category, is_known, mark_failed, evaluate,
}

-- Whether an alarm is set that has the property `p`.
unfoldable pub any_alarm : (ℕ → Bool) → List ℕ → Bool
any_alarm p [] = false
any_alarm p (code ∷ codes) = (not (code == 0) && p code) || any_alarm p codes

abbrev pub is_fatal : ℕ → Bool
is_fatal code = code_level code == 4

-- A synchronization accuracy warning.
abbrev pub is_accuracy_warning : ℕ → Bool
is_accuracy_warning code =
    in_category (category (code_id code)) 1 && code_id code == 0x0406 && code_level code == 2

-- An alarm that is not known, or one of synchronization that is neither an accuracy nor a GPS warning.
abbrev pub is_incompatible : ℕ → Bool
is_incompatible code =
    not (is_known (category (code_id code)))
    || (in_category (category (code_id code)) 1
        && (not (code_level code == 2)
            || not (code_id code == 0x0406 || is_gps_only (code_id code))))

-- The alarm counts against category `c`.
abbrev pub fails_category : Bool → ℕ → ℕ → Bool
fails_category healthy c code =
    not (healthy && code_level code == 2 && is_gps_only (code_id code))
    && in_category (category (code_id code)) c

or_assoc : (a b c : Bool) → ((a || b) || c) ≡ (a || (b || c))
or_assoc true b c = refl
or_assoc false b c = refl

or_false : (a : Bool) → (a || false) ≡ a
or_false true = refl
or_false false = refl

any_step :
    (p : ℕ → Bool) (flag : Scan → Bool) (healthy : Bool)
    → ((s : Scan) (code : ℕ)
        → flag (scan_code healthy s code) ≡ (flag s || (not (code == 0) && p code)))
    → (s : Scan) (codes : List ℕ)
    → flag (scan_codes healthy s codes) ≡ (flag s || any_alarm p codes)
unfolding scan_codes any_alarm
any_step p flag healthy step s [] = sym (or_false (flag s))
any_step p flag healthy step s (code ∷ codes) =
    any_step p flag healthy step (scan_code healthy s code) codes
    ∙ ap (λ b. b || any_alarm p codes) (step s code)
    ∙ or_assoc (flag s) _ _

-- The loop finds a fatal alarm exactly where one is set.
pub scan_codes_fatal :
    (healthy : Bool) (s : Scan) (codes : List ℕ)
    → (scan_codes healthy s codes).fatal ≡ (s.fatal || any_alarm is_fatal codes)
unfolding scan_code
scan_codes_fatal healthy =
    any_step is_fatal (λ s. s.fatal) healthy
      (λ s code. elim (Bool-cases (code == 0)) [
        | inl e ↦ rw (e) (sym (or_false s.fatal))
        | inr e ↦ rw (e) refl
      ])

pub scan_codes_bounded_warning :
    (healthy : Bool) (s : Scan) (codes : List ℕ)
    → (scan_codes healthy s codes).bounded_warning
      ≡ (s.bounded_warning || any_alarm is_accuracy_warning codes)
unfolding scan_code
scan_codes_bounded_warning healthy =
    any_step is_accuracy_warning (λ s. s.bounded_warning) healthy
      (λ s code. elim (Bool-cases (code == 0)) [
        | inl e ↦ rw (e) (sym (or_false s.bounded_warning))
        | inr e ↦ rw (e) refl
      ])

pub scan_codes_incompatible :
    (healthy : Bool) (s : Scan) (codes : List ℕ)
    → (scan_codes healthy s codes).incompatible_sync_alarm
      ≡ (s.incompatible_sync_alarm || any_alarm is_incompatible codes)
unfolding scan_code
scan_codes_incompatible healthy =
    any_step is_incompatible (λ s. s.incompatible_sync_alarm) healthy
      (λ s code. elim (Bool-cases (code == 0)) [
        | inl e ↦ rw (e) (sym (or_false s.incompatible_sync_alarm))
        | inr e ↦ rw (e) (or_assoc s.incompatible_sync_alarm _ _)
      ])

length-mark_failed : (cs : List Condition) (o : Option ℕ) → length (mark_failed cs o) ≡ length cs
length-mark_failed cs none = refl
length-mark_failed cs (some c) = length-set cs c fail

get_elem?-mark_failed :
    (cs : List Condition) (o : Option ℕ) (c : ℕ)
    → c < length cs
    → get_elem? (mark_failed cs o) c ≡ (if in_category o c then some fail else get_elem? cs c)
get_elem?-mark_failed cs none c h = refl
get_elem?-mark_failed cs (some d) c h = elim (Bool-cases (d == c)) [
  | inl e ↦ rw (e, (==_iff d c).0 e) (get_elem?-set_self cs c fail h)
  | inr e ↦ rw (e) (get_elem?-set_ne cs fail (λ same. cc (e, (==_iff d c).1 same)))
]

length-scan_code :
    (healthy : Bool) (s : Scan) (code : ℕ)
    → length (scan_code healthy s code).conditions ≡ length s.conditions
unfolding scan_code
length-scan_code healthy s code = elim (Bool-cases (code == 0)) [
  | inl e ↦ rw (e) refl
  | inr e ↦ elim (Bool-cases (healthy && code_level code == 2 && is_gps_only (code_id code))) [
    | inl f ↦ rw (e, f) refl
    | inr f ↦ rw (e, f) (length-mark_failed s.conditions (category (code_id code)))
  ]
]

get_elem?-scan_code :
    (healthy : Bool) (s : Scan) (code c : ℕ)
    → c < length s.conditions
    → get_elem? (scan_code healthy s code).conditions c ≡ (
        if not (code == 0) && fails_category healthy c code
        then some fail
        else get_elem? s.conditions c)
unfolding scan_code
get_elem?-scan_code healthy s code c h = elim (Bool-cases (code == 0)) [
  | inl e ↦ rw (e) refl
  | inr e ↦ elim (Bool-cases (healthy && code_level code == 2 && is_gps_only (code_id code))) [
    | inl f ↦ rw (e, f) refl
    | inr f ↦ rw (e, f) (get_elem?-mark_failed s.conditions (category (code_id code)) c h)
  ]
]

if-or :
    {A : Type 0} (a b : Bool) (x y : A)
    → (if b then x else (if a then x else y)) ≡ (if a || b then x else y)
if-or true true x y = refl
if-or true false x y = refl
if-or false b x y = refl

-- A condition is marked as failed exactly where some alarm counts against its category.
pub get_elem?-scan_codes :
    (healthy : Bool) (s : Scan) (codes : List ℕ) (c : ℕ)
    → c < length s.conditions
    → get_elem? (scan_codes healthy s codes).conditions c
      ≡ (if any_alarm (fails_category healthy c) codes then some fail else get_elem? s.conditions c)
unfolding scan_codes any_alarm
get_elem?-scan_codes healthy s [] c h = refl
get_elem?-scan_codes healthy s (code ∷ codes) c h =
    get_elem?-scan_codes healthy (scan_code healthy s code) codes c
      (omega (arith, length-scan_code healthy s code))
    ∙ ap (λ o. if any_alarm (fails_category healthy c) codes then some fail else o)
        (get_elem?-scan_code healthy s code c h)
    ∙ if-or (not (code == 0) && fails_category healthy c code) _ (some fail) _

get_elem?-replicate : (n c : ℕ) (a : Condition) → c < n → get_elem? (replicate n a) c ≡ some a
get_elem?-replicate zero c a h = absurd (omega arith)
get_elem?-replicate (suc n) zero a h = refl
get_elem?-replicate (suc n) (suc c) a h = get_elem?-replicate n c a (omega arith)

-- `Evaluate` reports each of the 11 categories: unknown where the alarms are not fresh, and otherwise
-- failed exactly where some alarm that is set counts against the category, a GPS warning not counting
-- while verified PTP is healthy; every other category passes.
pub evaluate_conditions :
    (m : Monitor) (now c : ℕ)
    → c < categories
    → get_elem? (evaluate m now).conditions c
      ≡ some (
          if hms_fresh m now
          then (if any_alarm (fails_category (healthy_ptp m now) c) m.hms then fail else pass)
          else unknown)
unfolding evaluate scan_of
evaluate_conditions m now c h = elim (Bool-cases (hms_fresh m now)) [
  | inl e ↦
      rw
        (
          e,
          get_elem?-scan_codes (healthy_ptp m now) (scan_start pass) m.hms c h,
          get_elem?-replicate 11 c pass h,
        )
        (some-if (any_alarm (fails_category (healthy_ptp m now) c) m.hms))
  | inr e ↦ rw (e) (get_elem?-replicate 11 c unknown h)
]
  where
    some-if : (b : Bool) → (if b then some fail else some pass) ≡ some (if b then fail else pass)
    some-if true = refl
    some-if false = refl
