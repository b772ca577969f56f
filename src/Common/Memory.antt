-- ===== src/Common/Memory.antt =====
-- Undefined behaviour of the C++ code as a value: what a step of the model returns where the source
-- would dereference a null or freed pointer, run past an array, or divide by zero.
use mathlib.Core.Path.{subst}
use livox_ros_driver.Common.{
  ℕ, ◌≡◌, refl, Bool, true, false, Option, none, some, List, [], leb, ◌==◌, if◌then◌else◌, length,
  take, get_elem?, set,
}

pub data Fault : Type 0 where
  null_pointer use_after_free double_free out_of_bounds divide_by_zero failed_assertion : Fault

pub data Result {ℓ} (A : Type ℓ) : Type ℓ where
  ok : A → Result A
  fault : Fault → Result A

infixl 5 ◌>>=◌
abbrev pub ◌>>=◌ {ℓ κ} : {A : Type ℓ} {B : Type κ} → Result A → (A → Result B) → Result B
ok a >>= f = f a
fault e >>= f = fault e

-- A `new[]`-allocated array behind a raw pointer.
pub data Storage {ℓ} (A : Type ℓ) : Type ℓ where
  null freed : Storage A
  live : List A → Storage A

module _ {ℓ} {A : Type ℓ} where
  abbrev pub to_result : Option A → Fault → Result A
  to_result none e = fault e
  to_result (some a) e = ok a

  abbrev pub read_cell : Storage A → ℕ → Result A
  read_cell null i = fault null_pointer
  read_cell freed i = fault use_after_free
  read_cell (live xs) i = to_result (get_elem? xs i) out_of_bounds

  abbrev pub write_live : Option A → List A → ℕ → A → Result (Storage A)
  write_live none xs i v = fault out_of_bounds
  write_live (some old) xs i v = ok (live (set xs i v))

  abbrev pub write_cell : Storage A → ℕ → A → Result (Storage A)
  write_cell null i v = fault null_pointer
  write_cell freed i v = fault use_after_free
  write_cell (live xs) i v = write_live (get_elem? xs i) xs i v

  -- `if (p) delete[] p;`: the pointer keeps its value.
  abbrev pub delete_array : Storage A → Result (Storage A)
  delete_array null = ok null
  delete_array freed = fault double_free
  delete_array (live xs) = ok freed

  abbrev pub is_null : Storage A → Bool
  is_null null = true
  is_null freed = false
  is_null (live xs) = false

  -- `memcpy` of the first `n` elements of an array.
  abbrev pub copy_array : List A → ℕ → Result (List A)
  copy_array xs n = if leb n (length xs) then ok (take n xs) else fault out_of_bounds

  -- The same from a pointer that may be null.
  abbrev pub copy_pointer : Option (List A) → ℕ → Result (List A)
  copy_pointer none n = if n == 0 then ok [] else fault null_pointer
  copy_pointer (some xs) n = copy_array xs n

-- A step that does not fault.
unfoldable pub Succeeds {ℓ} : {A : Type ℓ} → Result A → Type ℓ
Succeeds {A = A} r = (a : A) × (r ≡ ok a)

pub ok-Succeeds {ℓ} : {A : Type ℓ} (a : A) → Succeeds (ok a)
unfolding Succeeds
ok-Succeeds a = (a, refl)

pub bind-Succeeds {ℓ κ} :
    {A : Type ℓ} {B : Type κ} (r : Result A) (f : A → Result B)
    → Succeeds r
    → ((a : A) → Succeeds (f a))
    → Succeeds (r >>= f)
unfolding Succeeds
bind-Succeeds (ok a) f h k = k a
bind-Succeeds (fault e) f (a, h) k = cc

pub if-Succeeds {ℓ} :
    {A : Type ℓ} (b : Bool) (x y : Result A)
    → (b ≡ true → Succeeds x)
    → (b ≡ false → Succeeds y)
    → Succeeds (if b then x else y)
if-Succeeds true x y h k = h refl
if-Succeeds false x y h k = k refl

-- Whatever a step returns, if it returns, has the property.
abbrev pub Yields {ℓ κ} : {A : Type ℓ} → (A → Type κ) → Result A → Type κ
Yields P (ok a) = P a
Yields P (fault e) = Unit

pub bind-Yields {ℓ κ μ ν} :
    {A : Type ℓ} {B : Type κ} (P : A → Type μ) (Q : B → Type ν) (r : Result A) (f : A → Result B)
    → Yields P r
    → ((a : A) → P a → Yields Q (f a))
    → Yields Q (r >>= f)
bind-Yields P Q (ok a) f h k = k a h
bind-Yields P Q (fault e) f h k = tt

pub Yields-any {ℓ} : {A : Type ℓ} (r : Result A) → Yields (λ a. Unit {0}) r
Yields-any (ok a) = tt
Yields-any (fault e) = tt

pub Yields-ok {ℓ κ} :
    {A : Type ℓ} (P : A → Type κ) (r : Result A) (a : A) → Yields P r → r ≡ ok a → P a
Yields-ok {A = A} P (ok b) a h e = subst P (ok_injective e) h
  where
    ok_injective : {b a : A} → ok b ≡ ok a → b ≡ a
    ok_injective e = cc
Yields-ok P (fault e) a h same = cc
