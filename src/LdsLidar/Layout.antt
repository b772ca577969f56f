-- ===== src/LdsLidar/Layout.antt =====
-- src/lds_lidar.cpp: the walk of `DiagnosticQueryCallback` on the bytes of a list of parameters.
use mathlib.Core.List.{append_assoc}
use livox_ros_driver.Common.{
  ℕ, ◌+◌, ◌/◌, ◌%◌, ◌≤◌, ◌≡◌, refl, ap, ◌∙◌, false, List, [], ◌∷◌, ◌++◌, ltb, length, take, drop,
  arith, le→leb, length-append, Bool-cases, inl, inr,
}
use livox_ros_driver.Common.Memory.{ok}
use livox_ros_driver.LdsLidar.Answer.{
  StateKeys, Walk, whole, walk_params, read_bytes, take_param, take_value, marked, is_taken,
  le_value, max_answer,
}

-- A parameter of an answer: its key and the bytes of its value.
pub record Param : Type 0 where
  pub key : ℕ
  pub value : List ℕ

-- A `uint16_t` in two bytes, the low one first.
unfoldable pub le_bytes : ℕ → List ℕ
le_bytes n = n % 256 ∷ n / 256 ∷ []

-- The bytes of parameters that follow one another.
unfoldable pub layout : List Param → List ℕ
layout [] = []
layout (p ∷ ps) = le_bytes p.key ++ (le_bytes (length p.value) ++ (p.value ++ layout ps))

-- The reference: every parameter in its turn, with no bytes to count.
unfoldable pub take_all : StateKeys → List Param → Walk → Walk
take_all keys [] w = w
take_all keys (p ∷ ps) w =
    take_all keys ps
      (take_value keys p.key (length p.value) p.value (marked keys p.key (length p.value) w))

le_value-le_bytes : (n : ℕ) → le_value (le_bytes n) ≡ n
unfolding le_value le_bytes
le_value-le_bytes n = omega arith

drop-append : (before after : List ℕ) → drop (length before) (before ++ after) ≡ after
drop-append [] after = refl
drop-append (b ∷ before) after = drop-append before after

take-append : (front after : List ℕ) → take (length front) (front ++ after) ≡ front
take-append [] after = refl
take-append (b ∷ front) after = ap (λ (bs : List ℕ). b ∷ bs) (take-append front after)

-- Reading behind `before` as many bytes as `value` has.
read_bytes_at :
    (before value after content : List ℕ) (offset n : ℕ)
    → content ≡ before ++ (value ++ after)
    → offset ≡ length before
    → n ≡ length value
    → read_bytes content offset n ≡ ok value
unfolding read_bytes
read_bytes_at before value after content offset n e o l =
    let fits : length before + length value ≤ length (before ++ (value ++ after)) =
      omega (arith, length-append before (value ++ after), length-append value after) in
    rw
      (
        e,
        o,
        l,
        le→leb (length before + length value) (length (before ++ (value ++ after))) fits,
        drop-append before (value ++ after),
        take-append value after,
      )
      refl

-- A value that is not taken changes nothing but the marks.
take_value_untaken :
    (keys : StateKeys) (key len : ℕ) (value : List ℕ) (w : Walk)
    → is_taken keys key len ≡ false
    → take_value keys key len value w ≡ w
unfolding is_taken take_value
take_value_untaken keys key len value w h = ground (arith, h)

take_param_at :
    (keys : StateKeys) (before value after content : List ℕ) (offset key len : ℕ) (w : Walk)
    → content ≡ before ++ (value ++ after)
    → offset ≡ length before
    → len ≡ length value
    → take_param keys content offset key len w
      ≡ ok (take_value keys key len value (marked keys key len w))
unfolding take_param
take_param_at keys before value after content offset key len w e o l =
    elim (Bool-cases (is_taken keys key len)) [
      | inl taken ↦ rw (taken, read_bytes_at before value after content offset len e o l) refl
      | inr skipped ↦
          rw (skipped, take_value_untaken keys key len value (marked keys key len w) skipped) refl
    ]

-- The walk over parameters that follow `before`.
walk_params_at :
    (keys : StateKeys) (ps : List Param) (before rest content : List ℕ) (offset : ℕ) (w : Walk)
    → content ≡ before ++ (layout ps ++ rest)
    → offset ≡ length before
    → length before + length (layout ps) ≤ max_answer
    → walk_params keys content (length ps) offset w ≡ ok (whole (take_all keys ps w))
unfolding walk_params layout take_all le_bytes
walk_params_at keys [] before rest content offset w e o small = refl
walk_params_at keys (p ∷ ps) before rest content offset w e o small =
    let n = length p.value in
    let key = le_bytes p.key in
    let len = le_bytes n in
    let others = layout ps ++ rest in
    let taken = take_value keys p.key n p.value (marked keys p.key n w) in
    let e0 : content ≡ before ++ (key ++ (len ++ (p.value ++ others))) = e ∙ simp (append_assoc) in
    let e1 : content ≡ (before ++ key) ++ (len ++ (p.value ++ others)) = e0 ∙ simp (append_assoc) in
    let e2 : content ≡ (before ++ (key ++ len)) ++ (p.value ++ others) = e0 ∙ simp (append_assoc) in
    let e3 : content ≡ (before ++ (key ++ (len ++ p.value))) ++ others = e0 ∙ simp (append_assoc) in
    let l1 : offset + 2 ≡ length (before ++ key) = omega (arith, length-append before key) in
    let l2 : offset + 4 ≡ length (before ++ (key ++ len)) =
      omega (arith, length-append before (key ++ len)) in
    let l3 : offset + 4 + n ≡ length (before ++ (key ++ (len ++ p.value))) =
      omega (arith, length-append before (key ++ (len ++ p.value))) in
    let inside : offset + 4 + n + length (layout ps) ≤ max_answer =
      omega (arith, length-append p.value (layout ps)) in
    let first : ltb max_answer (offset + 4) ≡ false = ground (arith, inside) in
    let second : ltb max_answer (offset + 4 + n) ≡ false = ground (arith, inside) in
    rw
      (
        first,
        read_bytes_at before key (len ++ (p.value ++ others)) content offset 2 e0 o refl,
        read_bytes_at (before ++ key) len (p.value ++ others) content (offset + 2) 2 e1 l1 refl,
        le_value-le_bytes p.key,
        le_value-le_bytes n,
        second,
        take_param_at keys (before ++ (key ++ len)) p.value others content (offset + 4) p.key n w e2
            l2 refl,
      )
      (walk_params_at keys ps (before ++ (key ++ (len ++ p.value))) rest content (offset + 4 + n)
        taken e3 l3 (omega arith))

-- The walk of `DiagnosticQueryCallback` over the bytes of any list of parameters, laid out one
-- behind the other in at most 1400 bytes and followed by anything, reaches their end, and what it
-- collects is what taking the parameters one after the other, with no bytes to count, collects.
pub walk_params-layout :
    (keys : StateKeys) (ps : List Param) (rest : List ℕ) (w : Walk)
    → length (layout ps) ≤ max_answer
    → walk_params keys (layout ps ++ rest) (length ps) 0 w ≡ ok (whole (take_all keys ps w))
walk_params-layout keys ps rest w small =
    walk_params_at keys ps [] rest (layout ps ++ rest) 0 w refl refl (omega arith)
