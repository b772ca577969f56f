-- ===== src/Callback/Configure.antt =====
-- src/call_back/livox_lidar_callback.cpp: when a device starts to deliver data, over sequences of
-- answers.
use livox_ros_driver.Common.{
  ℕ, ◌≡◌, ◌<◌, refl, sym, ◌∙◌, ap, Bool, true, false, not, ◌&&◌, ◌||◌, ◌==◌, if◌then◌else◌, arith,
  List, [], ◌∷◌, inl, inr, Bool-cases, ==_iff,
}
use livox_ros_driver.Comm.{sampling}
use livox_ros_driver.Lds.{LidarDevice}
use livox_ros_driver.Callback.{
  ConfigCode, LivoxStatus, success, timeout, failure, test_bit, clear_bit, answer_option,
}
use livox_ros_driver.Callback.Bits.{
  same_code, test_bit-clear_bit, clear_bit_lt, bits_zero, test_bit_zero,
}

-- Whether the sequence has a success for the option.
unfoldable pub succeeded : ConfigCode → List (ConfigCode × LivoxStatus) → Bool
succeeded code [] = false
succeeded code ((c, success) ∷ more) = same_code c code || succeeded code more
succeeded code ((c, timeout) ∷ more) = succeeded code more
succeeded code ((c, failure) ∷ more) = succeeded code more

module _ {F : Type 0} (handle : ℕ) where
  -- The device after a sequence of answers.
  unfoldable pub answer_all : List (ConfigCode × LivoxStatus) → LidarDevice F → LidarDevice F
  answer_all [] d = d
  answer_all ((code, status) ∷ more) d = answer_all more (answer_option code status handle d).0

  answer_success_state :
      (code : ConfigCode) (d : LidarDevice F)
      → (answer_option code success handle d).0.connect_state
        ≡ (if clear_bit d.livox_config.set_bits code == 0 then sampling else d.connect_state)
  unfolding answer_option
  answer_success_state code d = elim (Bool-cases (clear_bit d.livox_config.set_bits code == 0)) [
    | inl e ↦ rw (e) refl
    | inr e ↦ rw (e) refl
  ]

  answer_success_bits :
      (code : ConfigCode) (d : LidarDevice F)
      → (answer_option code success handle d).0.livox_config.set_bits
        ≡ clear_bit d.livox_config.set_bits code
  unfolding answer_option
  answer_success_bits code d = elim (Bool-cases (clear_bit d.livox_config.set_bits code == 0)) [
    | inl e ↦ rw (e) refl
    | inr e ↦ rw (e) refl
  ]

  stays_sampling :
      (answers : List (ConfigCode × LivoxStatus)) (d : LidarDevice F)
      → d.connect_state ≡ sampling
      → (answer_all answers d).connect_state ≡ sampling
  unfolding answer_all answer_option
  stays_sampling [] d h = h
  stays_sampling ((code, success) ∷ more) d h =
      stays_sampling more (answer_option code success handle d).0 (
        answer_success_state code d
        ∙ rw (h) (if_same (clear_bit d.livox_config.set_bits code == 0)))
    where
      if_same : (b : Bool) → (if b then sampling else sampling) ≡ sampling
      if_same true = refl
      if_same false = refl
  stays_sampling ((code, timeout) ∷ more) d h = stays_sampling more d h
  stays_sampling ((code, failure) ∷ more) d h = stays_sampling more d h

  -- While the pending request of some option has no successful answer, the device keeps its
  -- connection state and its bit for the option, whatever answers come.
  pub answer_all_waits :
      (code : ConfigCode) (answers : List (ConfigCode × LivoxStatus)) (d : LidarDevice F)
      → test_bit d.livox_config.set_bits code ≡ true
      → succeeded code answers ≡ false
      → ((answer_all answers d).connect_state ≡ d.connect_state)
        × (test_bit (answer_all answers d).livox_config.set_bits code ≡ true)
  unfolding answer_all succeeded answer_option
  answer_all_waits code [] d h e = (refl, h)
  answer_all_waits code ((c, success) ∷ more) d h e =
      let d' = (answer_option c success handle d).0 in
      let kept =
        ap (λ b. test_bit b code) (answer_success_bits c d)
        ∙ test_bit-clear_bit d.livox_config.set_bits c code
        ∙ ground arith in
      let (state, bit) = answer_all_waits code more d' kept (ground arith) in
      (
        state
            ∙ answer_success_state c d
            ∙ rw
                (nonzero (clear_bit d.livox_config.set_bits c)
                  (sym (ap (λ b. test_bit b code) (answer_success_bits c d)) ∙ kept))
                refl,
        bit,
      )
    where
      nonzero : (bits : ℕ) → test_bit bits code ≡ true → (bits == 0) ≡ false
      nonzero bits h = elim (Bool-cases (bits == 0)) [
        | inl e ↦ cc (e, h, (==_iff bits 0).0 e, test_bit_zero code)
        | inr e ↦ e
      ]
  answer_all_waits code ((c, timeout) ∷ more) d h e = answer_all_waits code more d h e
  answer_all_waits code ((c, failure) ∷ more) d h e = answer_all_waits code more d h e

  -- On a device with at least one pending request, and bits of the four options only: once every
  -- pending request has a successful answer, in any order and however many timeouts and failures
  -- lie between, the device is sampling.
  pub answer_all_completes :
      (answers : List (ConfigCode × LivoxStatus)) (d : LidarDevice F)
      → d.livox_config.set_bits < 16
      → (d.livox_config.set_bits == 0) ≡ false
      → ((code : ConfigCode)
          → test_bit d.livox_config.set_bits code ≡ true
          → succeeded code answers ≡ true)
      → (answer_all answers d).connect_state ≡ sampling
  unfolding answer_all answer_option succeeded
  answer_all_completes [] d small pending all =
      cc (pending, bits_zero d.livox_config.set_bits small (λ code. unset code))
    where
      unset : (code : ConfigCode) → test_bit d.livox_config.set_bits code ≡ false
      unset code = elim (Bool-cases (test_bit d.livox_config.set_bits code)) [
        | inl e ↦ cc (all code e)
        | inr e ↦ e
      ]
  answer_all_completes ((c, success) ∷ more) d small pending all =
      let d' = (answer_option c success handle d).0 in
      let bits = answer_success_bits c d in
      elim (Bool-cases (clear_bit d.livox_config.set_bits c == 0)) [
        | inl e ↦ stays_sampling more d' (answer_success_state c d ∙ rw (e) refl)
        | inr e ↦
            answer_all_completes more d' (rw (bits) (clear_bit_lt d.livox_config.set_bits c small))
              (rw (bits) e)
              (λ code h. still code (
                sym (test_bit-clear_bit d.livox_config.set_bits c code)
                ∙ sym (ap (λ b. test_bit b code) bits)
                ∙ h))
      ]
    where
      still :
          (code : ConfigCode)
          → (not (same_code c code) && test_bit d.livox_config.set_bits code) ≡ true
          → succeeded code more ≡ true
      still code h = ground (arith, all code)
  answer_all_completes ((c, timeout) ∷ more) d small pending all =
      answer_all_completes more d small pending all
  answer_all_completes ((c, failure) ∷ more) d small pending all =
      answer_all_completes more d small pending all
