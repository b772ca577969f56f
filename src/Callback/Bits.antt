-- ===== src/Callback/Bits.antt =====
-- src/call_back/livox_lidar_callback.cpp: the bits of `set_bits`, one for each option.
use livox_ros_driver.Common.{ℕ, ◌≡◌, ◌<◌, refl, Bool, true, false, not, ◌&&◌, arith}
use livox_ros_driver.Callback.{
  ConfigCode, data_type, scan_pattern, blind_spot, dual_emit, code_bit, test_bit, clear_bit,
}

abbrev pub same_code : ConfigCode → ConfigCode → Bool
same_code data_type data_type = true
same_code scan_pattern scan_pattern = true
same_code blind_spot blind_spot = true
same_code dual_emit dual_emit = true
same_code _ _ = false

-- Clearing the bit of an option leaves the bits of the others.
pub test_bit-clear_bit :
    (bits : ℕ) (c d : ConfigCode)
    → test_bit (clear_bit bits c) d ≡ (not (same_code c d) && test_bit bits d)
unfolding test_bit clear_bit code_bit
test_bit-clear_bit bits data_type data_type = ground arith
test_bit-clear_bit bits data_type scan_pattern = ground arith
test_bit-clear_bit bits data_type blind_spot = ground arith
test_bit-clear_bit bits data_type dual_emit = ground arith
test_bit-clear_bit bits scan_pattern data_type = ground arith
test_bit-clear_bit bits scan_pattern scan_pattern = ground arith
test_bit-clear_bit bits scan_pattern blind_spot = ground arith
test_bit-clear_bit bits scan_pattern dual_emit = ground arith
test_bit-clear_bit bits blind_spot data_type = ground arith
test_bit-clear_bit bits blind_spot scan_pattern = ground arith
test_bit-clear_bit bits blind_spot blind_spot = ground arith
test_bit-clear_bit bits blind_spot dual_emit = ground arith
test_bit-clear_bit bits dual_emit data_type = ground arith
test_bit-clear_bit bits dual_emit scan_pattern = ground arith
test_bit-clear_bit bits dual_emit blind_spot = ground arith
test_bit-clear_bit bits dual_emit dual_emit = ground arith

-- Bits of options only.
pub clear_bit_lt : (bits : ℕ) (c : ConfigCode) → bits < 16 → clear_bit bits c < 16
unfolding clear_bit code_bit test_bit
clear_bit_lt bits data_type h = ground arith
clear_bit_lt bits scan_pattern h = ground arith
clear_bit_lt bits blind_spot h = ground arith
clear_bit_lt bits dual_emit h = ground arith

pub bits_zero : (bits : ℕ) → bits < 16 → ((c : ConfigCode) → test_bit bits c ≡ false) → bits ≡ 0
unfolding test_bit
bits_zero bits h none_set =
    ground
      (arith, none_set data_type, none_set scan_pattern, none_set blind_spot, none_set dual_emit)

pub test_bit_zero : (c : ConfigCode) → test_bit 0 c ≡ false
unfolding test_bit
test_bit_zero data_type = refl
test_bit_zero scan_pattern = refl
test_bit_zero blind_spot = refl
test_bit_zero dual_emit = refl
