-- ===== src/Tests/Requests.antt =====
-- Runs of src/call_back/livox_lidar_callback.cpp: the answers to the requests for a lidar's options.
use livox_ros_driver.Common.{ℕ, ◌≡◌, refl, true, List, [], ◌∷◌, arith}
use livox_ros_driver.Comm.{config, sampling}
use livox_ros_driver.Lds.{LidarDevice}
use livox_ros_driver.Callback.{
  ConfigCode, data_type, scan_pattern, blind_spot, dual_emit, LivoxStatus, success, timeout,
  failure, test_bit,
}
use livox_ros_driver.Callback.Configure.{
  answer_all, answer_all_waits, answer_all_completes, succeeded,
}
use livox_ros_driver.Tests.Queues.{new_device}

-- Two options are pending.
abbrev pending : LidarDevice ℕ
pending = record new_device {
  connect_state = config;
  livox_config = record new_device.livox_config { set_bits = 9 };
}

abbrev some_answers : List (ConfigCode × LivoxStatus)
some_answers = (dual_emit, timeout) ∷ (data_type, success) ∷ (dual_emit, failure) ∷ []

abbrev all_answers : List (ConfigCode × LivoxStatus)
all_answers = (dual_emit, timeout) ∷ (dual_emit, success) ∷ (data_type, success) ∷ []

answer_all_waits_example :
    ((answer_all 7 some_answers pending).connect_state ≡ config)
    × (test_bit (answer_all 7 some_answers pending).livox_config.set_bits dual_emit ≡ true)
unfolding test_bit succeeded
answer_all_waits_example = answer_all_waits 7 dual_emit some_answers pending refl refl

all_succeed : (code : ConfigCode) → test_bit 9 code ≡ true → succeeded code all_answers ≡ true
unfolding test_bit succeeded
all_succeed data_type h = refl
all_succeed scan_pattern h = cc
all_succeed blind_spot h = cc
all_succeed dual_emit h = refl

answer_all_completes_example : (answer_all 7 all_answers pending).connect_state ≡ sampling
answer_all_completes_example =
    answer_all_completes 7 all_answers pending (omega arith) refl all_succeed
