-- ===== src/Tests/Writing.antt =====
-- Runs of src/lidar_state_recorder.cpp on a disk whose first calls of `write` are interrupted, as
-- often as its state says, and which takes two bytes at a time.
use livox_ros_driver.Common.{
  ℕ, zero, suc, ◌≡◌, ◌<◌, ◌≤◌, refl, inl, true, false, none, some, [], ◌∷◌, List, length, Bool,
  if◌then◌else◌, leb, arith,
}
use livox_ros_driver.RecordQueue.Window.{contents, window}
use livox_ros_driver.Common.Eq.{codes}
use livox_ros_driver.Recorder.{Recorder, RecorderOptions}
use livox_ros_driver.Recorder.Files.{Os, Written, wrote, interrupted, write_rest}
use livox_ros_driver.Recorder.Write.{FileBounded}
use livox_ros_driver.Recorder.Ends.{IsFinite, write_rest_ends}
use livox_ros_driver.Recorder.Run.{Disk, run_rounds}
use livox_ros_driver.Recorder.Drained.{run_rounds_drains}
use livox_ros_driver.Recorder.Rounds.{Waiting, record_all}
use livox_ros_driver.Tests.Recording.{queue, row}

abbrev slow_write : ℕ → List ℕ → ℕ → Written × ℕ
slow_write fd bytes zero = (wrote (if leb (length bytes) 2 then length bytes else 2), zero)
slow_write fd bytes (suc n) = (interrupted, n)

abbrev slow : Os
slow = record {
  State = ℕ;
  mkdir = λ path s. (true, s);
  is_directory = λ path s. true;
  open_file = λ path s. (some 3, s);
  regular_size = λ fd s. some 0;
  close_file = λ fd s. s;
  unlink = λ path s. (true, s);
  rename = λ from to s. (true, s);
  write = slow_write;
}

slow-IsFinite : IsFinite slow (λ s. s)
slow-IsFinite = record {
  interrupted_once = λ fd bytes s e. once fd bytes s e;
  never_more = λ fd bytes s. no_more fd bytes s;
}
  where
    once :
        (fd : ℕ) (bytes : List ℕ) (s : ℕ)
        → (slow_write fd bytes s).0 ≡ interrupted
        → (slow_write fd bytes s).1 < s
    once fd bytes zero e = cc
    once fd bytes (suc n) e = omega arith

    no_more : (fd : ℕ) (bytes : List ℕ) (s : ℕ) → (slow_write fd bytes s).1 ≤ s
    no_more fd bytes zero = omega arith
    no_more fd bytes (suc n) = omega arith

write_rest_ends_example : (out : Bool × ℕ) × (write_rest slow 9 3 (codes "abcde") 3 ≡ some out)
write_rest_ends_example =
    write_rest_ends slow (λ s. s) slow-IsFinite 9 3 (codes "abcde") 3 (omega arith)

abbrev options : RecorderOptions
options = record {
  directory = codes "/tmp";
  role = codes "front";
  ip = [];
  handle = 7;
  file_bytes = 4096;
  queue_capacity = 2;
}

abbrev recorder : Recorder
recorder = record {
  options = options;
  queue = queue;
  accepting = false;
  write_errors = 0;
  enabled = true;
  running = true;
  session = [];
  path = codes "/tmp/front_state.jsonl";
  scheduling = [];
  pid = 1;
  fd = none;
  file_size = 0;
}

recorder-FileBounded : FileBounded recorder
unfolding FileBounded
recorder-FileBounded = inl refl

-- One call is interrupted where the state says so, and no other.
abbrev busy_write : ℕ → List ℕ → Bool → Written × Bool
busy_write fd bytes true = (interrupted, false)
busy_write fd bytes false = (wrote (if leb (length bytes) 2 then length bytes else 2), false)

abbrev busy : Os
busy = record {
  State = Bool;
  mkdir = λ path s. (true, s);
  is_directory = λ path s. true;
  open_file = λ path s. (some 3, true);
  regular_size = λ fd s. some 0;
  close_file = λ fd s. s;
  unlink = λ path s. (true, s);
  rename = λ from to s. (true, s);
  write = busy_write;
}

abbrev pending : Bool → ℕ
pending true = 1
pending false = 0

at_most_one : (s : Bool) → pending s ≤ 1
at_most_one true = omega arith
at_most_one false = omega arith

busy-IsFinite : IsFinite busy pending
busy-IsFinite = record {
  interrupted_once = λ fd bytes s e. once fd bytes s e;
  never_more = λ fd bytes s. no_more fd bytes s;
}
  where
    once :
        (fd : ℕ) (bytes : List ℕ) (s : Bool)
        → (busy_write fd bytes s).0 ≡ interrupted
        → pending (busy_write fd bytes s).1 < pending s
    once fd bytes true e = omega arith
    once fd bytes false e = cc

    no_more : (fd : ℕ) (bytes : List ℕ) (s : Bool) → pending (busy_write fd bytes s).1 ≤ pending s
    no_more fd bytes true = omega arith
    no_more fd bytes false = omega arith

abbrev disk : Disk
disk = record { os = busy; render = λ events. codes "{}"; fuel = 5000 }

recorder-Waiting : Waiting (row ∷ []) recorder
recorder-Waiting = record {
  rows_wait = unfold contents window in refl;
  head_inside = omega arith;
  stopped = refl;
  bounded = recorder-FileBounded;
}

run_rounds_drains_example :
    (out : Recorder × Bool) × (run_rounds disk 2 recorder true ≡ some out)
    × (record_all disk (row ∷ []) recorder true ≡ some out)
    × (contents (out.0.queue) ≡ [])
run_rounds_drains_example =
    run_rounds_drains disk pending 1 (row ∷ []) 2 recorder true busy-IsFinite at_most_one
      (omega arith) recorder-Waiting (omega arith)
