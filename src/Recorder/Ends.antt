-- ===== src/Recorder/Ends.antt =====
-- src/lidar_state_recorder.cpp: the loop of `Write` ends.
use livox_ros_driver.Common.{
  ℕ, zero, suc, ◌+◌, ◌≤◌, ◌<◌, ◌≡◌, refl, Bool, true, false, List, [], ◌∷◌, Option, none, some, ltb,
  length, drop, arith, Bool-cases, inl, inr, if◌then◌else◌, ◌==◌, length-drop,
}
use livox_ros_driver.Recorder.Files.{
  Os, Written, wrote, interrupted, failed, write_rest, write_as, write_line, write_row,
  line_written, make_room, open_recorder,
}
use livox_ros_driver.Recorder.{Recorder}
use livox_ros_driver.Recorder.Write.{FileBounded, Kept, write_row-Kept}

-- Only finitely many calls of `write` are interrupted: `interrupts` bounds those that are still
-- to come.
pub record IsFinite (os : Os) (interrupts : os.State → ℕ) : Type 0 where
  pub interrupted_once :
      (fd : ℕ) (bytes : List ℕ) (s : os.State)
      → (os.write fd bytes s).0 ≡ interrupted
      → interrupts (os.write fd bytes s).1 < interrupts s
  pub never_more :
      (fd : ℕ) (bytes : List ℕ) (s : os.State) → interrupts (os.write fd bytes s).1 ≤ interrupts s

module _ (os : Os) (interrupts : os.State → ℕ) (finite : IsFinite os interrupts) where
  -- Where `interrupts` bounds the calls of `write` that are still interrupted, the loop of
  -- `Write` ends within more rounds than that bound and the length of the line together, whatever
  -- the other calls answer.
  pub write_rest_ends :
      (fuel fd : ℕ) (rest : List ℕ) (s : os.State)
      → interrupts s + length rest < fuel
      → (out : Bool × os.State) × (write_rest os fuel fd rest s ≡ some out)
  unfolding write_rest
  write_rest_ends zero fd rest s h = absurd (omega arith)
  write_rest_ends (suc fuel) fd [] s h = ((true, s), refl)
  write_rest_ends (suc fuel) fd (byte ∷ bytes) s h =
      let less = finite.interrupted_once fd (byte ∷ bytes) s in
      let same = finite.never_more fd (byte ∷ bytes) s in
      let next = (os.write fd (byte ∷ bytes) s).1 in
      of_answer (os.write fd (byte ∷ bytes) s).0 refl
        (λ e. write_rest_ends fuel fd (byte ∷ bytes) next (omega (arith, less e)))
        (λ n e.
          write_rest_ends fuel fd (drop n (byte ∷ bytes)) next
            (omega (arith, same, length-drop n (byte ∷ bytes), e)))
    where
      of_answer :
          (answer : Written)
          → (os.write fd (byte ∷ bytes) s).0 ≡ answer
          → (answer ≡ interrupted
              → (out : Bool × os.State) × (write_rest os fuel fd
                    (byte ∷ bytes)
                    (os.write fd (byte ∷ bytes) s).1
                  ≡ some out))
          → ((n : ℕ)
              → 0 < n
              → (out : Bool × os.State) × (write_rest os fuel fd
                    (drop n (byte ∷ bytes))
                    (os.write fd (byte ∷ bytes) s).1
                  ≡ some out))
          → (out : Bool × os.State) × (elim answer as (λ a. Option (Bool × os.State)) [
            | failed ↦ some (false, (os.write fd (byte ∷ bytes) s).1)
            | interrupted ↦ write_rest os fuel fd (byte ∷ bytes) (os.write fd (byte ∷ bytes) s).1
            | wrote n ↦
                if n == 0
                then some (false, (os.write fd (byte ∷ bytes) s).1)
                else write_rest os fuel fd (drop n (byte ∷ bytes)) (os.write fd (byte ∷ bytes) s).1
          ]
              ≡ some out)
      of_answer failed e stopped moved = ((false, (os.write fd (byte ∷ bytes) s).1), refl)
      of_answer interrupted e stopped moved = stopped refl
      of_answer (wrote n) e stopped moved = elim (Bool-cases (n == 0)) [
        | inl empty ↦ ((false, (os.write fd (byte ∷ bytes) s).1), rw empty refl)
        | inr some_bytes ↦ rw some_bytes (moved n (ground (arith, some_bytes)))
      ]

  write_as_ends :
      (fuel : ℕ) (line : List ℕ) (r : Recorder) (s : os.State) (fd : Option ℕ)
      → interrupts s + length line < fuel
      → (out : Bool × Recorder × os.State) × (write_as os fuel line r s fd ≡ some out)
  write_as_ends fuel line r s none h = ((false, r, s), refl)
  write_as_ends fuel line r s (some fd) h =
      let (done, run) = write_rest_ends fuel fd line s h in
      let (out, answer) = of_done done in (out, rw run answer)
    where
      of_done :
          (done : Bool × os.State)
          → (out : Bool × Recorder × os.State) × (line_written os r line (some done) ≡ some out)
      of_done (false, s') = ((false, r, s'), refl)
      of_done (true, s') = ((true, record r { file_size = r.file_size + length line }, s'), refl)

  write_line_ends :
      (fuel : ℕ) (line : List ℕ) (made : Bool × Recorder × os.State)
      → interrupts made.2 + length line < fuel
      → (out : Bool × Recorder × os.State) × (write_line os fuel line made ≡ some out)
  unfolding write_line
  write_line_ends fuel line (false, r, s) h = ((false, r, s), refl)
  write_line_ends fuel line (true, r, s) h = write_as_ends fuel line r s r.fd h

  pub write_row_ends :
      (bound fuel : ℕ) (r : Recorder) (line : List ℕ) (s : os.State)
      → ((state : os.State) → interrupts state ≤ bound)
      → bound + r.options.file_bytes < fuel
      → FileBounded r
      → (out : Bool × Recorder × os.State) × (write_row os fuel r line s ≡ some out)
        × Kept r.options.file_bytes r out.1
  unfolding write_row
  write_row_ends bound fuel r line s few enough b =
      let (out, run) = returned in (out, run, write_row-Kept os fuel r line s out b run)
    where
      returned : (out : Bool × Recorder × os.State) × (write_row os fuel r line s ≡ some out)
      returned = elim (Bool-cases (ltb r.options.file_bytes (length line))) [
        | inl long ↦ ((false, r, s), rw long refl)
        | inr fits ↦
            let made = make_room os line (open_recorder os r s) in
            let at = few made.2 in
            let (out, run) = write_line_ends fuel line made (ground (arith, fits, at, enough)) in
            (out, rw fits run)
      ]
