-- ===== src/Recorder/Files.antt =====
-- src/lidar_state_recorder.cpp: `MakeDirectory`, `Open`, `Rotate`, `Write` and `WriteError`. The system
-- calls are an interface over a state of the file system.
use livox_ros_driver.Common.{
  ℕ, zero, suc, ◌+◌, Bool, true, false, not, ◌&&◌, List, [], ◌∷◌, ◌++◌, Option, none, some, ltb,
  ◌==◌, if◌then◌else◌, length, take, drop, get_or,
}
use livox_ros_driver.Common.Eq.{codes}
use livox_ros_driver.Common.Decimal.{to_string}
use livox_ros_driver.Comm.{add64}
use livox_ros_driver.Recorder.{Recorder}

-- What `write` answers: a positive count, -1 with `EINTR`, or anything else.
pub data Written : Type 0 where
  wrote : ℕ → Written
  interrupted failed : Written

pub record Os : Type 1 where
  pub State : Type 0
  -- `true`: made, or there already.
  pub mkdir : List ℕ → State → Bool × State
  pub is_directory : List ℕ → State → Bool
  -- `none` is a negative descriptor.
  pub open_file : List ℕ → State → Option ℕ × State
  -- The size of a regular file, by `fstat`.
  pub regular_size : ℕ → State → Option ℕ
  pub close_file : ℕ → State → State
  -- `true`: done, or there was no such file.
  pub unlink : List ℕ → State → Bool × State
  pub rename : List ℕ → List ℕ → State → Bool × State
  pub write : ℕ → List ℕ → State → Written × State

abbrev pub slash : ℕ
slash = b'/'

-- `path_ + "." + std::to_string(i)`, for `i` above 0.
unfoldable pub rotated : List ℕ → ℕ → List ℕ
rotated path i = if i == 0 then path else path ++ codes "." ++ to_string i

module _ (os : Os) where
  open os use {State}

  unfoldable pub make_directory_from : List ℕ → ℕ → ℕ → State → Bool × State
  make_directory_from path zero i s = (true, s)
  make_directory_from path (suc rounds) i s =
      if not (i == length path) && not (get_or path i 0 == slash)
      then make_directory_from path rounds (i + 1) s
      else let (made, s') = os.mkdir (take i path) s in
        let rest = make_directory_from path rounds (i + 1) s' in
        if not made
        then (false, s')
        else if os.is_directory (take i path) s'
        then rest
        else (false, s')

  unfoldable pub make_directory : List ℕ → State → Bool × State
  make_directory path s =
      if length path == 0 then (false, s) else make_directory_from path (length path) 1 s

  abbrev pub close_if : Option ℕ → State → State
  close_if none s = s
  close_if (some fd) s = os.close_file fd s

  -- `WriteError`.
  unfoldable pub write_error : Recorder → State → Recorder × State
  write_error r s = (record r { write_errors = add64 r.write_errors 1; fd = none }, close_if r.fd s)

  -- A new descriptor, closed where it is no regular file.
  unfoldable pub accept_new : Recorder → Option ℕ × State → Bool × Recorder × State
  accept_new r (none, s) = (false, record r { fd = none; file_size = 0 }, s)
  accept_new r (some fd, s) = elim (os.regular_size fd s) [
    | none ↦ (false, record r { fd = none; file_size = 0 }, os.close_file fd s)
    | some size ↦ (true, record r { fd = some fd; file_size = 0 }, s)
  ]

  -- The three renames, from `.2` down to the file itself.
  unfoldable pub rename_all : List ℕ → State → Bool × State
  rename_all path s =
      let (third, s1) = os.rename (rotated path 2) (rotated path 3) s in
      let (second, s2) = os.rename (rotated path 1) (rotated path 2) s1 in
      if not third
      then (false, s1)
      else if not second
      then (false, s2)
      else os.rename (rotated path 0) (rotated path 1) s2

  abbrev pub rotate_closed : Recorder → Bool × State → Bool × Recorder × State
  rotate_closed r (false, s) = (false, r, s)
  rotate_closed r (true, s) =
      let (renamed, s') = rename_all r.path s in
      if not renamed then (false, r, s') else accept_new r (os.open_file r.path s')

  unfoldable pub rotate : Recorder → State → Bool × Recorder × State
  rotate r s =
      rotate_closed (record r { fd = none }) (os.unlink (rotated r.path 3) (close_if r.fd s))

  -- `Open` on a descriptor of `open`.
  unfoldable pub accept_old : Recorder → Option ℕ × State → Bool × Recorder × State
  accept_old r (none, s) = (false, record r { fd = none }, s)
  accept_old r (some fd, s) = elim (os.regular_size fd s) [
    | none ↦ (false, record r { fd = none }, os.close_file fd s)
    | some size ↦
        let r' : Recorder = record r { fd = some fd; file_size = size } in
        if size == 0 then (true, r', s) else rotate r' s
  ]

  abbrev pub open_in : Recorder → Bool × State → Bool × Recorder × State
  open_in r (false, s) = (false, r, s)
  open_in r (true, s) = accept_old r (os.open_file r.path s)

  abbrev pub open_as : Recorder → State → Option ℕ → Bool × Recorder × State
  open_as r s (some fd) = (true, r, s)
  open_as r s none = open_in r (make_directory r.options.directory s)

  unfoldable pub open_recorder : Recorder → State → Bool × Recorder × State
  open_recorder r s = open_as r s r.fd

  -- The loop of `Write` over what is left of the line; `none` is out of fuel.
  unfoldable pub write_rest : ℕ → ℕ → List ℕ → State → Option (Bool × State)
  write_rest zero fd rest s = none
  write_rest (suc fuel) fd [] s = some (true, s)
  write_rest (suc fuel) fd (byte ∷ bytes) s =
      let (answer, s') = os.write fd (byte ∷ bytes) s in
      elim answer [
        | failed ↦ some (false, s')
        | interrupted ↦ write_rest fuel fd (byte ∷ bytes) s'
        | wrote n ↦
            let rest = write_rest fuel fd (drop n (byte ∷ bytes)) s' in
            if n == 0 then some (false, s') else rest
      ]

  abbrev pub line_written :
      Recorder → List ℕ → Option (Bool × State) → Option (Bool × Recorder × State)
  line_written r line none = none
  line_written r line (some (false, s)) = some (false, r, s)
  line_written r line (some (true, s)) =
      some (true, record r { file_size = r.file_size + length line }, s)

  abbrev pub write_as : ℕ → List ℕ → Recorder → State → Option ℕ → Option (Bool × Recorder × State)
  write_as fuel line r s none = some (false, r, s)
  write_as fuel line r s (some fd) = line_written r line (write_rest fuel fd line s)

  -- The end of `Write`, on an open file with room for the line.
  unfoldable pub write_line :
      ℕ → List ℕ → Bool × Recorder × State → Option (Bool × Recorder × State)
  write_line fuel line (false, r, s) = some (false, r, s)
  write_line fuel line (true, r, s) = write_as fuel line r s r.fd

  -- `if (file_size_ + line.size() > options_.file_bytes && !Rotate()) return false;`
  abbrev pub make_room : List ℕ → Bool × Recorder × State → Bool × Recorder × State
  make_room line (false, r, s) = (false, r, s)
  make_room line (true, r, s) =
      if ltb r.options.file_bytes (r.file_size + length line) then rotate r s else (true, r, s)

  -- `Write`, on the line of the row.
  unfoldable pub write_row : ℕ → Recorder → List ℕ → State → Option (Bool × Recorder × State)
  write_row fuel r line s =
      if ltb r.options.file_bytes (length line)
      then some (false, r, s)
      else write_line fuel line (make_room line (open_recorder r s))
