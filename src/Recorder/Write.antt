-- ===== src/Recorder/Write.antt =====
-- src/lidar_state_recorder.cpp: the bound on the size of a file, and the end of the writing of a line.
use mathlib.Core.Path.{subst}
use mathlib.Core.Option.{some-injective}
use livox_ros_driver.Common.{
  ℕ, ◌+◌, ◌-◌, ◌≤◌, ◌≡◌, refl, ap, ◌∙◌, ◌⊎◌, inl, inr, Bool, true, false, List, Option, none, some,
  ltb, length, arith, Bool-cases, Option-cases, if◌then◌else◌, ◌==◌,
}
use livox_ros_driver.Recorder.{Recorder, RecorderOptions}
use livox_ros_driver.Recorder.Files.{
  Os, accept_new, accept_old, rename_all, rotate, rotated, open_recorder, make_directory,
  write_rest, write_line, write_row, rotate_closed, close_if, open_in, open_as, write_as, make_room,
  line_written,
}

-- A file that is open has at most the bytes of the option, as the recorder counts them.
unfoldable pub FileBounded : Recorder → Type 0
FileBounded r = (r.fd ≡ none) ⊎ (r.file_size ≤ r.options.file_bytes)

-- A step keeps the options and the queue, and leaves the file closed or with at most `bound` bytes.
pub record Kept (bound : ℕ) (r r' : Recorder) : Type 0 where
  pub options : r'.options ≡ r.options
  pub queue : r'.queue ≡ r.queue
  pub accepting : r'.accepting ≡ r.accepting
  pub bounded : (r'.fd ≡ none) ⊎ (r'.file_size ≤ bound)

Kept-closed :
    (bound : ℕ) (r r' : Recorder)
    → r'.options ≡ r.options
    → r'.queue ≡ r.queue
    → r'.accepting ≡ r.accepting
    → r'.fd ≡ none
    → Kept bound r r'
Kept-closed bound r r' o q a f = record { options = o; queue = q; accepting = a; bounded = inl f }

Kept-trans : (a b : ℕ) (r r' r'' : Recorder) → Kept a r r' → Kept b r' r'' → Kept b r r''
Kept-trans a b r r' r'' h k = record {
  options = k.options ∙ h.options;
  queue = k.queue ∙ h.queue;
  accepting = k.accepting ∙ h.accepting;
  bounded = k.bounded;
}

weaken : {r r' : Recorder} (a b : ℕ) → a ≤ b → Kept a r r' → Kept b r r'
weaken a b l k = record {
  options = k.options;
  queue = k.queue;
  accepting = k.accepting;
  bounded = elim k.bounded [ inl shut ↦ inl shut | inr small ↦ inr (omega (arith, small, l)) ];
}

module _ (os : Os) where
  accept_new-Kept :
      (r : Recorder) (opened : Option ℕ × os.State) → Kept 0 r (accept_new os r opened).1
  unfolding accept_new
  accept_new-Kept r (none, s) = Kept-closed 0 r _ refl refl refl refl
  accept_new-Kept r (some fd, s) = elim (Option-cases (os.regular_size fd s)) [
    | inl irregular ↦
        rw (irregular, accept_new)
          (Kept-closed 0 r (record r { fd = none; file_size = 0 }) refl refl refl refl)
    | inr (size, regular) ↦
        rw (regular, accept_new)
          (record { options = refl; queue = refl; accepting = refl; bounded = inr (omega arith) })
  ]

  rotate_closed-Kept :
      (r : Recorder) (unlinked : Bool × os.State)
      → r.fd ≡ none
      → Kept 0 r (rotate_closed os r unlinked).1
  rotate_closed-Kept r (false, s) e = Kept-closed 0 r r refl refl refl e
  rotate_closed-Kept r (true, s) e = elim (Bool-cases (rename_all os r.path s).0) [
    | inl renamed ↦ rw renamed (accept_new-Kept r (os.open_file r.path (rename_all os r.path s).1))
    | inr stuck ↦ rw stuck (Kept-closed 0 r r refl refl refl e)
  ]

  rotate-Kept : (r : Recorder) (s : os.State) → Kept 0 r (rotate os r s).1
  unfolding rotate
  rotate-Kept r s =
      let shut : Recorder = record r { fd = none } in
      let unlinked = os.unlink (rotated r.path 3) (close_if os r.fd s) in
      Kept-trans 0 0 r shut _ (Kept-closed 0 r shut refl refl refl refl)
        (rotate_closed-Kept shut unlinked refl)

  accept_old-Kept :
      (r : Recorder) (opened : Option ℕ × os.State) → Kept 0 r (accept_old os r opened).1
  unfolding accept_old
  accept_old-Kept r (none, s) = Kept-closed 0 r _ refl refl refl refl
  accept_old-Kept r (some fd, s) = elim (Option-cases (os.regular_size fd s)) [
    | inl irregular ↦
        rw (irregular, accept_old) (Kept-closed 0 r (record r { fd = none }) refl refl refl refl)
    | inr (size, regular) ↦
        let opened : Recorder = record r { fd = some fd; file_size = size } in
        elim (Bool-cases (size == 0)) [
          | inl empty ↦
              rw (regular, accept_old)
                (rw empty (record {
                  options = refl;
                  queue = refl;
                  accepting = refl;
                  bounded = inr (empty_size size empty);
                }))
          | inr full ↦ rw (regular, accept_old) (rw full (of_rotated (rotate-Kept opened s)))
        ]
  ]
    where
      empty_size : (n : ℕ) → (n == 0) ≡ true → n ≤ 0
      empty_size n h = ground (arith, h)

      of_rotated :
          {r' : Recorder} {size : ℕ}
          → Kept 0 (record r { fd = some fd; file_size = size }) r'
          → Kept 0 r r'
      of_rotated k = record {
        options = k.options;
        queue = k.queue;
        accepting = k.accepting;
        bounded = k.bounded;
      }

  open_in-Kept :
      (r : Recorder) (made : Bool × os.State) → r.fd ≡ none → Kept 0 r (open_in os r made).1
  open_in-Kept r (false, s) e = Kept-closed 0 r r refl refl refl e
  open_in-Kept r (true, s) e = accept_old-Kept r (os.open_file r.path s)

  open_as-Kept :
      (r : Recorder) (s : os.State) (fd : Option ℕ)
      → r.fd ≡ fd
      → FileBounded r
      → Kept r.options.file_bytes r (open_as os r s fd).1
  unfolding FileBounded
  open_as-Kept r s (some fd) e b = record {
    options = refl;
    queue = refl;
    accepting = refl;
    bounded = b;
  }
  open_as-Kept r s none e b =
      weaken 0 r.options.file_bytes (omega arith)
        (open_in-Kept r (make_directory os r.options.directory s) e)

  -- With room made, the line fits behind what the file has.
  make_room-Kept :
      (r r1 : Recorder) (line : List ℕ) (opened : Bool) (s : os.State)
      → Kept r.options.file_bytes r r1
      → length line ≤ r.options.file_bytes
      → let made = make_room os line (opened, r1, s) in
        Kept r.options.file_bytes r made.1
        × (made.0 ≡ true → Kept (r.options.file_bytes - length line) r made.1)
  make_room-Kept r r1 line false s k short = (k, λ e. cc)
  make_room-Kept r r1 line true s k short =
      elim (Bool-cases (ltb r1.options.file_bytes (r1.file_size + length line))) [
        | inl full ↦
            let rotated_now = Kept-trans r.options.file_bytes 0 r r1 _ k (rotate-Kept r1 s) in
            rw full (
              weaken 0 r.options.file_bytes (omega arith) rotated_now,
              λ e. weaken 0 (r.options.file_bytes - length line) (omega arith) rotated_now,
            )
        | inr room ↦ rw room (
          k,
          λ e. record {
            options = k.options;
            queue = k.queue;
            accepting = k.accepting;
            bounded = inr (
                fits r1.options.file_bytes r1.file_size r.options.file_bytes room
                  (ap (λ (o : RecorderOptions). o.file_bytes) k.options));
          },
        )
      ]
    where
      fits :
          (limit size bytes : ℕ)
          → ltb limit (size + length line) ≡ false
          → limit ≡ bytes
          → size ≤ bytes - length line
      fits limit size bytes h e = ground (arith, h, e, short)

  line_written-Kept :
      (bound : ℕ) (r r1 : Recorder) (line : List ℕ) (result : Option (Bool × os.State))
      (out : Bool × Recorder × os.State)
      → length line ≤ bound
      → Kept (bound - length line) r r1
      → line_written os r1 line result ≡ some out
      → Kept bound r out.1
  line_written-Kept bound r r1 line none out short k e = cc
  line_written-Kept bound r r1 line (some (false, s)) out short k e =
      subst (λ (o : Bool × Recorder × os.State). Kept bound r o.1) (some-injective _ _ e)
        (weaken (bound - length line) bound (omega arith) k)
  line_written-Kept bound r r1 line (some (true, s)) out short k e =
      subst (λ (o : Bool × Recorder × os.State). Kept bound r o.1) (some-injective _ _ e)
        (record {
          options = k.options;
          queue = k.queue;
          accepting = k.accepting;
          bounded = elim k.bounded [
            | inl shut ↦ inl shut
            | inr small ↦ inr (omega (arith, small, short))
          ];
        })

  write_as-Kept :
      (fuel bound : ℕ) (r r1 : Recorder) (line : List ℕ) (s : os.State) (fd : Option ℕ)
      (out : Bool × Recorder × os.State)
      → length line ≤ bound
      → Kept (bound - length line) r r1
      → write_as os fuel line r1 s fd ≡ some out
      → Kept bound r out.1
  write_as-Kept fuel bound r r1 line s none out short k e =
      line_written-Kept bound r r1 line (some (false, s)) out short k e
  write_as-Kept fuel bound r r1 line s (some fd) out short k e =
      line_written-Kept bound r r1 line (write_rest os fuel fd line s) out short k e

  write_line-Kept :
      (fuel : ℕ) (r r1 : Recorder) (line : List ℕ) (opened : Bool) (s : os.State)
      (out : Bool × Recorder × os.State)
      → length line ≤ r.options.file_bytes
      → Kept r.options.file_bytes r r1
      → (opened ≡ true → Kept (r.options.file_bytes - length line) r r1)
      → write_line os fuel line (opened, r1, s) ≡ some out
      → Kept r.options.file_bytes r out.1
  unfolding write_line
  write_line-Kept fuel r r1 line false s out short k room e =
      subst (λ (o : Bool × Recorder × os.State). Kept r.options.file_bytes r o.1)
        (some-injective _ _ e) k
  write_line-Kept fuel r r1 line true s out short k room e =
      write_as-Kept fuel r.options.file_bytes r r1 line s r1.fd out short (room refl) e

  -- Where `Write` returns, on a recorder whose open file is bounded, it keeps the options, the queue
  -- and the acceptance of rows, and the bound.
  pub write_row-Kept :
      (fuel : ℕ) (r : Recorder) (line : List ℕ) (s : os.State) (out : Bool × Recorder × os.State)
      → FileBounded r
      → write_row os fuel r line s ≡ some out
      → Kept r.options.file_bytes r out.1
  unfolding write_row open_recorder FileBounded
  write_row-Kept fuel r line s out b e = of_length (ltb r.options.file_bytes (length line)) refl e
    where
      of_length :
          (long : Bool)
          → ltb r.options.file_bytes (length line) ≡ long
          → (if long
              then some (false, r, s)
              else write_line os fuel line (make_room os line (open_recorder os r s)))
            ≡ some out
          → Kept r.options.file_bytes r out.1
      of_length true l h =
          subst (λ (o : Bool × Recorder × os.State). Kept r.options.file_bytes r o.1)
            (some-injective _ _ h)
            (record { options = refl; queue = refl; accepting = refl; bounded = b })
      of_length false l h =
          let opened = open_as os r s r.fd in
          let short : length line ≤ r.options.file_bytes = ground (arith, l) in
          let (kept, room) =
            make_room-Kept r opened.1 line opened.0 opened.2 (open_as-Kept r s r.fd refl b) short in
          let made = make_room os line opened in
          write_line-Kept fuel r made.1 line made.0 made.2 out short kept room h
