-- ===== src/Ldq/Window.antt =====
-- src/comm/ldq.cpp: the cells of the ring from the read index on, against the list of frames that
-- they hold.
use native.Mathlib.Nat.{mod-lt, mod-eq_of_lt, mod-eq-sub-mod, mod-add-mod, add-zero}
use native.Mathlib.Decide.{dec_lt}
use livox_ros_driver.Common.{
  ℕ, suc, ◌+◌, ◌-◌, ◌%◌, ◌<◌, ◌≡◌, ◌≢◌, sym, ap, ◌∙◌, Option, some, List, [], ◌∷◌, ◌++◌, arith,
  length, get_elem?, set, get_elem?-set_self, get_elem?-set_ne,
}
use livox_ros_driver.Comm.{PointXyzlt, StoragePacket}

-- One frame of one lidar, as it is handed from the framing thread to the publishing thread.
pub record Frame (F : Type 0) : Type 0 where
  pub time : ℕ
  pub points : List (PointXyzlt F)

-- Fewer than `s` steps round the ring do not come back to the start.
pub mod_step_ne : (i m s : ℕ) → 0 < m → m < s → i % s ≢ (i + m) % s
mod_step_ne i m s pos_m lt_m = elim (dec_lt (i % s + m) s) [
  | yes p ↦ omega (arith, mod-add-mod i s m, mod-eq_of_lt p)
  | no p ↦ omega (
    arith,
    mod-lt i {m = s} (omega arith),
    mod-add-mod i s m,
    mod-eq-sub-mod {n = i % s + m} {m = s} (omega arith),
    mod-eq_of_lt {n = i % s + m - s} {m = s} (omega (arith, mod-lt i {m = s} (omega arith))),
  )
]

pub mod_congr_suc : (i j s : ℕ) → i % s ≡ j % s → (i + 1) % s ≡ (j + 1) % s
mod_congr_suc i j s e = sym (mod-add-mod i s 1) ∙ ap (λ (t : ℕ). (t + 1) % s) e ∙ mod-add-mod j s 1

module _ {F : Type 0} where
  pub record Holds (cell : StoragePacket F) (f : Frame F) : Type 0 where
    pub time : cell.base_time ≡ f.time
    pub count : cell.points_num ≡ length f.points
    pub points : cell.points ≡ f.points

  abbrev pub CellHolds : Option (StoragePacket F) → Frame F → Type 0
  CellHolds found f = (cell : StoragePacket F) × (found ≡ some cell) × Holds cell f

  -- The cells at `i`, `i + 1`, … round a ring of `s` cells hold the frames, oldest first.
  abbrev pub Stored : List (StoragePacket F) → ℕ → ℕ → List (Frame F) → Type 0
  Stored cells s i [] = Unit {0}
  Stored cells s i (f ∷ fs) = CellHolds (get_elem? cells (i % s)) f × Stored cells s (i + 1) fs

  pub Stored-congr :
      (cells : List (StoragePacket F)) (s i j : ℕ) (fs : List (Frame F))
      → i % s ≡ j % s
      → Stored cells s i fs
      → Stored cells s j fs
  Stored-congr cells s i j [] e h = tt
  Stored-congr cells s i j (f ∷ fs) e h =
      (rw (← e) h.0, Stored-congr cells s (i + 1) (j + 1) fs (mod_congr_suc i j s e) h.1)

  -- A write just past the last frame appends to them.
  pub Stored-set :
      (cells : List (StoragePacket F)) (s i p : ℕ) (fs : List (Frame F)) (cell : StoragePacket F)
      (f : Frame F)
      → length cells ≡ s
      → length fs < s
      → p ≡ (i + length fs) % s
      → Holds cell f
      → Stored cells s i fs
      → Stored (set cells p cell) s i (fs ++ f ∷ [])
  Stored-set cells s i p [] cell f len room e holds h =
      let here : p ≡ i % s = e ∙ ap (λ (t : ℕ). t % s) (add-zero i) in
      let inside : p < length cells = omega (arith, here, mod-lt i {m = s} (omega arith)) in
      ((cell, rw (← here) (get_elem?-set_self cells p cell inside), holds), tt)
  Stored-set cells s i p (g ∷ fs) cell f len room e holds h =
      let shift : i + suc (length fs) ≡ i + 1 + length fs = omega arith in
      let apart : p ≢ i % s =
        λ q. mod_step_ne i (suc (length fs)) s (omega arith) room (sym q ∙ e) in
      (
        rw (get_elem?-set_ne cells cell apart) h.0,
        Stored-set cells s (i + 1) p fs cell f len (omega arith) (e ∙ ap (λ (t : ℕ). t % s) shift)
            holds h.1,
      )
