-- ===== src/Lds/Filed.antt =====
-- src/lds.cpp: where `StoragePointData` files the packets of a frame.
use mathlib.Core.Path.{subst}
use livox_ros_driver.Common.{
  ℕ, zero, suc, ◌+◌, ◌≤◌, ◌<◌, ◌≡◌, ◌≢◌, refl, sym, ap, ◌∙◌, inl, inr, false, none, some, Option,
  List, [], ◌∷◌, arith, get_elem?, get_elem?_lt, get_elem?-some_lt, get_elem?-set_self,
  get_elem?-set_ne, take, ◌==◌, if◌then◌else◌, Option-cases, Bool-cases, ==_iff,
}
use livox_ros_driver.Common.Memory.{ok, is_null}
use livox_ros_driver.Comm.{PointPacket, PointFrame, PointXyzlt}
use livox_ros_driver.Comm.Floats.{Floats}
use livox_ros_driver.CacheIndex.{CacheIndex, get_index}
use livox_ros_driver.Ldq.Window.{Frame}
use livox_ros_driver.Ldq.Represents.{Represents}
use livox_ros_driver.Lds.{
  Lds, LidarDevice, push_lidar_data, store_point_packet, storage_points_from, storage_point_data,
}
use livox_ros_driver.Lds.Push.{Carries, RingHolds, push_lidar_data_sized, frame_of, offer}
use livox_ros_driver.Lds.Store.{WellFormed, GoodFrame, push_lidar_data-WellFormed, get_index_lt}
use livox_ros_driver.Lds.Grown.{
  offers, content, brings, frames_for, Grown, kept, filed, Grown-trans, Grown-RingHolds,
}

module _ (fl : Floats) where
  open fl use {Float}

  same_ok : {a b : Lds Float} → ok a ≡ ok b → a ≡ b
  same_ok e = cc

  abbrev pub StepDone :
      ℕ → LidarDevice Float → List (Frame Float) → List (Frame Float) → Lds Float → Type 0
  StepDone j d fs new l' =
      WellFormed fl l'
      × ((d' : LidarDevice Float) × (get_elem? l'.lidars j ≡ some d') × Grown d d' fs new)

  brings_to :
      (c : CacheIndex) (j index base_time : ℕ) (p : PointPacket Float)
      → get_index c p.lidar_type p.handle ≡ some index
      → brings c j (some p) (some base_time) ≡ (if index == j then content p base_time ∷ [] else [])
  unfolding brings
  brings_to c j index base_time p known = rw (brings, known) refl

  brings_nothing :
      (c : CacheIndex) (j base_time : ℕ) (p : PointPacket Float)
      → get_index c p.lidar_type p.handle ≡ none
      → brings c j (some p) (some base_time) ≡ []
  unfolding brings
  brings_nothing c j base_time p unknown = rw (brings, unknown) refl

  content_frame :
      (p : PointPacket Float) (pts : List (PointXyzlt Float)) (base_time : ℕ)
      → Carries p pts
      → content p base_time ≡ frame_of p pts base_time
  content_frame p pts base_time c =
      ap
        (λ (o : Option (List (PointXyzlt Float))). record {
          time = base_time;
          points =
              take p.points_num
                (elim o as (λ x. List (PointXyzlt Float)) [ none ↦ [] | some ps ↦ ps ]);
        })
        c.pointer

  -- A packet for the slot itself.
  push_here :
      (l : Lds Float) (j base_time : ℕ) (d : LidarDevice Float) (fs : List (Frame Float))
      (p : PointPacket Float) (pts : List (PointXyzlt Float))
      → WellFormed fl l
      → j < 32
      → get_elem? l.lidars j ≡ some d
      → RingHolds d.queue fs
      → Carries p pts
      → (l' : Lds Float) × (push_lidar_data fl l (some p) j base_time ≡ ok l')
        × (l'.cache_index ≡ l.cache_index)
        × StepDone j d fs (content p base_time ∷ []) l'
  unfolding offers
  push_here l j t d fs p pts w lt at held c =
      let (q, run, r, size) = push_lidar_data_sized fl l j t d fs p pts w.sized at held c in
      let d' : LidarDevice Float = record d { queue = q } in
      let (l2, run2, w2, awake) = push_lidar_data-WellFormed fl l p pts j t w c lt in
      let same = same_ok (sym run2 ∙ run) in
      (
        _,
        run,
        refl,
        (
          subst (WellFormed fl) same w2,
          (
            d',
            get_elem?-set_self l.lidars j d' (omega (arith, w.devices, lt)),
            filed
                (subst (λ (f : Frame Float). Represents q (offer q.size fs f))
                  (sym (content_frame p pts t c)) r)
                (ap is_null r.allocated) size,
          ),
        ),
      )

  -- A packet for another slot.
  push_elsewhere :
      (l : Lds Float) (j index base_time : ℕ) (d : LidarDevice Float) (fs : List (Frame Float))
      (p : PointPacket Float) (pts : List (PointXyzlt Float))
      → WellFormed fl l
      → index < 32
      → index ≢ j
      → get_elem? l.lidars j ≡ some d
      → Carries p pts
      → (l' : Lds Float) × (push_lidar_data fl l (some p) index base_time ≡ ok l')
        × (l'.cache_index ≡ l.cache_index)
        × StepDone j d fs [] l'
  push_elsewhere l j index t d fs p pts w lt ne at c =
      let (other, there) = get_elem?_lt l.lidars index (omega (arith, w.devices, lt)) in
      let (gs, held) = w.rings index other there in
      let (q, run, r, size) =
        push_lidar_data_sized fl l index t other gs p pts w.sized there held c in
      let (l2, run2, w2, awake) = push_lidar_data-WellFormed fl l p pts index t w c lt in
      let same = same_ok (sym run2 ∙ run) in
      (
        _,
        run,
        refl,
        (
          subst (WellFormed fl) same w2,
          (d, get_elem?-set_ne l.lidars (record other { queue = q }) ne ∙ at, kept refl refl),
        ),
      )

  store_point_packet_files :
      (frame : PointFrame Float) (i : ℕ) (l : Lds Float) (j : ℕ) (d : LidarDevice Float)
      (fs : List (Frame Float))
      → GoodFrame fl frame
      → i < frame.lidar_num
      → WellFormed fl l
      → j < 32
      → get_elem? l.lidars j ≡ some d
      → RingHolds d.queue fs
      → (l' : Lds Float) × (store_point_packet fl frame i l ≡ ok l')
        × (l'.cache_index ≡ l.cache_index)
        × StepDone j d fs
            (brings l.cache_index j (get_elem? frame.lidar_point i) (get_elem? frame.base_time i))
            l'
  unfolding store_point_packet
  store_point_packet_files frame i l j d fs g lt w small at held =
      let (p, here) = get_elem?_lt frame.lidar_point i (omega (arith, g.packets)) in
      let (t, time_at) = get_elem?_lt frame.base_time i (omega (arith, g.times)) in
      let (pts, c) = g.carried i p lt here in
      elim (Option-cases (get_index l.cache_index p.lidar_type p.handle)) [
        | inl unknown ↦ (
          l,
          rw (here, time_at, unknown) refl,
          refl,
          rw (here, time_at, brings_nothing l.cache_index j t p unknown)
              (w, (d, at, kept refl refl)),
        )
        | inr (index, known) ↦
            let inside =
              get_index_lt l.cache_index p.lidar_type p.handle index w.index_valid known in
            elim (Bool-cases (index == j)) [
              | inl same ↦
                  let it : index ≡ j = (==_iff index j).0 same in
                  let (l', run, cache, done) = push_here l j t d fs p pts w small at held c in
                  (
                    l',
                    rw (here, time_at, known, it) run,
                    cache,
                    rw (here, time_at, brings_to l.cache_index j index t p known, same) done,
                  )
              | inr other ↦
                  let (l', run, cache, done) =
                    push_elsewhere l j index t d fs p pts w inside (λ e. differ index j other e) at
                      c in
                  (
                    l',
                    rw (here, time_at, known) run,
                    cache,
                    rw (here, time_at, brings_to l.cache_index j index t p known, other) done,
                  )
            ]
      ]
    where
      differ : (a b : ℕ) → (a == b) ≡ false → a ≢ b
      differ a b h e = ground (arith, h, e)

  storage_points_from_files :
      (frame : PointFrame Float) (rounds i : ℕ) (l : Lds Float) (j : ℕ) (d : LidarDevice Float)
      (fs : List (Frame Float))
      → GoodFrame fl frame
      → i + rounds ≤ frame.lidar_num
      → WellFormed fl l
      → j < 32
      → get_elem? l.lidars j ≡ some d
      → RingHolds d.queue fs
      → (l' : Lds Float) × (storage_points_from fl frame rounds i l ≡ ok l')
        × StepDone j d fs (frames_for l.cache_index frame j rounds i) l'
  unfolding storage_points_from frames_for
  storage_points_from_files frame zero i l j d fs g h w small at held =
      (l, refl, (w, (d, at, kept refl refl)))
  storage_points_from_files frame (suc rounds) i l j d fs g h w small at held =
      let (l1, run1, cache, (w1, (d1, at1, grown1))) =
        store_point_packet_files frame i l j d fs g (omega arith) w small at held in
      let new1 =
        brings l.cache_index j (get_elem? frame.lidar_point i) (get_elem? frame.base_time i) in
      let (l2, run2, (w2, (d2, at2, grown2))) =
        storage_points_from_files frame rounds (i + 1) l1 j d1 (offers d1.queue.size fs new1) g
          (omega arith) w1 small at1 (Grown-RingHolds d d1 fs new1 held grown1) in
      let moved =
        subst
          (λ (c : CacheIndex).
            Grown d1 d2 (offers d1.queue.size fs new1) (frames_for c frame j rounds (i + 1)))
          cache grown2 in
      (
        l2,
        rw (storage_points_from, run1) run2,
        (
          w2,
          (
            d2,
            at2,
            Grown-trans d d1 d2 fs new1 (frames_for l.cache_index frame j rounds (i + 1)) grown1
                moved,
          ),
        ),
      )

  -- `StoragePointData` on a well-formed data source and a frame whose arrays reach as far as its
  -- counts ends without a fault and leaves the data source well formed. The ring of each slot,
  -- which held `fs` before or was not allocated, then holds `fs` with the packets of the frame
  -- behind whose lidar has this slot, in their order, each refused where the ring is full; a
  -- packet of a lidar without a slot goes nowhere.
  pub storage_point_data_files :
      (l : Lds Float) (frame : PointFrame Float) (j : ℕ) (d : LidarDevice Float)
      (fs : List (Frame Float))
      → WellFormed fl l
      → GoodFrame fl frame
      → get_elem? l.lidars j ≡ some d
      → RingHolds d.queue fs
      → (l' : Lds Float) × (storage_point_data fl l (some frame) ≡ ok l')
        × WellFormed fl l'
        × ((d' : LidarDevice Float) × (get_elem? l'.lidars j ≡ some d')
            × RingHolds d'.queue
                (offers d'.queue.size fs (frames_for l.cache_index frame j frame.lidar_num 0)))
  unfolding storage_point_data
  storage_point_data_files l frame j d fs w g at held =
      let small : j < 32 = omega (arith, get_elem?-some_lt l.lidars j d at, w.devices) in
      let new = frames_for l.cache_index frame j frame.lidar_num 0 in
      let (l', run, (w', (d', at', grown))) =
        storage_points_from_files frame frame.lidar_num 0 l j d fs g (omega arith) w small at
          held in
      (l', run, w', (d', at', Grown-RingHolds d d' fs new held grown))
