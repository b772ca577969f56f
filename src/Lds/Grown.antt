-- ===== src/Lds/Grown.antt =====
-- src/lds.cpp: what the packets of a frame bring to the ring of one slot.
use mathlib.Core.Path.{subst}
use mathlib.Core.List.{append-nil}
use livox_ros_driver.Common.{
  ℕ, zero, suc, ◌+◌, ◌≡◌, refl, sym, ◌∙◌, inl, false, none, some, Option, List, [], ◌∷◌, ◌++◌,
  get_elem?, take, ◌==◌, if◌then◌else◌,
}
use livox_ros_driver.Common.Memory.{is_null}
use livox_ros_driver.Comm.{PointPacket, PointFrame}
use livox_ros_driver.CacheIndex.{CacheIndex, get_index}
use livox_ros_driver.Ldq.Window.{Frame}
use livox_ros_driver.Ldq.Represents.{Represents}
use livox_ros_driver.Lds.{LidarDevice}
use livox_ros_driver.Lds.Push.{RingHolds, offer}

-- The list after several offers.
unfoldable pub offers {ℓ} : {A : Type ℓ} → ℕ → List A → List A → List A
offers size fs [] = fs
offers size fs (f ∷ new) = offers size (offer size fs f) new

offers-append {ℓ} :
    {A : Type ℓ} (size : ℕ) (fs xs ys : List A)
    → offers size fs (xs ++ ys) ≡ offers size (offers size fs xs) ys
unfolding offers
offers-append size fs [] ys = refl
offers-append size fs (x ∷ xs) ys = offers-append size (offer size fs x) xs ys

module _ {F : Type 0} where
  -- The first points of a packet, as a frame of the ring.
  abbrev pub content : PointPacket F → ℕ → Frame F
  content p base_time = record {
    time = base_time;
    points = take p.points_num (elim p.points [ none ↦ [] | some pts ↦ pts ]);
  }

  -- What a packet brings to the ring of slot `j`.
  unfoldable pub brings : CacheIndex → ℕ → Option (PointPacket F) → Option ℕ → List (Frame F)
  brings c j none time = []
  brings c j (some p) none = []
  brings c j (some p) (some base_time) = elim (get_index c p.lidar_type p.handle) [
    | none ↦ []
    | some index ↦ if index == j then content p base_time ∷ [] else []
  ]

  -- What the packets of a frame from `i` on bring there, in their order.
  unfoldable pub frames_for : CacheIndex → PointFrame F → ℕ → ℕ → ℕ → List (Frame F)
  frames_for c frame j zero i = []
  frames_for c frame j (suc rounds) i =
      brings c j (get_elem? frame.lidar_point i) (get_elem? frame.base_time i)
      ++ frames_for c frame j rounds (i + 1)

  -- A device that nothing was filed for, or whose ring has the new frames as far as they fit.
  pub data Grown (d d' : LidarDevice F) (fs new : List (Frame F)) : Type 0 where
    kept : d' ≡ d → new ≡ [] → Grown d d' fs new
    filed :
        Represents d'.queue (offers d'.queue.size fs new)
        → is_null d'.queue.storage_packet ≡ false
        → (is_null d.queue.storage_packet ≡ false → d'.queue.size ≡ d.queue.size)
        → Grown d d' fs new

  pub Grown-trans :
      (d d1 d2 : LidarDevice F) (fs xs ys : List (Frame F))
      → Grown d d1 fs xs
      → Grown d1 d2 (offers d1.queue.size fs xs) ys
      → Grown d d2 fs (xs ++ ys)
  unfolding offers
  Grown-trans d d1 d2 fs xs ys (kept e n) h =
      subst (λ (zs : List (Frame F)). Grown d d2 fs (zs ++ ys)) (sym n)
        (subst (λ (x : LidarDevice F). Grown x d2 fs ys) e
          (subst (λ (zs : List (Frame F)). Grown d1 d2 (offers d1.queue.size fs zs) ys) n h))
  Grown-trans d d1 d2 fs xs ys (filed r a s) (kept e n) =
      subst (λ (x : LidarDevice F). Grown d x fs (xs ++ ys)) (sym e)
        (subst (λ (zs : List (Frame F)). Grown d d1 fs (xs ++ zs)) (sym n)
          (subst (λ (zs : List (Frame F)). Grown d d1 fs zs) (sym (append-nil xs)) (filed r a s)))
  Grown-trans d d1 d2 fs xs ys (filed r a s) (filed r2 a2 s2) =
      let size = s2 a in
      filed
        (subst (λ (zs : List (Frame F)). Represents d2.queue zs)
          (sym (offers-append d2.queue.size fs xs ys))
          (subst (λ (n : ℕ). Represents d2.queue (offers d2.queue.size (offers n fs xs) ys))
            (sym size) r2))
        a2 (λ known. size ∙ s known)

  pub Grown-RingHolds :
      (d d' : LidarDevice F) (fs new : List (Frame F))
      → RingHolds d.queue fs
      → Grown d d' fs new
      → RingHolds d'.queue (offers d'.queue.size fs new)
  unfolding offers
  Grown-RingHolds d d' fs new held (kept e n) =
      subst (λ (x : LidarDevice F). RingHolds x.queue (offers x.queue.size fs new)) (sym e)
        (subst (λ (zs : List (Frame F)). RingHolds d.queue (offers d.queue.size fs zs)) (sym n)
          held)
  Grown-RingHolds d d' fs new held (filed r a s) = inl r
