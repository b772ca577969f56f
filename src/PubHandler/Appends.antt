-- ===== src/PubHandler/Appends.antt =====
-- src/comm/pub_handler.cpp: what a packet adds to the points of its lidar.
use livox_ros_driver.Common.{
  ℕ, zero, suc, ◌≡◌, refl, ◌<◌, ◌+◌, ◌*◌, ◌%◌, sym, ◌∙◌, ap, false, Option, some, List, [], ◌∷◌,
  ◌++◌, length, get_elem?, arith, ◌==◌,
}
use mathlib.Core.Path.{subst}
use mathlib.Core.List.{append-nil, append_assoc}
use mathlib.Core.Option.{some-injective}
use native.Mathlib.Nat.{add-zero, add-suc, suc-add}
use livox_ros_driver.Common.Memory.{ok, ◌>>=◌}
use livox_ros_driver.Comm.{PointXyzlt, u64_mod}
use livox_ros_driver.Comm.Floats.{Floats}
use livox_ros_driver.PubHandler.Packet.{RawPacket}
use livox_ros_driver.PubHandler.Convert.{
  Reading, point_of, process_from, process_cartesian_high_point, process_cartesian_low_point,
  process_spherical_point, read_cartesian, read_spherical,
}
use livox_ros_driver.PubHandler.Points.{LidarPubHandler, SdkPoints}

module _ (fl : Floats) where
  open fl use {Float}

  -- The points in order, with the line and the time of their place in the packet.
  unfoldable pub Timed : RawPacket → ℕ → List (PointXyzlt Float) → Type 0
  Timed pkt i ps =
      (k : ℕ) (p : PointXyzlt Float)
      → get_elem? ps k ≡ some p
      → (p.offset_time ≡ (pkt.time_stamp + (i + k) * pkt.point_interval) % u64_mod)
        × (p.line ≡ (i + k) % pkt.line_num)

  -- The bytes of the packet reach as far as its count, and it has lines.
  pub record Readable (read : ℕ → Option (Reading fl)) (pkt : RawPacket) (bound : ℕ) : Type 0 where
    pub lines : (pkt.line_num == 0) ≡ false
    pub covered : (i : ℕ) → i < bound → (r : Reading fl) × (read i ≡ some r)

  Timed-cons :
      (pkt : RawPacket) (i : ℕ) (r : Reading fl) (ps : List (PointXyzlt Float))
      → Timed pkt (i + 1) ps
      → Timed pkt i (point_of fl pkt i r ∷ ps)
  unfolding Timed point_of
  Timed-cons pkt i r ps t zero p e =
      subst
        (λ (x : PointXyzlt Float).
          (x.offset_time ≡ (pkt.time_stamp + (i + 0) * pkt.point_interval) % u64_mod)
          × (x.line ≡ (i + 0) % pkt.line_num))
        (some-injective _ p e) (rw (add-zero i) (refl, refl))
  Timed-cons pkt i r ps t (suc k) p e = rw (add-suc i k, ← suc-add i k, ← one_more i) (t k p e)
    where
      one_more : (i : ℕ) → i + 1 ≡ suc i
      one_more i = omega arith

  process_from_appends :
      (read : ℕ → Option (Reading fl)) (pkt : RawPacket) (rounds i : ℕ)
      (points : List (PointXyzlt Float))
      → Readable read pkt (i + rounds)
      → (new : List (PointXyzlt Float)) × (process_from fl read pkt rounds i points
          ≡ ok (points ++ new))
        × (length new ≡ rounds)
        × Timed pkt i new
  unfolding process_from Timed
  process_from_appends read pkt zero i points h =
      ([], ap ok (sym (append-nil points)), refl, λ k p e. cc)
  process_from_appends read pkt (suc rounds) i points h =
      let (r, e) = h.covered i (omega arith) in
      let (new, run, n, t) =
        process_from_appends read pkt rounds (i + 1) (points ++ point_of fl pkt i r ∷ [])
          (record { lines = h.lines; covered = λ j l. h.covered j (omega arith) }) in
      (
        point_of fl pkt i r ∷ new,
        rw (h.lines, e) (run ∙ ap ok (append_assoc points (point_of fl pkt i r ∷ []) new)),
        ap suc n,
        Timed-cons pkt i r new t,
      )

  -- What the processing of a packet leaves: the points that waited, and behind them the packet's,
  -- as many as it counts, each with the line and the time of its place.
  pub record Processed (h h' : LidarPubHandler Float) (pkt : RawPacket) : Type 0 where
    pub added : List (PointXyzlt Float)
    pub appended : h'.points_clouds ≡ h.points_clouds ++ added
    pub counted : length added ≡ pkt.point_num
    pub timed : Timed pkt 0 added
    pub kept : h'.extrinsic ≡ h.extrinsic

  processed :
      (h : LidarPubHandler Float) (pkt : RawPacket) (read : ℕ → Option (Reading fl))
      → Readable read pkt pkt.point_num
      → (h' : LidarPubHandler Float) × ((process_from fl read pkt pkt.point_num 0 h.points_clouds
            >>= λ points. ok (record h { points_clouds = points }))
          ≡ ok h')
        × Processed h h' pkt
  processed h pkt read r =
      let (new, run, n, t) =
        process_from_appends read pkt pkt.point_num 0 h.points_clouds
          (record { lines = r.lines; covered = λ i l. r.covered i (omega arith) }) in
      (
        record h { points_clouds = h.points_clouds ++ new },
        rw (run) refl,
        record { added = new; appended = refl; counted = n; timed = t; kept = refl },
      )

  module _ (sdk : SdkPoints) where
    -- A packet of Cartesian points in millimetres whose bytes reach as far as its count is
    -- processed without a fault: its points follow those that waited, as many as it counts, point
    -- `i` on line `i % line_num` and at the packet's time plus `i` intervals, modulo 2 ^ 64.
    pub process_cartesian_high_point_lem :
        (h : LidarPubHandler Float) (pkt : RawPacket)
        → Readable (read_cartesian fl sdk sdk.high 1000 h.extrinsic pkt) pkt pkt.point_num
        → (h' : LidarPubHandler Float) × (process_cartesian_high_point fl sdk h pkt ≡ ok h')
          × Processed h h' pkt
    unfolding process_cartesian_high_point
    process_cartesian_high_point_lem h pkt r =
        processed h pkt (read_cartesian fl sdk sdk.high 1000 h.extrinsic pkt) r

    -- A packet of Cartesian points in centimetres whose bytes reach as far as its count is
    -- processed without a fault: its points follow those that waited, as many as it counts, point
    -- `i` on line `i % line_num` and at the packet's time plus `i` intervals, modulo 2 ^ 64.
    pub process_cartesian_low_point_lem :
        (h : LidarPubHandler Float) (pkt : RawPacket)
        → Readable (read_cartesian fl sdk sdk.low 100 h.extrinsic pkt) pkt pkt.point_num
        → (h' : LidarPubHandler Float) × (process_cartesian_low_point fl sdk h pkt ≡ ok h')
          × Processed h h' pkt
    unfolding process_cartesian_low_point
    process_cartesian_low_point_lem h pkt r =
        processed h pkt (read_cartesian fl sdk sdk.low 100 h.extrinsic pkt) r

    -- A packet of spherical points whose bytes reach as far as its count is processed without a
    -- fault: its points follow those that waited, as many as it counts, point `i` on line `i %
    -- line_num` and at the packet's time plus `i` intervals, modulo 2 ^ 64.
    pub process_spherical_point_lem :
        (h : LidarPubHandler Float) (pkt : RawPacket)
        → Readable (read_spherical fl sdk h.extrinsic pkt) pkt pkt.point_num
        → (h' : LidarPubHandler Float) × (process_spherical_point fl sdk h pkt ≡ ok h')
          × Processed h h' pkt
    unfolding process_spherical_point
    process_spherical_point_lem h pkt r = processed h pkt (read_spherical fl sdk h.extrinsic pkt) r
