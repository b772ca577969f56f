-- ===== src/Monitor/Sync.antt =====
-- src/lidar_dtc_monitor.h: what a sequence of observations can do to the evidence of synchronization
-- and of cloud progress.
use livox_ros_driver.Common.{
  ℕ, ◌≡◌, refl, ◌<◌, ◌+◌, ◌*◌, ◌∙◌, Bool, true, false, ◌&&◌, List, [], ◌∷◌, leb, arith,
}
use livox_ros_driver.Monitor.State.{Monitor, ns_per_ms}
use livox_ros_driver.Monitor.Observe.{
  SyncSample, observe_hms, observe_work_state, observe_packet, observe_cloud, observe_time_sync,
  observe_bounded, observe_ptp,
}
use livox_ros_driver.Monitor.Evaluate.{healthy_ptp}

-- The calls that change a monitor.
pub data Observation : Type 0 where
  hms : List ℕ → ℕ → Observation
  work_state : ℕ → ℕ → Observation
  time_sync : SyncSample → ℕ → Observation
  packet : ℕ → Observation
  cloud : ℕ → ℕ → ℕ → Observation

unfoldable pub observe : Monitor → Observation → Monitor
observe m (hms codes now) = observe_hms m codes now
observe m (work_state state now) = observe_work_state m state now
observe m (time_sync s now) = observe_time_sync m s now
observe m (packet now) = observe_packet m now
observe m (cloud stamp n now) = observe_cloud m stamp n now

unfoldable pub observe_all : Monitor → List Observation → Monitor
observe_all m [] = m
observe_all m (o ∷ os) = observe_all (observe m o) os

-- Every synchronization status of the sequence stays at or below `bound`.
unfoldable pub frozen_sync : ℕ → List Observation → Bool
frozen_sync bound [] = true
frozen_sync bound (time_sync s now ∷ os) = leb s.last_sync bound && frozen_sync bound os
frozen_sync bound (hms codes now ∷ os) = frozen_sync bound os
frozen_sync bound (work_state state now ∷ os) = frozen_sync bound os
frozen_sync bound (packet now ∷ os) = frozen_sync bound os
frozen_sync bound (cloud stamp n now ∷ os) = frozen_sync bound os

-- Every cloud of the sequence has a stamp at or below `bound`.
unfoldable pub frozen_cloud : ℕ → List Observation → Bool
frozen_cloud bound [] = true
frozen_cloud bound (cloud stamp n now ∷ os) = leb stamp bound && frozen_cloud bound os
frozen_cloud bound (time_sync s now ∷ os) = frozen_cloud bound os
frozen_cloud bound (hms codes now ∷ os) = frozen_cloud bound os
frozen_cloud bound (work_state state now ∷ os) = frozen_cloud bound os
frozen_cloud bound (packet now ∷ os) = frozen_cloud bound os

-- The synchronization evidence of a monitor and the timeout it is held to.
pub record SameSync (m m' : Monitor) : Type 0 where
  pub seen : m'.sync_seen ≡ true
  pub last : m'.last_sync ≡ m.last_sync
  pub time : m'.sync_time ≡ m.sync_time
  pub config : m'.config ≡ m.config

observe_time_sync_frozen :
    (m : Monitor) (s : SyncSample) (now : ℕ)
    → m.sync_seen ≡ true
    → leb s.last_sync m.last_sync ≡ true
    → SameSync m (observe_time_sync m s now)
unfolding observe_time_sync observe_ptp observe_bounded
observe_time_sync_frozen m s now seen h = record {
  seen = ground arith;
  last = ground arith;
  time = ground arith;
  config = ground arith;
}

SameSync-trans : {m m' m'' : Monitor} → SameSync m m' → SameSync m' m'' → SameSync m m''
SameSync-trans a b = record {
  seen = b.seen;
  last = b.last ∙ a.last;
  time = b.time ∙ a.time;
  config = b.config ∙ a.config;
}

observe-SameSync :
    (m : Monitor) (o : Observation)
    → m.sync_seen ≡ true
    → frozen_sync m.last_sync (o ∷ []) ≡ true
    → SameSync m (observe m o)
unfolding observe frozen_sync observe_hms observe_work_state observe_packet observe_cloud
observe-SameSync m (time_sync s now) seen h = observe_time_sync_frozen m s now seen (ground arith)
observe-SameSync m (hms codes now) seen h = record {
  seen = seen;
  last = refl;
  time = refl;
  config = refl;
}
observe-SameSync m (work_state w now) seen h = record {
  seen = seen;
  last = refl;
  time = refl;
  config = refl;
}
observe-SameSync m (packet now) seen h = record {
  seen = seen;
  last = refl;
  time = refl;
  config = refl;
}
observe-SameSync m (cloud stamp n now) seen h = record {
  seen = ground arith;
  last = ground arith;
  time = ground arith;
  config = ground arith;
}

frozen_sync_cons :
    (bound : ℕ) (o : Observation) (os : List Observation)
    → frozen_sync bound (o ∷ os) ≡ true
    → (frozen_sync bound (o ∷ []) ≡ true) × (frozen_sync bound os ≡ true)
unfolding frozen_sync
frozen_sync_cons bound (time_sync s now) os h = ground arith
frozen_sync_cons bound (hms codes now) os h = (refl, h)
frozen_sync_cons bound (work_state w now) os h = (refl, h)
frozen_sync_cons bound (packet now) os h = (refl, h)
frozen_sync_cons bound (cloud stamp n now) os h = (refl, h)

-- A run of observations in which the synchronization source does not advance keeps its time.
pub observe_all-SameSync :
    (m : Monitor) (os : List Observation)
    → m.sync_seen ≡ true
    → frozen_sync m.last_sync os ≡ true
    → SameSync m (observe_all m os)
unfolding observe_all
observe_all-SameSync m [] seen h = record { seen = seen; last = refl; time = refl; config = refl }
observe_all-SameSync m (o ∷ os) seen h =
    let (now, later) = frozen_sync_cons m.last_sync o os h in
    let step = observe-SameSync m o seen now in
    SameSync-trans step (observe_all-SameSync (observe m o) os step.seen (rw (step.last) later))

-- Whatever is observed, and however often its status is queried, a synchronization source that
-- was seen and does not advance stops counting as healthy once `state_timeout` has passed since
-- its last advance.
pub frozen_sync_expires :
    (m : Monitor) (os : List Observation) (now : ℕ)
    → m.sync_seen ≡ true
    → frozen_sync m.last_sync os ≡ true
    → m.sync_time + m.config.state_timeout * ns_per_ms < now
    → healthy_ptp (observe_all m os) now ≡ false
unfolding healthy_ptp
frozen_sync_expires m os now seen h late =
    let same = observe_all-SameSync m os seen h in rw (same.time, same.config) (ground arith)
