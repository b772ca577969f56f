-- ===== src/Lib.antt =====
-- livox_ros_driver2: the path of point clouds and IMU samples from the SDK of the lidars to the threads
-- that publish them, and the diagnosis of a lidar that the driver reports. Paths are from the root of
-- the repository; the build is the one for ROS 2.
--
-- The SDK calls the driver with packets and with answers to requests. A packet becomes points and points
-- become frames (PubHandler); the data source files each frame in the ring of its lidar and wakes the
-- publishing thread (Lds, over Ldq, CacheIndex, ImuQueue and Semaphore); that thread takes the frames of
-- each lidar that is sampling and publishes them (Lddc). A lidar is sampling once its requests are
-- answered (Callback). Beside that path a monitor observes packets, clouds, alarms and synchronization
-- (Monitor), a timer reports its evaluation (Reporting), and the heartbeat of the node carries the
-- active faults (Heartbeat).
--
--   Comm            src/comm/comm.h: the shared data types; Comm.Floats is floating point arithmetic,
--                   which the driver uses and does not implement: a parameter of the model
--   Ldq             src/comm/ldq.h, src/comm/ldq.cpp: `InitQueue` is init_queue, `QueuePop` queue_pop,
--                   and so on; a ring whose memory is null, live or freed
--   CacheIndex      src/comm/cache_index.cpp: the table of the 32 slots
--   ImuQueue        src/comm/lidar_imu_data_queue.cpp
--   Semaphore       src/comm/semaphore.cpp
--   PubHandler      src/comm/pub_handler.cpp: the callback (Packet), the conversion of points
--                   (Coordinates, Convert), `CheckTimer` (Timer) and `RawDataProcess` (Process)
--   Lds             src/lds.cpp: filing of frames and samples, reset and exit; Lds.Grown is what the
--                   packets of a frame bring to a ring
--   Lddc            src/lddc.cpp: messages (Messages), the loops of the publishing threads
--                   (Polling), and the publishers and their topics (Topics)
--   Callback        src/call_back/livox_lidar_callback.cpp: requests and answers as commands and steps
--   Monitor         src/lidar_dtc_monitor.h: observations and `Evaluate`
--   Reporting       src/lidar_dtc_reporting.h
--   Heartbeat       src/functional_safety_heartbeat.cpp
--   RecordQueue     src/lidar_state_recorder.cpp: the queue of records of the recorder
--   Recorder        src/lidar_state_recorder.cpp: the fields of a state and their JSON (Fields, Parse),
--                   rows (Serialize), the files (Files) and the thread (Run)
--   Json            the JSON library, a parameter
--   LdsLidar        src/lds_lidar.cpp: the answer to a query (Answer, Diagnose), what lidars push
--                   (Status), start and end (Init, Start), and with
--                   src/call_back/lidar_common_callback.cpp the frames (Forward)
--   Identity        src/lidar_identity.h; Identity.Server is the parameters of a node
--   Compression     src/compression: the two nodes; Compression.Library is the library
--   ParseCfg        src/parse_cfg_file: the configuration file
--   Node            src/livox_ros_driver2.cpp: the parameters of the node
--   Tests           the models on concrete inputs
--
-- Numbers are natural numbers, with the remainder by 2 ^ 32 or 2 ^ 64 written out where the code's type
-- wraps around. An operation that could use memory wrongly, read behind an array or divide by zero
-- answers a fault. A function under a mutex is one step; what the code does in two critical sections is
-- two. The loops of Lddc run on fuel and answer `none` where it runs out: the number of frames in the
-- ring is enough, since each round takes one. `generate_boot_id` runs over the numbers drawn.
--
-- The parameters of the model are records of operations: Floats, Casts, Json, Inet, Os (the system calls
-- on files), ParameterServer and Zstd; what a theorem relies on is a record of laws (IsAtomic, IsDotted,
-- IsLossless, IsFinite) that an instance in the tests fills. A line of the recorder is written on fuel,
-- which is enough where it exceeds the length of the line and the interrupted calls.
--
-- Not modelled: ROS, the SDK, rapidjson, zstd and the file system beyond these records, the scheduling of
-- the writer thread, the descriptions of the fields of a cloud, the constructor and setters of
-- `LdsLidar`, and what the code prints.
pub mod Common
pub mod Comm
pub mod Ldq
pub mod CacheIndex
pub mod ImuQueue
pub mod Semaphore
pub mod Lds
pub mod PubHandler
pub mod Lddc
pub mod Callback
pub mod Monitor
pub mod Heartbeat
pub mod Reporting
pub mod RecordQueue
pub mod Json
pub mod Recorder
pub mod LdsLidar
pub mod Identity
pub mod Compression
pub mod ParseCfg
pub mod Node
pub mod Tests
