-- ===== src/PubHandler/Packet.antt =====
-- src/comm/pub_handler.cpp: `OnLivoxLidarPointCloudCallback`, which the SDK calls with each packet.
-- The SDK's packet is a record of what the code reads of it: `timestamp` is its eight bytes as a
-- number, `payload` the bytes that follow its header. The clock is an argument.
use livox_ros_driver.Common.{
  ℕ, ◌*◌, ◌/◌, Bool, false, not, ◌||◌, none, List, ltb, ◌==◌, if◌then◌else◌, take, length,
}
use livox_ros_driver.Common.Memory.{Result, ok, fault, ◌>>=◌, out_of_bounds, divide_by_zero}
use livox_ros_driver.Comm.{add32, sub32, livox_lidar_type}
use livox_ros_driver.ImuQueue.{ImuData}

pub record RawPacket : Type 0 where
  pub lidar_type : ℕ
  pub handle : ℕ
  pub extrinsic_enable : Bool
  pub point_num : ℕ
  pub data_type : ℕ
  pub line_num : ℕ
  pub time_stamp : ℕ
  pub point_interval : ℕ
  pub raw_data : List ℕ

pub record ImuSample (F : Type 0) : Type 0 where
  pub gyro_x : F
  pub gyro_y : F
  pub gyro_z : F
  pub acc_x : F
  pub acc_y : F
  pub acc_z : F

pub record EthernetPacket (F : Type 0) : Type 0 where
  pub time_type : ℕ
  pub data_type : ℕ
  pub timestamp : ℕ
  pub length : ℕ
  pub time_interval : ℕ
  pub dot_num : ℕ
  pub payload : List ℕ
  pub imu : ImuSample F

abbrev pub timestamp_no_sync : ℕ
timestamp_no_sync = 0

-- The numbers that the SDK gives to data types and device types, and the size of its packet type.
pub record SdkNumbers : Type 0 where
  pub imu_data : ℕ
  pub cartesian_high : ℕ
  pub cartesian_low : ℕ
  pub spherical : ℕ
  pub industrial_hap : ℕ
  pub mid360 : ℕ
  pub mid360s : ℕ
  pub header_size : ℕ

-- `GetEthPacketTimestamp`: 1 is gPTP or PTP, 2 is GPS.
unfoldable pub get_eth_packet_timestamp : ℕ → ℕ → ℕ → ℕ
get_eth_packet_timestamp timestamp_type stamp now =
    if timestamp_type == 1 || timestamp_type == 2 then stamp else now

abbrev pub line_number : SdkNumbers → ℕ → ℕ
line_number sdk dev_type =
    if dev_type == sdk.industrial_hap
    then 6
    else if dev_type == sdk.mid360 || dev_type == sdk.mid360s
    then 4
    else 1

-- What the callback hands on: an IMU sample to `imu_callback_`, or a packet to the queue.
pub data Delivered (F : Type 0) : Type 0 where
  imu_sample : ImuData F → Delivered F
  raw_packet : RawPacket → Delivered F

module _ {F : Type 0} (sdk : SdkNumbers) where
  -- `data + length` may lie behind the end of the packet's bytes.
  unfoldable pub copy_data : EthernetPacket F → Result (List ℕ)
  copy_data p =
      let n = add32 (sub32 p.length sdk.header_size) 1 in
      if ltb (length p.payload) n then fault out_of_bounds else ok (take n p.payload)

  unfoldable pub imu_of : EthernetPacket F → ℕ → ℕ → ImuData F
  imu_of p handle now = record {
    lidar_type = livox_lidar_type;
    handle = handle;
    slot = none;
    time_stamp = get_eth_packet_timestamp p.time_type p.timestamp now;
    gyro_x = p.imu.gyro_x;
    gyro_y = p.imu.gyro_y;
    gyro_z = p.imu.gyro_z;
    acc_x = p.imu.acc_x;
    acc_y = p.imu.acc_y;
    acc_z = p.imu.acc_z;
  }

  unfoldable pub packet_of : EthernetPacket F → ℕ → ℕ → ℕ → List ℕ → RawPacket
  packet_of p handle dev_type now bytes = record {
    lidar_type = livox_lidar_type;
    handle = handle;
    extrinsic_enable = false;
    point_num = p.dot_num;
    data_type = p.data_type;
    line_num = line_number sdk dev_type;
    time_stamp = get_eth_packet_timestamp p.time_type p.timestamp now;
    point_interval = p.time_interval * 100 / p.dot_num;
    raw_data = bytes;
  }

  -- `is_timestamp_sync_` and what is handed on. The IMU callback is always set.
  unfoldable pub on_point_cloud : ℕ → ℕ → EthernetPacket F → ℕ → Result (Bool × Delivered F)
  on_point_cloud handle dev_type p now =
      let sync = not (p.time_type == timestamp_no_sync) in
      if p.data_type == sdk.imu_data
      then ok (sync, imu_sample (imu_of p handle now))
      else if p.dot_num == 0
      then fault divide_by_zero
      else (copy_data p >>= λ bytes. ok (sync, raw_packet (packet_of p handle dev_type now bytes)))
