-- ===== src/Tests/Startup.antt =====
-- Runs of the start of src/lds_lidar.cpp, of src/parse_cfg_file and of the forwarding of frames.
use livox_ros_driver.Common.{
  ℕ, ◌≡◌, ◌≤◌, refl, true, false, none, some, [], ◌∷◌, List, Option, length, if◌then◌else◌, ◌==◌,
  arith,
}
use livox_ros_driver.Common.Int.{pos, negsuc}
use livox_ros_driver.Common.Eq.{codes, bytes_eq}
use livox_ros_driver.Common.Memory.{ok}
use livox_ros_driver.CacheIndex.{new}
use livox_ros_driver.CacheIndex.Invariant.{new-IsValid}
use livox_ros_driver.Json.{Json}
use livox_ros_driver.Lds.{Lds, UserLivoxLidarConfig}
use livox_ros_driver.Lds.Store.{WellFormed}
use livox_ros_driver.PubHandler.Timer.{PubHandler}
use livox_ros_driver.Identity.Server.{ParamValue, table_server}
use livox_ros_driver.ParseCfg.{Inet, parse_config}
use livox_ros_driver.ParseCfg.Options.{
  IsEntry, IsRead, parse_config-IsRead, blind_spot_turns_negative,
}
use livox_ros_driver.Recorder.{Moment}
use livox_ros_driver.LdsLidar.Diagnose.{Diagnostics}
use livox_ros_driver.LdsLidar.Init.{LdsLidar, World, Surroundings, fill_devices}
use livox_ros_driver.LdsLidar.Start.{init_lds_lidar, deinit_lds_lidar}
use livox_ros_driver.LdsLidar.Slots.{free_count}
use livox_ros_driver.LdsLidar.Filled.{AllHold, AllDiffer, IsNew, fill_devices_all}
use livox_ros_driver.LdsLidar.Lifecycle.{deinit_keeps_initialized}
use livox_ros_driver.LdsLidar.Forward.{on_lidar_point_cloud_cb, on_lidar_point_cloud_cb-WellFormed}
use livox_ros_driver.Tests.Queues.{
  whole, source, source-WellFormed, frame, frame-GoodFrame, no_config,
}
use livox_ros_driver.Tests.Diagnosis.{running}
use livox_ros_driver.Tests.Framing.{framing}

-- One document: 0 is the document, 1 the array, 2 its one entry, 3 the address and 4 a data type.
abbrev member : ℕ → List ℕ → Option ℕ
member value name =
    if value == 0
    then some 1
    else if bytes_eq name (codes "ip")
    then some 3
    else if bytes_eq name (codes "pcl_data_type")
    then some 4
    else none

abbrev one_document : Json ℕ
one_document = record {
  Value = ℕ;
  parse = λ text. some 0;
  is_object = λ value. true;
  find_member = member;
  as_uint = λ value. none;
  as_uint64 = λ value. none;
  as_int = λ value. some (pos value);
  as_int64 = λ value. none;
  as_float = λ value. none;
  as_string = λ value. some (codes "1.2.3.4");
  as_array = λ value. some (2 ∷ []);
}

abbrev inet : Inet
inet = record {
  ip_string_to_num = λ text. length text;
  ip_num_to_string = λ handle. codes "1.2.3.4";
}

abbrev parsed_config : UserLivoxLidarConfig ℕ
parsed_config = record no_config {
  handle = 7;
  pcl_data_type = pos 4;
  pattern_mode = negsuc 0;
  blind_spot_set = negsuc 0;
  dual_emit_en = negsuc 0;
}

-- An entry whose blind spot is 150 cm: its member 150 is that number.
abbrev blind_member : ℕ → List ℕ → Option ℕ
blind_member value name = if bytes_eq name (codes "blind_spot_set") then some 150 else none

abbrev blind_document : Json ℕ
blind_document = record one_document { find_member = blind_member }

blind-IsEntry : IsEntry whole blind_document 2 3 (codes "1.2.3.4")
blind-IsEntry = record {
  object = refl;
  text = refl;
  pcl_data_type = record { number_of = λ w e. (pos w, refl) };
  pattern_mode = record { number_of = λ w e. (pos w, refl) };
  blind_spot_set = record { number_of = λ w e. (pos w, refl) };
  dual_emit_en = record { number_of = λ w e. (pos w, refl) };
  no_extrinsic = unfold bytes_eq in refl;
}

parse_config-IsRead_example :
    (config : UserLivoxLidarConfig ℕ) × (parse_config whole blind_document inet 2 3 ≡ ok config)
    × IsRead whole blind_document inet 2 (codes "1.2.3.4") config
parse_config-IsRead_example =
    parse_config-IsRead whole blind_document inet 2 3 (codes "1.2.3.4") blind-IsEntry

blind_spot_turns_negative_example :
    (config : UserLivoxLidarConfig ℕ) × (parse_config whole blind_document inet 2 3 ≡ ok config)
    × (config.blind_spot_set ≡ negsuc 105)
blind_spot_turns_negative_example =
    blind_spot_turns_negative whole blind_document inet 2 3 150 (codes "1.2.3.4") 150 blind-IsEntry
      found refl (omega arith) (omega arith)
  where
    found : blind_member 2 (codes "blind_spot_set") ≡ some 150
    found = unfold bytes_eq in refl

abbrev pub two_configs : List (UserLivoxLidarConfig ℕ)
two_configs = record no_config { handle = 7 } ∷ record no_config { handle = 8 } ∷ []

pub two_configs_room : 2 ≤ free_count (new.index_cache)
two_configs_room = unfold free_count new in omega arith

pub two_configs_differ : AllDiffer two_configs
two_configs_differ = unfold AllDiffer IsNew in (((λ e. absurd (omega arith)), tt), (tt, tt))

fill_devices_all_example :
    (s : Lds ℕ × PubHandler ℕ) × (fill_devices 2 two_configs
        (record source { cache_index = new }, framing)
      ≡ ok s)
    × AllHold 2 s two_configs
fill_devices_all_example =
    fill_devices_all 2 two_configs (record source { cache_index = new }) framing
      (record { devices = refl; index_valid = new-IsValid }) two_configs_room two_configs_differ

abbrev moment : Moment
moment = record { owned = true; wall = 5; steady = 5 }

abbrev unopened : Surroundings
unopened = record {
  file = none;
  log_directory = none;
  pid = 1;
  moment = moment;
  init_done = true;
  observer_id = 1;
}

abbrev diagnostics : Diagnostics
diagnostics = record {
  monitor = some running;
  role = codes "front";
  recorder = none;
  handle = 7;
  query_pending = false;
  observer_id = 1;
}

abbrev lidar : LdsLidar ℕ
lidar = record {
  lds = source;
  is_initialized = true;
  path = [];
  lidar_type = 8;
  identity = none;
  diagnostics = diagnostics;
}

abbrev world : World ℕ (List (List ℕ × ParamValue))
world = record { source = lidar; handler = framing; server = []; calls = [] }

deinit_keeps_initialized_example :
    let after = (deinit_lds_lidar world).1 in
    ((deinit_lds_lidar after).0 ≡ pos 0)
    × (init_lds_lidar whole one_document inet table_server 2 unopened [] after ≡ ok (false, after))
deinit_keeps_initialized_example =
    deinit_keeps_initialized whole one_document inet table_server 2 unopened [] world refl

on_lidar_point_cloud_cb-WellFormed_example :
    (l : LdsLidar ℕ) × (on_lidar_point_cloud_cb whole lidar (some frame) 4_000_000_000 ≡ ok l)
    × WellFormed whole l.lds
on_lidar_point_cloud_cb-WellFormed_example =
    on_lidar_point_cloud_cb-WellFormed whole lidar frame 4_000_000_000 source-WellFormed
      frame-GoodFrame
