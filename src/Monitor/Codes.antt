-- ===== src/Monitor/Codes.antt =====
-- src/lidar_dtc_monitor.h: `Codes`, the diagnostic trouble codes of each role.
use livox_ros_driver.Common.{ℕ, Option, List, [], ◌∷◌, get_elem?}

-- The categories in order: data, time, scan, temperature, voltage, upgrade, IMU, parameters,
-- hardware, Ethernet history, synchronization history.
abbrev pub code_table : List (List ℕ)
code_table =
    (0x110476C4 ∷ 0x110476C5 ∷ 0x110476C7 ∷ 0x110476C8 ∷ 0x110476CB ∷ 0x110476CC ∷ 0x110476CD
      ∷ 0x110476CE ∷ 0x110476CF ∷ 0x110476D0 ∷ 0x110476D1 ∷ [])
    ∷ (0x11037660 ∷ 0x11037661 ∷ 0x11037663 ∷ 0x11037664 ∷ 0x11037667 ∷ 0x11037668 ∷ 0x11037669
        ∷ 0x1103766A ∷ 0x1103766B ∷ 0x1103766C ∷ 0x1103766D ∷ [])
    ∷ (0x11017598 ∷ 0x11017599 ∷ 0x1101759B ∷ 0x1101759C ∷ 0x1101759F ∷ 0x110175A0 ∷ 0x110175A1
        ∷ 0x110175A2 ∷ 0x110175A3 ∷ 0x110175A4 ∷ 0x110175A5 ∷ [])
    ∷ (0x110275FC ∷ 0x110275FD ∷ 0x110275FF ∷ 0x11027600 ∷ 0x11027603 ∷ 0x11027604 ∷ 0x11027605
        ∷ 0x11027606 ∷ 0x11027607 ∷ 0x11027608 ∷ 0x11027609 ∷ [])
    ∷ []

-- `codes.at(role)`, which throws where there is no such role.
unfoldable pub dtc_codes : ℕ → Option (List ℕ)
dtc_codes role = get_elem? code_table role
