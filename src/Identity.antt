-- ===== src/Identity.antt =====
-- src/lidar_identity.h: the identity of the one lidar of a role, which the node shows as
-- parameters. The mutex orders the calls; the writer of the current thread is an argument of the
-- guard.
pub mod Server
pub mod Guarded
use livox_ros_driver.Common.{
  ℕ, Bool, true, false, not, ◌&&◌, ◌||◌, List, [], ◌∷◌, ◌++◌, Option, none, some, leb, ◌==◌,
  if◌then◌else◌, take,
}
use livox_ros_driver.Common.Eq.{bytes_eq, codes}
use livox_ros_driver.Common.Int.{ℤ, pos}
use livox_ros_driver.Identity.Server.{ParamValue, text, number, flag, ParameterServer}
use livox_ros_driver.Recorder.{is_role}

-- What the code reads of `LivoxLidarInfo`.
pub record LidarInfo : Type 0 where
  pub dev_type : ℕ
  pub sn : List ℕ
  pub lidar_ip : List ℕ

pub record Identity : Type 0 where
  pub role : List ℕ
  pub ip : List ℕ
  pub sn : List ℕ
  pub type : ℕ
  pub valid : Bool
  pub handle : ℕ
  pub configured : Bool
  pub observed : Bool

unfoldable pub bounded_string : List ℕ → List ℕ
bounded_string [] = []
bounded_string (c ∷ cs) = if c == 0 then [] else c ∷ bounded_string cs

unfoldable pub all_visible : List ℕ → Bool
all_visible [] = true
all_visible (c ∷ cs) = leb 33 c && leb c 126 && all_visible cs

unfoldable pub valid_serial : List ℕ → Bool
valid_serial [] = false
valid_serial (c ∷ cs) = all_visible (c ∷ cs)

abbrev pub prefix : List ℕ
prefix = codes "device_info."

unfoldable pub is_device_info : List ℕ → Bool
is_device_info name = bytes_eq (take 12 name) prefix

-- The callback on every request to set parameters; `own` says that the thread is inside `Update`.
unfoldable pub guard_accepts : Bool → List (List ℕ × ParamValue) → Bool
guard_accepts own [] = true
guard_accepts own ((name, value) ∷ values) =
    if is_device_info name && not own then false else guard_accepts own values

-- The parameters that `Update` sets, in one request.
unfoldable pub identity_values : Identity → ℤ → List (List ℕ × ParamValue)
identity_values i stamp =
    (prefix ++ codes "ip", text i.ip)
    ∷ (prefix ++ codes "serial_number", text i.sn)
    ∷ (prefix ++ codes "device_type", number (pos i.type))
    ∷ (prefix ++ codes "identity_valid", flag i.valid)
    ∷ (prefix ++ codes "confirmed_at_ns", number stamp)
    ∷ []

abbrev blank_identity : List ℕ → Identity
blank_identity role = record {
  role = role;
  ip = [];
  sn = [];
  type = 0;
  valid = false;
  handle = 0;
  configured = false;
  observed = false;
}

abbrev pub matches : Identity → ℕ → LidarInfo → Bool
matches i handle info =
    i.configured && handle == i.handle && bytes_eq (bounded_string info.lidar_ip) i.ip

abbrev pub observed_identity : Identity → LidarInfo → Identity
observed_identity i info =
    let raw_sn = bounded_string info.sn in
    record i {
      observed = true;
      sn = (if valid_serial raw_sn then raw_sn else []);
      valid = valid_serial raw_sn;
      type = info.dev_type;
    }

module _ (ps : ParameterServer) where
  open ps use {Server}

  unfoldable pub update_parameters : Identity → Server → ℤ → Bool × Server
  update_parameters i s stamp = ps.set_atomically s (guard_accepts true) (identity_values i stamp)

  abbrev declare_then :
      Option Server
      → List ℕ
      → ParamValue
      → (Server → Option (Identity × Server))
      → Option (Identity × Server)
  declare_then none name value next = none
  declare_then (some s) name value next = elim (ps.declare s (prefix ++ name) value) [
    | none ↦ none
    | some s' ↦ next s'
  ]

  -- The constructor behind the declaration of the role.
  unfoldable pub declare_identity : List ℕ → List ℕ → Server → Option (Identity × Server)
  declare_identity role frame s = declare_then (some s) (codes "frame_id") (text frame) (λ s1.
      declare_then (some s1) (codes "ip") (text []) (λ s2.
        declare_then (some s2) (codes "serial_number") (text []) (λ s3.
          declare_then (some s3) (codes "device_type") (number (pos 0)) (λ s4.
            declare_then (some s4) (codes "identity_valid") (flag false) (λ s5.
              declare_then (some s5) (codes "confirmed_at_ns") (number (pos 0))
                (λ s6. some (blank_identity role, s6)))))))

  -- The constructor; `none` is an exception.
  unfoldable pub new_identity : List ℕ → List ℕ → Server → Option (Identity × Server)
  new_identity role frame s =
      if not (is_role role)
      then none
      else if ps.has_parameter s (prefix ++ codes "role")
      then declare_identity role frame s
      else declare_then (some s) (codes "role") (text role) (declare_identity role frame)

  unfoldable pub configure_identity : Identity → Server → ℕ → List ℕ → Identity × Server
  configure_identity i s handle ip =
      let i' : Identity = record i {
        handle = handle;
        configured = true;
        observed = false;
        ip = ip;
        sn = [];
        type = 0;
        valid = false;
      } in
      (i', (update_parameters i' s (pos 0)).1)

  -- `Observe`; the clock of the node is an argument.
  unfoldable pub observe_identity :
      Identity → Server → ℤ → ℕ → Option LidarInfo → Bool × (Identity × Server)
  observe_identity i s now handle none = (false, (i, s))
  observe_identity i s now handle (some info) =
      if not (matches i handle info)
      then (false, (i, s))
      else let i' = observed_identity i info in
        let updated = update_parameters i' s now in (updated.0, (i', updated.1))
