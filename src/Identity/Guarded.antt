-- ===== src/Identity/Guarded.antt =====
-- src/lidar_identity.h: who can change the parameters of the identity, and what they hold.
use mathlib.Core.Path.{subst}
use mathlib.Core.Option.{some-injective}
use livox_ros_driver.Common.{
  ℕ, zero, suc, ◌≤◌, ◌≢◌, ◌↔◌, sym, ap, ◌∙◌, ◌++◌, get_elem?, Bool-cases, inl, inr, ◌≡◌, refl, Bool,
  true, false, List, [], ◌∷◌, some, if◌then◌else◌, arith,
}
use livox_ros_driver.Common.Eq.{bytes_eq, codes, bytes_eq_iff}
use livox_ros_driver.Common.Int.{ℤ, pos}
use livox_ros_driver.Identity.Server.{
  ParamValue, text, number, flag, ParameterServer, IsAtomic, all_admitted, final_value,
}
use livox_ros_driver.Identity.{
  Identity, LidarInfo, is_device_info, guard_accepts, identity_values, update_parameters,
  observe_identity, observed_identity, matches, bounded_string, valid_serial, all_visible,
}

guarded_name : (rest : List ℕ) → is_device_info (codes "device_info." ++ rest) ≡ true
unfolding is_device_info bytes_eq
guarded_name rest = refl

guard_refuses :
    (values : List (List ℕ × ParamValue)) (k : ℕ) (rest : List ℕ) (value : ParamValue)
    → get_elem? values k ≡ some (codes "device_info." ++ rest, value)
    → guard_accepts false values ≡ false
unfolding guard_accepts
guard_refuses [] k rest value at = cc
guard_refuses ((name, v) ∷ values) zero rest value at =
    let same : name ≡ codes "device_info." ++ rest =
      ap (λ (p : List ℕ × ParamValue). p.0) (some-injective _ _ at) in
    let guarded : is_device_info name ≡ true = ap is_device_info same ∙ guarded_name rest in
    rw guarded refl
guard_refuses ((name, v) ∷ values) (suc k) rest value at = elim (Bool-cases (is_device_info name)) [
  | inl guarded ↦ rw guarded refl
  | inr free ↦ rw free (guard_refuses values k rest value at)
]

guard_own : (values : List (List ℕ × ParamValue)) → guard_accepts true values ≡ true
unfolding guard_accepts
guard_own [] = refl
guard_own ((name, value) ∷ values) = ground (arith, guard_own values)

-- The five values that a node shows.
pub record Shows (ps : ParameterServer) (s : ps.Server) (ip sn : List ℕ) (type : ℕ) (valid : Bool)
    (stamp : ℤ) : Type 0 where
  pub ip_shown : ps.get s (codes "device_info.ip") ≡ some (text ip)
  pub sn_shown : ps.get s (codes "device_info.serial_number") ≡ some (text sn)
  pub type_shown : ps.get s (codes "device_info.device_type") ≡ some (number (pos type))
  pub valid_shown : ps.get s (codes "device_info.identity_valid") ≡ some (flag valid)
  pub time_shown : ps.get s (codes "device_info.confirmed_at_ns") ≡ some (number stamp)

-- A text that is not empty, of visible ASCII.
pub record IsVisible (serial : List ℕ) : Type 0 where
  pub not_empty : serial ≢ []
  pub visible : (k c : ℕ) → get_elem? serial k ≡ some c → (33 ≤ c) × (c ≤ 126)

all_visible_from :
    (serial : List ℕ)
    → all_visible serial ≡ true
    → (k c : ℕ) → get_elem? serial k ≡ some c
    → (33 ≤ c) × (c ≤ 126)
unfolding all_visible
all_visible_from [] h k c at = cc
all_visible_from (d ∷ ds) h zero c at =
    let same : d ≡ c = cc in (ground (arith, h, same), ground (arith, h, same))
all_visible_from (d ∷ ds) h (suc k) c at = all_visible_from ds (ground (arith, h)) k c at

all_visible_to :
    (serial : List ℕ)
    → ((k c : ℕ) → get_elem? serial k ≡ some c → (33 ≤ c) × (c ≤ 126))
    → all_visible serial ≡ true
unfolding all_visible
all_visible_to [] h = refl
all_visible_to (d ∷ ds) h =
    let (low, high) = h 0 d refl in
    let rest = all_visible_to ds (λ k. h (suc k)) in ground (arith, low, high, rest)

valid_serial_iff : (serial : List ℕ) → (valid_serial serial ≡ true) ↔ IsVisible serial
unfolding valid_serial
valid_serial_iff [] = (λ h. cc, λ v. absurd (v.not_empty refl))
valid_serial_iff (c ∷ cs) = (
  λ h. record { not_empty = λ e. cc; visible = all_visible_from (c ∷ cs) h },
  λ v. all_visible_to (c ∷ cs) v.visible,
)

matches-true :
    (i : Identity) (handle : ℕ) (info : LidarInfo)
    → i.configured ≡ true
    → handle ≡ i.handle
    → bounded_string info.lidar_ip ≡ i.ip
    → matches i handle info ≡ true
matches-true i handle info c h ip =
    let same = (bytes_eq_iff (bounded_string info.lidar_ip) i.ip).1 ip in
    rw (c, same) (ground arith)

module _ (ps : ParameterServer) (atomic : IsAtomic ps) where
  -- With a node that does a request as a whole or not at all, a request from outside `Update`, of
  -- values that the declarations allow, that names any parameter whose name begins with
  -- `device_info.`, at any place, is refused as a whole and changes no parameter.
  pub external_refused :
      (s : ps.Server) (values : List (List ℕ × ParamValue)) (k : ℕ) (rest : List ℕ)
      (value : ParamValue)
      → get_elem? values k ≡ some (codes "device_info." ++ rest, value)
      → all_admitted ps s values ≡ true
      → ps.set_atomically s (guard_accepts false) values ≡ (false, s)
  external_refused s values k rest value at typed =
      atomic.refused s (guard_accepts false) values (guard_refuses values k rest value at) typed

  update_parameters-Shows :
      (i : Identity) (s : ps.Server) (stamp : ℤ)
      → all_admitted ps s (identity_values i stamp) ≡ true
      → ((update_parameters ps i s stamp).0 ≡ true)
        × Shows ps (update_parameters ps i s stamp).1 i.ip i.sn i.type i.valid stamp
  unfolding update_parameters identity_values final_value bytes_eq
  update_parameters-Shows i s stamp declared =
      let values = identity_values i stamp in
      let done = atomic.accepted s (guard_accepts true) values (guard_own values) declared in
      let value = atomic.set_values s (guard_accepts true) values done in
      (
        done,
        record {
          ip_shown = value (codes "device_info.ip");
          sn_shown = value (codes "device_info.serial_number");
          type_shown = value (codes "device_info.device_type");
          valid_shown = value (codes "device_info.identity_valid");
          time_shown = value (codes "device_info.confirmed_at_ns");
        },
      )

  -- With a node that does a request as a whole or not at all, whose declarations allow the five
  -- new values: `Observe` of the configured handle at the configured address succeeds, and the
  -- node then shows the observed address, the observed type of device, the time, and whether the
  -- observed serial number up to its first 0 is not empty and visible ASCII. It shows that serial
  -- number if so, and an empty one otherwise.
  pub observe_identity-Shows :
      (i : Identity) (s : ps.Server) (now : ℤ) (handle : ℕ) (info : LidarInfo)
      → i.configured ≡ true
      → handle ≡ i.handle
      → bounded_string info.lidar_ip ≡ i.ip
      → all_admitted ps s (identity_values (observed_identity i info) now) ≡ true
      → let after = observe_identity ps i s now handle (some info) in
        let serial = bounded_string info.sn in
        (after.0 ≡ true)
        × ((valid : Bool) × ((valid ≡ true) ↔ IsVisible serial)
            × Shows ps after.1.1
                (bounded_string info.lidar_ip)
                (if valid then serial else [])
                info.dev_type
                valid
                now)
  unfolding observe_identity
  observe_identity-Shows i s now handle info c h ip typed =
      let i' = observed_identity i info in
      let serial = bounded_string info.sn in
      let (done, shown) = update_parameters-Shows i' s now typed in
      let at_ip =
        subst
          (λ (a : List ℕ). Shows ps (update_parameters ps i' s now).1 a i'.sn i'.type i'.valid now)
          (sym ip) shown in
      rw (matches-true i handle info c h ip, observe_identity)
        (done, (valid_serial serial, valid_serial_iff serial, at_ip))
