-- ===== src/Identity/Server.antt =====
-- The parameters of a ROS node, which src/lidar_identity.h uses and rclcpp implements: an
-- interface with what its documentation says of setting parameters in one request, and a table
-- that fills it.
use livox_ros_driver.Common.{
  ℕ, ◌≡◌, refl, ◌∙◌, Bool, true, false, ◌&&◌, List, [], ◌∷◌, Option, none, some, if◌then◌else◌,
  arith,
}
use livox_ros_driver.Common.Eq.{bytes_eq_instance}
use livox_ros_driver.Common.Assoc.{lookup, insert, lookup-insert}
use livox_ros_driver.Common.Int.{ℤ}

pub data ParamValue : Type 0 where
  text : List ℕ → ParamValue
  number : ℤ → ParamValue
  flag : Bool → ParamValue

-- `set_atomically` asks the callback that the node registered; `declare` throws for a name that is
-- declared already.
pub record ParameterServer : Type 1 where
  pub Server : Type 0
  pub get : Server → List ℕ → Option ParamValue
  -- The declaration of the name allows the value: the type, a range, and whether it is read-only.
  pub admits : Server → List ℕ → ParamValue → Bool
  pub has_parameter : Server → List ℕ → Bool
  pub declare : Server → List ℕ → ParamValue → Option Server
  pub set_atomically :
      Server → (List (List ℕ × ParamValue) → Bool) → List (List ℕ × ParamValue) → Bool × Server

unfoldable pub insert_values :
    List (List ℕ × ParamValue) → List (List ℕ × ParamValue) → List (List ℕ × ParamValue)
insert_values [] table = table
insert_values ((name, value) ∷ values) table = insert_values values (insert name value table)

-- The value that a request leaves for a name that had `old`.
unfoldable pub final_value :
    List (List ℕ × ParamValue) → List ℕ → Option ParamValue → Option ParamValue
final_value [] name old = old
final_value ((n, value) ∷ values) name old =
    final_value values name (if bytes_eq_instance.beq n name then some value else old)

-- A parameter keeps the type that it was declared with.
abbrev pub same_type : Option ParamValue → ParamValue → Bool
same_type none new = false
same_type (some (text old)) (text new) = true
same_type (some (number old)) (number new) = true
same_type (some (flag old)) (flag new) = true
same_type (some (text old)) (number new) = false
same_type (some (text old)) (flag new) = false
same_type (some (number old)) (text new) = false
same_type (some (number old)) (flag new) = false
same_type (some (flag old)) (text new) = false
same_type (some (flag old)) (number new) = false

-- The declarations allow every value of a request.
unfoldable pub all_admitted : (ps : ParameterServer) → ps.Server → List (List ℕ × ParamValue) → Bool
all_admitted ps s [] = true
all_admitted ps s ((name, value) ∷ values) = ps.admits s name value && all_admitted ps s values

-- A request that the declarations allow is done as a whole or not at all, and its callback can refuse it.
pub record IsAtomic (ps : ParameterServer) : Type 0 where
  pub refused :
      (s : ps.Server) (guard : List (List ℕ × ParamValue) → Bool) (vs : List (List ℕ × ParamValue))
      → guard vs ≡ false
      → all_admitted ps s vs ≡ true
      → ps.set_atomically s guard vs ≡ (false, s)
  pub accepted :
      (s : ps.Server) (guard : List (List ℕ × ParamValue) → Bool) (vs : List (List ℕ × ParamValue))
      → guard vs ≡ true
      → all_admitted ps s vs ≡ true
      → (ps.set_atomically s guard vs).0 ≡ true
  pub set_values :
      (s : ps.Server) (guard : List (List ℕ × ParamValue) → Bool) (vs : List (List ℕ × ParamValue))
      → (ps.set_atomically s guard vs).0 ≡ true
      → (name : List ℕ)
      → ps.get (ps.set_atomically s guard vs).1 name ≡ final_value vs name (ps.get s name)

abbrev is_some : Option ParamValue → Bool
is_some none = false
is_some (some v) = true

abbrev table_typed : List (List ℕ × ParamValue) → List (List ℕ × ParamValue) → Bool
table_typed table [] = true
table_typed table ((name, value) ∷ values) =
    same_type (lookup name table) value && table_typed table values

abbrev table_set :
    List (List ℕ × ParamValue)
    → (List (List ℕ × ParamValue) → Bool)
    → List (List ℕ × ParamValue)
    → Bool × List (List ℕ × ParamValue)
table_set table guard values =
    if guard values
    then (if table_typed table values then (true, insert_values values table) else (false, table))
    else (false, table)

abbrev pub table_server : ParameterServer
table_server = record {
  Server = List (List ℕ × ParamValue);
  get = λ s name. lookup name s;
  admits = λ s name value. same_type (lookup name s) value;
  has_parameter = λ s name. is_some (lookup name s);
  declare = λ s name value. if is_some (lookup name s) then none else some (insert name value s);
  set_atomically = table_set;
}

all_admitted_table :
    (s vs : List (List ℕ × ParamValue)) → all_admitted table_server s vs ≡ table_typed s vs
unfolding all_admitted
all_admitted_table s [] = refl
all_admitted_table s ((name, value) ∷ vs) = rw (all_admitted_table s vs) refl

lookup-insert_values :
    (vs table : List (List ℕ × ParamValue)) (name : List ℕ)
    → lookup name (insert_values vs table) ≡ final_value vs name (lookup name table)
unfolding insert_values final_value
lookup-insert_values [] table name = refl
lookup-insert_values ((n, value) ∷ vs) table name =
    lookup-insert_values vs (insert n value table) name ∙ rw (lookup-insert n name value table) refl

pub table_server-IsAtomic : IsAtomic table_server
table_server-IsAtomic = record {
  refused = λ s guard vs h d. rw h refl;
  accepted = λ s guard vs h d. rw (h, typed_table s vs d) refl;
  set_values =
      λ s guard vs h name. applied s guard vs (guard vs) (table_typed s vs) refl refl h name;
}
  where
    typed_table :
        (s vs : List (List ℕ × ParamValue))
        → all_admitted table_server s vs ≡ true
        → table_typed s vs ≡ true
    typed_table s vs d = rw (← all_admitted_table s vs) d

    applied :
        (s : List (List ℕ × ParamValue)) (guard : List (List ℕ × ParamValue) → Bool)
        (vs : List (List ℕ × ParamValue)) (g d : Bool)
        → guard vs ≡ g
        → table_typed s vs ≡ d
        → (table_set s guard vs).0 ≡ true
        → (name : List ℕ)
        → lookup name (table_set s guard vs).1 ≡ final_value vs name (lookup name s)
    applied s guard vs true true eg ed h name = rw (eg, ed) (lookup-insert_values vs s name)
    applied s guard vs true false eg ed h name = ground (arith, eg, ed, h)
    applied s guard vs false d eg ed h name = ground (arith, eg, ed, h)
