-- ===== src/MarkerDetect/Detection.antt =====
-- prototypes/marker-detect: marker/marker.go, `validate` of ipc/protocol.go. A float64 is a parameter.
use tac_os.Base.{
  ℕ, ◌+◌, ◌/◌, ◌%◌, if◌then◌else◌, ℤ, pos, int_ltb, Bool, false, not, ◌&&◌, ◌||◌, List, [], ◌∷◌,
  Option, none, some,
}

pub record Floats (F : Type 0) : Type 0 where
  pub is_nan : F → Bool
  pub is_inf : F → Bool
  -- Go's `<`
  pub less : F → F → Bool
  pub zero_value : F
  -- Go's `==`: the two zeros are equal, and NaN is equal to nothing
  pub equal : F → F → Bool

-- `TeamCount * PlayersPerTeam`
abbrev pub marker_count : ℕ
marker_count = 72

abbrev pub players_per_team : ℕ
players_per_team = 12

-- `IsValid`
abbrev pub is_marker : ℤ → Bool
is_marker id = not (int_ltb id (pos 0)) && int_ltb id (pos marker_count)

-- `Team` and `Player`, of a valid id
abbrev pub team : ℕ → ℕ
team id = id / players_per_team

abbrev pub player : ℕ → ℕ
player id = id % players_per_team

pub record Detection (F : Type 0) : Type 0 where
  pub id : ℤ
  pub angle : F
  pub distance : F

-- the first fault of a list of detections, with its index
pub data Fault : Type 0 where
  bad_id bad_angle bad_distance bad_order : ℕ → Fault

module _ {F : Type 0} ⦃floats : Floats F⦄ where
  -- `i > 0 && dets[i-1].ID >= d.ID`
  unfoldable pub out_of_order : Option (Detection F) → Detection F → Bool
  unfolding int_ltb
  out_of_order none d = false
  out_of_order (some previous) d = not (int_ltb previous.id d.id)

  -- the loop of `validate`, from index `i` on, behind the detection `previous`
  unfoldable pub validate_from : ℕ → Option (Detection F) → List (Detection F) → Option Fault
  unfolding out_of_order int_ltb
  validate_from i previous [] = none
  validate_from i previous (d ∷ dets) =
      let rest = validate_from (i + 1) (some d) dets in
      if not (is_marker d.id)
      then some (bad_id i)
      else if floats.is_nan d.angle || floats.is_inf d.angle
      then some (bad_angle i)
      else if floats.is_nan d.distance
          || floats.is_inf d.distance
          || not (floats.less floats.zero_value d.distance)
      then some (bad_distance i)
      else if out_of_order previous d
      then some (bad_order i)
      else rest

  unfoldable pub validate : List (Detection F) → Option Fault
  unfolding validate_from
  validate dets = validate_from 0 none dets
