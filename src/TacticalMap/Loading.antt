-- ===== src/TacticalMap/Loading.antt =====
-- app/map: `LoadConfig` of config.go, `LoadObservations` of messages.go and the checks of `RunWithBroker` of
-- broker.go. What files, JSON and PNG decoding give is an argument.
pub mod Loaded
use tac_os.Base.{
  ℕ, ◌+◌, ltb, leb, ℤ, int_eq, if◌then◌else◌, Bool, true, false, not, ◌||◌, Bytes, List, [], ◌∷◌,
  ◌++◌, codes, length, Option, none, some,
}
use tac_os.TacticalMap.Config.{Geo, Config, ConfigError, validate}
use tac_os.TacticalMap.Messages.{
  Decoder, Observation, MessageError, Parsed, parsed, refused, parse_observation, check_observation,
}

-- What the calls of `LoadConfig` return.
pub record Files (F : Type 0) : Type 0 where
  pub opened : Bool
  pub size : Option ℕ
  -- `decoder.Decode(&cfg)`, with unknown fields refused
  pub decoded : Option (Config F)
  -- the second `Decode` returns `io.EOF`
  pub at_end : Bool
  -- `filepath.Abs` of the path, joined to the directory of the configuration if it is relative
  pub absolute : Bytes → Option Bytes
  pub image_opened : Bytes → Bool
  -- width and height of `png.DecodeConfig`
  pub image_size : Bytes → Option (ℤ × ℤ)

pub data LoadError : Type 0 where
  unopened unreadable too_large undecodable not_one_object unresolved image_unopened
        image_unreadable wrong_size :
      LoadError
  invalid : ConfigError → LoadError

pub data LoadedConfig (F : Type 0) : Type 0 where
  loaded : Config F → LoadedConfig F
  load_failed : LoadError → LoadedConfig F

module _ {F : Type 0} where
  unfoldable pub on_image_size : Config F → Option (ℤ × ℤ) → LoadedConfig F
  on_image_size cfg none = load_failed image_unreadable
  on_image_size cfg (some (width, height)) =
      if not (int_eq width cfg.width) || not (int_eq height cfg.height)
      then load_failed wrong_size
      else loaded cfg

  unfoldable pub on_absolute : Files F → Config F → Option Bytes → LoadedConfig F
  unfolding on_image_size
  on_absolute files cfg none = load_failed unresolved
  on_absolute files cfg (some path) =
      if files.image_opened path
      then on_image_size (record cfg { image = path }) (files.image_size path)
      else load_failed image_unopened

  unfoldable pub on_validated : Files F → Config F → Option ConfigError → LoadedConfig F
  unfolding on_absolute
  on_validated files cfg (some e) = load_failed (invalid e)
  on_validated files cfg none = on_absolute files cfg (files.absolute cfg.image)

module _ {F : Type 0} ⦃geo : Geo F⦄ where
  unfoldable pub on_decoded : Files F → Option (Config F) → LoadedConfig F
  unfolding on_validated validate
  on_decoded files none = load_failed undecodable
  on_decoded files (some cfg) =
      if files.at_end then on_validated files cfg (validate cfg) else load_failed not_one_object

  unfoldable pub on_size : Files F → Option ℕ → LoadedConfig F
  unfolding on_decoded
  on_size files none = load_failed unreadable
  on_size files (some n) =
      if ltb 65536 n then load_failed too_large else on_decoded files files.decoded

  unfoldable pub load_config : Files F → LoadedConfig F
  unfolding on_size
  load_config files = if files.opened then on_size files files.size else load_failed unopened

-- The observations, or the line of the first that is refused.
pub data Observations (F : Type 0) : Type 0 where
  observations : List (Observation F) → Observations F
  bad_line : ℕ → MessageError → Observations F

unfoldable pub put_observation :
    {F : Type 0} → ℕ → Parsed (Observation F) → Observations F → Observations F
put_observation n (refused e) rest = bad_line n e
put_observation n (parsed o) (observations os) = observations (o ∷ os)
put_observation n (parsed o) (bad_line m e) = bad_line m e

module _ {F : Type 0} ⦃geo : Geo F⦄ (decoder : Decoder F) (is_blank : Bytes → Bool) where
  -- the loop of `LoadObservations`, from line `n` on
  unfoldable pub load_from : ℕ → List Bytes → Observations F
  unfolding put_observation parse_observation
  load_from n [] = observations []
  load_from n (line ∷ lines) =
      let rest = load_from (n + 1) lines in
      if is_blank line then rest else put_observation n (parse_observation decoder line) rest

  unfoldable pub load_observations : List Bytes → Observations F
  unfolding load_from
  load_observations lines = load_from 1 lines

-- `maxBrokerFrame`
abbrev pub max_broker_frame : ℕ
max_broker_frame = 1048576

pub data PublishError : Type 0 where
  invalid_observation : MessageError → PublishError
  unmarshalled line_too_long : PublishError

pub data Payloads : Type 0 where
  payloads : List Bytes → Payloads
  unpublished : PublishError → Payloads

unfoldable pub put_payload : Bytes → Payloads → Payloads
put_payload p (payloads ps) = payloads (p ∷ ps)
put_payload p (unpublished e) = unpublished e

unfoldable pub on_marshalled : Option Bytes → Payloads → Payloads
unfolding put_payload
on_marshalled none rest = unpublished unmarshalled
on_marshalled (some p) rest =
    if leb max_broker_frame (length p + length (codes "PUB observations \n"))
    then unpublished line_too_long
    else put_payload p rest

unfoldable pub on_checked :
    {F : Type 0} → (Observation F → Option Bytes) → Parsed (Observation F) → Payloads → Payloads
unfolding on_marshalled
on_checked marshal (refused e) rest = unpublished (invalid_observation e)
on_checked marshal (parsed o) rest = on_marshalled (marshal o) rest

-- the first loop of `RunWithBroker`
unfoldable pub payloads_of :
    {F : Type 0} ⦃geo : Geo F⦄ → (Observation F → Option Bytes) → List (Observation F) → Payloads
unfolding on_checked check_observation
payloads_of marshal [] = payloads []
payloads_of marshal (o ∷ os) =
    on_checked marshal (check_observation (some o)) (payloads_of marshal os)
