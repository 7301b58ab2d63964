-- ===== src/TacticalMap/Messages/Received.antt =====
-- app/map: the targets that `receiveTargets` sends to `runMap`, as `RunWithBroker` joins them.
use tac_os.Base.{
  ◌≡◌, arith, pos, negsuc, if_both, true, false, not, ◌||◌, Bytes, bytes_eq, List, [], ◌∷◌, map,
  All, Option, none, some,
}
use tac_os.TacticalMap.Config.{Geo, Config, Target, validate, valid_coordinates, bad_probability}
use tac_os.TacticalMap.Frame.Total.{IsShowable}
use tac_os.TacticalMap.Messages.{
  Decoder, RecordError, Parsed, parsed, refused, check_target, on_record, parse_target, on_message,
  receive_line, receive_lines, sent_on, send_target,
}
use tac_os.TacticalMap.Session.{Client, target_update, run_map}
use tac_os.TacticalMap.Session.Building.{IsGoodEvent, IsSteady, run_map-IsSteady}

-- What IEEE 754 promises of an order.
abbrev pub IsOrdered : (F : Type 0) ⦃geo : Geo F⦄ → Type 0
IsOrdered F ⦃geo⦄ = (a b : F) → geo.less_eq a b ≡ true → geo.less b a ≡ false

module _ {F : Type 0} ⦃geo : Geo F⦄ where
  abbrev IfParsed : Parsed (Target F) → Type 0
  IfParsed (parsed t) = IsShowable t
  IfParsed (refused e) = Unit

  abbrev IfSome : Option (Target F) → Type 0
  IfSome (some t) = IsShowable t
  IfSome none = Unit

module _ {F : Type 0} ⦃geo : Geo F⦄ (ordered : IsOrdered F) where
  checked-IsShowable :
      (t : Target F)
      → (bytes_eq t.target_id []
          || not (valid_coordinates t.latitude t.longitude)
          || bad_probability t.probability)
        ≡ false
      → IsShowable t
  unfolding valid_coordinates
  checked-IsShowable t h = record {
    named = ground arith;
    probable = ground arith;
    latitude_finite = ground arith;
    longitude_finite = ground arith;
    latitude_inside = ground (
      arith,
      ordered (geo.of_int (negsuc 89)) t.latitude,
      ordered t.latitude (geo.of_int (pos 90)),
    );
    longitude_inside = ground (
      arith,
      ordered (geo.of_int (negsuc 179)) t.longitude,
      ordered t.longitude (geo.of_int (pos 180)),
    );
  }

  check_target-IfParsed : (o : Option (Target F)) → IfParsed (check_target o)
  unfolding check_target
  check_target-IfParsed none = tt
  check_target-IfParsed (some t) =
      if_both IfParsed
        (bytes_eq t.target_id []
          || not (valid_coordinates t.latitude t.longitude)
          || bad_probability t.probability)
        _ _ (λ e. tt) (λ e. checked-IsShowable t e)

  on_record-IfParsed :
      (e : Option RecordError) (p : Parsed (Target F)) → IfParsed p → IfParsed (on_record e p)
  unfolding on_record
  on_record-IfParsed none p h = h
  on_record-IfParsed (some e) p h = tt

  sent_on-IfSome : (p : Parsed (Target F)) → IfParsed p → IfSome (sent_on p)
  unfolding sent_on
  sent_on-IfSome (parsed t) h = h
  sent_on-IfSome (refused e) h = tt

  on_message-IfSome : (decoder : Decoder F) (o : Option Bytes) → IfSome (on_message decoder o)
  unfolding on_message parse_target
  on_message-IfSome decoder none = tt
  on_message-IfSome decoder (some payload) =
      sent_on-IfSome _
        (on_record-IfParsed _ (check_target (decoder.to_target payload)) (check_target-IfParsed _))

  send_target-IsGoodEvent :
      (o : Option (Target F)) (ts : List (Target F))
      → IfSome o
      → All IsGoodEvent (map target_update ts)
      → All IsGoodEvent (map target_update (send_target o ts))
  unfolding send_target
  send_target-IsGoodEvent none ts h a = a
  send_target-IsGoodEvent (some t) ts h a = (h, a)

  receive_lines-IsGoodEvent :
      (decoder : Decoder F) (lines : List Bytes)
      → All IsGoodEvent (map target_update (receive_lines decoder lines))
  unfolding receive_lines receive_line
  receive_lines-IsGoodEvent decoder [] = tt
  receive_lines-IsGoodEvent decoder (line ∷ lines) =
      send_target-IsGoodEvent _ (receive_lines decoder lines) (on_message-IfSome decoder _)
        (receive_lines-IsGoodEvent decoder lines)

  -- Whatever lines the broker sends, well-formed or not: a map that starts empty and gets the targets
  -- that are received from them keeps targets that can be shown, each id once, and never returns
  -- because a frame could not be made, if the configuration is valid and `<=` excludes `>`.
  pub received-IsSteady :
      {W : Type 0} (decoder : Decoder F) (client : Client W) (cfg : Config F) (lines : List Bytes)
      (w : W)
      → validate cfg ≡ none
      → IsSteady (run_map client cfg (map target_update (receive_lines decoder lines)) [] w)
  received-IsSteady decoder client cfg lines w valid =
      run_map-IsSteady client cfg valid _ [] w (receive_lines-IsGoodEvent decoder lines)
        (record { unique = tt; showable = tt })
