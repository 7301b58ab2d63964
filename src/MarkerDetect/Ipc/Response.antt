-- ===== src/MarkerDetect/Ipc/Response.antt =====
-- prototypes/marker-detect/ipc/protocol.go: the responses, as values that the JSON encoder is given.
use tac_os.Base.{ℕ, ℤ, if◌then◌else◌, Bytes, codes, List, [], ◌∷◌}
use tac_os.MarkerDetect.Detection.{Floats, Detection}

-- `maxFrameBytes`, 64 << 10
abbrev pub max_frame_bytes : ℕ
max_frame_bytes = 65536

-- `detectionJSON`
pub record DetectionJson (F : Type 0) : Type 0 where
  pub id : ℤ
  pub relative_angle : F
  pub distance : F

-- `successJSON`, whose field `ok` is true, and `failureJSON`, where it is false
pub data Response (F : Type 0) : Type 0 where
  success : List (DetectionJson F) → Response F
  failure : Bytes → Response F

abbrev pub camera_unavailable_code : Bytes
camera_unavailable_code = codes "CAMERA_UNAVAILABLE"

abbrev pub detection_failed_code : Bytes
detection_failed_code = codes "DETECTION_FAILED"

abbrev pub bad_request_code : Bytes
bad_request_code = codes "BAD_REQUEST"

module _ {F : Type 0} ⦃floats : Floats F⦄ where
  -- the loop of `encodeSuccess`; an angle that is zero loses its sign
  unfoldable pub encode_detections : List (Detection F) → List (DetectionJson F)
  encode_detections [] = []
  encode_detections (d ∷ dets) =
      record {
        id = d.id;
        relative_angle =
            if floats.equal d.angle floats.zero_value then floats.zero_value else d.angle;
        distance = d.distance;
      }
      ∷ encode_detections dets

  unfoldable pub encode_success : List (Detection F) → Response F
  unfolding encode_detections
  encode_success dets = success (encode_detections dets)

abbrev pub encode_failure : {F : Type 0} → Bytes → Response F
encode_failure code = failure code
