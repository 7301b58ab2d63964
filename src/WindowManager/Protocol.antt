-- ===== src/WindowManager/Protocol.antt =====
-- window-manager/protocol/protocol.go: requests and responses, as they are after JSON decoding.
use tac_os.Base.{ℕ, ℤ, Bool, true, false, Bytes, codes, String, [], Option}

-- The channels are uint8.
pub record Color : Type 0 where
  pub r : ℕ
  pub g : ℕ
  pub b : ℕ
  pub a : ℕ

pub record Request : Type 0 where
  pub command : Bytes
  pub window_id : Bytes
  pub title : Bytes
  pub width : ℤ
  pub height : ℤ
  pub image_path : Bytes
  pub x : Option ℤ
  pub y : Option ℤ
  pub radius : ℤ
  pub color : Option Color

pub record Response : Type 0 where
  pub ok : Bool
  pub message : Bytes
  pub event : Bytes
  pub window_id : Bytes

-- `protocol.Response{OK: false, Message: message}`
abbrev pub refusal : Bytes → Response
refusal message = record { ok = false; message = message; event = []; window_id = [] }

-- `protocol.Response{OK: true, Message: message}`
abbrev pub success : String → Response
success message = record { ok = true; message = codes message; event = []; window_id = [] }
