-- ===== src/Messages.antt =====
-- protos/crosspoint/sim/control/v1alpha1: the messages of a Session stream. `uint32` and `uint64` are
-- numbers, `int32` signed numbers. The generated fields that hold unknown input are left out, and so are
-- the two `float` coordinates of `TouchEdge`, which nothing reads.
use crosspoint_simulator_mcp.Prelude.{ℕ, ℤ, String, Bool, List, Option}

pub record Register : Type 0 where
  pub instance_id : String
  pub board_id : String
  pub controller : String
  pub width : ℕ
  pub height : ℕ
  pub cap_touch : Bool
  pub cap_home : Bool
  pub cap_frontlight : Bool
  pub pid : ℕ
  pub version : String

pub record Heartbeat : Type 0 where
  pub framebuffer_generation : ℕ
  pub inject_enabled : Bool
  pub headless : Bool
  pub activity : String
  pub reader_spine : ℤ
  pub reader_page : ℤ
  pub orientation : ℕ

pub record SnapshotFrame : Type 0 where
  pub pixels : List ℕ
  pub mime_type : String
  pub hash : String
  pub generation : ℕ
  pub width : ℕ
  pub height : ℕ

pub record LogLine : Type 0 where
  pub seq : ℕ
  pub log_type : ℕ
  pub severity : ℕ
  pub component : String
  pub text : String

pub record InputAck : Type 0 where
  pub accepted : Bool
  pub reason : String

pub data InputEvent : Type 0 where
  key : String → Bool → InputEvent
  touch : ℕ → InputEvent
  home : Bool → InputEvent
  host : ℕ → InputEvent

pub record InputObserved : Type 0 where
  pub source : ℕ
  pub event : Option InputEvent

pub record UiResult : Type 0 where
  pub painted : Bool
  pub generation : ℕ
  pub activity : String

-- The oneof of `SimToServer`. `snapshot_error` and `goodbye` carry their one text.
pub data SimPayload : Type 0 where
  register : Register → SimPayload
  heartbeat : Heartbeat → SimPayload
  snapshot : SnapshotFrame → SimPayload
  snapshot_error : String → SimPayload
  log : LogLine → SimPayload
  input_ack : InputAck → SimPayload
  input_observed : InputObserved → SimPayload
  goodbye : String → SimPayload
  ui_result : UiResult → SimPayload

pub record SimToServer : Type 0 where
  pub seq : ℕ
  pub corr : ℕ
  pub payload : Option SimPayload

pub data CoordinateSpace : Type 0 where
  unspecified panel logical : CoordinateSpace

pub record InjectTouch : Type 0 where
  pub kind : ℕ
  pub x : ℕ
  pub y : ℕ
  pub coordinate_space : CoordinateSpace

pub record InjectKey : Type 0 where
  pub name : String
  pub hold_ms : ℕ

pub record InjectSwipe : Type 0 where
  pub start_x : ℕ
  pub start_y : ℕ
  pub end_x : ℕ
  pub end_y : ℕ
  pub duration_ms : ℕ
  pub coordinate_space : CoordinateSpace

pub record SnapshotRequest : Type 0 where
  pub region : Bool
  pub x : ℕ
  pub y : ℕ
  pub width : ℕ
  pub height : ℕ
  pub format : ℕ

pub record SetSessionView : Type 0 where
  pub read_mask : List String
  pub exclude_log_components : List String

-- The oneof of `ServerToSim`.
pub data ServerPayload : Type 0 where
  inject_touch : InjectTouch → ServerPayload
  inject_key : InjectKey → ServerPayload
  inject_home : ℕ → ServerPayload
  inject_swipe : InjectSwipe → ServerPayload
  snapshot_request : SnapshotRequest → ServerPayload
  set_inject_enabled : Bool → ServerPayload
  shutdown : ServerPayload
  set_session_view : SetSessionView → ServerPayload

pub record ServerToSim : Type 0 where
  pub corr : ℕ
  pub ack_requested : Bool
  pub payload : ServerPayload
