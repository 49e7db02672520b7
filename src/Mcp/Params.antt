-- ===== src/Mcp/Params.antt =====
-- crates/csm-proxy/src/mcp.rs: the arguments of the tools, as serde gives them: a field that a call
-- leaves out is already none or its default.
use crosspoint_simulator_mcp.Prelude.{ℕ, String, Bool, true, Option, List, ℤ}
use crosspoint_simulator_mcp.Mcp.Batch.{InjectBatchStep}

abbrev pub default_wait : Bool
default_wait = true

abbrev pub default_headless : Bool
default_headless = true

abbrev pub default_sample_book : Bool
default_sample_book = true

pub record InstanceParams : Type 0 where
  pub instance_id : Option String

pub record InjectTouchParams : Type 0 where
  pub instance_id : Option String
  pub kind : ℕ
  pub x : ℕ
  pub y : ℕ
  pub wait : Bool
  pub wait_mode : Option String
  pub space : Option String
  pub wait_ms : Option ℕ

pub record InjectKeyParams : Type 0 where
  pub instance_id : Option String
  pub name : String
  pub hold_ms : ℕ
  pub wait : Bool
  pub wait_mode : Option String
  pub wait_ms : Option ℕ

pub record InjectHomeParams : Type 0 where
  pub instance_id : Option String
  pub hold_ms : ℕ
  pub wait : Bool
  pub wait_mode : Option String
  pub wait_ms : Option ℕ

pub record InjectSwipeParams : Type 0 where
  pub instance_id : Option String
  pub start_x : ℕ
  pub start_y : ℕ
  pub end_x : ℕ
  pub end_y : ℕ
  pub duration_ms : ℕ
  pub wait : Bool
  pub wait_mode : Option String
  pub space : Option String
  pub wait_ms : Option ℕ

pub record SetInjectEnabledParams : Type 0 where
  pub instance_id : Option String
  pub enabled : Bool

pub record SnapshotParams : Type 0 where
  pub instance_id : Option String
  pub region : Bool
  pub x : ℕ
  pub y : ℕ
  pub width : ℕ
  pub height : ℕ
  pub format : ℕ
  pub wait : Bool

pub record SessionViewParams : Type 0 where
  pub instance_id : Option String
  pub paths : List String
  pub exclude_log_components : List String

pub record StartInstanceParams : Type 0 where
  pub instance_id : String
  pub headless : Bool
  pub cwd : Option String
  pub sample_book : Bool
  pub auto_sleep : Option Bool

pub record ObserveParams : Type 0 where
  pub instance_id : Option String
  pub wait_ms : Option ℕ
  pub until_log : Option String
  pub until_generation_gt : Option ℕ
  pub until_activity : Option String
  pub until_progress_page : Option ℤ

pub record InjectBatchParams : Type 0 where
  pub instance_id : Option String
  pub wait : Bool
  pub wait_mode : Option String
  pub space : Option String
  pub wait_ms : Option ℕ
  pub steps : List InjectBatchStep
