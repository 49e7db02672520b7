-- ===== src/History.antt =====
-- The interleavings of crates/csm-proxy: what the session tasks and the tool calls do to the one
-- `InstanceMap`, one locked step at a time, in any order. A waiting call is two actions, `sends` and
-- `finishes`.
pub mod Steps
pub mod Waits
pub mod Answered
pub mod Unordered
pub mod Entries
pub mod Table
pub mod Insertion
pub mod Registry
pub mod Thinning
pub mod Numbered
pub mod Sequence
use crosspoint_simulator_mcp.Prelude.{
  ℕ, String, Bool, Option, none, some, List, [], ◌∷◌, Result, ok, err,
}
use crosspoint_simulator_mcp.Messages.{SimToServer, ServerToSim}
use crosspoint_simulator_mcp.Tokio.{Tokio}
use crosspoint_simulator_mcp.State.{InstanceMap, WaitKind, WaitError, TrySendError}
use crosspoint_simulator_mcp.Instances.{
  take_corr, set_default_instance, try_send, set_read_mask, set_exclude_log_components,
  try_recv_inbound,
}
use crosspoint_simulator_mcp.Waiters.{send_start, send_finish}
use crosspoint_simulator_mcp.Session.{Session, Item, ConnectError, open_session, receive}

pub data Action : Type 0 where
  opens : Option Item → Action
  receives : Session → Option Item → Action
  sends : String → ServerToSim → WaitKind → Action
  finishes : ℕ → ℕ → Bool → Action
  enqueues : String → ServerToSim → Action
  drains : String → Action
  masks : String → List String → Action
  excludes : String → List String → Action
  numbers : Action
  defaults : Option String → Action

module _ (t : Tokio) where
  abbrev pub after_open :
      InstanceMap t → Result (InstanceMap t × Session) ConnectError → InstanceMap t
  after_open s (ok (s', session)) = s'
  after_open s (err e) = s

  abbrev pub after_finish :
      InstanceMap t → Option (InstanceMap t × Result SimToServer WaitError) → InstanceMap t
  after_finish s none = s
  after_finish s (some (s', reply)) = s'

  abbrev pub after_send : InstanceMap t → Result (InstanceMap t) TrySendError → InstanceMap t
  after_send s (ok s') = s'
  after_send s (err e) = s

  unfoldable pub step : InstanceMap t → Action → InstanceMap t
  step s (opens first) = after_open s (open_session t s first)
  step s (receives session item) = (receive t s session item).0
  step s (sends id msg kind) = (send_start t s id msg kind).0
  step s (finishes corr rx elapsed) = after_finish s (send_finish t s corr rx elapsed)
  step s (enqueues id msg) = after_send s (try_send t s id msg)
  step s (drains id) = (try_recv_inbound t s id).0
  step s (masks id paths) = set_read_mask t s id paths
  step s (excludes id components) = set_exclude_log_components t s id components
  step s numbers = (take_corr t s).1
  step s (defaults id) = set_default_instance t s id

  unfoldable pub run : InstanceMap t → List Action → InstanceMap t
  run s [] = s
  run s (a ∷ actions) = run (step s a) actions
