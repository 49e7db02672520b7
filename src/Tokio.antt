-- ===== src/Tokio.antt =====
-- The channels of tokio that crates/csm-proxy/src/instances.rs uses, as a parameter: a state of all
-- channels, the calls that the program makes, and what their documentation says of them. Channels are named
-- by handles; a oneshot channel's handle is the number of oneshot channels made before it.
use crosspoint_simulator_mcp.Prelude.{
  ℕ, ◌+◌, ◌≡◌, Option, some, List, [], ◌∷◌, ◌++◌, ◌==◌, nat_eq, if◌then◌else◌,
}
use crosspoint_simulator_mcp.Messages.{SimToServer, ServerToSim}

-- What awaiting a oneshot receiver sees: no answer yet, a value, or a sender that was dropped.
pub data Poll : Type 0 where
  pending : Poll
  value : SimToServer → Poll
  closed : Poll

pub record Tokio : Type 1 where
  pub Net : Type 0
  -- mpsc::channel(capacity)
  pub mpsc_channel : ℕ → Net → ℕ × Net
  -- Sender::try_send, none for TrySendError
  pub try_send : ℕ → ServerToSim → Net → Option Net
  -- the drop of the last Sender
  pub drop_sender : ℕ → Net → Net
  -- the messages sent to a channel and not received yet
  pub queued : ℕ → Net → List ServerToSim
  -- oneshot::channel(), whose handle is `created` of the state before
  pub created : Net → ℕ
  pub oneshot_channel : Net → Net
  pub oneshot_send : ℕ → SimToServer → Net → Net
  pub oneshot_drop : ℕ → Net → Net
  pub poll : ℕ → Net → Poll

-- The first thing that happens to a oneshot sender settles what its receiver sees.
abbrev pub settle : Poll → Poll → Poll
settle pending p = p
settle (value m) p = value m
settle closed p = closed

-- The documented behaviour.
pub record TokioLaws (t : Tokio) : Type 0 where
  pub created-channel : (n : t.Net) → t.created (t.oneshot_channel n) ≡ t.created n + 1
  pub created-send :
      (c : ℕ) (m : SimToServer) (n : t.Net) → t.created (t.oneshot_send c m n) ≡ t.created n
  pub created-drop : (c : ℕ) (n : t.Net) → t.created (t.oneshot_drop c n) ≡ t.created n
  pub created-try_send :
      (h : ℕ) (m : ServerToSim) (n n' : t.Net)
      → t.try_send h m n ≡ some n'
      → t.created n' ≡ t.created n
  pub created-drop_sender : (h : ℕ) (n : t.Net) → t.created (t.drop_sender h n) ≡ t.created n
  pub created-mpsc : (cap : ℕ) (n : t.Net) → t.created (t.mpsc_channel cap n).1 ≡ t.created n
  pub poll-mpsc : (cap d : ℕ) (n : t.Net) → t.poll d (t.mpsc_channel cap n).1 ≡ t.poll d n
  pub poll-channel :
      (c : ℕ) (n : t.Net)
      → t.poll c (t.oneshot_channel n) ≡ (if t.created n == c then pending else t.poll c n)
  pub poll-send :
      (c d : ℕ) (m : SimToServer) (n : t.Net)
      → t.poll d (t.oneshot_send c m n)
        ≡ (if c == d then settle (t.poll d n) (value m) else t.poll d n)
  pub poll-drop :
      (c d : ℕ) (n : t.Net)
      → t.poll d (t.oneshot_drop c n) ≡ (if c == d then settle (t.poll d n) closed else t.poll d n)
  pub poll-try_send :
      (h d : ℕ) (m : ServerToSim) (n n' : t.Net)
      → t.try_send h m n ≡ some n'
      → t.poll d n' ≡ t.poll d n
  pub poll-drop_sender : (h d : ℕ) (n : t.Net) → t.poll d (t.drop_sender h n) ≡ t.poll d n
  pub queued-try_send :
      (h j : ℕ) (m : ServerToSim) (n n' : t.Net)
      → t.try_send h m n ≡ some n'
      → t.queued j n' ≡ (if h == j then t.queued j n ++ m ∷ [] else t.queued j n)
  pub queued-channel : (j : ℕ) (n : t.Net) → t.queued j (t.oneshot_channel n) ≡ t.queued j n
  pub queued-drop : (c j : ℕ) (n : t.Net) → t.queued j (t.oneshot_drop c n) ≡ t.queued j n
