-- ===== src/Tests/Channels.antt =====
-- Channels that meet the laws of `TokioLaws`: bounded queues, and oneshot channels by their number.
use crosspoint_simulator_mcp.Prelude.{
  ℕ, ◌+◌, ◌≡◌, refl, Option, none, some, List, [], ◌∷◌, ◌++◌, ◌==◌, nat_eq, if◌then◌else◌,
  unwrap_or, ltb, length, arith, nat_beq_iff,
}
use crosspoint_simulator_mcp.Prelude.Dict
use crosspoint_simulator_mcp.Prelude.Dict.{lookup-insert}
use crosspoint_simulator_mcp.Messages.{ServerToSim}
use crosspoint_simulator_mcp.Tokio.{Tokio, TokioLaws, Poll, pending, value, closed, settle}

pub record Channels : Type 0 where
  pub queues : List (ℕ × (ℕ × List ServerToSim))
  pub made : ℕ
  pub oneshots : List (ℕ × Poll)
  pub count : ℕ

abbrev pub no_channels : Channels
no_channels = record { queues = []; made = 0; oneshots = []; count = 0 }

abbrev pub poll_of : ℕ → Channels → Poll
poll_of c n = unwrap_or (Dict.lookup c n.oneshots) closed

abbrev pub queue_of : Option (ℕ × List ServerToSim) → List ServerToSim
queue_of none = []
queue_of (some (cap, q)) = q

abbrev pub enqueue : ℕ → ServerToSim → Channels → Option (ℕ × List ServerToSim) → Option Channels
enqueue h m n none = none
enqueue h m n (some (room, q)) =
    if ltb (length q) room
    then some (record n { queues = Dict.insert h (room, q ++ m ∷ []) n.queues })
    else none

abbrev pub channels : Tokio
channels = record {
  Net = Channels;
  mpsc_channel = λ room n.
      (n.made, record n { made = n.made + 1; queues = Dict.insert n.made (room, []) n.queues });
  try_send = λ h m n. enqueue h m n (Dict.lookup h n.queues);
  drop_sender = λ h n. n;
  queued = λ h n. queue_of (Dict.lookup h n.queues);
  created = λ n. n.count;
  oneshot_channel =
      λ n. record n { count = n.count + 1; oneshots = Dict.insert n.count pending n.oneshots };
  oneshot_send =
      λ c m n. record n { oneshots = Dict.insert c (settle (poll_of c n) (value m)) n.oneshots };
  oneshot_drop =
      λ c n. record n { oneshots = Dict.insert c (settle (poll_of c n) closed) n.oneshots };
  poll = poll_of;
}

enqueue-some :
    (h : ℕ) (m : ServerToSim) (n n' : Channels) (q : Option (ℕ × List ServerToSim))
    → enqueue h m n q ≡ some n'
    → (room : ℕ) × (r : List ServerToSim) × (q ≡ some (room, r))
      × (n' ≡ record n { queues = Dict.insert h (room, r ++ m ∷ []) n.queues })
enqueue-some h m n n' none e = cc
enqueue-some h m n n' (some (room, r)) e = (room, r, refl, ground arith)

poll_insert :
    (c d : ℕ) (p : Poll) (m : List (ℕ × Poll))
    → unwrap_or (Dict.lookup d (Dict.insert c p m)) closed
      ≡ (if c == d then p else unwrap_or (Dict.lookup d m) closed)
poll_insert c d p m = ground (arith, lookup-insert c d p m)

pub channels-TokioLaws : TokioLaws channels
channels-TokioLaws = record {
  created-channel = λ n. refl;
  created-send = λ c m n. refl;
  created-drop = λ c n. refl;
  created-try_send = λ h m n n' e.
      let (_, _, _, same) = enqueue-some h m n n' (Dict.lookup h n.queues) e in rw same;
  created-drop_sender = λ h n. refl;
  created-mpsc = λ room n. refl;
  poll-mpsc = λ room d n. refl;
  poll-channel = λ c n. poll_insert n.count c pending n.oneshots;
  poll-send = λ c d m n.
      ground (arith, poll_insert c d (settle (poll_of c n) (value m)) n.oneshots, nat_beq_iff c d);
  poll-drop = λ c d n.
      ground (arith, poll_insert c d (settle (poll_of c n) closed) n.oneshots, nat_beq_iff c d);
  poll-try_send = λ h d m n n' e.
      let (_, _, _, same) = enqueue-some h m n n' (Dict.lookup h n.queues) e in rw same;
  poll-drop_sender = λ h d n. refl;
  queued-try_send = λ h j m n n' e.
      let (room, r, there, same) = enqueue-some h m n n' (Dict.lookup h n.queues) e in
      rw same
        (ground (arith, lookup-insert h j (room, r ++ m ∷ []) n.queues, there, nat_beq_iff h j));
  queued-channel = λ j n. refl;
  queued-drop = λ c j n. refl;
}
