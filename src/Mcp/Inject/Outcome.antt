-- ===== src/Mcp/Inject/Outcome.antt =====
-- The inject tools of crates/csm-proxy/src/mcp.rs: that a call ends, and what its success means.
use crosspoint_simulator_mcp.Prelude.{
  ℕ, ◌≡◌, refl, String, Bool, true, false, Option, none, some, Result, ok, err, arith, leb,
  unwrap_or, Bool-cases, inl, inr, string_eq,
}
use crosspoint_simulator_mcp.Messages.{SimToServer, SimPayload, ServerPayload}
use crosspoint_simulator_mcp.Tokio.{Tokio, Poll, pending, value, closed}
use crosspoint_simulator_mcp.State.{InstanceMap, InstanceSnapshot, WaitKind, WaitError}
use crosspoint_simulator_mcp.Instances.{take_corr}
use crosspoint_simulator_mcp.Waiters.{send_start, send_finish, awaited}
use crosspoint_simulator_mcp.History.{run}
use crosspoint_simulator_mcp.Json.{Value}
use crosspoint_simulator_mcp.Mcp.Requests.{
  Pause, Reply, resolve, replied, paused, wait_for, wait_resolved, enqueue_wait, reply_timeout,
  request, enqueue,
}
use crosspoint_simulator_mcp.Mcp.Inject.{
  Waiting, answered, inject_as, inject, inject_reply, inject_wait_kind,
}

-- The payloads by which a simulator says that it took the input.
abbrev pub accepts : Option SimPayload → Bool
accepts (some (SimPayload.ui_result _)) = true
accepts (some (SimPayload.input_ack ack)) = ack.accepted
accepts _ = false

module _ (t : Tokio) where
  -- A call that has a result.
  abbrev pub Returns {ℓ} : {A : Type ℓ} → Option A → Type ℓ
  Returns {A = A} o = (a : A) × (o ≡ some a)

  awaited-Returns : (s : InstanceMap t) (corr : ℕ) (p : Poll) → Returns (awaited t s corr true p)
  awaited-Returns s corr pending = (_, refl)
  awaited-Returns s corr (value reply) = (_, refl)
  awaited-Returns s corr closed = (_, refl)

  replied-Returns :
      (id : String) (corr : ℕ) (o : Option (InstanceMap t × Result SimToServer WaitError))
      → Returns o
      → Returns (replied t id corr o)
  replied-Returns id corr none (a, e) = cc
  replied-Returns id corr (some (s, ok reply)) r = (_, refl)
  replied-Returns id corr (some (s, err e)) r = (_, refl)

  paused-Returns :
      (pause : Pause) (id : String) (corr timeout : ℕ) (x : InstanceMap t × Result ℕ WaitError)
      → leb timeout pause.waited_ms ≡ true
      → Returns (paused t pause id corr timeout x)
  unfolding send_finish
  paused-Returns pause id corr timeout (s, err e) late = (_, refl)
  paused-Returns pause id corr timeout (s, ok rx) late =
      let s₁ = run t s pause.meanwhile in
      rw late (
        replied-Returns id corr (awaited t s₁ corr true (t.poll rx s₁.net))
          (awaited-Returns s₁ corr (t.poll rx s₁.net)))

  pub wait_resolved-Returns :
      (s : InstanceMap t) (pause : Pause) (ack : Bool) (payload : ServerPayload) (kind : WaitKind)
      (timeout : ℕ) (o : Result InstanceSnapshot String)
      → leb timeout pause.waited_ms ≡ true
      → Returns (wait_resolved t s pause ack payload kind timeout o)
  unfolding wait_for
  wait_resolved-Returns s pause ack payload kind timeout (err e) late = (_, refl)
  wait_resolved-Returns s pause ack payload kind timeout (ok snap) late =
      let id = snap.register.instance_id in
      let (corr, s₁) = take_corr t s in
      paused-Returns pause id corr timeout (send_start t s₁ id (request corr ack payload) kind) late

  answered-Returns : (o : Option (InstanceMap t × Reply t)) → Returns o → Returns (answered t o)
  answered-Returns none (a, e) = cc
  answered-Returns (some (s, ok reply)) r = (_, refl)
  answered-Returns (some (s, err e)) r = (_, refl)

  inject_as-Returns :
      (s : InstanceMap t) (pause : Pause) (given : Option String) (wait_ms : Option ℕ)
      (payload : ServerPayload) (kind : Result WaitKind String)
      → leb (unwrap_or wait_ms reply_timeout) pause.waited_ms ≡ true
      → Returns (inject_as t s pause given wait_ms payload kind)
  unfolding enqueue_wait
  inject_as-Returns s pause given wait_ms payload (err e) late = (_, refl)
  inject_as-Returns s pause given wait_ms payload (ok kind) late = answered-Returns _ (
      wait_resolved-Returns s pause true payload kind (unwrap_or wait_ms reply_timeout)
        (resolve t s given) late)

  -- An inject call returns at the latest when its timeout has passed, `wait_ms` or else two seconds,
  -- whatever the other tasks do meanwhile.
  pub inject-returns :
      (s : InstanceMap t) (pause : Pause) (given : Option String) (w : Waiting)
      (payload : ServerPayload)
      → leb (unwrap_or w.wait_ms reply_timeout) pause.waited_ms ≡ true
      → (result : InstanceMap t × Result Value String) × (inject t s pause given w payload
          ≡ some result)
  unfolding inject
  inject-returns s pause given w payload late = elim (Bool-cases w.wait) [
    | inl waits ↦
        rw waits
          (inject_as-Returns s pause given w.wait_ms payload (inject_wait_kind w.wait_mode) late)
    | inr sends ↦ rw sends (enqueue t s given false payload, refl)
  ]

  -- The answer that a successful call rests on.
  abbrev pub Accepted : InstanceMap t → Value → Type 0
  Accepted s v =
      (rx : ℕ) × (id : String) × (corr : ℕ) × (reply : SimToServer) × (t.poll rx s.net
        ≡ value reply)
      × (accepts reply.payload ≡ true)
      × (inject_reply t s id corr reply.payload ≡ ok v)

  inject_reply-accepts :
      (s : InstanceMap t) (id : String) (corr : ℕ) (payload : Option SimPayload) (v : Value)
      → inject_reply t s id corr payload ≡ ok v
      → accepts payload ≡ true
  unfolding inject_reply
  inject_reply-accepts s id corr none v h = cc
  inject_reply-accepts s id corr (some (SimPayload.register _)) v h = cc
  inject_reply-accepts s id corr (some (SimPayload.heartbeat _)) v h = cc
  inject_reply-accepts s id corr (some (SimPayload.snapshot _)) v h = cc
  inject_reply-accepts s id corr (some (SimPayload.snapshot_error _)) v h = cc
  inject_reply-accepts s id corr (some (SimPayload.log _)) v h = cc
  inject_reply-accepts s id corr (some (SimPayload.input_ack ack)) v h = ground arith
  inject_reply-accepts s id corr (some (SimPayload.input_observed _)) v h = cc
  inject_reply-accepts s id corr (some (SimPayload.goodbye _)) v h = cc
  inject_reply-accepts s id corr (some (SimPayload.ui_result _)) v h = refl

  awaited-polled :
      (s s' : InstanceMap t) (corr rx : ℕ) (late : Bool) (p : Poll) (reply : SimToServer)
      → t.poll rx s.net ≡ p
      → awaited t s corr late p ≡ some (s', ok reply)
      → t.poll rx s'.net ≡ value reply
  awaited-polled s s' corr rx late (value m) reply polled h = ground arith
  awaited-polled s s' corr rx late closed reply polled h = absurd (ground arith)
  awaited-polled s s' corr rx true pending reply polled h = absurd (ground arith)
  awaited-polled s s' corr rx false pending reply polled h = absurd (ground arith)

  replied-ok :
      (id₀ id : String) (corr₀ corr : ℕ) (o : Option (InstanceMap t × Result SimToServer WaitError))
      (s' : InstanceMap t) (reply : SimToServer)
      → replied t id₀ corr₀ o ≡ some (s', ok (id, corr, reply))
      → o ≡ some (s', ok reply)
  replied-ok id₀ id corr₀ corr none s' reply h = cc
  replied-ok id₀ id corr₀ corr (some (s, ok m)) s' reply h = ground arith
  replied-ok id₀ id corr₀ corr (some (s, err e)) s' reply h = absurd (ground arith)

  paused-polled :
      (pause : Pause) (id₀ id : String) (corr₀ corr timeout : ℕ)
      (x : InstanceMap t × Result ℕ WaitError) (s' : InstanceMap t) (reply : SimToServer)
      → paused t pause id₀ corr₀ timeout x ≡ some (s', ok (id, corr, reply))
      → (rx : ℕ) × (t.poll rx s'.net ≡ value reply)
  unfolding send_finish
  paused-polled pause id₀ id corr₀ corr timeout (s, err e) s' reply h = absurd (ground arith)
  paused-polled pause id₀ id corr₀ corr timeout (s, ok rx) s' reply h =
      let s₁ = run t s pause.meanwhile in
      let late = leb timeout pause.waited_ms in
      let p = t.poll rx s₁.net in
      (
        rx,
        awaited-polled s₁ s' corr₀ rx late p reply refl
            (replied-ok id₀ id corr₀ corr (awaited t s₁ corr₀ late p) s' reply h),
      )

  wait_resolved-polled :
      (s s' : InstanceMap t) (pause : Pause) (ack : Bool) (payload : ServerPayload)
      (kind : WaitKind) (timeout : ℕ) (o : Result InstanceSnapshot String) (id : String) (corr : ℕ)
      (reply : SimToServer)
      → wait_resolved t s pause ack payload kind timeout o ≡ some (s', ok (id, corr, reply))
      → (rx : ℕ) × (t.poll rx s'.net ≡ value reply)
  unfolding wait_for
  wait_resolved-polled s s' pause ack payload kind timeout (err e) id corr reply h =
      absurd (ground arith)
  wait_resolved-polled s s' pause ack payload kind timeout (ok snap) id corr reply h =
      let id₀ = snap.register.instance_id in
      let (corr₀, s₁) = take_corr t s in
      paused-polled pause id₀ id corr₀ corr timeout
        (send_start t s₁ id₀ (request corr₀ ack payload) kind) s' reply h

  answered-ok :
      (o : Option (InstanceMap t × Reply t)) (s' : InstanceMap t) (v : Value)
      → answered t o ≡ some (s', ok v)
      → (id : String) × (corr : ℕ) × (reply : SimToServer) × (o ≡ some (s', ok (id, corr, reply)))
        × (inject_reply t s' id corr reply.payload ≡ ok v)
  answered-ok none s' v h = cc
  answered-ok (some (s, err e)) s' v h = absurd (ground arith)
  answered-ok (some (s, ok (id, corr, reply))) s' v h =
      (id, corr, reply, ground arith, ground arith)

  inject_as-Accepted :
      (s s' : InstanceMap t) (pause : Pause) (given : Option String) (wait_ms : Option ℕ)
      (payload : ServerPayload) (kind : Result WaitKind String) (v : Value)
      → inject_as t s pause given wait_ms payload kind ≡ some (s', ok v)
      → Accepted s' v
  unfolding enqueue_wait
  inject_as-Accepted s s' pause given wait_ms payload (err e) v h = absurd (ground arith)
  inject_as-Accepted s s' pause given wait_ms payload (ok kind) v h =
      let timeout = unwrap_or wait_ms reply_timeout in
      let (id, corr, reply, got, shown) =
        answered-ok (wait_resolved t s pause true payload kind timeout (resolve t s given)) s' v
          h in
      let (rx, polled) =
        wait_resolved-polled s s' pause true payload kind timeout (resolve t s given) id corr reply
          got in
      (rx, id, corr, reply, polled, inject_reply-accepts s' id corr reply.payload v shown, shown)

  -- A waiting inject succeeds only on a reply that has come in over a channel of a waiter and accepts
  -- the input: a `UiResult`, or an `InputAck` that is marked accepted. A refusal, another payload, a
  -- timeout and a disconnect are errors.
  pub inject-Accepted :
      (s s' : InstanceMap t) (pause : Pause) (given : Option String) (w : Waiting)
      (payload : ServerPayload) (v : Value)
      → w.wait ≡ true
      → inject t s pause given w payload ≡ some (s', ok v)
      → Accepted s' v
  unfolding inject
  inject-Accepted s s' pause given w payload v waits h =
      inject_as-Accepted s s' pause given w.wait_ms payload (inject_wait_kind w.wait_mode) v
        (ground arith)
