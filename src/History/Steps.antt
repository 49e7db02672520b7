-- ===== src/History/Steps.antt =====
-- Each locked step of crates/csm-proxy keeps the waiter tables sound and moves the waiters on.
use crosspoint_simulator_mcp.Prelude.{
  ℕ, ◌≡◌, refl, String, Bool, true, false, none, List, [], ◌∷◌, ◌==◌, string_eq, nat_eq,
  if◌then◌else◌, is_some, arith, Option-cases, Bool-cases, inl, inr, Result, ok, err,
}
use crosspoint_simulator_mcp.Prelude.Dict
use crosspoint_simulator_mcp.Prelude.Dict.{lookup-insert, lookup-remove}
use crosspoint_simulator_mcp.Messages.{SimToServer, ServerToSim}
use crosspoint_simulator_mcp.Tokio.{Tokio, TokioLaws, Poll, pending, value, closed}
use crosspoint_simulator_mcp.State.{InstanceMap, WaitKind, TrySendError}
use crosspoint_simulator_mcp.Instances.{get, try_send, owns}
use crosspoint_simulator_mcp.Waiters.{
  take_waiter, take_waiters, register_waiter, complete_waiter, completed, push_inbound,
  remove_instance, remove_if, fail_waiters, corrs_of, send_start, started, send_finish, awaited,
}
use crosspoint_simulator_mcp.History.{after_finish}
use crosspoint_simulator_mcp.Waiters.Wired.{
  IsWired, take_waiter-IsWired, register_waiter-IsWired, complete_waiter-IsWired,
}
use crosspoint_simulator_mcp.Waiters.Disconnect.{remove_if-IsWired, mem, mem-corrs_of}
use crosspoint_simulator_mcp.Waiters.Frame.{
  Frame, Frame-IsWired, Frame-IsAttached, IsAttached, deliver_to-Frame, try_send-Frame, Frame-refl,
}
use crosspoint_simulator_mcp.Waiters.Progress.{
  Progress, Progress-trans, Frame-Progress, take_waiter-Progress, register_waiter-Progress,
  complete_waiter-Progress, remove_if-Progress,
}

pub record IsSound (t : Tokio) (s : InstanceMap t) : Type 0 where
  pub wired : IsWired t s
  pub attached : IsAttached t s

-- The state after is sound again, and the waiters moved on.
pub record Advance (t : Tokio) (s s' : InstanceMap t) : Type 0 where
  pub sound : IsSound t s'
  pub progress : Progress t s s'

module _ (t : Tokio) where
  pub Frame-Advance : {s s' : InstanceMap t} → Frame t s s' → IsSound t s → Advance t s s'
  Frame-Advance f v = record {
    sound = record {
      wired = Frame-IsWired t f v.wired;
      attached = Frame-IsAttached t f v.attached;
    };
    progress = Frame-Progress t f;
  }

  pub Advance-refl : (s : InstanceMap t) → IsSound t s → Advance t s s
  Advance-refl s v = Frame-Advance (Frame-refl t s) v

  pub Advance-trans :
      {s s' s'' : InstanceMap t} → IsSound t s → Advance t s s' → Advance t s' s'' → Advance t s s''
  Advance-trans v p q = record {
    sound = q.sound;
    progress = Progress-trans t v.wired p.progress q.progress;
  }

  take_waiter-IsAttached :
      (s : InstanceMap t) (d : ℕ) → IsAttached t s → IsAttached t (take_waiter t s d)
  unfolding take_waiter
  take_waiter-IsAttached s d a = record {
    connected = λ c id e. a.connected c id (ground (arith, lookup-remove d c s.waiter_instance));
  }

  complete_waiter-IsAttached :
      (s : InstanceMap t) (msg : SimToServer)
      → IsAttached t s
      → IsAttached t (complete_waiter t s msg)
  unfolding complete_waiter
  complete_waiter-IsAttached s msg a = elim (Bool-cases (msg.corr == 0)) [
    | inl zero_corr ↦ rw zero_corr a
    | inr corr ↦ elim (Option-cases (completed (Dict.lookup msg.corr s.waiters) msg)) [
      | inl none_completed ↦ rw (corr, none_completed) a
      | inr (tx, e) ↦
          rw (corr, e)
            (record {
              connected = λ c id f.
                  a.connected c id (ground (arith, lookup-remove msg.corr c s.waiter_instance));
            })
    ]
  ]

  -- Taking waiters removes them from the table of instances of waiters, and nothing else there.
  waiter_instance-take_waiters :
      (s : InstanceMap t) (cs : List ℕ) (c : ℕ)
      → Dict.lookup c (take_waiters t s cs).waiter_instance
        ≡ (if mem c cs then none else Dict.lookup c s.waiter_instance)
  unfolding take_waiters take_waiter
  waiter_instance-take_waiters s [] c = refl
  waiter_instance-take_waiters s (d ∷ cs) c = ground (
    arith,
    waiter_instance-take_waiters (take_waiter t s d) cs c,
    lookup-remove d c s.waiter_instance,
  )

  inner-take_waiters : (s : InstanceMap t) (cs : List ℕ) → (take_waiters t s cs).inner ≡ s.inner
  unfolding take_waiters take_waiter
  inner-take_waiters s [] = refl
  inner-take_waiters s (d ∷ cs) = inner-take_waiters (take_waiter t s d) cs

  fail_waiters-IsAttached :
      (s : InstanceMap t) (id : String)
      → IsWired t s
      → IsAttached t s
      → IsAttached t (fail_waiters t (remove_instance t s id) id)
  unfolding fail_waiters remove_instance
  fail_waiters-IsAttached s id v a = record {
    connected = λ c i e.
        let cs = corrs_of id s.waiter_instance in
        let s' = remove_instance t s id in
        ground (
          arith,
          waiter_instance-take_waiters s' cs c,
          inner-take_waiters s' cs,
          mem-corrs_of id c s.waiter_instance v.unique,
          a.connected c i,
          lookup-remove id i s.inner,
          string_eq.eqb_iff id i,
          string_eq.eqb_iff i id,
        );
  }

module _ (t : Tokio) (laws : TokioLaws t) where
  pub take_waiter-Advance :
      (s : InstanceMap t) (d : ℕ) → IsSound t s → Advance t s (take_waiter t s d)
  take_waiter-Advance s d v = record {
    sound = record {
      wired = take_waiter-IsWired t laws s d v.wired;
      attached = take_waiter-IsAttached t s d v.attached;
    };
    progress = take_waiter-Progress t laws s d;
  }

  pub push_inbound-Advance :
      (s : InstanceMap t) (id : String) (msg : SimToServer)
      → IsSound t s
      → Advance t s (push_inbound t s id msg)
  unfolding push_inbound
  push_inbound-Advance s id msg v =
      let s' = complete_waiter t s msg in
      let first : Advance t s s' = record {
        sound = record {
          wired = complete_waiter-IsWired t laws s msg v.wired;
          attached = complete_waiter-IsAttached t s msg v.attached;
        };
        progress = complete_waiter-Progress t laws s msg;
      } in
      Advance-trans t v first
        (Frame-Advance t (deliver_to-Frame t s' id msg (Dict.lookup id s'.inner)) first.sound)

  pub remove_if-Advance :
      (s : InstanceMap t) (id : String) (token : ℕ)
      → IsSound t s
      → Advance t s (remove_if t s id token)
  remove_if-Advance s id token v = record {
    sound = record {
      wired = remove_if-IsWired t laws s id token v.wired;
      attached = attached_after;
    };
    progress = remove_if-Progress t laws s id token v.wired;
  }
    where
      attached_after : IsAttached t (remove_if t s id token)
      attached_after =
          unfold remove_if in
          elim (Bool-cases (owns t s id token)) [
            | inl e ↦ rw e (fail_waiters-IsAttached t s id v.wired v.attached)
            | inr e ↦ rw e v.attached
          ]

  register_waiter-Advance :
      (s : InstanceMap t) (id : String) (corr : ℕ) (kind : WaitKind)
      → is_some (Dict.lookup id s.inner) ≡ true
      → IsSound t s
      → Advance t s (register_waiter t s id corr kind).0
  unfolding register_waiter
  register_waiter-Advance s id corr kind there v = record {
    sound = record {
      wired = register_waiter-IsWired t laws s id corr kind v.wired;
      attached = record {
        connected = λ c i e.
            ground
              (arith, lookup-insert corr c id s.waiter_instance, v.attached.connected c i, there);
      };
    };
    progress = register_waiter-Progress t laws s id corr kind v.wired;
  }

  started-Advance :
      (s : InstanceMap t) (id : String) (msg : ServerToSim) (rx : ℕ)
      (r : Result (InstanceMap t) TrySendError)
      → try_send t s id msg ≡ r
      → IsSound t s
      → Advance t s (started t s msg.corr rx r).0
  started-Advance s id msg rx (ok s') e v = Frame-Advance t (try_send-Frame t laws s s' id msg e) v
  started-Advance s id msg rx (err TrySendError.unknown_instance) e v =
      take_waiter-Advance s msg.corr v
  started-Advance s id msg rx (err TrySendError.queue_full) e v = take_waiter-Advance s msg.corr v

  pub send_start-Advance :
      (s : InstanceMap t) (id : String) (msg : ServerToSim) (kind : WaitKind)
      → IsSound t s
      → Advance t s (send_start t s id msg kind).0
  unfolding send_start
  send_start-Advance s id msg kind v = elim (Bool-cases (is_some (get t s id))) [
    | inr e ↦ rw e (Advance-refl t s v)
    | inl e ↦
        let s' = (register_waiter t s id msg.corr kind).0 in
        let first = register_waiter-Advance s id msg.corr kind (get-some s id e) v in
        rw e (
          Advance-trans t v first (
            started-Advance s' id msg (register_waiter t s id msg.corr kind).1
              (try_send t s' id msg) refl first.sound))
  ]
    where
      get-some :
          (s : InstanceMap t) (id : String)
          → is_some (get t s id) ≡ true
          → is_some (Dict.lookup id s.inner) ≡ true
      get-some s id e = unfold get in ground arith

  awaited-Advance :
      (s : InstanceMap t) (corr : ℕ) (elapsed : Bool) (p : Poll)
      → IsSound t s
      → Advance t s (after_finish t s (awaited t s corr elapsed p))
  awaited-Advance s corr elapsed (value reply) v = Advance-refl t s v
  awaited-Advance s corr elapsed closed v = Advance-refl t s v
  awaited-Advance s corr false pending v = Advance-refl t s v
  awaited-Advance s corr true pending v = take_waiter-Advance s corr v

  pub send_finish-Advance :
      (s : InstanceMap t) (corr rx : ℕ) (elapsed : Bool)
      → IsSound t s
      → Advance t s (after_finish t s (send_finish t s corr rx elapsed))
  unfolding send_finish
  send_finish-Advance s corr rx elapsed v = awaited-Advance s corr elapsed (t.poll rx s.net) v
