-- ===== src/Mcp/Batch/Stops.antt =====
-- The batch of crates/csm-proxy/src/mcp.rs: it runs the steps in order, up to the first that fails.
use crosspoint_simulator_mcp.Prelude.{
  ℕ, suc, ◌+◌, ◌≡◌, refl, ap, ◌∙◌, String, Option, some, List, [], ◌∷◌, ◌++◌, ok, err, arith,
  length,
}
use crosspoint_simulator_mcp.Tokio.{Tokio}
use crosspoint_simulator_mcp.State.{InstanceMap, InstanceSnapshot}
use crosspoint_simulator_mcp.Json.{Value}
use crosspoint_simulator_mcp.Mcp.Requests.{Pause, resolve}
use crosspoint_simulator_mcp.Mcp.Inject.{Waiting}
use crosspoint_simulator_mcp.Mcp.Batch.{
  InjectBatchStep, run_step, batch_loop, inject_batch_json, result_json, error_json, completed_json,
  stopped_json,
}

append_one : (xs : List Value) (y : Value) (ys : List Value) → (xs ++ y ∷ []) ++ ys ≡ xs ++ y ∷ ys
append_one [] y ys = refl
append_one (x ∷ xs) y ys = ap (λ zs. x ∷ zs) (append_one xs y ys)

append_nothing : (xs : List Value) → xs ++ [] ≡ xs
append_nothing [] = refl
append_nothing (x ∷ xs) = ap (λ zs. x ∷ zs) (append_nothing xs)

module _ (t : Tokio) (pauses : ℕ → Pause) (id : String) (shared : Waiting) where
  -- From a state and an index on, the steps succeed one after the other, each in the state that the one
  -- before it left, and reach a state with their results.
  pub data Succeeds
      : InstanceMap t → ℕ → List InjectBatchStep → InstanceMap t → List Value → Type 0 where
    finished : (s : InstanceMap t) (i : ℕ) → Succeeds s i [] s []
    succeeds :
        (s s₁ s' : InstanceMap t) (i : ℕ) (step : InjectBatchStep) (steps : List InjectBatchStep)
        (v : Value) (vs : List Value)
        → run_step t s (pauses i) id shared step ≡ some (s₁, ok v)
        → Succeeds s₁ (suc i) steps s' vs
        → Succeeds s i (step ∷ steps) s' (result_json i v ∷ vs)

  batch_loop-goes_on :
      (s s' : InstanceMap t) (i : ℕ) (results : List Value) (step : InjectBatchStep)
      (rest : List InjectBatchStep) (v : Value)
      → run_step t s (pauses i) id shared step ≡ some (s', ok v)
      → batch_loop t s pauses id shared i results (step ∷ rest)
        ≡ batch_loop t s' pauses id shared (suc i) (results ++ result_json i v ∷ []) rest
  unfolding batch_loop
  batch_loop-goes_on s s' i results step rest v ran = rw (batch_loop, ran) refl

  batch_loop-append :
      {s s' : InstanceMap t} {i : ℕ} {done : List InjectBatchStep} {vs : List Value}
      → Succeeds s i done s' vs
      → (results : List Value) (rest : List InjectBatchStep)
      → batch_loop t s pauses id shared i results (done ++ rest)
        ≡ batch_loop t s' pauses id shared (length done + i) (results ++ vs) rest
  batch_loop-append (finished s i) results rest = rw (append_nothing results, none_before) refl
    where
      none_before : 0 + i ≡ i
      none_before = omega arith
  batch_loop-append (succeeds s s₁ s' i step steps v vs ran later) results rest =
      batch_loop-goes_on s s₁ i results step (steps ++ rest) v ran
      ∙ batch_loop-append later (results ++ result_json i v ∷ []) rest
      ∙ rw (append_one results (result_json i v) vs, index) refl
    where
      index : length steps + suc i ≡ suc (length steps) + i
      index = omega arith

  batch_loop-fails :
      (s s' : InstanceMap t) (i : ℕ) (results : List Value) (step : InjectBatchStep)
      (rest : List InjectBatchStep) (e : String)
      → run_step t s (pauses i) id shared step ≡ some (s', err e)
      → batch_loop t s pauses id shared i results (step ∷ rest)
        ≡ some (s', ok (stopped_json id i e (results ++ error_json i e ∷ [])))
  unfolding batch_loop
  batch_loop-fails s s' i results step rest e ran = rw (batch_loop, ran) refl

  batch_loop-ends :
      (s : InstanceMap t) (i : ℕ) (results : List Value)
      → batch_loop t s pauses id shared i results [] ≡ some (s, ok (completed_json id results))
  unfolding batch_loop
  batch_loop-ends s i results = refl

module _ (t : Tokio) (pauses : ℕ → Pause) (shared : Waiting) where
  -- A batch runs its steps in order up to the first that fails: if the steps before one succeed and that
  -- one fails, then the batch ends in the state which that one left, reports its index and its error
  -- after the results of those before it, and the steps after it have no influence at all.
  pub inject_batch_json-stops :
      (s s' s'' : InstanceMap t) (given : Option String) (snap : InstanceSnapshot)
      (done rest : List InjectBatchStep) (step : InjectBatchStep) (vs : List Value) (e : String)
      → resolve t s given ≡ ok snap
      → let id = snap.register.instance_id in
        Succeeds t pauses id shared s 0 done s' vs
        → run_step t s' (pauses (length done)) id shared step ≡ some (s'', err e)
        → inject_batch_json t s pauses given shared (done ++ step ∷ rest)
          ≡ some (s'', ok (stopped_json id (length done) e (vs ++ error_json (length done) e ∷ [])))
  unfolding inject_batch_json
  inject_batch_json-stops s s' s'' given snap done rest step vs e found before fails =
      rw
        (
          found,
          batch_loop-append t pauses snap.register.instance_id shared before [] (step ∷ rest),
          last,
        )
        (batch_loop-fails t pauses snap.register.instance_id shared s' s'' (length done) vs step
          rest e fails)
    where
      last : length done + 0 ≡ length done
      last = omega arith

  -- A batch whose steps all succeed reports all their results, in order.
  pub inject_batch_json-completes :
      (s s' : InstanceMap t) (given : Option String) (snap : InstanceSnapshot)
      (steps : List InjectBatchStep) (vs : List Value)
      → resolve t s given ≡ ok snap
      → Succeeds t pauses snap.register.instance_id shared s 0 steps s' vs
      → inject_batch_json t s pauses given shared steps
        ≡ some (s', ok (completed_json snap.register.instance_id vs))
  unfolding inject_batch_json
  inject_batch_json-completes s s' given snap steps vs found all =
      rw
        (
          found,
          ← append_none steps,
          batch_loop-append t pauses snap.register.instance_id shared all [] [],
        )
        (batch_loop-ends t pauses snap.register.instance_id shared s' (length steps + 0) vs)
    where
      append_none : (xs : List InjectBatchStep) → xs ++ [] ≡ xs
      append_none [] = refl
      append_none (x ∷ xs) = ap (λ ys. x ∷ ys) (append_none xs)
