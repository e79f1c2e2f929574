-- ===== src/Docker/Execute/Handlers.antt =====
-- What becomes of the exceptions of a request in `execute` of docker/runtime.py.
use control_plane_kit_interp.Base.{Bool, true, false, ◌&&◌, ◌≡◌, refl, arith, Bool-cases, inl, inr}
use control_plane_kit_interp.Effect.{Outcome, returned, raised, handle}
use control_plane_kit_interp.Request.{Request}
use control_plane_kit_interp.Docker.Result.{Result, succeeded, unsupported}
use control_plane_kit_interp.Docker.Interpreter.{Interpreter}
use control_plane_kit_interp.Invocations.{no_port, control_errors}
use control_plane_kit_interp.Docker.Execute.{
  Methods, attempt, execute, execute_direct, handlers, executes_kind,
}

-- Is this request one of Docker's runtime effects?
abbrev pub accepts : Request → Bool
accepts request = executes_kind request.kind && request.is_docker

module _ {D : Type 0} (self : Interpreter D) (methods : Methods D) (request : Request) where
  -- A request that is none of Docker's is answered without a call.
  execute-refused :
      (d : D)
      → accepts request ≡ false
      → (r : Result) × (execute_direct self methods request d ≡ (returned r, d))
        × (r.kind ≡ unsupported)
  unfolding execute_direct
  execute-refused d h = elim (Bool-cases (executes_kind request.kind)) [
    | inl one ↦ elim (Bool-cases request.is_docker) [
      | inl two ↦ absurd (ground arith)
      | inr two ↦ rw (one, two) (_, refl, refl)
    ]
    | inr one ↦ rw one (_, refl, refl)
  ]

  execute-accepted :
      (d : D)
      → accepts request ≡ true
      → execute_direct self methods request d
        ≡ handle
            (attempt self methods request d).0
            (handlers request)
            (attempt self methods request d).1
  unfolding execute_direct
  execute-accepted d h = elim (Bool-cases (executes_kind request.kind)) [
    | inl one ↦ elim (Bool-cases request.is_docker) [
      | inl two ↦ rw (one, two) refl
      | inr two ↦ absurd (ground arith)
    ]
    | inr one ↦ absurd (ground arith)
  ]

-- No handler claims success, observes an endpoint, or touches the daemon.
handled-eq-returned :
    {D : Type 0} (request : Request) (o : Outcome Result) (d : D) {r : Result}
    → (handle o (handlers request) d).0 ≡ returned r
    → r.kind ≡ succeeded
    → o ≡ returned r
unfolding handlers
handled-eq-returned request (returned r) d h k = h
handled-eq-returned request (raised e) d h k = ground arith

handled-state :
    {D : Type 0} (request : Request) (o : Outcome Result) (d : D)
    → (handle o (handlers request) d).1 ≡ d
unfolding handlers
handled-state request (returned r) d = refl
handled-state request (raised e) d = ground arith

module _ {D : Type 0} (self : Interpreter D) (methods : Methods D) (request : Request) (d : D) where
  direct-succeeded :
      (r : Result) (d' : D)
      → execute_direct self methods request d ≡ (returned r, d')
      → r.kind ≡ succeeded
      → attempt self methods request d ≡ (returned r, d')
  direct-succeeded r d' h success = elim (Bool-cases (accepts request)) [
    | inl docker ↦
        let run = execute-accepted self methods request d docker in
        let body : (attempt self methods request d).0 ≡ returned r =
          handled-eq-returned request (attempt self methods request d).0
            (attempt self methods request d).1 (cc run) success in
        let still =
          handled-state request (attempt self methods request d).0
            (attempt self methods request d).1 in
        cc
    | inr foreign ↦
        let (r', run, kind) = execute-refused self methods request d foreign in absurd cc
  ]

  -- Without a port, a result that claims success is the one that the body of the `try` returned: no
  -- handler claims success for a body that raised.
  pub execute-succeeded :
      (require_invocations : Bool) (r : Result) (d' : D)
      → execute self methods require_invocations no_port request d ≡ (returned r, d')
      → r.kind ≡ succeeded
      → attempt self methods request d ≡ (returned r, d')
  unfolding execute control_errors
  execute-succeeded true r d' h success = absurd (ground arith)
  execute-succeeded false r d' h success = direct-succeeded r d' h success

  -- Where no port is required or given, a request of another effect kind or of another runtime than
  -- Docker gets a result `unsupported`, and nothing is called.
  pub execute-foreign :
      accepts request ≡ false
      → (r : Result) × (execute self methods false no_port request d ≡ (returned r, d))
        × (r.kind ≡ unsupported)
  unfolding execute control_errors
  execute-foreign h = execute-refused self methods request d h
