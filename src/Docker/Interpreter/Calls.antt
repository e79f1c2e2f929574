-- ===== src/Docker/Interpreter/Calls.antt =====
-- A call under `_start_node_provider_call` that returned is the call itself.
use control_plane_kit_interp.Base.{◌≡◌, Option}
use control_plane_kit_interp.Effect.{
  Outcome, returned, raised, Eff, Exc, Phase, Suboperation, handle, raise,
}
use control_plane_kit_interp.Docker.Interpreter.{start_node_provider_call, translated}

handle-eq-returned :
    {D A : Type 0} (o : Outcome A) (f : Exc → Exc) (d : D) {a : A} {d' : D}
    → handle o (λ e. raise (f e)) d ≡ (returned a, d')
    → (o ≡ returned a) × (d ≡ d')
handle-eq-returned (returned a) f d h = (cc, cc)
handle-eq-returned (raised e) f d h = cc

pub provider_call-eq-returned :
    {D A : Type 0} (phase : Phase) (s : Option Suboperation) (m : Eff D A) {a : A} {d d' : D}
    → start_node_provider_call phase s m d ≡ (returned a, d')
    → m d ≡ (returned a, d')
unfolding start_node_provider_call
provider_call-eq-returned phase s m {a} {d} {d'} h =
    let (one, two) = handle-eq-returned (m d).0 (translated phase s) (m d).1 h in cc
