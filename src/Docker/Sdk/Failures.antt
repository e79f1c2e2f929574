-- ===== src/Docker/Sdk/Failures.antt =====
-- docker/sdk.py: `_docker_failure_category` and `_container_create_call`.
use control_plane_kit_interp.Base.{Bool, true, false, ◌&&◌, if◌then◌else◌}
use control_plane_kit_interp.Effect.{
  Suboperation, request, endpoint, Category, timeout, transport, api, material, unexpected, Raised,
}

abbrev takes_material : Suboperation → Bool
takes_material request = true
takes_material endpoint = true
takes_material _ = false

-- The classes are asked in this order: `ConnectTimeout` is a timeout and a transport error.
unfoldable pub failure_category : Raised → Suboperation → Category
failure_category e s =
    if e.is_timeout
    then timeout
    else if e.is_transport
    then transport
    else if e.is_api
    then api
    else if takes_material s && e.is_material
    then material
    else unexpected
