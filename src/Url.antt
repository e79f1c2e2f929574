-- ===== src/Url.antt =====
-- What Python's `urllib.parse.urlsplit` tells of a URL. The parts that it does not find are empty,
-- or `None` for the user, the password, the host and the port.
use control_plane_kit_interp.Base.{ℕ, String, Option}

pub record Split : Type 0 where
  pub scheme : String
  pub netloc : String
  pub path : String
  pub query : String
  pub fragment : String
  pub username : Option String
  pub password : Option String
  pub hostname : Option String
  -- `parsed.port`; the outer `none` is its `ValueError`
  pub port : Option (Option ℕ)
