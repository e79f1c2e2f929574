-- ===== src/SecretProvider/Bootstrap.antt =====
-- secret_provider/bootstrap.py: the configuration of a client, chosen by two opaque references.
use Prim.Native.Char.{code}
use Prim.Native.String.{[] as nil, ◌∷◌ as cons, ◌++◌ as append, count}
use control_plane_kit_interp.Base.{
  ℕ, String, Bool, true, false, not, ◌&&◌, ◌||◌, [], ◌∷◌, Option, none, some, ◌==◌, leb, beq,
  is_none, if◌then◌else◌,
}
use control_plane_kit_interp.Base.Dict.{Dict, get}
use control_plane_kit_interp.Url.{Split}
use control_plane_kit_interp.SecretProvider.Call.{
  Failure, bootstrap_error, foreign, Answer, ok, failed, demand, ◌then◌,
}
use control_plane_kit_interp.SecretProvider.Exchange.{Configuration}

-- `SecretProviderBootstrapRegistry`
pub record Registry : Type 0 where
  pub endpoints : Dict String
  pub credential_files : Dict String

-- `path.is_absolute()` of a POSIX path
unfoldable pub is_absolute : String → Bool
is_absolute nil = false
is_absolute (cons c s) = beq (code c) b'/'

abbrev is_port : Option (Option ℕ) → Bool
is_port none = false
is_port (some none) = true
is_port (some (some port)) = leb 1 port && leb port 65535

abbrev is_base_url : Split → Bool
is_base_url parsed =
    (parsed.scheme == "http" || parsed.scheme == "https")
    && not (parsed.netloc == "")
    && is_none parsed.username
    && is_none parsed.password
    && parsed.query == ""
    && parsed.fragment == ""
    && (parsed.path == "" || parsed.path == "/")
    && is_port parsed.port

-- a `ValueError` that is no `SecretProviderBootstrapError`
abbrev raised_value_error : Failure
raised_value_error = foreign (record {
  is_timeout = false;
  is_transport = false;
  is_api = false;
  is_material = true;
  class_name = "ValueError";
})

module _ (urlsplit : String → Option Split) where
  -- `urlunsplit` of a scheme and a host
  abbrev split_base_url : Failure → Option Split → Answer String
  split_base_url unsplit none = failed unsplit
  split_base_url unsplit (some parsed) =
      demand (is_base_url parsed) bootstrap_error
      then ok (append parsed.scheme (append "://" parsed.netloc))

  -- `_normalized_base_url`, with what the `ValueError` of `urlsplit` becomes where it is called
  unfoldable pub normalized_base_url : Failure → String → Answer String
  unfolding demand ◌then◌
  normalized_base_url unsplit value =
      demand (leb (count value) 2048) bootstrap_error then split_base_url unsplit (urlsplit value)

  abbrev and_more : String → Answer String → Answer (Dict String) → Answer (Dict String)
  and_more key (failed x) rest = failed x
  and_more key (ok url) (failed x) = failed x
  and_more key (ok url) (ok rest) = ok ((key, url) ∷ rest)

  unfoldable pub normalized : Dict String → Answer (Dict String)
  unfolding normalized_base_url
  normalized [] = ok []
  normalized ((key, url) ∷ d) =
      and_more key (normalized_base_url bootstrap_error url) (normalized d)

  abbrev are_absolute : Dict String → Bool
  are_absolute [] = true
  are_absolute ((key, path) ∷ d) = is_absolute path && are_absolute d

  abbrev is_filled : Dict String → Bool
  is_filled [] = false
  is_filled (entry ∷ d) = true

  abbrev registered : Dict String → Answer (Dict String) → Answer Registry
  registered files (failed x) = failed x
  registered files (ok endpoints) =
      demand (is_filled endpoints && is_filled files && are_absolute files) bootstrap_error
      then ok (record { endpoints = endpoints; credential_files = files })

  -- `SecretProviderBootstrapRegistry(endpoints, credential_files)`
  unfoldable pub registry_of : Dict String → Dict String → Answer Registry
  unfolding normalized is_absolute demand ◌then◌
  registry_of endpoints files = registered files (normalized endpoints)

  -- `SecretProviderClientConfiguration(…)`
  abbrev configured : String → String → String → Answer String → Answer Configuration
  configured endpoint credential file (failed x) = failed x
  configured endpoint credential file (ok base_url) =
      demand (is_absolute file) bootstrap_error
      then ok (record {
        endpoint_reference = endpoint;
        base_url = base_url;
        credential_reference = credential;
        credential_file = file;
      })

  abbrev selected : String → String → Option String → Option String → Answer Configuration
  selected endpoint credential none file = failed bootstrap_error
  selected endpoint credential (some base_url) none = failed bootstrap_error
  selected endpoint credential (some base_url) (some file) =
      configured endpoint credential file (normalized_base_url raised_value_error base_url)

  -- `configuration_for`
  unfoldable pub configuration_for : Registry → String → String → Answer Configuration
  unfolding get normalized_base_url is_absolute demand ◌then◌
  configuration_for self endpoint credential =
      selected endpoint credential (get endpoint self.endpoints)
        (get credential self.credential_files)
