-- ===== src/Docker/SecretFiles.antt =====
-- Secret files in Docker volumes (docker/runtime.py): the name and the identity of a secret's
-- volume, and the checks of what a volume holds.
use Prim.Native.Char.{code}
use Prim.Native.String.{[] as nil, ◌∷◌ as cons, ◌++◌ as append}
use control_plane_kit_interp.Base.{
  ℕ, ◌+◌, ◌-◌, ◌*◌, String, Bool, true, false, not, ◌&&◌, List, [], ◌∷◌, Option, none, some, ◌==◌,
  beq, leb, text_eq?, if◌then◌else◌,
}
use control_plane_kit_interp.Base.Dict.{Dict, get, put}
use control_plane_kit_interp.Base.Text.{take}
use control_plane_kit_interp.Effect.{
  Eff, pure, raise, lift, ◌>>=◌, ◌>>◌, catch, Outcome, returned, raised, Exc, precondition,
  secret_file_evidence, Check, require, value_error, ◌then◌,
}
use control_plane_kit_interp.Request.{Request, Material, Selection, Operation, reconcile_node}
use control_plane_kit_interp.Secrets.{SecretFile, Deliveries}
use control_plane_kit_interp.Docker.Names.{
  Hashing, text, number, digest, volume_name, container_name,
}
use control_plane_kit_interp.Docker.Sdk.{
  Inspection, ImageInspection, SecretFileInspection, SecretMount,
}
use control_plane_kit_interp.Docker.Sdk.References.{secret_file_owner_uid}
use control_plane_kit_interp.Docker.Labels.{
  label, fingerprint_matches, require_node_owner, node_labels,
}
use control_plane_kit_interp.Docker.Interpreter.{Interpreter}

-- `int(value, 8)` of a text of octal digits
unfoldable pub octal : ℕ → String → ℕ
octal n nil = n
octal n (cons c s) = octal (n * 8 + (code c - b'0')) s

-- The labels of a secret's volume.
abbrev pub secret_labels : Dict String → SecretFile → Dict String
secret_labels labels secret = put (label "secret.reference") secret.reference (
    put (label "secret.target") secret.target_path (put (label "volume.kind") "secret-file" labels))

module _ (h : Hashing) (request : Request) (material : Material) where
  -- `_selected_secret_identity`; an owner beyond the last uid is a `ValueError`
  unfoldable pub selected_secret_identity : SecretFile → Selection → ℕ → Outcome String
  selected_secret_identity secret selection owner_uid =
      if leb owner_uid 2147483647
      then returned (
          h.sha256 (
            h.utf8 (
              h.json_object (
                ("profile", text "docker.selected-secret-file.v1")
                ∷ ("workspace_id", text request.workspace_id)
                ∷ ("runtime_id", text material.runtime_id)
                ∷ ("node_id", text material.node_id)
                ∷ ("reference_id", text selection.reference)
                ∷ ("intent", text selection.intent)
                ∷ ("version_id", text selection.version_id)
                ∷ ("target_path", text secret.target_path)
                ∷ ("file_mode", text secret.file_mode)
                ∷ ("owner_uid", number owner_uid)
                ∷ []))))
      else raised value_error

  abbrev identity_name : Outcome String → Outcome String
  identity_name (returned identity) = returned (append "cpk-sec-" (take 55 identity))
  identity_name (raised e) = raised e

  -- `_secret_volume_name` of a resolved file
  unfoldable pub secret_volume_name : SecretFile → ℕ → Outcome String
  unfolding selected_secret_identity digest volume_name
  secret_volume_name secret owner_uid = elim secret.selection [
    | some selection ↦ identity_name (selected_secret_identity secret selection owner_uid)
    | none ↦ returned (
        volume_name h request.workspace_id material.node_id
          (append "secret-" (take 16 (digest h (secret.target_path ∷ secret.reference ∷ [])))))
  ]

  abbrev same_identity : Option String → Outcome String → Check
  same_identity observed (returned identity) = require (text_eq? observed (some identity)) (
      precondition "docker.secret-identity-conflict"
        "Secret volume does not match the selected immutable identity")
  same_identity observed (raised e) = raised e

  -- `_require_selected_secret_identity`
  unfoldable pub require_selected_secret_identity : Dict String → SecretFile → ℕ → Check
  unfolding selected_secret_identity get
  require_selected_secret_identity labels secret owner_uid = elim secret.selection [
    | none ↦ returned tt
    | some selection ↦
        same_identity (get (label "secret.identity") labels)
          (selected_secret_identity secret selection owner_uid)
  ]

-- `_secret_value_digest`
abbrev pub secret_value_digest : Hashing → SecretFile → String
secret_value_digest h secret = h.sha256 (h.utf8 secret.value)

abbrev pub file_conforms : Hashing → SecretFile → ℕ → Option SecretFileInspection → Bool
file_conforms h secret owner_uid none = false
file_conforms h secret owner_uid (some file) =
    file.regular_file
    && beq file.uid owner_uid
    && beq file.mode (octal 0 secret.file_mode)
    && file.content_digest == secret_value_digest h secret

abbrev evidence_error : Exc → Exc
evidence_error secret_file_evidence =
    precondition "docker.secret-material-conflict" "owned secret file evidence is invalid"
evidence_error e = e

module _ {D : Type 0} (self : Interpreter D) where
  -- `_require_secret_file`
  unfoldable pub require_secret_file : String → SecretFile → ℕ → Eff D (Unit {0})
  unfolding octal
  require_secret_file volume secret owner_uid = do
    observed ← catch (self.client.inspect_secret_file volume) (λ e. raise (evidence_error e))
    lift (
        require (file_conforms self.hashing secret owner_uid observed) (
          precondition "docker.secret-material-conflict"
            "owned secret file does not match approved material and recipient"))

  -- What an existing container must show of one secret.
  abbrev mounted_once : List SecretMount → SecretMount → ℕ
  mounted_once [] m = 0
  mounted_once (n ∷ ns) m =
      (if n.target_path == m.target_path && n.volume_name == m.volume_name then 1 else 0)
      + mounted_once ns m

  module _ (request : Request) (material : Material) (labels : Dict String) (owner_uid : ℕ) where
    -- One round of the loop of `_preflight_secret_files`; `kept` is a container that stays.
    abbrev check_volume :
        Option Inspection → SecretFile → String → Option Inspection → Eff D (Unit {0})
    check_volume kept secret volume_name (some volume) = do
      lift (require_node_owner volume.labels (secret_labels labels secret) "secret volume")
      lift (
          require_selected_secret_identity self.hashing request material volume.labels secret
            owner_uid)
      require_secret_file volume_name secret owner_uid
    check_volume none secret volume_name none = pure tt
    check_volume (some container) secret volume_name none = raise (
        precondition "docker.secret-material-conflict"
          "existing container secret material is missing")

    abbrev check_mount : Option Inspection → SecretFile → String → Check
    check_mount none secret volume_name = returned tt
    check_mount (some container) secret volume_name =
        require
          (beq
            (mounted_once container.readonly_secret_mounts
              (record { target_path = secret.target_path; volume_name = volume_name }))
            1)
          (precondition "docker.secret-mount-conflict"
            "existing container secret mount does not match the approved delivery")

    unfoldable pub preflight_files : Option Inspection → List SecretFile → Eff D (Unit {0})
    unfolding secret_volume_name require_selected_secret_identity require_secret_file
    preflight_files kept [] = pure tt
    preflight_files kept (secret ∷ secrets) = do
      volume_name ← lift (secret_volume_name self.hashing request material secret owner_uid)
      volume ← self.client.inspect_volume volume_name
      check_volume kept secret volume_name volume
      lift (check_mount kept secret volume_name)
      preflight_files kept secrets

  abbrev pub is_reconcile : Operation → Bool
  is_reconcile reconcile_node = true
  is_reconcile _ = false

  abbrev same_recipient : Inspection → ImageInspection → Bool
  same_recipient container image =
      text_eq? container.image_id (some image.image_id)
      && text_eq? container.configured_user image.configured_user

  -- The container of `_preflight_secret_files` and whether it will be replaced.
  abbrev check_container :
      Dict String → ImageInspection → Bool → Option Inspection → Eff D (Option Inspection)
  check_container labels image reconciling none = pure none
  check_container labels image reconciling (some container) = do
    lift (require_node_owner container.labels labels "container")
    if reconciling && not (fingerprint_matches container.labels labels)
        then pure none
        else if same_recipient container image
        then pure (some container)
        else raise (
            precondition "docker.secret-recipient-conflict"
              "existing container does not match the admitted secret recipient")

  abbrev owner_or_error : Option ℕ → Eff D ℕ
  owner_or_error (some uid) = pure uid
  owner_or_error none = raise (
      precondition "docker.secret-recipient-unsupported"
        "secret file requires a supported numeric image user")

  -- `_preflight_secret_files`
  unfoldable pub preflight_secret_files :
      Request → Material → Deliveries → ImageInspection → Eff D ℕ
  unfolding preflight_files secret_file_owner_uid
  preflight_secret_files request material secrets image = elim secrets.files [
    | [] ↦ pure 0
    | file ∷ files ↦ do
      owner_uid ← owner_or_error (secret_file_owner_uid image.configured_user)
      let labels = node_labels self.hashing request material
      container ←
          self.client.inspect_container
            (container_name self.hashing request.workspace_id material.node_id)
      kept ← check_container labels image (is_reconcile request.operation) container
      preflight_files request material labels owner_uid kept (file ∷ files)
      pure owner_uid
  ]
