-- ===== src/Storage.antt =====
-- services/storage_service.py and routers/attachments.py: the files of a local directory, and the
-- attachments that are prepared, uploaded and downloaded. The functions of `os.path` and `lower` are
-- an interface; the file system is the content of each absolute path.
pub mod Download
use relationship_os.Base.{
  ℕ, ◌*◌, String, ◌<>◌, Bool, true, false, not, Option, none, some, List, [], ◌∷◌, ◌++◌, ◌==◌, ltb,
  contains, length, select, exists_row, if◌then◌else◌,
}
use relationship_os.Base.Int.{ℤ, pos, negsuc}
use relationship_os.Shared.Constants.{ErrorCode}
use relationship_os.Shared.Errors.{Error, bad_request, not_found, integrity_error}
use relationship_os.Shared.Config.{Settings}
use relationship_os.Db.Rows.{Db, Attachment}
use relationship_os.Db.Session.{
  Action, ◌>>=◌, ◌>>◌, pure, raise, query, raise_if, or_raise, modify, scalar_one_or_none,
}
use relationship_os.Auth.Account.{is_empty}
use relationship_os.Auth.Token.{Jwt, Credentials, get_current_user_and_session}
use relationship_os.Integrations.Text.{starts_with}

-- `splitext` gives the extension; `lstrip` takes the slashes off the front.
pub record Paths : Type 0 where
  pub normpath : String → String
  pub lstrip : String → String
  pub join : String → String → String
  pub abspath : String → String
  pub splitext : String → String
  pub lower : String → String

abbrev pub Files : Type 0
Files = String → Option (List ℕ)

abbrev pub forbidden_extensions : List String
forbidden_extensions =
    ".exe" ∷ ".bat" ∷ ".cmd" ∷ ".sh" ∷ ".ps1" ∷ ".vbs" ∷ ".msi" ∷ ".scr" ∷ ".pif" ∷ ".com" ∷ ".jar"
    ∷ ".dll" ∷ ".so" ∷ ".bin" ∷ []

pub data Safety : Type 0 where
  safe too_large forbidden_extension dangerous_mime : Safety

-- `file_size > limit`, and `len(content) > file_size * 1.1`
abbrev exceeds : ℤ → ℕ → Bool
exceeds (pos n) limit = ltb limit n
exceeds (negsuc _) limit = false

abbrev pub is_too_long : ℕ → ℤ → Bool
is_too_long n (pos size) = ltb (size * 11) (n * 10)
is_too_long n (negsuc _) = true

abbrev pub write_file : String → List ℕ → Files → Files
write_file path content files p = if p == path then some content else files p

abbrev without_file : String → Files → Files
without_file path files p = if p == path then none else files p

module _ (paths : Paths) (cfg : Settings) (base_dir : String) where
  unfoldable pub validate_attachment : String → ℤ → String → Safety
  unfolding starts_with
  validate_attachment filename file_size mime_type =
      if exceeds file_size cfg.max_attachment_size_bytes
      then Safety.too_large
      else if contains forbidden_extensions (paths.splitext (paths.lower filename))
      then Safety.forbidden_extension
      else if is_empty mime_type
      then Safety.dangerous_mime
      else if starts_with "application/x-dosexec" mime_type
      then Safety.dangerous_mime
      else Safety.safe

  -- `none` where the path is refused.
  unfoldable pub get_abs_path : String → Option String
  unfolding starts_with
  get_abs_path file_path =
      let abs_target =
        paths.abspath (paths.join base_dir (paths.lstrip (paths.normpath file_path))) in
      if starts_with base_dir abs_target then some abs_target else none

  abbrev pub traversal : Error
  traversal = bad_request ErrorCode.forbidden

  abbrev pub missing : Error
  missing = bad_request ErrorCode.not_found

  unfoldable pub put_file : String → List ℕ → Files → Action Files
  unfolding get_abs_path
  put_file file_path content files = do
    abs_path ← or_raise (get_abs_path file_path) traversal
    pure (write_file abs_path content files)

  unfoldable pub get_file : String → Files → Action (List ℕ)
  unfolding get_abs_path
  get_file file_path files = do
    abs_path ← or_raise (get_abs_path file_path) traversal
    or_raise (files abs_path) missing

  unfoldable pub delete_file : String → Files → Action (Bool × Files)
  unfolding get_abs_path
  delete_file file_path files = do
    abs_path ← or_raise (get_abs_path file_path) traversal
    elim (files abs_path) [
      | none ↦ pure (false, files)
      | some _ ↦ pure (true, without_file abs_path files)
    ]

  abbrev pub upload_url : String → String
  upload_url file_path = "/api/v1/attachments/upload/" <> file_path

  abbrev pub has_attachment_id : String → Attachment → Bool
  has_attachment_id attachment_id a = a.id == attachment_id

  abbrev pub find_attachment : String → Action Attachment
  find_attachment attachment_id = do
    rows ← query (λ d. select (has_attachment_id attachment_id) d.uploads)
    found ← scalar_one_or_none rows
    or_raise found not_found

  -- The check of the metadata.
  abbrev require_safe : Safety → Action (Unit {0})
  require_safe Safety.safe = pure tt
  require_safe _ = raise (bad_request ErrorCode.invalid_request)

  module _ (jwt : Jwt) (now : ℕ) (credentials : Credentials) where
    abbrev pub new_attachment : String → String → ℤ → String → Attachment
    new_attachment file_uuid filename file_size mime_type = record {
      id = file_uuid;
      message_id = none;
      filename = filename;
      file_size = file_size;
      mime_type = mime_type;
      storage_path = file_uuid <> paths.lower (paths.splitext filename);
      created_at = now;
    }

    -- The identifier and the address for the upload; `file_uuid` is drawn.
    unfoldable pub prepare_attachment : String → String → ℤ → String → Action (String × String)
    unfolding validate_attachment
    prepare_attachment file_uuid filename file_size mime_type = do
      get_current_user_and_session jwt now credentials
      require_safe (validate_attachment filename file_size mime_type)
      let attachment = new_attachment file_uuid filename file_size mime_type
      taken ← query (λ d. exists_row (has_attachment_id file_uuid) d.uploads)
      raise_if taken integrity_error
      modify (λ d. record d { uploads = d.uploads ++ (attachment ∷ []) })
      pure (file_uuid, upload_url file_uuid)

    -- The answer is the file system afterwards.
    unfoldable pub upload_attachment_file : String → List ℕ → Files → Action Files
    unfolding put_file
    upload_attachment_file attachment_id content files = do
      get_current_user_and_session jwt now credentials
      att ← find_attachment attachment_id
      raise_if (is_too_long (length content) att.file_size) (bad_request ErrorCode.invalid_request)
      put_file att.storage_path content files

    -- The content, its type and its name.
    unfoldable pub download_attachment_file : String → Files → Action (List ℕ × String × String)
    unfolding get_file
    download_attachment_file attachment_id files = do
      get_current_user_and_session jwt now credentials
      att ← find_attachment attachment_id
      content ← get_file att.storage_path files
      pure (content, att.mime_type, att.filename)
