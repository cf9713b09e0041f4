-- ===== src/Http/Files.antt =====
-- The views of backend/apps/files/views.py, and the endpoint's validation of
-- backend/apps/files/serializers.py. The other fields are checked by Django REST framework.
pub mod Connected
use Prim.Native.String as Text
use Prim.Native.Char.{code}
use text.Mathlib.Text.{starts_with}
use rhombus_ai.Base.{
  ℕ, String, Bool, true, false, not, ◌&&◌, ◌||◌, ◌==◌, Option, none, some, List, str_eq,
  if◌then◌else◌,
}
use rhombus_ai.Failure.{Result, ok, err}
use rhombus_ai.Files.Storage.{S3Answer}
use rhombus_ai.Files.Connections.{
  S3Connection, ConnectionSettings, Cache, Codec, demo_connection_id, demo_connection, is_blank,
  store, load,
}
use rhombus_ai.Files.Listing.{ListResponse, FilePage, list_files}
use rhombus_ai.Files.Preview.{verify, FilePreview}

-- `value.rstrip("/")`
unfoldable pub rstrip_slashes : String → String
rstrip_slashes Text.[] = ""
rstrip_slashes (Text.◌∷◌ c s) =
    let rest = rstrip_slashes s in if is_blank rest && (code c == b'/') then "" else Text.◌∷◌ c rest

-- `none` is the `ValidationError`.
unfoldable pub validate_endpoint_url : String → Option String
unfolding rstrip_slashes
validate_endpoint_url value =
    if not (is_blank value) && not (starts_with value "http://" || starts_with value "https://")
    then none
    else some (rstrip_slashes value)

pub record ConnectedBody : Type 0 where
  pub connection_id : String
  pub bucket : String
  pub region : String
  pub demo : Bool
  pub expires_in : ℕ

-- The parameters of a listing, validated.
pub record FileListQuery : Type 0 where
  pub connection_id : String
  pub prefix : String
  pub cursor : Option String
  pub page_size : ℕ

-- `cursor or None`
abbrev pub or_none : Option String → Option String
or_none none = none
or_none (some c) = if is_blank c then none else some c

module _ {Store Dict : Type 0} (cache : Cache Store) (codec : Codec Dict)
    (settings : ConnectionSettings) where
  abbrev pub stored_when :
      Result Bool → ℕ → ℕ → String → S3Connection → Store → Result ConnectedBody × Store
  unfolding store
  stored_when (err e) now nonce connection_id connection s = (err e, s)
  stored_when (ok done) now nonce connection_id connection s = (
    ok (record {
      connection_id = connection_id;
      bucket = connection.bucket;
      region = connection.region;
      demo = false;
      expires_in = settings.s3_connection_ttl;
    }),
    store cache codec settings now nonce connection_id connection s,
  )

  -- `S3ConnectionView.post`, with what S3 answers to the verification.
  unfoldable pub connect :
      {Response : Type 0}
      → S3Answer Response
      → ℕ
      → ℕ
      → String
      → S3Connection
      → Store
      → Result ConnectedBody × Store
  unfolding stored_when verify
  connect answer now nonce connection_id connection s =
      stored_when (verify answer) now nonce connection_id connection s

  -- `S3DemoConnectionView.get`; `none` is that the demo is not available.
  abbrev pub demo_body : Option S3Connection → Option ConnectedBody
  demo_body none = none
  demo_body (some demo) = some (record {
    connection_id = demo_connection_id;
    bucket = demo.bucket;
    region = demo.region;
    demo = true;
    expires_in = 0;
  })

  unfoldable pub get_demo : Option ConnectedBody
  unfolding demo_connection
  get_demo = demo_body (demo_connection settings)

  module _ (extension_of : String → String)
      (list_objects : S3Connection → String → Option String → ℕ → S3Answer ListResponse) where
    abbrev pub listed : ℕ → FileListQuery → Result S3Connection → Option (Result FilePage)
    unfolding list_files
    listed fuel query (err e) = some (err e)
    listed fuel query (ok connection) =
        list_files extension_of (list_objects connection query.prefix) fuel (or_none query.cursor)
          query.page_size

    -- `FileListView.get`
    unfoldable pub get_files : ℕ → ℕ → FileListQuery → Store → Option (Result FilePage)
    unfolding listed load
    get_files fuel now query s =
        listed fuel query (load cache codec settings now query.connection_id s)

  abbrev pub previewed :
      (S3Connection → Result FilePreview) → Result S3Connection → Result FilePreview
  previewed preview (err e) = err e
  previewed preview (ok connection) = preview connection

  -- `FilePreviewView.get`, with `get_file_preview` of the key.
  unfoldable pub get_preview :
      (S3Connection → String → Result FilePreview)
      → ℕ
      → String
      → String
      → Store
      → Result FilePreview
  unfolding load
  get_preview get_file_preview now connection_id key s =
      previewed (λ c. get_file_preview c key) (load cache codec settings now connection_id s)
