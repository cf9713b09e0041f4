-- ===== src/Files/Connections.antt =====
-- backend/apps/files/connections.py. Django's cache, Fernet and JSON are parameters.
pub mod Laws
pub mod Sample
mod Examples
use Prim.Native.String.{◌++◌}
use rhombus_ai.Base.{
  ℕ, String, Bool, true, false, not, ◌&&◌, ◌||◌, Option, none, some, str_eq, if◌then◌else◌,
}
use rhombus_ai.Failure.{Result, ok, err, Failure, domain, unexpected, s3_connection_expired}

abbrev pub demo_connection_id : String
demo_connection_id = "demo"

abbrev pub cache_prefix : String
cache_prefix = "s3conn:"

pub record S3Connection : Type 0 where
  pub bucket : String
  pub region : String
  pub access_key_id : String
  pub secret_access_key : String
  pub endpoint_url : String

-- The settings that the module reads; a value that is not set is blank.
pub record ConnectionSettings : Type 0 where
  pub s3_demo_enabled : Bool
  pub s3_bucket : String
  pub aws_region : String
  pub aws_access_key_id : String
  pub aws_secret_access_key : String
  pub s3_endpoint_url : String
  pub s3_connection_ttl : ℕ

-- `django.core.cache`; the first number of `get` and `set` is the time.
pub record Cache (Store : Type 0) : Type 0 where
  pub get : ℕ → String → Store → Option String
  pub set : ℕ → String → String → ℕ → Store → Store
  pub delete : String → Store → Store

-- Fernet with the key derived from `SECRET_KEY`, `json`, `asdict` and the constructor applied to a
-- dictionary. `encrypt` takes the time and randomness that a token holds; `decrypt` fails by
-- `InvalidToken`, `json_loads` by `ValueError` and `of_dict` by `TypeError`.
pub record Codec (Dict : Type 0) : Type 0 where
  pub encrypt : ℕ → String → String
  pub decrypt : String → Option String
  pub json_dumps : Dict → String
  pub json_loads : String → Option Dict
  pub asdict : S3Connection → Dict
  pub of_dict : Dict → Option S3Connection

abbrev pub is_blank : String → Bool
is_blank s = str_eq s ""

unfoldable pub demo_connection : ConnectionSettings → Option S3Connection
demo_connection settings =
    if not settings.s3_demo_enabled || is_blank settings.s3_bucket
    then none
    else some (record {
      bucket = settings.s3_bucket;
      region = settings.aws_region;
      access_key_id = settings.aws_access_key_id;
      secret_access_key = settings.aws_secret_access_key;
      endpoint_url = settings.s3_endpoint_url;
    })

-- A blank message is the default of the class.
abbrev pub expired : Failure
expired = domain s3_connection_expired ""

abbrev pub demo_or_refuse : Option S3Connection → Result S3Connection
demo_or_refuse (some demo) = ok demo
demo_or_refuse none =
    err (domain s3_connection_expired "The demo bucket is not available on this deployment.")

module _ {Store Dict : Type 0} (cache : Cache Store) (codec : Codec Dict)
    (settings : ConnectionSettings) where
  -- `connection_id` is what `secrets.token_urlsafe` gave.
  unfoldable pub store : ℕ → ℕ → String → S3Connection → Store → Store
  store now nonce connection_id connection s =
      let token = codec.encrypt nonce (codec.json_dumps (codec.asdict connection)) in
      cache.set now (cache_prefix ++ connection_id) token settings.s3_connection_ttl s

  abbrev pub constructed : Option S3Connection → Result S3Connection
  constructed (some connection) = ok connection
  constructed none = err unexpected

  abbrev pub parsed : Option Dict → Result S3Connection
  parsed (some fields) = constructed (codec.of_dict fields)
  parsed none = err expired

  abbrev pub decrypted : Option String → Result S3Connection
  decrypted (some text) = parsed (codec.json_loads text)
  decrypted none = err expired

  abbrev pub of_token : Option String → Result S3Connection
  of_token none = err expired
  of_token (some token) = if is_blank token then err expired else decrypted (codec.decrypt token)

  unfoldable pub load : ℕ → String → Store → Result S3Connection
  unfolding demo_connection
  load now connection_id s =
      if str_eq connection_id demo_connection_id
      then demo_or_refuse (demo_connection settings)
      else of_token (cache.get now (cache_prefix ++ connection_id) s)

  unfoldable pub forget : String → Store → Store
  forget connection_id s =
      if str_eq connection_id demo_connection_id
      then s
      else cache.delete (cache_prefix ++ connection_id) s
