-- ===== src/Files/Storage.antt =====
-- `translate_s3_errors` of backend/apps/files/storage.py. What a call of boto3 does is an answer: its
-- value, a `ClientError` with its code, or a `BotoCoreError`.
use rhombus_ai.Base.{String, Bool, false, Option, none, some, List, [], ◌∷◌, if◌then◌else◌}
use Prim.Native.String.{◌++◌}
use rhombus_ai.Processing.Schema.{contains}
use rhombus_ai.Failure.{
  domain, stored_file_not_found, s3_credentials_invalid, s3_bucket_not_found, storage_unavailable,
  Result, ok, err,
}

pub data S3Answer (A : Type 0) : Type 0 where
  answered : A → S3Answer A
  client_error : String → S3Answer A
  core_error : S3Answer A

abbrev pub not_found_error_codes : List String
not_found_error_codes = "404" ∷ "NoSuchKey" ∷ "NotFound" ∷ []

abbrev pub credential_error_codes : List String
credential_error_codes =
    "InvalidAccessKeyId" ∷ "SignatureDoesNotMatch" ∷ "AccessDenied" ∷ "403" ∷ "InvalidToken" ∷ []

abbrev pub missing_bucket_error_codes : List String
missing_bucket_error_codes = "NoSuchBucket" ∷ []

abbrev pub names_missing_key : Option String → String → Bool
names_missing_key none code = false
names_missing_key (some key) code = contains not_found_error_codes code

abbrev pub not_found_message : Option String → String
not_found_message none = ""
not_found_message (some key) = "File not found: " ++ key

unfoldable pub translate_s3_errors : {A : Type 0} → Option String → S3Answer A → Result A
translate_s3_errors key (answered a) = ok a
translate_s3_errors key (client_error code) =
    if names_missing_key key code
    then err (domain stored_file_not_found (not_found_message key))
    else if contains credential_error_codes code
    then err (domain s3_credentials_invalid "")
    else if contains missing_bucket_error_codes code
    then err (domain s3_bucket_not_found "")
    else err (domain storage_unavailable "")
translate_s3_errors key core_error = err (domain storage_unavailable "")
