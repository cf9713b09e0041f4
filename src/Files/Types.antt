-- ===== src/Files/Types.antt =====
-- backend/processing/file_types.py. `PurePosixPath(key).suffix.lower().lstrip(".")` is a parameter.
use rhombus_ai.Base.{String, Option, none, some, str_eq, if◌then◌else◌}
use rhombus_ai.Failure.{Result, ok, err, domain, unsupported_file_type}
use rhombus_ai.Jobs.Model.{FileType, csv, xlsx}

module _ (extension_of : String → String) where
  unfoldable pub from_key : String → Option FileType
  from_key key =
      let extension = extension_of key in
      if str_eq extension "csv"
      then some csv
      else if str_eq extension "xlsx"
      then some xlsx
      else none

  abbrev pub supported_or_refuse : Option FileType → Result FileType
  supported_or_refuse none = err (domain unsupported_file_type "")
  supported_or_refuse (some file_type) = ok file_type

  -- `get_file_type` of backend/apps/files/services.py
  unfoldable pub get_file_type : String → Result FileType
  unfolding from_key
  get_file_type key = supported_or_refuse (from_key key)
