-- ===== src/Spark/Config.antt =====
-- backend/processing/spark_session.py and backend/apps/core/spark.py. A value that is `None` is
-- blank. The JAR files of a directory, sorted, and `str` of a number are parameters.
use Prim.Native.String.{◌++◌ as ◌+++◌, len, slice}
use Prim.Native.String as Text
use Prim.Native.Char.{code}
use text.Mathlib.Text.{starts_with}
use rhombus_ai.Base.{
  ℕ, String, Bool, not, ◌&&◌, ◌==◌, Option, none, some, List, [], ◌∷◌, ◌++◌, str_eq, if◌then◌else◌,
}
use rhombus_ai.Files.Connections.{S3Connection, is_blank}

pub record SparkConfig : Type 0 where
  pub app_name : String
  pub master : String
  pub driver_memory : String
  pub shuffle_partitions : ℕ
  pub max_partition_bytes : String
  pub jars_dir : String
  pub s3_endpoint_url : String
  pub aws_access_key_id : String
  pub aws_secret_access_key : String
  pub aws_region : String

-- The settings that `spark_config_from_settings` reads.
pub record SparkSettings : Type 0 where
  pub spark_master : String
  pub spark_driver_memory : String
  pub spark_shuffle_partitions : ℕ
  pub spark_max_partition_bytes : String
  pub spark_jars_dir : String
  pub s3_endpoint_url : String
  pub aws_access_key_id : String
  pub aws_secret_access_key : String
  pub aws_region : String

unfoldable pub spark_config_from_settings : SparkSettings → String → SparkConfig
spark_config_from_settings settings app_name = record {
  app_name = app_name;
  master = settings.spark_master;
  driver_memory = settings.spark_driver_memory;
  shuffle_partitions = settings.spark_shuffle_partitions;
  max_partition_bytes = settings.spark_max_partition_bytes;
  jars_dir = settings.spark_jars_dir;
  s3_endpoint_url = settings.s3_endpoint_url;
  aws_access_key_id = settings.aws_access_key_id;
  aws_secret_access_key = settings.aws_secret_access_key;
  aws_region = settings.aws_region;
}

unfoldable pub spark_config_for : SparkSettings → S3Connection → String → SparkConfig
unfolding spark_config_from_settings
spark_config_for settings connection app_name =
    record (spark_config_from_settings settings app_name) {
      s3_endpoint_url = connection.endpoint_url;
      aws_access_key_id = connection.access_key_id;
      aws_secret_access_key = connection.secret_access_key;
      aws_region = connection.region;
    }

-- The items of a dict in insertion order.
abbrev pub Items : Type 0
Items = List (String × String)

abbrev pub has_keys : SparkConfig → Bool
has_keys config =
    not (is_blank config.aws_access_key_id) && not (is_blank config.aws_secret_access_key)

-- `str(url.startswith("https://")).lower()`
abbrev pub ssl_enabled : String → String
ssl_enabled url = if starts_with url "https://" then "true" else "false"

-- `",".join(jars)`
unfoldable pub joined : List String → String
joined [] = ""
joined (jar ∷ []) = jar
joined (jar ∷ next ∷ jars) = jar +++ "," +++ joined (next ∷ jars)

unfoldable pub jar_items : List String → Items
unfolding joined
jar_items [] = []
jar_items (jar ∷ jars) = ("spark.jars", joined (jar ∷ jars)) ∷ []

abbrev pub key_items : SparkConfig → Items
key_items config =
    if has_keys config
    then (
      "spark.hadoop.fs.s3a.aws.credentials.provider",
      "org.apache.hadoop.fs.s3a.SimpleAWSCredentialsProvider",
    )
      ∷ ("spark.hadoop.fs.s3a.access.key", config.aws_access_key_id)
      ∷ ("spark.hadoop.fs.s3a.secret.key", config.aws_secret_access_key)
      ∷ []
    else []

abbrev pub region_items : SparkConfig → Items
region_items config =
    if is_blank config.aws_region
    then []
    else ("spark.hadoop.fs.s3a.endpoint.region", config.aws_region) ∷ []

abbrev pub endpoint_items : SparkConfig → Items
endpoint_items config =
    if is_blank config.s3_endpoint_url
    then []
    else ("spark.hadoop.fs.s3a.endpoint", config.s3_endpoint_url)
      ∷ ("spark.hadoop.fs.s3a.path.style.access", "true")
      ∷ ("spark.hadoop.fs.s3a.connection.ssl.enabled", ssl_enabled config.s3_endpoint_url)
      ∷ []

-- The live Hadoop configuration.
abbrev pub HadoopConf : Type 0
HadoopConf = String → Option String

abbrev pub set_key : String → String → HadoopConf → HadoopConf
set_key key value conf k = if str_eq k key then some value else conf k

abbrev pub unset_key : String → HadoopConf → HadoopConf
unset_key key conf k = if str_eq k key then none else conf k

-- `key[len("spark.hadoop.") :]`
abbrev pub hadoop_key : String → String
hadoop_key key = slice key (len "spark.hadoop.") (len key)

unfoldable pub set_items : Items → HadoopConf → HadoopConf
set_items [] conf = conf
set_items ((key, value) ∷ items) conf =
    set_items items
      (if starts_with key "spark.hadoop.fs.s3a." then set_key (hadoop_key key) value conf else conf)

module _ (glob_jars : String → List String) (str : ℕ → String) where
  abbrev pub jars_of : String → List String
  jars_of jars_dir = if is_blank jars_dir then [] else glob_jars jars_dir

  unfoldable pub build_spark_conf : SparkConfig → Items
  unfolding jar_items
  build_spark_conf config =
      (("spark.driver.memory", config.driver_memory)
        ∷ ("spark.sql.shuffle.partitions", str config.shuffle_partitions)
        ∷ ("spark.sql.files.maxPartitionBytes", config.max_partition_bytes)
        ∷ ("spark.sql.adaptive.enabled", "true")
        ∷ ("spark.sql.adaptive.coalescePartitions.enabled", "true")
        ∷ ("spark.sql.legacy.timeParserPolicy", "CORRECTED")
        ∷ ("spark.ui.showConsoleProgress", "false")
        ∷ ("spark.hadoop.fs.s3a.impl", "org.apache.hadoop.fs.s3a.S3AFileSystem")
        ∷ [])
      ++ (jar_items (jars_of config.jars_dir)
          ++ (key_items config ++ (region_items config ++ endpoint_items config)))

  abbrev pub without_keys : SparkConfig → HadoopConf → HadoopConf
  without_keys config conf =
      if has_keys config
      then conf
      else unset_key "fs.s3a.secret.key" (unset_key "fs.s3a.access.key" conf)

  abbrev pub without_endpoint : SparkConfig → HadoopConf → HadoopConf
  without_endpoint config conf =
      if is_blank config.s3_endpoint_url
      then set_key "fs.s3a.path.style.access" "false" (unset_key "fs.s3a.endpoint" conf)
      else conf

  unfoldable pub apply_s3_credentials : SparkConfig → HadoopConf → HadoopConf
  unfolding build_spark_conf set_items
  apply_s3_credentials config conf =
      without_endpoint config (without_keys config (set_items (build_spark_conf config) conf))

-- `key.lstrip("/")`
unfoldable pub lstrip_slashes : String → String
lstrip_slashes Text.[] = ""
lstrip_slashes (Text.◌∷◌ c s) =
    let rest = lstrip_slashes s in if code c == b'/' then rest else Text.◌∷◌ c s

unfoldable pub s3a_uri : String → String → String
unfolding lstrip_slashes
s3a_uri bucket key = "s3a://" +++ bucket +++ "/" +++ lstrip_slashes key

-- `spark_uri` of backend/apps/files/storage.py
unfoldable pub spark_uri : S3Connection → String → String
unfolding s3a_uri
spark_uri connection key = s3a_uri connection.bucket key
