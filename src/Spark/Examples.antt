-- ===== src/Spark/Examples.antt =====
-- A job on MinIO and then jobs on Amazon S3.
use rhombus_ai.Base.{ℕ, String, true, ◌≡◌, refl, none, some, List, [], ◌∷◌}
use rhombus_ai.Files.Connections.{S3Connection}
use rhombus_ai.Spark.Config.{
  SparkConfig, SparkSettings, spark_config_from_settings, spark_config_for, HadoopConf, joined,
  apply_s3_credentials, s3a_uri, lstrip_slashes,
}
use rhombus_ai.Spark.Credentials.{Finds, apply_s3_credentials-Finds, apply_all, ssl-apply_all}

abbrev two_jars : String → List String
two_jars jars_dir = "a.jar" ∷ "b.jar" ∷ []

abbrev eight : ℕ → String
eight n = "8"

abbrev deployment : SparkSettings
deployment = record {
  spark_master = "local[*]";
  spark_driver_memory = "2g";
  spark_shuffle_partitions = 8;
  spark_max_partition_bytes = "16m";
  spark_jars_dir = "/jars";
  s3_endpoint_url = "http://minio:9000";
  aws_access_key_id = "minio";
  aws_secret_access_key = "minio-secret";
  aws_region = "us-east-1";
}

abbrev amazon : S3Connection
amazon = record {
  bucket = "sales";
  region = "";
  access_key_id = "AK";
  secret_access_key = "SK";
  endpoint_url = "";
}

abbrev on_minio : SparkConfig
unfolding spark_config_from_settings
on_minio = spark_config_from_settings deployment "nl-regex"

abbrev on_amazon : SparkConfig
unfolding spark_config_for
on_amazon = spark_config_for deployment amazon "nl-regex"

abbrev fresh : HadoopConf
fresh key = none

jars_joined : joined ("a.jar" ∷ "b.jar" ∷ []) ≡ "a.jar,b.jar"
unfolding joined
jars_joined = refl

uri_stripped : s3a_uri "sales" "//2024/a.csv" ≡ "s3a://sales/2024/a.csv"
unfolding s3a_uri lstrip_slashes
uri_stripped = refl

apply_s3_credentials-Finds_example :
    Finds true true true on_amazon fresh (apply_s3_credentials two_jars eight on_amazon fresh)
unfolding on_amazon
apply_s3_credentials-Finds_example = apply_s3_credentials-Finds two_jars eight on_amazon fresh

ssl-apply_all_example :
    apply_all two_jars eight
      (on_minio ∷ on_amazon ∷ on_amazon ∷ [])
      fresh
      "fs.s3a.connection.ssl.enabled"
    ≡ some "false"
unfolding on_minio on_amazon
ssl-apply_all_example =
    ssl-apply_all two_jars eight on_minio (on_amazon ∷ on_amazon ∷ []) fresh refl refl
      (refl, (refl, tt))
