-- ===== src/Spark/Credentials.antt =====
-- What a job's credentials leave of those of the jobs before it.
use rhombus_ai.Base.{
  ℕ, String, Bool, true, false, ◌≡◌, refl, ap, ◌∙◌, none, some, List, [], ◌∷◌, ◌++◌, if◌then◌else◌,
  arith, All,
}
use rhombus_ai.Files.Connections.{is_blank}
use rhombus_ai.Spark.Config.{
  SparkConfig, Items, has_keys, ssl_enabled, jar_items, key_items, region_items, endpoint_items,
  HadoopConf, set_key, unset_key, set_items, jars_of, build_spark_conf, apply_s3_credentials,
}

set_items-append :
    (xs ys : Items) (conf : HadoopConf)
    → set_items (xs ++ ys) conf ≡ set_items ys (set_items xs conf)
unfolding set_items
set_items-append [] ys conf = refl
set_items-append ((key, value) ∷ xs) ys conf = set_items-append xs ys _

-- The JAR files are no setting of S3A.
set_items-jar_items :
    (jars : List String) (conf : HadoopConf) → set_items (jar_items jars) conf ≡ conf
unfolding set_items jar_items
set_items-jar_items [] conf = refl
set_items-jar_items (jar ∷ jars) conf = refl

-- The settings of S3A that a job finds, of which `old` is what the jobs before it left.
pub record Finds (keys no_region no_endpoint : Bool) (config : SparkConfig) (old new : HadoopConf)
    : Type 0 where
  pub access_key : new "fs.s3a.access.key" ≡ (if keys then some config.aws_access_key_id else none)
  pub secret_key :
      new "fs.s3a.secret.key" ≡ (if keys then some config.aws_secret_access_key else none)
  pub endpoint : new "fs.s3a.endpoint" ≡ (if no_endpoint then none else some config.s3_endpoint_url)
  pub path_style : new "fs.s3a.path.style.access" ≡ some (if no_endpoint then "false" else "true")
  pub provider : new "fs.s3a.aws.credentials.provider" ≡ (
      if keys
      then some "org.apache.hadoop.fs.s3a.SimpleAWSCredentialsProvider"
      else old "fs.s3a.aws.credentials.provider")
  pub region :
      new "fs.s3a.endpoint.region"
      ≡ (if no_region then old "fs.s3a.endpoint.region" else some config.aws_region)
  pub ssl : new "fs.s3a.connection.ssl.enabled" ≡ (
      if no_endpoint
      then old "fs.s3a.connection.ssl.enabled"
      else some (ssl_enabled config.s3_endpoint_url))

-- `apply_s3_credentials` with its tests as arguments.
abbrev applied : Bool → Bool → Bool → SparkConfig → HadoopConf → HadoopConf
applied keys no_region no_endpoint config conf =
    let items =
      (if keys
        then (
          "spark.hadoop.fs.s3a.aws.credentials.provider",
          "org.apache.hadoop.fs.s3a.SimpleAWSCredentialsProvider",
        )
          ∷ ("spark.hadoop.fs.s3a.access.key", config.aws_access_key_id)
          ∷ ("spark.hadoop.fs.s3a.secret.key", config.aws_secret_access_key)
          ∷ []
        else [])
      ++ ((if no_region
            then []
            else ("spark.hadoop.fs.s3a.endpoint.region", config.aws_region) ∷ [])
          ++ (if no_endpoint
              then []
              else ("spark.hadoop.fs.s3a.endpoint", config.s3_endpoint_url)
                ∷ ("spark.hadoop.fs.s3a.path.style.access", "true")
                ∷ ("spark.hadoop.fs.s3a.connection.ssl.enabled", ssl_enabled config.s3_endpoint_url)
                ∷ [])) in
    let set =
      set_items items (set_key "fs.s3a.impl" "org.apache.hadoop.fs.s3a.S3AFileSystem" conf) in
    let keyed =
      if keys then set else unset_key "fs.s3a.secret.key" (unset_key "fs.s3a.access.key" set) in
    if no_endpoint
    then set_key "fs.s3a.path.style.access" "false" (unset_key "fs.s3a.endpoint" keyed)
    else keyed

applied-Finds :
    (keys no_region no_endpoint : Bool) (config : SparkConfig) (conf : HadoopConf)
    → Finds keys no_region no_endpoint config conf (applied keys no_region no_endpoint config conf)
unfolding set_items
applied-Finds keys no_region no_endpoint config conf = record {
  access_key = ground arith;
  secret_key = ground arith;
  endpoint = ground arith;
  path_style = ground arith;
  provider = ground arith;
  region = ground arith;
  ssl = ground arith;
}

module _ (glob_jars : String → List String) (str : ℕ → String) where
  -- The items in their groups.
  set_items-build_spark_conf :
      (config : SparkConfig) (conf : HadoopConf)
      → set_items (build_spark_conf glob_jars str config) conf
        ≡ set_items
            (key_items config ++ (region_items config ++ endpoint_items config))
            (set_key "fs.s3a.impl" "org.apache.hadoop.fs.s3a.S3AFileSystem" conf)
  unfolding build_spark_conf set_items
  set_items-build_spark_conf config conf =
      set_items-append (jar_items (jars_of glob_jars str config.jars_dir)) _ _
      ∙ ap (set_items (key_items config ++ (region_items config ++ endpoint_items config)))
          (set_items-jar_items (jars_of glob_jars str config.jars_dir) _)

  -- However the settings were left by earlier jobs, a job finds its own access and secret key, or
  -- none of both if it has none, and its own endpoint with path style access, or none; its own
  -- region, credentials provider and use of TLS are found where its configuration gives a region,
  -- keys and an endpoint, and otherwise those that the earlier jobs left.
  pub apply_s3_credentials-Finds :
      (config : SparkConfig) (conf : HadoopConf)
      → Finds
          (has_keys config)
          (is_blank config.aws_region)
          (is_blank config.s3_endpoint_url)
          config
          conf
          (apply_s3_credentials glob_jars str config conf)
  unfolding apply_s3_credentials
  apply_s3_credentials-Finds config conf = rw (set_items-build_spark_conf config conf) (
      applied-Finds (has_keys config) (is_blank config.aws_region) (is_blank config.s3_endpoint_url)
        config conf)

  -- The running session's settings after the jobs of a worker, in order.
  unfoldable pub apply_all : List SparkConfig → HadoopConf → HadoopConf
  apply_all [] conf = conf
  apply_all (config ∷ configs) conf =
      apply_all configs (apply_s3_credentials glob_jars str config conf)

  apply_all-keeps :
      (configs : List SparkConfig) (conf : HadoopConf)
      → All (λ (config : SparkConfig). is_blank config.s3_endpoint_url ≡ true) configs
      → conf "fs.s3a.connection.ssl.enabled" ≡ some "false"
      → apply_all configs conf "fs.s3a.connection.ssl.enabled" ≡ some "false"
  unfolding apply_all
  apply_all-keeps [] conf l off = off
  apply_all-keeps (config ∷ configs) conf l off =
      apply_all-keeps configs _ l.1 ((apply_s3_credentials-Finds config conf).ssl ∙ rw l.0 off)

  -- TLS is a leftover: once a job has read a storage by an address that is not https, all later
  -- jobs without an address of their own, which read Amazon S3, find TLS switched off.
  pub ssl-apply_all :
      (address : SparkConfig) (configs : List SparkConfig) (conf : HadoopConf)
      → is_blank address.s3_endpoint_url ≡ false
      → ssl_enabled address.s3_endpoint_url ≡ "false"
      → All (λ (config : SparkConfig). is_blank config.s3_endpoint_url ≡ true) configs
      → apply_all (address ∷ configs) conf "fs.s3a.connection.ssl.enabled" ≡ some "false"
  unfolding apply_all
  ssl-apply_all address configs conf h k l =
      apply_all-keeps configs _ l ((apply_s3_credentials-Finds address conf).ssl ∙ rw (h, k) refl)
