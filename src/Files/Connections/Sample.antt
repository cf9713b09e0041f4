-- ===== src/Files/Connections/Sample.antt =====
-- A cache as a list of entries, and tokens that hold their text.
use Prim.Native.String.{[], ◌∷◌, char_at}
use Prim.Native.Char.{Char, code}
use text.Mathlib.TextLemmas.{cons≢nil}
use rhombus_ai.Base.{
  ℕ, ◌+◌, ◌≡◌, ◌≢◌, refl, String, true, false, Option, none, some, ◌∷◌, str_eq, eq_iff,
  if◌then◌else◌, ltb, ◌==◌, arith,
}
use rhombus_ai.Files.Connections.{S3Connection, ConnectionSettings, Cache, Codec}
use rhombus_ai.Files.Connections.Laws.{IsCache, IsCodec}

-- Each key with its value and the time it ends.
abbrev pub Entries : Type 0
Entries = String → Option (String × ℕ)

abbrev pub alive : ℕ → Option (String × ℕ) → Option String
alive now none = none
alive now (some (value, until)) = if ltb now until then some value else none

abbrev pub entries : Cache Entries
entries = record {
  get = λ now key s. alive now (s key);
  set = λ now key value timeout s k. if str_eq k key then some (value, now + timeout) else s k;
  delete = λ key s k. if str_eq k key then none else s k;
}

pub ne_texts : (s t : String) → str_eq s t ≡ false → s ≢ t
ne_texts s t h p = cc ((eq_iff s t).1 p, h)

pub str_eq_self : (s : String) → str_eq s s ≡ true
str_eq_self s = (eq_iff s s).1 refl

pub str_eq_other : (s t : String) → s ≢ t → str_eq s t ≡ false
str_eq_other s t h = ground (arith, eq_iff s t, h)

pub entries-IsCache : IsCache entries
entries-IsCache = record {
  get-set = λ now then_ key value timeout s h. rw (str_eq_self key) refl;
  get-set_other = λ now then_ key other value timeout s h. rw (str_eq_other key other h) refl;
  get-delete = λ now key s. rw (str_eq_self key) refl;
  get-delete_other = λ now key other s h. rw (str_eq_other key other h) refl;
}

-- A text with a mark before each character and another mark at its end.
abbrev pub mark : Char
mark = char_at "1" 0

abbrev pub stop : Char
stop = char_at "0" 0

unfoldable pub written : String → String → String
written [] rest = stop ∷ rest
written (c ∷ s) rest = mark ∷ (c ∷ written s rest)

abbrev pub with_first : Char → Option (String × String) → Option (String × String)
with_first c none = none
with_first c (some (s, rest)) = some (c ∷ s, rest)

unfoldable pub read : String → Option (String × String)
read [] = none
read (m ∷ []) = if code m == code stop then some ([], []) else none
read (m ∷ (c ∷ s)) =
    let further = with_first c (read s) in if code m == code stop then some ([], c ∷ s) else further

pub read-written : (s rest : String) → read (written s rest) ≡ some (s, rest)
unfolding read written
read-written [] [] = refl
read-written [] (c ∷ rest) = refl
read-written (c ∷ s) rest = rw (read-written s rest) refl

abbrev pub dump : S3Connection → String
dump c = written c.bucket (
    written c.region
      (written c.access_key_id (written c.secret_access_key (written c.endpoint_url "end"))))

abbrev pub bound : {A : Type 0} → Option (String × String) → (String → String → Option A) → Option A
bound none f = none
bound (some (s, rest)) f = f s rest

abbrev pub undump : String → Option S3Connection
undump t = bound (read t) (λ bucket t. bound (read t) (λ region t.
    bound (read t) (λ access_key_id t. bound (read t) (λ secret_access_key t.
      bound (read t) (λ endpoint_url t. some (record {
        bucket = bucket;
        region = region;
        access_key_id = access_key_id;
        secret_access_key = secret_access_key;
        endpoint_url = endpoint_url;
      }))))))

pub undump-dump : (c : S3Connection) → undump (dump c) ≡ some c
undump-dump c = rw (read-written c.bucket _) (
    rw (read-written c.region _) (
      rw (read-written c.access_key_id _)
        (rw (read-written c.secret_access_key _) (rw (read-written c.endpoint_url _) refl))))

abbrev pub tail : String → Option String
tail [] = none
tail (c ∷ s) = some s

abbrev pub readable : Codec S3Connection
readable = record {
  encrypt = λ nonce text. mark ∷ text;
  decrypt = tail;
  json_dumps = dump;
  json_loads = undump;
  asdict = λ c. c;
  of_dict = some;
}

pub readable-IsCodec : IsCodec readable
readable-IsCodec = record {
  token-ne = λ nonce text. cons≢nil;
  decrypt-encrypt = λ nonce text. refl;
  loads-dumps = undump-dump;
  of_dict-asdict = λ c. refl;
}

abbrev pub minio : ConnectionSettings
minio = record {
  s3_demo_enabled = true;
  s3_bucket = "demo-files";
  aws_region = "us-east-1";
  aws_access_key_id = "minio";
  aws_secret_access_key = "minio-secret";
  s3_endpoint_url = "http://minio:9000";
  s3_connection_ttl = 3600;
}

abbrev pub own : S3Connection
own = record {
  bucket = "sales";
  region = "eu-west-1";
  access_key_id = "AK";
  secret_access_key = "SK";
  endpoint_url = "";
}
