-- ===== src/Http/Files/Connected.antt =====
-- From connecting a bucket to a page of its files.
use rhombus_ai.Base.{
  ℕ, suc, ◌+◌, ◌≤◌, ◌<◌, ◌≡◌, ◌≢◌, refl, ◌∙◌, String, Bool, true, Option, some, List, ltb, All,
  length, arith,
}
use rhombus_ai.Failure.{ok}
use rhombus_ai.Files.Storage.{S3Answer, answered, translate_s3_errors}
use rhombus_ai.Files.Connections.{
  S3Connection, ConnectionSettings, Cache, Codec, demo_connection_id, store, load,
}
use rhombus_ai.Files.Connections.Laws.{
  IsCache, IsCodec, Request, LeavesAlone, serve_all, load-store,
}
use rhombus_ai.Files.Listing.{S3Object, ListResponse, FilePage}
use rhombus_ai.Files.Listing.Bucket.{IsBucket}
use rhombus_ai.Files.Listing.Walk.{IsPageOf, left_after, list_files-IsPageOf}
use rhombus_ai.Files.Preview.{verify}
use rhombus_ai.Http.Files.{ConnectedBody, or_none, stored_when, connect, listed, get_files}

module _ {Store Dict : Type 0} (cache : Cache Store) (codec : Codec Dict)
    (settings : ConnectionSettings) (laws : IsCache cache) (codes : IsCodec codec)
    (extension_of : String → String)
    (list_objects : S3Connection → String → Option String → ℕ → S3Answer ListResponse) where
  -- A bucket that S3 let the credentials read is connected, and then listed: with the documented
  -- cache, cipher and JSON, until the lifetime of the settings has passed and whatever is stored
  -- and forgotten under other ids, the id that was returned gets, for a positive page size, a page
  -- of the files of that bucket under the prefix, behind the cursor.
  pub connect-get_files :
      {Response : Type 0} {before : String → String → Bool} {objects : List S3Object}
      (response : Response) (then_ now nonce : ℕ) (id : String) (c : S3Connection)
      (rs : List Request) (s : Store) (fuel n : ℕ) (prefix : String) (cursor : Option String)
      (q : IsBucket before (list_objects c prefix) objects)
      → id ≢ demo_connection_id
      → then_ ≤ now
      → now < then_ + settings.s3_connection_ttl
      → All (LeavesAlone id) rs
      → 0 < n
      → suc (length (left_after extension_of q (or_none cursor))) < fuel
      → (body : ConnectedBody) × ((connect cache codec settings
            (answered response)
            then_
            nonce
            id
            c
            s).0
          ≡ ok body)
        × (body.connection_id ≡ id)
        × (page : FilePage) × (get_files cache codec settings extension_of list_objects fuel now
              (record {
                connection_id = body.connection_id;
                prefix = prefix;
                cursor = cursor;
                page_size = n;
              })
              (serve_all cache codec settings rs
                (connect cache codec settings (answered response) then_ nonce id c s).1)
            ≡ some (ok page))
        × IsPageOf extension_of n (left_after extension_of q (or_none cursor)) page
  unfolding connect stored_when verify translate_s3_errors get_files listed
  connect-get_files response then_ now nonce id c rs s fuel n prefix cursor q real later fresh h k
        l =
      let (page, answers, is) = list_files-IsPageOf extension_of q fuel n (or_none cursor) k l in
      let in_time : ltb now (then_ + settings.s3_connection_ttl) ≡ true = ground arith in
      let loaded : load cache codec settings now id
            (serve_all cache codec settings rs (store cache codec settings then_ nonce id c s))
          ≡ ok c =
        load-store cache codec settings laws codes then_ now nonce id c rs s real later h
        ∙ rw in_time refl in
      (_, refl, refl, page, rw loaded answers, is)
