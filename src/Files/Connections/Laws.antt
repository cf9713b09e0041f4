-- ===== src/Files/Connections/Laws.antt =====
-- What a connection id stands for over time, whatever else is stored and forgotten.
use Prim.Native.String.{◌++◌}
use text.Mathlib.TextLemmas.{append_cancel_left}
use rhombus_ai.Base.{
  ℕ, ◌+◌, ◌≤◌, ◌≡◌, ◌≢◌, refl, ◌∙◌, String, false, none, some, List, [], ◌∷◌, str_eq, eq_iff,
  if◌then◌else◌, ltb, All, arith, Bool-cases, inl, inr,
}
use rhombus_ai.Failure.{ok, err}
use rhombus_ai.Files.Connections.{
  S3Connection, ConnectionSettings, Cache, Codec, cache_prefix, demo_connection_id, demo_connection,
  demo_or_refuse, expired, of_token, store, load, forget,
}

-- What Django documents of a cache: a value is there until its timeout has passed or it is deleted,
-- and other keys are left alone.
pub record IsCache {Store : Type 0} (cache : Cache Store) : Type 0 where
  pub get-set :
      (now then_ : ℕ) (key value : String) (timeout : ℕ) (s : Store)
      → then_ ≤ now
      → cache.get now key (cache.set then_ key value timeout s)
        ≡ (if ltb now (then_ + timeout) then some value else none)
  pub get-set_other :
      (now then_ : ℕ) (key other value : String) (timeout : ℕ) (s : Store)
      → key ≢ other
      → cache.get now key (cache.set then_ other value timeout s) ≡ cache.get now key s
  pub get-delete :
      (now : ℕ) (key : String) (s : Store) → cache.get now key (cache.delete key s) ≡ none
  pub get-delete_other :
      (now : ℕ) (key other : String) (s : Store)
      → key ≢ other
      → cache.get now key (cache.delete other s) ≡ cache.get now key s

-- A token is not blank and decrypts to its text, and JSON and the constructor undo each other.
pub record IsCodec {Dict : Type 0} (codec : Codec Dict) : Type 0 where
  pub token-ne : (nonce : ℕ) (text : String) → codec.encrypt nonce text ≢ ""
  pub decrypt-encrypt :
      (nonce : ℕ) (text : String) → codec.decrypt (codec.encrypt nonce text) ≡ some text
  pub loads-dumps :
      (c : S3Connection)
      → codec.json_loads (codec.json_dumps (codec.asdict c)) ≡ some (codec.asdict c)
  pub of_dict-asdict : (c : S3Connection) → codec.of_dict (codec.asdict c) ≡ some c

-- What clients do with the store, each at its time.
pub data Request : Type 0 where
  stores : ℕ → ℕ → String → S3Connection → Request
  forgets : String → Request

abbrev pub LeavesAlone : String → Request → Type 0
LeavesAlone id (stores now nonce other c) = id ≢ other
LeavesAlone id (forgets other) = id ≢ other

str_eq-ne : (s t : String) → s ≢ t → str_eq s t ≡ false
str_eq-ne s t h = ground (arith, eq_iff s t, h)

module _ {Store Dict : Type 0} (cache : Cache Store) (codec : Codec Dict)
    (settings : ConnectionSettings) where
  abbrev pub serve : Request → Store → Store
  serve (stores now nonce id c) s = store cache codec settings now nonce id c s
  serve (forgets id) s = forget cache codec settings id s

  unfoldable pub serve_all : List Request → Store → Store
  serve_all [] s = s
  serve_all (r ∷ rs) s = serve_all rs (serve r s)

  keys-ne : (id other : String) → id ≢ other → cache_prefix ++ id ≢ cache_prefix ++ other
  keys-ne id other h e = h (append_cancel_left cache_prefix id other e)

  load-serve :
      IsCache cache
      → (now : ℕ) (id : String) (r : Request) (s : Store) → LeavesAlone id r
      → load cache codec settings now id (serve r s) ≡ load cache codec settings now id s
  unfolding load store forget
  load-serve laws now id (stores then_ nonce other c) s h =
      rw
        (laws.get-set_other now then_ (cache_prefix ++ id) (cache_prefix ++ other) _ _ s
          (keys-ne id other h))
        refl
  load-serve laws now id (forgets other) s h = elim (Bool-cases (str_eq other demo_connection_id)) [
    | inl demo ↦ rw demo refl
    | inr real ↦ rw real (
        rw
          (laws.get-delete_other now (cache_prefix ++ id) (cache_prefix ++ other) s
            (keys-ne id other h))
          refl)
  ]

  load-serve_all :
      IsCache cache
      → (now : ℕ) (id : String) (rs : List Request) (s : Store) → All (LeavesAlone id) rs
      → load cache codec settings now id (serve_all rs s) ≡ load cache codec settings now id s
  unfolding serve_all
  load-serve_all laws now id [] s h = refl
  load-serve_all laws now id (r ∷ rs) s h =
      load-serve_all laws now id rs (serve r s) h.1 ∙ load-serve laws now id r s h.0

  of_token-encrypt :
      IsCodec codec
      → (nonce : ℕ) (c : S3Connection)
      → of_token cache codec settings
          (some (codec.encrypt nonce (codec.json_dumps (codec.asdict c))))
        ≡ ok c
  of_token-encrypt laws nonce c =
      rw (str_eq-ne _ "" (laws.token-ne nonce (codec.json_dumps (codec.asdict c)))) (
        rw (laws.decrypt-encrypt nonce (codec.json_dumps (codec.asdict c)))
          (rw (laws.loads-dumps c) (rw (laws.of_dict-asdict c) refl)))

  -- With a cache, a cipher and JSON that do what is documented, a stored connection is what its id
  -- loads from then on until the lifetime of the settings has passed, and `S3ConnectionExpired`
  -- after that, whatever is stored and forgotten under other ids in between; the id is not that of
  -- the demo.
  pub load-store :
      IsCache cache
      → IsCodec codec
      → (then_ now nonce : ℕ) (id : String) (c : S3Connection) (rs : List Request) (s : Store)
      → id ≢ demo_connection_id
      → then_ ≤ now
      → All (LeavesAlone id) rs
      → load cache codec settings now id
          (serve_all rs (store cache codec settings then_ nonce id c s))
        ≡ (if ltb now (then_ + settings.s3_connection_ttl) then ok c else err expired)
  unfolding load store
  load-store laws codes then_ now nonce id c rs s real later h =
      load-serve_all laws now id rs _ h
      ∙ rw (str_eq-ne id demo_connection_id real) (
          rw (laws.get-set now then_ (cache_prefix ++ id) _ settings.s3_connection_ttl s later)
            (elim (Bool-cases (ltb now (then_ + settings.s3_connection_ttl))) [
              | inl fresh ↦ rw fresh (of_token-encrypt codes nonce c)
              | inr stale ↦ rw stale refl
            ]))

  -- With a cache that does what is documented, an id is expired after `forget`, and stays so
  -- whatever is stored and forgotten under other ids. The demo alone can not be forgotten: its id
  -- loads the deployment's own bucket if that is offered.
  pub load-forget :
      IsCache cache
      → (now : ℕ) (id : String) (rs : List Request) (s : Store) → All (LeavesAlone id) rs
      → load cache codec settings now id (serve_all rs (forget cache codec settings id s)) ≡ (
          if str_eq id demo_connection_id
          then demo_or_refuse (demo_connection settings)
          else err expired)
  unfolding load forget
  load-forget laws now id rs s h =
      load-serve_all laws now id rs _ h ∙ elim (Bool-cases (str_eq id demo_connection_id)) [
        | inl demo ↦ rw demo refl
        | inr real ↦ rw real (rw (laws.get-delete now (cache_prefix ++ id) s) refl)
      ]
