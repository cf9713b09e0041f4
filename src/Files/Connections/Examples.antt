-- ===== src/Files/Connections/Examples.antt =====
-- A connection among others.
use Prim.Native.String.{◌∷◌}
use mathlib.Core.List.{List}
use rhombus_ai.Base.{◌≡◌, refl, none, List, ◌∷◌, arith}
use rhombus_ai.Failure.{ok, err}
use rhombus_ai.Files.Connections.{expired, store, load, forget}
use rhombus_ai.Files.Connections.Laws.{Request, stores, forgets, serve_all, load-store, load-forget}
use rhombus_ai.Files.Connections.Sample.{
  Entries, entries, ne_texts, entries-IsCache, readable, readable-IsCodec, minio, own,
}

abbrev others : List Request
others = stores 20 7 "id-b" own ∷ forgets "id-c" ∷ List.[]

abbrev empty : Entries
empty key = none

load-store_example :
    load entries readable minio 100 "id-a"
      (serve_all entries readable minio others (store entries readable minio 10 5 "id-a" own empty))
    ≡ ok own
load-store_example =
    load-store entries readable minio entries-IsCache readable-IsCodec 10 100 5 "id-a" own others
      empty (ne_texts "id-a" "demo" refl) (omega arith)
      (ne_texts "id-a" "id-b" refl, (ne_texts "id-a" "id-c" refl, tt))

load-forget_example :
    load entries readable minio 100 "id-a"
      (serve_all entries readable minio others (forget entries readable minio "id-a" empty))
    ≡ err expired
load-forget_example =
    load-forget entries readable minio entries-IsCache 100 "id-a" others empty
      (ne_texts "id-a" "id-b" refl, (ne_texts "id-a" "id-c" refl, tt))
