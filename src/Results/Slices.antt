-- ===== src/Results/Slices.antt =====
-- Slices of a list of records with ascending ids: the records between the least and the greatest id
-- of a slice are the slice.
use rhombus_ai.Base.{
  ℕ, zero, suc, ◌≤◌, ◌<◌, min, max, ◌≡◌, refl, ◌&&◌, Option, none, some, List, [], ◌∷◌, arith, leb,
  take, drop, if◌then◌else◌,
}
use rhombus_ai.Results.{Record}

-- The least and the greatest id, as SQL's `min` and `max` over a list of records.
unfoldable pub widen : ℕ → Option (ℕ × ℕ) → Option (ℕ × ℕ)
widen id none = some (id, id)
widen id (some (low, high)) = some (min id low, max id high)

module _ {Cell : Type 0} where
  unfoldable pub id_bounds : List (Record Cell) → Option (ℕ × ℕ)
  id_bounds [] = none
  id_bounds ((id, cells) ∷ records) = widen id (id_bounds records)

  -- `WHERE id BETWEEN low AND high`; nothing is between NULLs
  unfoldable pub keep_between : ℕ → ℕ → List (Record Cell) → List (Record Cell)
  keep_between low high [] = []
  keep_between low high ((id, cells) ∷ records) =
      let rest = keep_between low high records in
      if leb low id && leb id high then (id, cells) ∷ rest else rest

  unfoldable pub select_between : Option (ℕ × ℕ) → List (Record Cell) → List (Record Cell)
  select_between none records = []
  select_between (some (low, high)) records = keep_between low high records

  -- Each id is above `low`, and they ascend.
  abbrev pub AscendsAbove : ℕ → List (Record Cell) → Type 0
  AscendsAbove low [] = Unit
  AscendsAbove low ((id, cells) ∷ records) = (low < id) × AscendsAbove id records

  abbrev pub Ascends : List (Record Cell) → Type 0
  Ascends [] = Unit
  Ascends ((id, cells) ∷ records) = AscendsAbove id records

  keep_between_below :
      (low high below : ℕ) (records : List (Record Cell))
      → high ≤ below
      → AscendsAbove below records
      → keep_between low high records ≡ []
  unfolding keep_between
  keep_between_below low high below [] h a = refl
  keep_between_below low high below ((id, cells) ∷ records) h a =
      ground (arith, keep_between_below low high id records)

  Ascends-of_above :
      (low : ℕ) (records : List (Record Cell)) → AscendsAbove low records → Ascends records
  Ascends-of_above low [] a = tt
  Ascends-of_above low ((id, cells) ∷ records) a = a.1

  last_id : ℕ → List (Record Cell) → ℕ
  last_id id [] = id
  last_id id ((j, cells) ∷ records) = last_id j records

  le-last_id :
      (id : ℕ) (records : List (Record Cell)) → AscendsAbove id records → id ≤ last_id id records
  unfolding last_id
  le-last_id id [] a = omega arith
  le-last_id id ((j, cells) ∷ records) a = omega (arith, le-last_id j records a.1)

  id_bounds_ascending :
      (id : ℕ) (cells : List Cell) (records : List (Record Cell))
      → AscendsAbove id records
      → id_bounds ((id, cells) ∷ records) ≡ some (id, last_id id records)
  unfolding id_bounds widen last_id
  id_bounds_ascending id cells [] a = refl
  id_bounds_ascending id cells ((j, cs) ∷ records) a =
      ground (arith, id_bounds_ascending j cs records a.1, le-last_id j records a.1)

  AscendsAbove-take :
      (n low : ℕ) (records : List (Record Cell))
      → AscendsAbove low records
      → AscendsAbove low (take n records)
  AscendsAbove-take zero low records a = tt
  AscendsAbove-take (suc n) low [] a = tt
  AscendsAbove-take (suc n) low ((id, cells) ∷ records) a =
      (a.0, AscendsAbove-take n id records a.1)

  AscendsAbove-weaken :
      (a b : ℕ) (records : List (Record Cell))
      → a ≤ b
      → AscendsAbove b records
      → AscendsAbove a records
  AscendsAbove-weaken a b [] h k = tt
  AscendsAbove-weaken a b ((id, cells) ∷ records) h k = (omega arith, k.1)

  AscendsAbove-drop :
      (n low : ℕ) (records : List (Record Cell))
      → AscendsAbove low records
      → AscendsAbove low (drop n records)
  AscendsAbove-drop zero low records a = a
  AscendsAbove-drop (suc n) low [] a = tt
  AscendsAbove-drop (suc n) low ((id, cells) ∷ records) a =
      AscendsAbove-weaken low id _ (omega arith) (AscendsAbove-drop n id records a.1)

  keep_between-take :
      (low id : ℕ) (cells : List Cell) (n : ℕ) (records : List (Record Cell))
      → low ≤ id
      → AscendsAbove id records
      → keep_between low (last_id id (take n records)) ((id, cells) ∷ records)
        ≡ (id, cells) ∷ take n records
  unfolding keep_between last_id
  keep_between-take low id cells zero records h a =
      ground (arith, keep_between_below low id id records)
  keep_between-take low id cells (suc n) [] h a = ground arith
  keep_between-take low id cells (suc n) ((j, cs) ∷ records) h a = ground (
    arith,
    keep_between-take low j cs n records,
    le-last_id j (take n records) (AscendsAbove-take n j records a.1),
  )

  skip_first :
      (id : ℕ) (cells : List Cell) (records slice : List (Record Cell))
      → AscendsAbove id slice
      → select_between (id_bounds slice) records ≡ slice
      → select_between (id_bounds slice) ((id, cells) ∷ records) ≡ slice
  unfolding select_between
  skip_first id cells records [] a h = unfold id_bounds in refl
  skip_first id cells records ((j, cs) ∷ slice) a h =
      rw (id_bounds_ascending j cs slice a.1)
        (unfold keep_between in ground (arith, rw (id_bounds_ascending j cs slice a.1) at h))

  -- Of records with ascending ids, those between the least and the greatest id of a slice are the
  -- slice, wherever it begins and also where it is empty.
  pub select_between-slice :
      (offset n : ℕ) (records : List (Record Cell))
      → Ascends records
      → select_between (id_bounds (take n (drop offset records))) records
        ≡ take n (drop offset records)
  unfolding select_between
  select_between-slice zero zero records a = unfold id_bounds in refl
  select_between-slice zero (suc n) [] a = unfold id_bounds in refl
  select_between-slice zero (suc n) ((id, cells) ∷ records) a =
      rw (id_bounds_ascending id cells (take n records) (AscendsAbove-take n id records a))
        (keep_between-take id id cells n records (omega arith) a)
  select_between-slice (suc offset) zero [] a = unfold id_bounds in refl
  select_between-slice (suc offset) (suc n) [] a = unfold id_bounds in refl
  select_between-slice (suc offset) n ((id, cells) ∷ records) a =
      skip_first id cells records (take n (drop offset records))
        (AscendsAbove-take n id _ (AscendsAbove-drop offset id records a))
        (select_between-slice offset n records (Ascends-of_above id records a))
