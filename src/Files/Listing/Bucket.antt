-- ===== src/Files/Listing/Bucket.antt =====
-- What Amazon documents of `list_objects_v2`, and where a listing resumes.
use rhombus_ai.Base.{
  ℕ, ◌<◌, ◌≡◌, ◌≢◌, refl, sym, ◌∙◌, String, Bool, true, false, Option, none, some, List, [], ◌∷◌,
  ◌++◌, take, length, ltb, if◌then◌else◌, All, arith, Bool-cases, inl, inr,
}
use rhombus_ai.Files.Storage.{S3Answer, answered}
use rhombus_ai.Files.Listing.{S3Object, ListResponse}

unfoldable pub filter : {A : Type 0} → (A → Bool) → List A → List A
filter p [] = []
filter p (x ∷ xs) = let rest = filter p xs in if p x then x ∷ rest else rest

module _ (before : String → String → Bool) where
  abbrev pub Ascends : List S3Object → Type 0
  Ascends [] = Unit
  Ascends (o ∷ os) = All (λ p. before o.key p.key ≡ true) os × Ascends os

  -- The objects that a request lists: those with a key after `StartAfter`.
  abbrev pub remaining : Option String → List S3Object → List S3Object
  remaining none objects = objects
  remaining (some s) objects = filter (λ o. before s o.key) objects

-- The objects of the bucket under a prefix are listed by ascending keys, which are not blank. A
-- response holds the first of those that remain, at least one if `MaxKeys` is positive, and tells
-- whether there are more. `before` is S3's order of keys.
pub record IsBucket (before : String → String → Bool)
    (list_objects : Option String → ℕ → S3Answer ListResponse) (objects : List S3Object)
    : Type 0 where
  pub irreflexive : (s : String) → before s s ≡ false
  pub transitive : (s t u : String) → before s t ≡ true → before t u ≡ true → before s u ≡ true
  pub ascends : Ascends before objects
  pub keys : All (λ o. o.key ≢ "") objects
  pub count : Option String → ℕ → ℕ
  pub count-positive : (s : Option String) (n : ℕ) → 0 < n → 0 < count s n
  pub lists :
      (s : Option String) (n : ℕ)
      → list_objects s n
        ≡ answered (record {
          contents = take (count s n) (remaining before s objects);
          is_truncated = ltb (count s n) (length (remaining before s objects));
        })

filter-All : {A : Type 0} (p : A → Bool) (xs : List A) → All (λ x. p x ≡ true) (filter p xs)
unfolding filter
filter-All p [] = tt
filter-All p (x ∷ xs) = elim (Bool-cases (p x)) [
  | inl keep ↦ rw keep (keep, filter-All p xs)
  | inr drop_ ↦ rw drop_ (filter-All p xs)
]

All-filter :
    {A : Type 0} (P : A → Type 0) (p : A → Bool) (xs : List A) → All P xs → All P (filter p xs)
unfolding filter
All-filter P p [] h = tt
All-filter P p (x ∷ xs) h = elim (Bool-cases (p x)) [
  | inl keep ↦ rw keep (h.0, All-filter P p xs h.1)
  | inr drop_ ↦ rw drop_ (All-filter P p xs h.1)
]

filter-eq_self :
    {A : Type 0} (p : A → Bool) (xs : List A) → All (λ x. p x ≡ true) xs → filter p xs ≡ xs
unfolding filter
filter-eq_self p [] h = refl
filter-eq_self p (x ∷ xs) h = ground (arith, h.0, filter-eq_self p xs h.1)

filter-filter :
    {A : Type 0} (p q : A → Bool) (xs : List A)
    → ((x : A) → q x ≡ true → p x ≡ true)
    → filter q (filter p xs) ≡ filter q xs
unfolding filter
filter-filter p q [] h = refl
filter-filter p q (x ∷ xs) h = ground (arith, h x, filter-filter p q xs h)

pub All-split :
    {A : Type 0} (P : A → Type 0) (xs ys : List A) → All P (xs ++ ys) → All P xs × All P ys
All-split P [] ys h = (tt, h)
All-split P (x ∷ xs) ys h = let (hx, hy) = All-split P xs ys h.1 in ((h.0, hx), hy)

module _ (before : String → String → Bool) where
  Ascends-filter :
      (p : S3Object → Bool) (os : List S3Object) → Ascends before os → Ascends before (filter p os)
  unfolding filter
  Ascends-filter p [] h = tt
  Ascends-filter p (o ∷ os) h = elim (Bool-cases (p o)) [
    | inl keep ↦ rw keep (All-filter _ p os h.0, Ascends-filter p os h.1)
    | inr drop_ ↦ rw drop_ (Ascends-filter p os h.1)
  ]

  Ascends-remaining :
      (s : Option String) (os : List S3Object)
      → Ascends before os
      → Ascends before (remaining before s os)
  Ascends-remaining none os h = h
  Ascends-remaining (some k) os h = Ascends-filter _ os h

  pub All-remaining :
      (P : S3Object → Type 0) (s : Option String) (os : List S3Object)
      → All P os
      → All P (remaining before s os)
  All-remaining P none os h = h
  All-remaining P (some k) os h = All-filter P _ os h

module _ {before : String → String → Bool}
    {list_objects : Option String → ℕ → S3Answer ListResponse} {objects : List S3Object}
    (q : IsBucket before list_objects objects) where
  asymmetric : (s t : String) → before s t ≡ true → before t s ≡ false
  asymmetric s t h = elim (Bool-cases (before t s)) [
    | inl back ↦ cc (q.transitive s t s h back, q.irreflexive s)
    | inr fine ↦ fine
  ]

  -- After an object of an ascending list, what is left is what stands behind it.
  filter-behind :
      (xs : List S3Object) (o : S3Object) (ys : List S3Object)
      → Ascends before (xs ++ o ∷ ys)
      → filter (λ p. before o.key p.key) (xs ++ o ∷ ys) ≡ ys
  unfolding filter
  filter-behind [] o ys h =
      ground (arith, q.irreflexive o.key, filter-eq_self (λ p. before o.key p.key) ys h.0)
  filter-behind (x ∷ xs) o ys h =
      let (earlier, later) = All-split _ xs (o ∷ ys) h.0 in
      ground (arith, asymmetric x.key o.key later.0, filter-behind xs o ys h.1)

  -- The object's key is one that the request may list.
  abbrev Lies : Option String → S3Object → Type 0
  Lies none o = Unit
  Lies (some k) o = before k o.key ≡ true

  Lies-split :
      (s : Option String) (xs : List S3Object) (o : S3Object) (ys : List S3Object)
      → remaining before s objects ≡ xs ++ o ∷ ys
      → Lies s o
  Lies-split none xs o ys e = tt
  Lies-split (some k) xs o ys e =
      (All-split (λ p. before k p.key ≡ true) xs (o ∷ ys)
        (rw (← e) (filter-All (λ p. before k p.key) objects))).1.0

  narrower :
      (s : Option String) (o : S3Object)
      → Lies s o
      → filter (λ p. before o.key p.key) (remaining before s objects)
        ≡ filter (λ p. before o.key p.key) objects
  narrower none o h = refl
  narrower (some k) o h = filter-filter _ _ objects (λ p later. q.transitive k o.key p.key h later)

  pub remaining-behind :
      (s : Option String) (xs : List S3Object) (o : S3Object) (ys : List S3Object)
      → remaining before s objects ≡ xs ++ o ∷ ys
      → remaining before (some o.key) objects ≡ ys
  remaining-behind s xs o ys e =
      let sorted : Ascends before (xs ++ o ∷ ys) =
        rw (← e) (Ascends-remaining before s objects q.ascends) in
      sym (narrower s o (Lies-split s xs o ys e)) ∙ rw e (filter-behind xs o ys sorted)
