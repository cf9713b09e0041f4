-- ===== src/Regex/Overlap.antt =====
-- Two sets that share a character overlap.
use rhombus_ai.Base.{
  ℕ, ◌≡◌, refl, Bool, true, false, ◌||◌, List, [], ◌∷◌, ◌++◌, any, ◌==◌, arith, Bool-cases, inl,
  inr,
}
use rhombus_ai.Regex.Charset.{
  CharTests, CharSet, Category, digit, word, space, union, overlaps, holds, in_category,
  categories_meet, is_empty, is_nil,
}

any_mono :
    {A : Type 0} (p q : A → Bool) (xs : List A)
    → ((x : A) → p x ≡ true → q x ≡ true)
    → any p xs ≡ true
    → any q xs ≡ true
any_mono p q [] h k = k
any_mono p q (x ∷ xs) h k = elim (Bool-cases (p x)) [
  | inl yes_ ↦ rw (h x yes_) refl
  | inr no_ ↦ ground (arith, no_, any_mono p q xs h (rw no_ at k))
]

any-any :
    {A B : Type 0} (p : A → Bool) (q : B → Bool) (r : A → B → Bool) (xs : List A) (ys : List B)
    → ((x : A) (y : B) → p x ≡ true → q y ≡ true → r x y ≡ true)
    → any p xs ≡ true
    → any q ys ≡ true
    → any (λ x. any (λ y. r x y) ys) xs ≡ true
any-any p q r xs ys h k l =
    any_mono p (λ x. any (λ y. r x y) ys) xs (λ x px. any_mono q (r x) ys (λ y qy. h x y px qy) l) k

any-append : {A : Type 0} (p : A → Bool) (xs ys : List A) → any p (xs ++ ys) ≡ any p xs || any p ys
any-append p [] ys = refl
any-append p (x ∷ xs) ys = ground (arith, any-append p xs ys)

any-nil : {A : Type 0} (p : A → Bool) (xs : List A) → any p xs ≡ true → is_nil xs ≡ false
any-nil p [] h = cc
any-nil p (x ∷ xs) h = refl

-- What is relied on of Python's tests: no space is a digit or a word character.
pub record SpaceApart (tests : CharTests) : Type 0 where
  pub digit : (c : ℕ) → tests.is_digit c ≡ true → tests.is_space c ≡ false
  pub word : (c : ℕ) → tests.is_word c ≡ true → tests.is_space c ≡ false

module _ (tests : CharTests) where
  pub holds-union :
      (a b : CharSet) (c : ℕ) → holds tests (union a b) c ≡ holds tests a c || holds tests b c
  unfolding holds union
  holds-union a b c =
      rw
        (
          any-append (λ d. c == d) a.chars b.chars,
          any-append (λ cat. in_category tests c cat) a.categories b.categories,
        )
        (ground arith)

  categories_meet_shared :
      SpaceApart tests
      → (c : ℕ) (p q : Category) → in_category tests c p ≡ true
      → in_category tests c q ≡ true
      → categories_meet p q ≡ true
  unfolding in_category categories_meet
  categories_meet_shared apart c digit digit h k = refl
  categories_meet_shared apart c digit word h k = refl
  categories_meet_shared apart c digit space h k = cc (apart.digit c h, k)
  categories_meet_shared apart c word digit h k = refl
  categories_meet_shared apart c word word h k = refl
  categories_meet_shared apart c word space h k = cc (apart.word c h, k)
  categories_meet_shared apart c space digit h k = cc (apart.digit c k, h)
  categories_meet_shared apart c space word h k = cc (apart.word c k, h)
  categories_meet_shared apart c space space h k = refl

  holds-is_empty : (a : CharSet) (c : ℕ) → holds tests a c ≡ true → is_empty a ≡ false
  unfolding holds
  holds-is_empty a c h =
      ground (
        arith,
        any-nil (λ d. c == d) a.chars,
        any-nil (λ cat. in_category tests c cat) a.categories,
      )

  same_char : (c x y : ℕ) → (c == x) ≡ true → (c == y) ≡ true → (x == y) ≡ true
  same_char c x y h k = ground arith

  char_in_category :
      (c x : ℕ) (cat : Category)
      → in_category tests c cat ≡ true
      → (c == x) ≡ true
      → in_category tests x cat ≡ true
  char_in_category c x cat h k = let e : c ≡ x = ground arith in rw e at h

  -- Two character sets that both hold some character are found to overlap.
  pub overlaps-shared :
      SpaceApart tests
      → (a b : CharSet) (c : ℕ) → holds tests a c ≡ true
      → holds tests b c ≡ true
      → overlaps tests a b ≡ true
  unfolding overlaps holds
  overlaps-shared apart a b c h k =
      let is : ℕ → Bool = λ d. c == d in
      let lies : Category → Bool = λ cat. in_category tests c cat in
      ground (
        arith,
        holds-is_empty a c h,
        holds-is_empty b c k,
        any-any is is (λ x y. x == y) a.chars b.chars (same_char c),
        any-any lies is (λ cat x. in_category tests x cat) a.categories b.chars
            (λ cat x p q. char_in_category c x cat p q),
        any-any lies is (λ cat x. in_category tests x cat) b.categories a.chars
            (λ cat x p q. char_in_category c x cat p q),
        any-any lies lies (λ p q. categories_meet p q) a.categories b.categories
            (λ p q x y. categories_meet_shared apart c p q x y),
      )
