-- ===== src/Files/Listing/Cuts.antt =====
-- What a response takes of the objects that remain.
use rhombus_ai.Base.{
  ℕ, zero, suc, ◌<◌, ◌≡◌, refl, ap, String, false, not, List, [], ◌∷◌, ◌++◌, take, drop, length,
  ltb, arith,
}
use rhombus_ai.Files.Listing.{S3Object, is_none_left, last_key}

pub take-drop : {A : Type 0} (c : ℕ) (xs : List A) → take c xs ++ drop c xs ≡ xs
take-drop zero xs = refl
take-drop (suc c) [] = refl
take-drop (suc c) (x ∷ xs) = ap (λ zs. x ∷ zs) (take-drop c xs)

pub drop-is_none_left :
    (c : ℕ) (xs : List S3Object) → is_none_left (drop c xs) ≡ not (ltb c (length xs))
drop-is_none_left zero [] = refl
drop-is_none_left zero (x ∷ xs) = ground arith
drop-is_none_left (suc c) [] = ground arith
drop-is_none_left (suc c) (x ∷ xs) = ground (arith, drop-is_none_left c xs)

-- The last object of a response that leaves some.
pub record LastTaken (c : ℕ) (xs : List S3Object) (s : String) : Type 0 where
  pub front : List S3Object
  pub last : S3Object
  pub taken : take c xs ≡ front ++ last ∷ []
  pub split : xs ≡ front ++ last ∷ drop c xs
  pub key : last_key s (take c xs) ≡ last.key
  pub some_left : is_none_left (take c xs) ≡ false

pub last_taken :
    (c : ℕ) (xs : List S3Object) (s : String) → 0 < c → c < length xs → LastTaken c xs s
unfolding last_key
last_taken zero xs s h k = absurd (omega arith)
last_taken (suc c) [] s h k = absurd (omega arith)
last_taken (suc zero) (x ∷ xs) s h k = record {
  front = [];
  last = x;
  taken = refl;
  split = refl;
  key = refl;
  some_left = refl;
}
last_taken (suc (suc c)) (x ∷ xs) s h k =
    let rest = last_taken (suc c) xs x.key (omega arith) (omega arith) in
    record {
      front = x ∷ rest.front;
      last = rest.last;
      taken = ap (λ zs. x ∷ zs) rest.taken;
      split = ap (λ zs. x ∷ zs) rest.split;
      key = rest.key;
      some_left = refl;
    }
