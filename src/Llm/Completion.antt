-- ===== src/Llm/Completion.antt =====
-- `_complete` of backend/apps/llm/service.py over the cache of backend/apps/llm/cache.py. A
-- suggestion is kept as the data that `model_dump` makes of it; whether Redis answers is an input.
use rhombus_ai.Base.{
  ℕ, suc, String, Bool, true, false, ◌≡◌, refl, Option, none, some, if◌then◌else◌, str_eq, eq_iff,
  Bool-cases, inl, inr,
}
use rhombus_ai.Failure.{Result, ok, err}

-- The entries of the cache by key, and how often the model was asked.
pub record LlmState (Suggestion : Type 0) : Type 0 where
  pub entries : String → Option Suggestion
  pub asked : ℕ

-- `parses` is whether `model_validate` accepts an entry.
pub record Redis (Suggestion : Type 0) : Type 0 where
  pub reads : Bool
  pub writes : Bool
  pub parses : Suggestion → Bool

module _ {Suggestion : Type 0} where
  abbrev pub well_formed : (Suggestion → Bool) → Option Suggestion → Option Suggestion
  well_formed parses none = none
  well_formed parses (some s) = if parses s then some s else none

  -- An unreachable cache and a malformed entry are misses.
  unfoldable pub get_cached : Redis Suggestion → String → LlmState Suggestion → Option Suggestion
  get_cached redis key st = if redis.reads then well_formed redis.parses (st.entries key) else none

  unfoldable pub store :
      Redis Suggestion → String → Suggestion → LlmState Suggestion → LlmState Suggestion
  store redis key suggestion st =
      if redis.writes
      then record st { entries = λ k. if str_eq k key then some suggestion else st.entries k }
      else st

module _ {Suggestion Spec : Type 0} where
  abbrev pub stored :
      Redis Suggestion
      → String
      → Suggestion
      → Result Spec
      → LlmState Suggestion
      → Result (Spec × Suggestion × Bool) × LlmState Suggestion
  stored redis key suggestion (err e) st = (err e, st)
  stored redis key suggestion (ok spec) st =
      (ok (spec, suggestion, false), store redis key suggestion st)

  abbrev pub reused :
      Suggestion
      → Result Spec
      → LlmState Suggestion
      → Result (Spec × Suggestion × Bool) × LlmState Suggestion
  reused suggestion (err e) st = (err e, st)
  reused suggestion (ok spec) st = (ok (spec, suggestion, true), st)

  abbrev pub asked_for :
      Redis Suggestion
      → (Suggestion → Result Spec)
      → String
      → Result Suggestion
      → LlmState Suggestion
      → Result (Spec × Suggestion × Bool) × LlmState Suggestion
  asked_for redis interpret key (err e) st = (err e, st)
  asked_for redis interpret key (ok suggestion) st =
      stored redis key suggestion (interpret suggestion) st

  abbrev pub answered :
      Redis Suggestion
      → (Suggestion → Result Spec)
      → String
      → Result Suggestion
      → Option Suggestion
      → LlmState Suggestion
      → Result (Spec × Suggestion × Bool) × LlmState Suggestion
  answered redis interpret key reply (some suggestion) st =
      reused suggestion (interpret suggestion) st
  answered redis interpret key reply none st =
      asked_for redis interpret key reply (record st { asked = suc st.asked })

  -- `reply` is what the model answers if it is asked.
  unfoldable pub complete_cached :
      Redis Suggestion
      → (Suggestion → Result Spec)
      → String
      → Result Suggestion
      → LlmState Suggestion
      → Result (Spec × Suggestion × Bool) × LlmState Suggestion
  unfolding get_cached store
  complete_cached redis interpret key reply st =
      answered redis interpret key reply (get_cached redis key st) st

  -- What is in the cache passes the checks of its own key.
  abbrev pub AllValid : (Suggestion → Result Spec) → LlmState Suggestion → Type 0
  AllValid interpret st =
      (key : String) (s : Suggestion)
      → st.entries key ≡ some s
      → (spec : Spec) × (interpret s ≡ ok spec)

  entry_valid :
      (interpret : Suggestion → Result Spec) (s t : Suggestion) (spec : Spec)
      (old : Option Suggestion) (b : Bool)
      → interpret s ≡ ok spec
      → (old ≡ some t → (spec' : Spec) × (interpret t ≡ ok spec'))
      → (if b then some s else old) ≡ some t
      → (spec' : Spec) × (interpret t ≡ ok spec')
  entry_valid interpret s t spec old true at_ v e =
      let same : s ≡ t = cc e in (spec, rw same at at_)
  entry_valid interpret s t spec old false at_ v e = v e

  store-AllValid :
      (redis : Redis Suggestion) (interpret : Suggestion → Result Spec) (key : String)
      (s : Suggestion) (st : LlmState Suggestion) (spec : Spec)
      → interpret s ≡ ok spec
      → AllValid interpret st
      → AllValid interpret (store redis key s st)
  unfolding store
  store-AllValid redis interpret key s st spec at_ v k t found = elim (Bool-cases redis.writes) [
    | inr off ↦ v k t (rw off at found)
    | inl on ↦
        entry_valid interpret s t spec (st.entries k) (str_eq k key) at_ (v k t) (rw on at found)
  ]

  stored-AllValid :
      (redis : Redis Suggestion) (interpret : Suggestion → Result Spec) (key : String)
      (s : Suggestion) (st : LlmState Suggestion) (r : Result Spec)
      → interpret s ≡ r
      → AllValid interpret st
      → AllValid interpret (stored redis key s r st).1
  stored-AllValid redis interpret key s st (err e) at_ v = v
  stored-AllValid redis interpret key s st (ok spec) at_ v =
      store-AllValid redis interpret key s st spec at_ v

  reused-AllValid :
      (interpret : Suggestion → Result Spec) (s : Suggestion) (r : Result Spec)
      (st : LlmState Suggestion)
      → AllValid interpret st
      → AllValid interpret (reused s r st).1
  reused-AllValid interpret s (err e) st v = v
  reused-AllValid interpret s (ok spec) st v = v

  answered-AllValid :
      (redis : Redis Suggestion) (interpret : Suggestion → Result Spec) (key : String)
      (reply : Result Suggestion) (o : Option Suggestion) (st : LlmState Suggestion)
      → AllValid interpret st
      → AllValid interpret (answered redis interpret key reply o st).1
  answered-AllValid redis interpret key reply (some s) st v =
      reused-AllValid interpret s (interpret s) st v
  answered-AllValid redis interpret key (err e) none st v = v
  answered-AllValid redis interpret key (ok s) none st v =
      stored-AllValid redis interpret key s (record st { asked = suc st.asked }) (interpret s) refl
        v

  -- No completion puts a suggestion into the cache that the checks refuse, whatever the model
  -- answers and whether or not Redis can be reached.
  pub complete_cached-AllValid :
      (redis : Redis Suggestion) (interpret : Suggestion → Result Spec) (key : String)
      (reply : Result Suggestion) (st : LlmState Suggestion)
      → AllValid interpret st
      → AllValid interpret (complete_cached redis interpret key reply st).1
  unfolding complete_cached
  complete_cached-AllValid redis interpret key reply st v =
      answered-AllValid redis interpret key reply (get_cached redis key st) st v

  -- After a suggestion was interpreted and stored, a completion with the same key reuses it: the
  -- model is not asked again, whatever it would answer, the result is the same and marked as
  -- cached.
  pub complete_cached_twice :
      (redis : Redis Suggestion) (interpret : Suggestion → Result Spec) (key : String)
      (s : Suggestion) (spec : Spec) (later : Result Suggestion) (st : LlmState Suggestion)
      → redis.reads ≡ true
      → redis.writes ≡ true
      → redis.parses s ≡ true
      → get_cached redis key st ≡ none
      → interpret s ≡ ok spec
      → complete_cached redis interpret key later (complete_cached redis interpret key (ok s) st).1
        ≡ (ok (spec, s, true), (complete_cached redis interpret key (ok s) st).1)
  unfolding complete_cached get_cached store
  complete_cached_twice redis interpret key s spec later st reads writes parses miss valid =
      let hit : str_eq key key ≡ true = (eq_iff key key).1 refl in
      rw (miss, valid, writes, reads) (rw (hit, parses, valid) refl)
