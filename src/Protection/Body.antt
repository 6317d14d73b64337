-- ===== src/Protection/Body.antt =====
-- framework/protection.py: RequestBodyLimitMiddleware. A request is its Content-Length header, parsed
-- by `int` (`none` for its ValueError), and the sizes of the body chunks that `receive` delivers. The
-- application reads some number of them, and may have started its response.
use json_api_forge.Prelude.{
  ℕ, zero, suc, refl, inl, inr, Bool, true, false, Option, none, some, List, [], arith, ltb, length,
  take, ◌+◌, ◌≤◌, ◌<◌, ◌≡◌, ◌⊎◌, ◌∷◌, if◌then◌else◌,
}

pub record Request : Type 0 where
  pub content_length : Option (Option ℕ)
  pub chunks : List ℕ

-- How the application behaves: how many chunks it reads, and after how many it starts to respond.
pub record App : Type 0 where
  pub reads : ℕ
  pub starts_after : ℕ

pub data Outcome : Type 0 where
  served : List ℕ → Outcome
  rejected : Outcome
  bad_length : Outcome
  cut_off : List ℕ → Outcome

-- The calls of `limited_receive`: the chunks handed to the application, and whether the last call
-- raised `_BodyTooLarge`.
unfoldable pub receive : ℕ → ℕ → ℕ → List ℕ → List ℕ × Bool
receive limit total zero chunks = ([], false)
receive limit total (suc n) [] = ([], false)
receive limit total (suc n) (size ∷ chunks) = elim (ltb limit (total + size)) [
  | true ↦ ([], true)
  | false ↦ let (got, raised) = receive limit (total + size) n chunks in (size ∷ got, raised)
]

unfoldable pub finish : App → List ℕ × Bool → Outcome
finish app (got, false) = served got
finish app (got, true) = if ltb app.starts_after (length got + 1) then cut_off got else rejected

-- `if not limit` is true of a missing limit and of 0: the body is passed on as it comes.
unfoldable pub handle : Option ℕ → App → Request → Outcome
unfolding receive finish
handle none app r = served (take app.reads r.chunks)
handle (some zero) app r = served (take app.reads r.chunks)
handle (some (suc limit)) app r = elim r.content_length [
  | none ↦ finish app (receive (suc limit) 0 app.reads r.chunks)
  | some none ↦ bad_length
  | some (some n) ↦
      if ltb (suc limit) n then rejected else finish app (receive (suc limit) 0 app.reads r.chunks)
]

abbrev pub total : List ℕ → ℕ
total [] = 0
total (x ∷ xs) = x + total xs

-- The chunks that the application saw.
abbrev pub delivered : Outcome → List ℕ
delivered (served got) = got
delivered rejected = []
delivered bad_length = []
delivered (cut_off got) = got

receive_all :
    (limit t n : ℕ) (chunks : List ℕ)
    → length chunks ≤ n
    → t + total chunks ≤ limit
    → receive limit t n chunks ≡ (chunks, false)
unfolding receive
receive_all limit t zero [] h k = refl
receive_all limit t zero (x ∷ xs) h k = absurd (omega arith)
receive_all limit t (suc n) [] h k = refl
receive_all limit t (suc n) (x ∷ xs) h k = ground (arith, receive_all limit (t + x) n xs)

-- A body within a limit other than 0, sent without a Content-Length or with a truthful one, is served
-- whole to an application that reads all its chunks.
pub body_within_limit_served :
    (limit : ℕ) (app : App) (r : Request)
    → 0 < limit
    → (r.content_length ≡ none) ⊎ (r.content_length ≡ some (some (total r.chunks)))
    → length r.chunks ≤ app.reads
    → total r.chunks ≤ limit
    → handle (some limit) app r ≡ served r.chunks
unfolding handle finish
body_within_limit_served zero app r p h k l = absurd (omega arith)
body_within_limit_served (suc limit) app r p (inl h) k l =
    ground (arith, receive_all (suc limit) 0 app.reads r.chunks)
body_within_limit_served (suc limit) app r p (inr h) k l =
    ground (arith, receive_all (suc limit) 0 app.reads r.chunks)
