-- ===== src/Reload/Served.antt =====
-- Requests and generations: what holds in every order of events.
use json_api_forge.Prelude.{
  nat_eq, ℕ, suc, refl, sym, ap, inl, inr, true, false, not, List, [], arith, nat_beq, nat_beq_iff,
  Bool-cases, length, All, In, contains, In-contains, contains-In, ◌≤◌, ◌≡◌, ◌∙◌, ◌≢◌, ◌&&◌, ◌∷◌,
  nat_eq, string_eq,
}
use json_api_forge.Reload.Generations.{Generation, Forge, enter, without_request, leave}

abbrev pub NoDuplicates : List ℕ → Type 0
NoDuplicates [] = Unit
NoDuplicates (r ∷ rs) = (contains r rs ≡ false) × NoDuplicates rs

-- The request runs in a generation that is not closed.
pub data IsServed (request : ℕ) (f : Forge) : Type 0 where
  by_current : In request f.current.inside → IsServed request f
  by_retired :
      (g : Generation)
      → In g f.retired
      → In request g.inside
      → g.closed ≡ false
      → IsServed request f

-- The requests of a generation are counted, and it is idle and closed only without one.
pub record IsCounted (g : Generation) : Type 0 where
  pub none_twice : NoDuplicates g.inside
  pub counted : g.requests ≡ length g.inside
  pub idle_empty : g.idle ≡ nat_beq g.requests 0
  pub closed_idle : g.closed ≡ true → g.idle ≡ true

-- Every generation is counted, the current one is open, requests that have begun are served, and only those are inside;
-- no more than two generations are retired, and at most one while a reload is on.
pub record IsValid (f : Forge) : Type 0 where
  pub current_counted : IsCounted f.current
  pub current_open : f.current.closed ≡ false
  pub retired_counted : All IsCounted f.retired
  pub served : (request : ℕ) → In request f.in_flight → IsServed request f
  pub begun_current : All (λ r. contains r f.in_flight ≡ true) f.current.inside
  pub few_retired : length f.retired ≤ 2
  pub room : f.reloading ≡ true → length f.retired ≤ 1

pub contains-without :
    (q r : ℕ) (rs : List ℕ)
    → contains q (without_request r rs) ≡ (not (nat_beq r q) && contains q rs)
contains-without q r [] = ground arith
contains-without q r (x ∷ rs) = ground (arith, contains-without q r rs)

NoDuplicates-without : (r : ℕ) (rs : List ℕ) → NoDuplicates rs → NoDuplicates (without_request r rs)
NoDuplicates-without r [] h = tt
NoDuplicates-without r (x ∷ rs) h = elim (Bool-cases (nat_beq r x)) [
  | inl same ↦ rw same (NoDuplicates-without r rs h.1)
  | inr differ ↦
      rw differ (ground (arith, contains-without x r rs, h.0), NoDuplicates-without r rs h.1)
]

length-without_absent :
    (r : ℕ) (rs : List ℕ) → contains r rs ≡ false → length (without_request r rs) ≡ length rs
length-without_absent r [] h = refl
length-without_absent r (x ∷ rs) h = ground (arith, length-without_absent r rs)

length-without :
    (r : ℕ) (rs : List ℕ)
    → NoDuplicates rs
    → contains r rs ≡ true
    → suc (length (without_request r rs)) ≡ length rs
length-without r [] h k = cc
length-without r (x ∷ rs) h k = elim (Bool-cases (nat_beq r x)) [
  | inl same ↦
      let e : r ≡ x = (nat_beq_iff r x).0 same in
      let gone : contains r rs ≡ false = ap (λ y. contains y rs) e ∙ h.0 in
      rw same (ap suc (length-without_absent r rs gone))
  | inr differ ↦ rw differ (ap suc (length-without r rs h.1 (ground arith)))
]

pub In-without : (q r : ℕ) (rs : List ℕ) → q ≢ r → In q rs → In q (without_request r rs)
In-without q r rs apart m =
    contains-In q (without_request r rs)
      (contains-without q r rs ∙ ground (arith, In-contains m, nat_beq_iff r q))

pub In-without_back : (q r : ℕ) (rs : List ℕ) → In q (without_request r rs) → (q ≢ r) × In q rs
In-without_back q r rs m =
    let both = sym (contains-without q r rs) ∙ In-contains m in
    (λ e. ground (arith, nat_beq_iff r q), contains-In q rs (ground arith))

pub enter-IsCounted :
    (request : ℕ) (g : Generation)
    → contains request g.inside ≡ false
    → g.closed ≡ false
    → IsCounted g
    → IsCounted (enter request g)
unfolding enter
enter-IsCounted request g new open_ c = record {
  none_twice = (new, c.none_twice);
  counted = omega (arith, c.counted);
  idle_empty = ground arith;
  closed_idle = λ h. cc (h, open_);
}

pub leave-IsCounted : (request : ℕ) (g : Generation) → IsCounted g → IsCounted (leave request g)
unfolding leave
leave-IsCounted request g c = elim (Bool-cases (contains request g.inside)) [
  | inl held ↦
      rw (held, leave)
        (record {
          none_twice = NoDuplicates-without request g.inside c.none_twice;
          counted = omega (arith, c.counted, length-without request g.inside c.none_twice held);
          idle_empty =
              ground
                (arith, c.idle_empty, c.counted, length-without request g.inside c.none_twice held);
          closed_idle = λ h. ground (arith, c.closed_idle h);
        })
  | inr absent ↦ rw (absent, leave) c
]
