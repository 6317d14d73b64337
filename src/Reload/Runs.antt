-- ===== src/Reload/Runs.antt =====
-- The invariants of requests and generations along every order of events.
use json_api_forge.Prelude.{
  nat_eq, ℕ, zero, suc, refl, sym, ap, subst, inl, inr, true, false, not, List, [], map, arith,
  Bool-cases, length, All, In, here, there, length-keep-le, All-In, All-intro, contains,
  In-contains, contains-In, not-In-nil, In-cons, ◌≤◌, ◌≡◌, ◌∙◌, ◌≢◌, ◌&&◌, ◌∷◌, ◌++◌, nat_eq,
  string_eq,
}
use json_api_forge.Reload.Ownership.{Project}
use json_api_forge.Reload.Decide.{}
use json_api_forge.Reload.Generations.{
  Generation, Forge, fresh, enter, leave, close, remaining, close_at, step, begins,
}
use json_api_forge.Reload.Served.{
  IsServed, IsCounted, IsValid, In-without, In-without_back, enter-IsCounted, leave-IsCounted,
  by_current, by_retired,
}

pub fresh-IsCounted : (projects : List Project) → IsCounted (fresh projects)
unfolding fresh
fresh-IsCounted projects = record {
  none_twice = tt;
  counted = refl;
  idle_empty = refl;
  closed_idle = λ h. cc;
}

pub In-leave :
    (q request : ℕ) (g : Generation) → q ≢ request → In q g.inside → In q (leave request g).inside
unfolding leave
In-leave q request g apart m = elim (Bool-cases (contains request g.inside)) [
  | inl held ↦ rw (held, leave) (In-without q request g.inside apart m)
  | inr absent ↦ rw (absent, leave) m
]

pub leave-inside :
    (q request : ℕ) (g : Generation) → In q (leave request g).inside → (q ≢ request) × In q g.inside
unfolding leave
leave-inside q request g m = elim (Bool-cases (contains request g.inside)) [
  | inl held ↦ In-without_back q request g.inside (rw (held, leave) at m)
  | inr absent ↦
      let stays : In q g.inside = rw (absent, leave) at m in
      (λ e. cc (absent, In-contains (subst (λ r. In r g.inside) e stays)), stays)
]

pub leave-closed : (request : ℕ) (g : Generation) → (leave request g).closed ≡ g.closed
unfolding leave
leave-closed request g = elim (Bool-cases (contains request g.inside)) [
  | inl held ↦ rw (held, leave) refl
  | inr absent ↦ rw (absent, leave) refl
]

close-IsCounted : (g : Generation) → IsCounted g → IsCounted (close g)
unfolding close
close-IsCounted g c = elim (Bool-cases g.idle) [
  | inl idle_ ↦ subst IsCounted (sym (close-idle g idle_)) (record {
    none_twice = c.none_twice;
    counted = c.counted;
    idle_empty = c.idle_empty;
    closed_idle = λ h. idle_;
  })
  | inr busy ↦ subst IsCounted (sym (close-busy g busy)) c
]
  where
    close-idle : (g : Generation) → g.idle ≡ true → close g ≡ record g { closed = true }
    close-idle g h = simp h

    close-busy : (g : Generation) → g.idle ≡ false → close g ≡ g
    close-busy g h = simp h

-- A generation with a request in it is not idle.
pub busy_inside : (q : ℕ) (g : Generation) → IsCounted g → In q g.inside → g.idle ≡ false
busy_inside q g c m = count g.inside c.counted m
  where
    count : (rs : List ℕ) → g.requests ≡ length rs → In q rs → g.idle ≡ false
    count [] h i = absurd (not-In-nil i)
    count (r ∷ rs) h i = c.idle_empty ∙ ground arith

close-busy_same : (g : Generation) → g.idle ≡ false → close g ≡ g
unfolding close
close-busy_same g h = simp h

pub In-close_at :
    (n : ℕ) (g : Generation) (gs : List Generation)
    → g.idle ≡ false
    → In g gs
    → In g (close_at n gs)
unfolding close_at
In-close_at n g [] busy m = m
In-close_at zero g (x ∷ gs) busy m = elim (In-cons m) [
  | inl e ↦
      subst (λ y. In g (y ∷ gs)) (sym (close-busy_same x (subst (λ y. y.idle ≡ false) e busy)))
        (subst (λ y. In g (y ∷ gs)) e here)
  | inr later ↦ there later
]
In-close_at (suc n) g (x ∷ gs) busy m = elim (In-cons m) [
  | inl e ↦ subst (λ y. In g (y ∷ close_at n gs)) e here
  | inr later ↦ there (In-close_at n g gs busy later)
]

pub close_at-IsCounted :
    (n : ℕ) (gs : List Generation) → All IsCounted gs → All IsCounted (close_at n gs)
unfolding close_at
close_at-IsCounted n [] h = tt
close_at-IsCounted zero (g ∷ gs) h = (close-IsCounted g h.0, h.1)
close_at-IsCounted (suc n) (g ∷ gs) h = (h.0, close_at-IsCounted n gs h.1)

pub length-close_at : (n : ℕ) (gs : List Generation) → length (close_at n gs) ≡ length gs
unfolding close_at
length-close_at n [] = refl
length-close_at zero (g ∷ gs) = refl
length-close_at (suc n) (g ∷ gs) = ap suc (length-close_at n gs)

pub In-remaining :
    (g : Generation) (gs : List Generation)
    → In g gs
    → g.closed ≡ false
    → g.idle ≡ false
    → In g (remaining gs)
unfolding remaining
In-remaining g [] m open_ busy = m
In-remaining g (x ∷ gs) m open_ busy = elim (In-cons m) [
  | inl e ↦
      let kept : not x.closed && not x.idle ≡ true =
        subst (λ y. not y.closed && not y.idle ≡ true) e (ground arith) in
      rw kept (rw e here)
  | inr later ↦ elim (Bool-cases (not x.closed && not x.idle)) [
    | inl kept ↦ rw kept (there (In-remaining g gs later open_ busy))
    | inr cut ↦ rw cut (In-remaining g gs later open_ busy)
  ]
]

pub remaining-IsCounted : (gs : List Generation) → All IsCounted gs → All IsCounted (remaining gs)
unfolding remaining
remaining-IsCounted [] h = tt
remaining-IsCounted (g ∷ gs) h = elim (Bool-cases (not g.closed && not g.idle)) [
  | inl kept ↦ rw kept (h.0, remaining-IsCounted gs h.1)
  | inr cut ↦ rw cut (remaining-IsCounted gs h.1)
]

pub map-leave-IsCounted :
    (request : ℕ) (gs : List Generation) → All IsCounted gs → All IsCounted (map (leave request) gs)
map-leave-IsCounted request [] h = tt
map-leave-IsCounted request (g ∷ gs) h =
    (leave-IsCounted request g h.0, map-leave-IsCounted request gs h.1)

pub In-map-leave :
    (request : ℕ) (g : Generation) (gs : List Generation)
    → In g gs
    → In (leave request g) (map (leave request) gs)
In-map-leave request g [] m = absurd (not-In-nil m)
In-map-leave request g (x ∷ gs) m = elim (In-cons m) [
  | inl e ↦ rw e here
  | inr later ↦ there (In-map-leave request g gs later)
]

pub length-map-leave :
    (request : ℕ) (gs : List Generation) → length (map (leave request) gs) ≡ length gs
length-map-leave request [] = refl
length-map-leave request (g ∷ gs) = ap suc (length-map-leave request gs)

pub All-append_one :
    (gs : List Generation) (g : Generation)
    → All IsCounted gs
    → IsCounted g
    → All IsCounted (gs ++ g ∷ [])
All-append_one [] g h c = (c, tt)
All-append_one (x ∷ gs) g h c = (h.0, All-append_one gs g h.1 c)

pub begins-IsValid : (request : ℕ) (f : Forge) → IsValid f → IsValid (step (begins request) f)
unfolding step
begins-IsValid request f v = elim (Bool-cases (contains request f.in_flight)) [
  | inl known ↦ rw (known, step) v
  | inr new ↦ rw (new, step) (begun new)
]
  where
    absent : contains request f.in_flight ≡ false → contains request f.current.inside ≡ false
    absent new = elim (Bool-cases (contains request f.current.inside)) [
      | inl held ↦ absurd (
          cc (
            new,
            All-In (λ r. contains r f.in_flight ≡ true) v.begun_current
                (contains-In request f.current.inside held),
          ))
      | inr gone ↦ gone
    ]

    more :
        (q : ℕ)
        → IsServed q f
        → IsServed q
            (record f { current = enter request f.current; in_flight = request ∷ f.in_flight })
    more q (by_current m) = by_current (unfold enter in there m)
    more q (by_retired g i m o) = by_retired g i m o

    begun :
        contains request f.in_flight ≡ false
        → IsValid
            (record f { current = enter request f.current; in_flight = request ∷ f.in_flight })
    begun new = record {
      current_counted =
          enter-IsCounted request f.current (absent new) v.current_open v.current_counted;
      current_open = unfold enter in v.current_open;
      retired_counted = v.retired_counted;
      served = λ q m. elim (In-cons m) [
        | inl e ↦ by_current (unfold enter in rw e here)
        | inr later ↦ more q (v.served q later)
      ];
      begun_current =
          unfold enter in
          (
            In-contains (here {xs = f.in_flight}),
            All-intro (λ r. contains r (request ∷ f.in_flight) ≡ true) f.current.inside
                (λ r m. In-contains (
                  there {b = request} (
                    contains-In r f.in_flight
                      (All-In (λ r. contains r f.in_flight ≡ true) v.begun_current m)))),
          );
      few_retired = v.few_retired;
      room = v.room;
    }

pub length-remaining-le : (gs : List Generation) → length (remaining gs) ≤ length gs
unfolding remaining
length-remaining-le gs = length-keep-le (λ g. not g.closed && not g.idle) gs
