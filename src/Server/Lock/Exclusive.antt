-- ===== src/Server/Lock/Exclusive.antt =====
-- Uploads of one save exclude each other.
use gamehub.Prelude.{
  ℕ, ◌+◌, ◌≤◌, ◌≡◌, refl, true, false, any, Option, none, some, List, [], ◌∷◌, ◌++◌, length, All,
  arith, leb, ap, ◌∙◌, sym, subst, Bool-cases, inl, inr, is_some, if◌then◌else◌,
}
use gamehub.Server.Lock.{
  Locks, enter, leave, Request, holds, System, Step, arrive, acquire, depart, Reachable, start,
  next,
}

-- How many requests are inside.
abbrev pub inside_count : List Request → ℕ
inside_count [] = 0
inside_count (r ∷ rs) = (if r.inside then 1 else 0) + inside_count rs

inside_count-append :
    (rs ss : List Request) → inside_count (rs ++ ss) ≡ inside_count rs + inside_count ss
inside_count-append [] ss = omega arith
inside_count-append (r ∷ rs) ss = omega (arith, inside_count-append rs ss)

-- All requests have the lock of the table, which counts them.
Agrees : Option ℕ → Option ℕ → List Request → Type 0
Agrees none refs rs = (refs ≡ none) × (rs ≡ [])
Agrees (some lock) refs rs =
    All (λ r. r.lock ≡ lock) rs × (refs ≡ some (length rs)) × (1 ≤ length rs)

Invariant : Locks → List Request → Type 0
unfolding Agrees
Invariant locks rs = Agrees locks.entry locks.refs rs × (inside_count rs ≤ 1)

All-split :
    (lock : ℕ) (before after : List Request) (request : Request)
    → All (λ r. r.lock ≡ lock) (before ++ request ∷ after)
    → (request.lock ≡ lock) × All (λ r. r.lock ≡ lock) (before ++ after)
All-split lock [] after request h = h
All-split lock (r ∷ before) after request h =
    let rest = All-split lock before after request h.1 in (rest.0, (h.0, rest.1))

All-join :
    (lock : ℕ) (before after : List Request) (request : Request)
    → request.lock ≡ lock
    → All (λ r. r.lock ≡ lock) (before ++ after)
    → All (λ r. r.lock ≡ lock) (before ++ request ∷ after)
All-join lock [] after request e h = (e, h)
All-join lock (r ∷ before) after request e h = (h.0, All-join lock before after request e h.1)

none_inside :
    (lock : ℕ) (rs : List Request)
    → All (λ r. r.lock ≡ lock) rs
    → any (holds lock) rs ≡ false
    → inside_count rs ≡ 0
none_inside lock [] same free = refl
none_inside lock (r ∷ rs) same free = ground (arith, none_inside lock rs same.1)

length-insert :
    (before after : List Request) (request : Request)
    → length (before ++ request ∷ after) ≡ length (before ++ after) + 1
length-insert [] after request = omega arith
length-insert (r ∷ before) after request = omega (arith, length-insert before after request)

no_length : (rs : List Request) → length rs ≡ 0 → rs ≡ []
no_length [] e = refl
no_length (r ∷ rs) e = absurd (omega (arith, e))

inside_count-insert :
    (before after : List Request) (request : Request)
    → inside_count (before ++ request ∷ after)
      ≡ (if request.inside then 1 else 0) + inside_count (before ++ after)
inside_count-insert [] after request = refl
inside_count-insert (r ∷ before) after request =
    omega (arith, inside_count-insert before after request)

abbrev locks_of : Option ℕ → Option ℕ → ℕ → Locks
locks_of entry refs fresh = record { entry = entry; refs = refs; fresh = fresh }

arrive-Invariant :
    (task : ℕ) (entry refs : Option ℕ) (fresh : ℕ) (rs : List Request)
    → Invariant (locks_of entry refs fresh) rs
    → Invariant
        (enter (locks_of entry refs fresh)).1
        (record { task = task; lock = (enter (locks_of entry refs fresh)).0; inside = false } ∷ rs)
unfolding Invariant Agrees enter
arrive-Invariant task none refs fresh rs h =
    (rw (h.0.1, h.0.0) ((refl, tt), refl, omega arith), omega (arith, h.1))
arrive-Invariant task (some lock) refs fresh rs h =
    (((refl, h.0.0), rw h.0.1 (ap some (omega arith)), omega arith), omega (arith, h.1))

acquire-Invariant :
    (entry refs : Option ℕ) (fresh : ℕ) (before after : List Request) (task lock : ℕ)
    → any (holds lock) (before ++ after) ≡ false
    → Invariant
        (locks_of entry refs fresh)
        (before ++ record { task = task; lock = lock; inside = false } ∷ after)
    → Invariant
        (locks_of entry refs fresh)
        (before ++ record { task = task; lock = lock; inside = true } ∷ after)
unfolding Invariant Agrees
acquire-Invariant none refs fresh before after task lock free h = absurd (
    omega (
      arith,
      ap length h.0.1,
      length-insert before after (record { task = task; lock = lock; inside = false }),
    ))
acquire-Invariant (some l) refs fresh before after task lock free h =
    let waiting : Request = record { task = task; lock = lock; inside = false } in
    let inner : Request = record { task = task; lock = lock; inside = true } in
    let (same, others) = All-split l before after waiting h.0.0 in
    let alone =
      none_inside l (before ++ after) others
        (subst (λ k. any (holds k) (before ++ after) ≡ false) same free) in
    (
      (
        All-join l before after inner same others,
        h.0.1
            ∙ ap some (length-insert before after waiting ∙ sym (length-insert before after inner)),
        omega (arith, length-insert before after inner),
      ),
      omega (arith, inside_count-insert before after inner, alone),
    )

depart-Invariant :
    (entry refs : Option ℕ) (fresh : ℕ) (before after : List Request) (request : Request)
    → Invariant (locks_of entry refs fresh) (before ++ request ∷ after)
    → Invariant (leave (locks_of entry refs fresh)) (before ++ after)
unfolding Invariant Agrees leave
depart-Invariant none refs fresh before after request h =
    absurd (omega (arith, ap length h.0.1, length-insert before after request))
depart-Invariant (some l) refs fresh before after request h =
    let counted = h.0.1 ∙ ap some (length-insert before after request) in
    let fewer : inside_count (before ++ after) ≤ 1 =
      omega (arith, h.1, inside_count-insert before after request) in
    elim (Bool-cases (leb (length (before ++ after) + 1) 1)) [
      | inl e ↦ rw (counted, e) ((refl, no_length (before ++ after) (ground arith)), fewer)
      | inr e ↦
          rw (counted, e)
            (
              (
                (All-split l before after request h.0.0).1,
                ap some (omega arith),
                ground (arith, e),
              ),
              fewer,
            )
    ]

Step-Invariant :
    (s t : System) → Step s t → Invariant s.locks s.requests → Invariant t.locks t.requests
Step-Invariant s t (arrive task _) h =
    arrive-Invariant task s.locks.entry s.locks.refs s.locks.fresh s.requests h
Step-Invariant s t (acquire locks before after task lock free) h =
    acquire-Invariant locks.entry locks.refs locks.fresh before after task lock free h
Step-Invariant s t (depart locks before after request) h =
    depart-Invariant locks.entry locks.refs locks.fresh before after request h

reachable-Invariant : (s : System) → Reachable s → Invariant s.locks s.requests
unfolding Invariant Agrees
reachable-Invariant s start = ((refl, refl), omega arith)
reachable-Invariant s (next r _ before step) =
    Step-Invariant r s step (reachable-Invariant r before)

-- The references that the table has for so many requests: no entry for none.
abbrev pub counted : List Request → Option ℕ
counted [] = none
counted (r ∷ rs) = some (length (r ∷ rs))

Agrees-counted :
    (entry refs : Option ℕ) (rs : List Request)
    → Agrees entry refs rs
    → (refs ≡ counted rs) × (is_some entry ≡ is_some (counted rs))
unfolding Agrees
Agrees-counted none refs rs h = rw (h.0, h.1) (refl, refl)
Agrees-counted (some lock) refs [] h = absurd (omega (arith, h.2))
Agrees-counted (some lock) refs (r ∷ rs) h = (h.1, refl)

-- Whatever requests for one save arrive, wait, are cancelled and leave, in whatever order: at most
-- one of them is inside the lock, although its entry may be dropped and made anew in between; the
-- table of references counts exactly the requests that have not left, and neither table keeps an
-- entry once none is left.
pub upload_lock-exclusive :
    (s : System)
    → Reachable s
    → (inside_count s.requests ≤ 1)
      × (s.locks.refs ≡ counted s.requests)
      × (is_some s.locks.entry ≡ is_some (counted s.requests))
unfolding Invariant
upload_lock-exclusive s reached =
    let h = reachable-Invariant s reached in
    let c = Agrees-counted s.locks.entry s.locks.refs s.requests h.0 in (h.1, c.0, c.1)
