-- ===== src/Examples/Locks.antt =====
-- Two uploads of one save, the second of which waits for the first.
use gamehub.Prelude.{ℕ, ◌≤◌, ◌≡◌, refl, Bool, true, false, List, [], ◌∷◌, some, is_some}
use gamehub.Server.Lock.{
  Request, System, idle, arrived, arrive, acquire, Reachable, start, next, enter,
}
use gamehub.Server.Lock.Exclusive.{inside_count, counted, upload_lock-exclusive}

abbrev request : ℕ → Bool → Request
request task inside = record { task = task; lock = 0; inside = inside }

abbrev busy : List Request → System
busy requests = record {
  locks = record { entry = some 0; refs = some 2; fresh = 1 };
  requests = requests;
}

both_there : Reachable (busy (request 2 false ∷ request 1 false ∷ []))
unfolding enter
both_there = next (arrived 1 idle) _ (next idle _ start (arrive 1 idle)) (arrive 2 (arrived 1 idle))

one_inside : Reachable (busy (request 2 false ∷ request 1 true ∷ []))
one_inside = next _ _ both_there (
    acquire (record { entry = some 0; refs = some 2; fresh = 1 }) (request 2 false ∷ []) [] 1 0
      refl)

upload_lock-exclusive_example :
    (inside_count (request 2 false ∷ request 1 true ∷ []) ≤ 1)
    × (some 2 ≡ counted (request 2 false ∷ request 1 true ∷ []))
    × (true ≡ is_some (counted (request 2 false ∷ request 1 true ∷ [])))
upload_lock-exclusive_example =
    upload_lock-exclusive (busy (request 2 false ∷ request 1 true ∷ [])) one_inside
