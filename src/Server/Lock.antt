-- ===== src/Server/Lock.antt =====
-- `_save_upload_lock` of src/gamehub_server/save_api.py, for one key: the entries of the two tables
-- under it, and the requests between their entry and their exit. The guard makes entry and exit
-- atomic; `asyncio.Lock` is the rule by which a request gets inside. Locks have numbers for
-- identities, since the table may hold a new lock after the old one was dropped.
pub mod Exclusive
use gamehub.Prelude.{
  ℕ, suc, ◌+◌, ◌-◌, ◌≡◌, Bool, true, false, ◌&&◌, leb, nat_eq, any, Option, none, some, List, [],
  ◌∷◌, ◌++◌, if◌then◌else◌,
}

-- `_SAVE_UPLOAD_LOCKS.get(lock_key)`, `_SAVE_UPLOAD_LOCK_REFS.get(lock_key)` and the number of the
-- next `asyncio.Lock()`.
pub record Locks : Type 0 where
  pub entry : Option ℕ
  pub refs : Option ℕ
  pub fresh : ℕ

abbrev pub no_locks : Locks
no_locks = record { entry = none; refs = none; fresh = 0 }

abbrev pub refs_or_zero : Option ℕ → ℕ
refs_or_zero none = 0
refs_or_zero (some n) = n

-- The guarded lines on entry: the lock, and the tables with one more reference.
unfoldable pub enter : Locks → ℕ × Locks
enter locks = elim locks.entry [
  | none ↦ (
    locks.fresh,
    record {
      entry = some locks.fresh;
      refs = some (refs_or_zero locks.refs + 1);
      fresh = locks.fresh + 1;
    },
  )
  | some lock ↦ (lock, record locks { refs = some (refs_or_zero locks.refs + 1) })
]

-- The guarded lines on exit. `remaining <= 0` is written without negative numbers.
unfoldable pub leave : Locks → Locks
leave locks =
    if leb (refs_or_zero locks.refs) 1
    then record locks { entry = none; refs = none }
    else record locks { refs = some (refs_or_zero locks.refs - 1) }

-- A request that waits for its lock, or is inside `async with lock`.
pub record Request : Type 0 where
  pub task : ℕ
  pub lock : ℕ
  pub inside : Bool

abbrev pub holds : ℕ → Request → Bool
holds lock request = request.inside && nat_eq request.lock lock

pub record System : Type 0 where
  pub locks : Locks
  pub requests : List Request

abbrev pub idle : System
idle = record { locks = no_locks; requests = [] }

abbrev pub arrived : ℕ → System → System
arrived task s = record {
  locks = (enter s.locks).1;
  requests = record { task = task; lock = (enter s.locks).0; inside = false } ∷ s.requests;
}

-- One request arrives, gets its lock, or leaves (also while it waits, when it is cancelled).
pub data Step : System → System → Type 0 where
  arrive : (task : ℕ) (s : System) → Step s (arrived task s)
  acquire :
      (locks : Locks) (before after : List Request) (task lock : ℕ)
      → any (holds lock) (before ++ after) ≡ false
      → Step
          (record {
            locks = locks;
            requests = before ++ record { task = task; lock = lock; inside = false } ∷ after;
          })
          (record {
            locks = locks;
            requests = before ++ record { task = task; lock = lock; inside = true } ∷ after;
          })
  depart :
      (locks : Locks) (before after : List Request) (request : Request)
      → Step
          (record { locks = locks; requests = before ++ request ∷ after })
          (record { locks = leave locks; requests = before ++ after })

-- The systems that any order of steps leads to.
pub data Reachable : System → Type 0 where
  start : Reachable idle
  next : (s t : System) → Reachable s → Step s t → Reachable t
