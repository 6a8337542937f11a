-- ===== src/Examples/Index.antt =====
-- An index repository that has been built once, and polls that find changes.
use gamehub.Prelude.{ℕ, ◌≡◌, refl, String, true, false, Option, none, some, [], ◌∷◌, All, arith}
use gamehub.Server.Repository.{Observed, Limits, Repository, new_repository, load, poll_loop}
use gamehub.Server.Repository.Serves.{Returned, Raises, load-serves}
use gamehub.Server.Repository.Debounce.{Within, poll_loop-quiet}

abbrev limits : Limits
limits = record { refresh_seconds = 0; stable_seconds = 20 }

abbrev cycle : Option String → Option String → ℕ → Observed String
cycle built signature at = record {
  built = built;
  error = "Index error: build failed";
  encodes = true;
  signature = signature;
  signature_after = signature;
  observed_at = at;
  finished_at = at;
  wall = "now";
}

abbrev built_once : Repository String
built_once = record new_repository {
  cache = some "index";
  source_signature = some "before";
  loaded_at = some 0;
}

load-serves_example :
    Returned limits
      (Raises limits false true (cycle none (some "after") 30))
      "index"
      (cycle none (some "after") 30)
      (load limits false true (cycle none (some "after") 30) built_once)
load-serves_example =
    load-serves limits false true (cycle none (some "after") 30) built_once "index" refl

-- A directory that cannot be read after the build: the new index is cached, and the call raises.
signature_lost : (load limits true true (cycle (some "new") none 30) built_once).1 ≡ none
unfolding load
signature_lost = refl

in_window :
    All
      (Within limits 10)
      (cycle (some "new") (some "after") 12 ∷ cycle (some "new") (some "after") 29 ∷ [])
in_window = ((omega arith, omega arith), ((omega arith, omega arith), tt))

poll_loop-quiet_example :
    (poll_loop limits
      (cycle (some "new") (some "after") 12 ∷ cycle (some "new") (some "after") 29 ∷ [])
      built_once).cache
    ≡ some "index"
poll_loop-quiet_example =
    poll_loop-quiet limits 10 "index"
      (cycle (some "new") (some "after") 12 ∷ cycle (some "new") (some "after") 29 ∷ []) built_once
      refl refl tt in_window
