-- ===== src/Server/Repository.antt =====
-- `IndexRepository` of src/gamehub_server/index_repository.py: the cached index, when it is rebuilt,
-- and the status that the server reports. `build_index`, the signature of the data directory and the
-- clock are parameters; times are numbers of one unit. A call holds the repository's lock, so a
-- history is a sequence of calls. Logging is left out.
pub mod Serves
pub mod Debounce
use gamehub.Prelude.{
  ℕ, ◌+◌, String, Bool, true, false, not, ◌&&◌, ◌||◌, option_eq, leb, is_none, Option, none, some,
  List, [], ◌∷◌, if◌then◌else◌,
}

-- What one call meets: the result of `build_index` (or the text of its exception), whether the
-- payload can be encoded, the signature of the data directory when the call begins and after a build
-- (or `none` where `_snapshot_data_signature` raises), and the readings of the clock.
pub record Observed (Bundle : Type 0) : Type 0 where
  pub built : Option Bundle
  pub error : String
  pub encodes : Bool
  pub signature : Option String
  pub signature_after : Option String
  pub observed_at : ℕ
  pub finished_at : ℕ
  pub wall : String

pub record Limits : Type 0 where
  pub refresh_seconds : ℕ
  pub stable_seconds : ℕ

pub record Repository (Bundle : Type 0) : Type 0 where
  pub cache : Option Bundle
  pub source_signature : Option String
  pub pending_source_signature : Option String
  pub pending_since : Option ℕ
  pub pending_since_wall : Option String
  pub loaded_at : Option ℕ
  pub last_refresh_reason : Option String
  pub last_successful_refresh_at : Option String
  pub last_failure_at : Option String
  pub last_error : Option String

abbrev pub new_repository : {Bundle : Type 0} → Repository Bundle
new_repository = record {
  cache = none;
  source_signature = none;
  pending_source_signature = none;
  pending_since = none;
  pending_since_wall = none;
  loaded_at = none;
  last_refresh_reason = none;
  last_successful_refresh_at = none;
  last_failure_at = none;
  last_error = none;
}

pub data ServerState : Type 0 where
  starting degraded serving : ServerState

-- The signature that a rebuild was given, or a new one.
abbrev signature_or : Option String → Option String → Option String
signature_or none default = default
signature_or (some signature) default = some signature

module _ {Bundle : Type 0} (limits : Limits) where
  open limits use {refresh_seconds, stable_seconds}

  unfoldable pub should_refresh_for_ttl : Repository Bundle → ℕ → Bool
  should_refresh_for_ttl repo observed_at =
      if is_none repo.cache
      then true
      else if leb refresh_seconds 0
      then false
      else elim repo.loaded_at [
        | none ↦ true
        | some loaded ↦ leb (loaded + refresh_seconds) observed_at
      ]

  abbrev clear_pending : Repository Bundle → Repository Bundle
  clear_pending repo = record repo {
    pending_source_signature = none;
    pending_since = none;
    pending_since_wall = none;
  }

  -- The repository afterwards, and whether to rebuild.
  unfoldable pub observe_source_signature :
      Repository Bundle → String → ℕ → String → Repository Bundle × Bool
  observe_source_signature repo signature observed_at wall =
      if is_none repo.cache
      then (repo, true)
      else if option_eq (some signature) repo.source_signature
      then (clear_pending repo, false)
      else if not (option_eq repo.pending_source_signature (some signature))
      then (
        record repo {
          pending_source_signature = some signature;
          pending_since = some observed_at;
          pending_since_wall = some wall;
        },
        leb stable_seconds 0,
      )
      else elim repo.pending_since [
        | none ↦ (
          record repo { pending_since = some observed_at; pending_since_wall = some wall },
          leb stable_seconds 0,
        )
        | some since ↦ (repo, leb (since + stable_seconds) observed_at)
      ]

  -- What `_rebuild_locked` leaves when it keeps the cached index after a failure.
  after_failure : Repository Bundle → Option String → Observed Bundle → Repository Bundle
  after_failure repo none now =
      if leb refresh_seconds 0 then repo else record repo { loaded_at = some now.finished_at }
  after_failure repo (some signature) now =
      if not (option_eq (some signature) repo.source_signature)
      then record repo {
        pending_source_signature = some signature;
        pending_since = some now.finished_at;
        pending_since_wall = some now.wall;
      }
      else if leb refresh_seconds 0
      then repo
      else record repo { loaded_at = some now.finished_at }

  installed : Repository Bundle → String → Observed Bundle → Repository Bundle
  installed repo signature now = record repo {
    source_signature = some signature;
    pending_source_signature = none;
    pending_since = none;
    pending_since_wall = none;
    loaded_at = some now.finished_at;
    last_successful_refresh_at = some now.wall;
    last_error = none;
  }

  -- What follows once the new index is cached: the encoding and the signature may raise.
  complete_build : Repository Bundle → Option String → Observed Bundle → Repository Bundle × Bool
  unfolding installed
  complete_build repo signature now =
      if not now.encodes then (repo, true) else elim (signature_or signature now.signature_after) [
        | none ↦ (repo, true)
        | some source ↦ (installed repo source now, false)
      ]

  -- The repository afterwards, and whether an exception leaves the call.
  unfoldable pub rebuild_locked :
      Repository Bundle → Option String → String → Bool → Observed Bundle → Repository Bundle × Bool
  unfolding after_failure complete_build
  rebuild_locked repo signature reason raise_on_error now =
      let begun = record repo { last_refresh_reason = some reason } in
      elim now.built [
        | some bundle ↦ complete_build (record begun { cache = some bundle }) signature now
        | none ↦
            let noted = record begun {
              last_failure_at = some now.wall;
              last_error = some now.error;
            } in
            if raise_on_error || is_none repo.cache
            then (noted, true)
            else (after_failure noted signature now, false)
      ]

  -- The bundle that `load` returns, or `none` where an exception leaves it.
  served : Repository Bundle × Bool → Repository Bundle × Option Bundle
  served (repo, true) = (repo, none)
  served (repo, false) = (repo, repo.cache)

  -- The checks of `load` on a cached index, on the result of `_observe_source_signature`.
  refresh_if_due : Repository Bundle × Bool → String → Observed Bundle → Repository Bundle × Bool
  unfolding rebuild_locked should_refresh_for_ttl
  refresh_if_due (repo, true) signature now =
      rebuild_locked repo (some signature) "source_change" false now
  refresh_if_due (repo, false) signature now =
      if is_none repo.pending_source_signature && should_refresh_for_ttl repo now.observed_at
      then rebuild_locked repo (some signature) "ttl" false now
      else (repo, false)

  load_signed : Repository Bundle → String → Observed Bundle → Repository Bundle × Bool
  unfolding refresh_if_due observe_source_signature
  load_signed repo signature now =
      if is_none repo.cache
      then rebuild_locked repo (some signature) "initial" true now
      else refresh_if_due (observe_source_signature repo signature now.observed_at now.wall)
          signature now

  load_seen : Repository Bundle → Option String → Observed Bundle → Repository Bundle × Bool
  unfolding load_signed
  load_seen repo none now = (repo, true)
  load_seen repo (some signature) now = load_signed repo signature now

  -- The signature is read before anything else, outside any handler.
  load_checked : Repository Bundle → Bool → Observed Bundle → Repository Bundle × Bool
  unfolding load_seen
  load_checked repo false now =
      if is_none repo.cache then rebuild_locked repo none "initial" true now else (repo, false)
  load_checked repo true now = load_seen repo now.signature now

  -- `load(force_refresh, check_sources=...)`
  unfoldable pub load :
      Bool → Bool → Observed Bundle → Repository Bundle → Repository Bundle × Option Bundle
  unfolding served load_checked rebuild_locked
  load true check_sources now repo = served (rebuild_locked repo none "forced" true now)
  load false check_sources now repo = served (load_checked repo check_sources now)

  -- The cycles of `_poll_loop`, which logs an exception and goes on.
  unfoldable pub poll_loop : List (Observed Bundle) → Repository Bundle → Repository Bundle
  poll_loop [] repo = repo
  poll_loop (now ∷ cycles) repo = poll_loop cycles (load false true now repo).0

-- `server_status(...).status`
unfoldable pub status : {Bundle : Type 0} → Repository Bundle → ServerState
status repo =
    if is_none repo.cache then starting else if is_none repo.last_error then serving else degraded
