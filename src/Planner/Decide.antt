-- ===== src/Planner/Decide.antt =====
-- The outcome for one indexed save: `classify_save_action`, overruled by the timestamps after an
-- upload that was missed.
pub mod Missed
use Prim.Native.Char.{code}
use Prim.Native.String.{String}
use gamehub.Prelude.{
  Bool, ◌||◌, ◌&&◌, ◌==◌, nat_eq, option_eq, Option, none, some, is_none, if◌then◌else◌, string_dec,
}
use gamehub.Prelude.Int.{ℤ, lt_ℤ, eq_ℤ}
use gamehub.Prelude.Text.{strip}
use gamehub.Saves.{
  Mode, download_mode, bidirectional, ConflictPolicy, Outcome, download, upload_existing,
  classify_save_action,
}
use gamehub.Machine.{Machine}

-- src/gamehub_cli/sync/state.py
abbrev pub missed_postexit_upload_reason : String
missed_postexit_upload_reason = "postexit-upload-missed-server-unreachable"

-- A value that may be a datetime (its ISO text), a text, or neither.
pub data TimeValue : Type 0 where
  datetime text : String → TimeValue
  nothing : TimeValue

-- `local_file_updated_at(...)`, a text or `None`
abbrev pub time_of : Option String → TimeValue
time_of none = nothing
time_of (some t) = text t

-- `f"{text[:-1]}+00:00"` if the text ends in "Z"
zulu : String → String
zulu String.[] = ""
zulu (String.◌∷◌ c s) =
    let rest = zulu s in if (s == "") && nat_eq (code c) b'Z' then "+00:00" else String.◌∷◌ c rest

module _ (m : Machine) where
  seconds_of_text : String → Option ℤ
  seconds_of_text t = elim (m.fromisoformat (zulu t)) [ none ↦ none | some d ↦ m.utc_seconds d ]

  unfoldable pub normalize_utc_seconds : TimeValue → Option ℤ
  unfolding zulu strip string_dec seconds_of_text
  normalize_utc_seconds (datetime d) = m.utc_seconds d
  normalize_utc_seconds (text t) = if strip t == "" then none else seconds_of_text (strip t)
  normalize_utc_seconds nothing = none

  newer_side : Option ℤ → Option ℤ → Option Outcome
  newer_side none _ = none
  newer_side (some l) none = none
  newer_side (some l) (some r) =
      if eq_ℤ l r
      then none
      else if lt_ℤ r l
      then some (upload_existing, "missed-upload-local-newer")
      else some (download, "missed-upload-remote-newer")

  unfoldable pub resolve_missed_upload_timestamp_decision :
      Mode → Option String → TimeValue → TimeValue → Option Outcome
  unfolding newer_side
  resolve_missed_upload_timestamp_decision download_mode unresolved local_updated remote_updated =
      none
  resolve_missed_upload_timestamp_decision bidirectional unresolved local_updated remote_updated =
      if option_eq unresolved (some missed_postexit_upload_reason)
      then newer_side (normalize_utc_seconds local_updated) (normalize_utc_seconds remote_updated)
      else none

  unfoldable pub resolve_save_action :
      String
      → Option String
      → Mode
      → ConflictPolicy
      → Option String
      → Option String
      → Option String
      → TimeValue
      → TimeValue
      → Outcome
  resolve_save_action save_sha local_sha mode policy lineage_local lineage_remote unresolved
        local_updated remote_updated =
      let outcome =
        classify_save_action save_sha local_sha mode policy lineage_local lineage_remote in
      if is_none local_sha || option_eq local_sha (some save_sha)
      then outcome
      else elim (resolve_missed_upload_timestamp_decision mode unresolved local_updated
          remote_updated) [ none ↦ outcome | some by_time ↦ by_time ]
