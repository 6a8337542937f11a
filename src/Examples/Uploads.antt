-- ===== src/Examples/Uploads.antt =====
-- Uploads to a server with the save and the binding of the small library.
use Prim.Native.String.{String}
use gamehub.Prelude.{ℕ, zero, suc, ◌≡◌, refl, true, false, none, some, List, [], ◌∷◌, string_dec}
use gamehub.Prelude.Dict
use gamehub.Prelude.Text.{strip, split}
use gamehub.Models.{SaveSpec, SaveBindingSpec}
use gamehub.Server.Suffix.{ok, normalize_canonical_suffix, validate_binding_suffix}
use gamehub.Ids.{make_save_id}
use gamehub.Server.Suffix.Normal.{IsBelow, resolve, normalize_canonical_suffix-safe}
use gamehub.Server.Upload.{
  Server, Disk, UploadRequest, update, expected_sha, put_plan, write_save_upload, save_spec_from,
}
use gamehub.Server.Upload.Guards.{Allowed, put_plan-Allowed}
use gamehub.Server.Backups.{BackupCalls, backup_existing_save}
use gamehub.Server.Upload.Writes.{IsAtomic, write_save_upload-IsAtomic}
use gamehub.Examples.{save_spec, binding_spec}

abbrev strokes : ℕ → String
strokes zero = ""
strokes (suc n) = String.◌∷◌ "1" (strokes n)

-- A name that is taken, a copy that works, and a pruned backup.
abbrev backup_calls : BackupCalls
backup_calls = record {
  stamp = "20240103000000";
  str = strokes;
  casefold = λ t. t;
  others = "saves/snes/quest/battery/quest.srm.20240103000000.bak" ∷ [];
  copy_fault = none;
  torn = none;
  unlink_fault = none;
  keep_limit = 1;
}

abbrev server : Server
server = record {
  scan = λ disk. some (save_spec ∷ [], binding_spec ∷ []);
  sha256_text = λ t. "0123456789abcdef0123456789abcdef";
  within_saves_root = λ path. true;
  backups = backup_calls;
  faults = λ step. none;
}

abbrev disk : Disk
disk =
    ("saves/snes/quest/battery/quest.srm", 1 ∷ 2 ∷ [])
    ∷ ("saves/snes/quest/battery/quest.srm.20240101000000.bak", 1 ∷ [])
    ∷ []

abbrev request : UploadRequest server
request = record {
  save_id = "save_0123456789abcdef";
  fields =
      ("binding_id", "savebind_0123456789abcdef")
      ∷ ("canonical_suffix", " quest.srm ")
      ∷ ("expected_remote_sha256", "remote")
      ∷ [];
  chunks = (3 ∷ 4 ∷ []) ∷ (5 ∷ []) ∷ [] ∷ [];
}

accepted_suffix : normalize_canonical_suffix " quest.srm " ≡ ok "quest.srm"
unfolding normalize_canonical_suffix
accepted_suffix = refl

normalize_canonical_suffix-safe_example :
    ("quest.srm" ≡ strip " quest.srm ")
    × IsBelow ("data" ∷ "saves" ∷ []) (resolve ("data" ∷ "saves" ∷ []) (split b'/' "quest.srm"))
normalize_canonical_suffix-safe_example =
    normalize_canonical_suffix-safe " quest.srm " "quest.srm" ("data" ∷ "saves" ∷ [])
      accepted_suffix

planned_update : put_plan server request disk ≡ ok (update "saves/snes/quest/battery/quest.srm")
unfolding put_plan normalize_canonical_suffix Dict.lookup make_save_id save_spec_from
    validate_binding_suffix
planned_update = refl

put_plan-Allowed_example :
    (saves : List SaveSpec) × (bindings : List SaveBindingSpec) × (server.scan disk
      ≡ some (saves, bindings))
    × Allowed server saves request.save_id
        (expected_sha server request.fields)
        disk
        (update "saves/snes/quest/battery/quest.srm")
put_plan-Allowed_example =
    put_plan-Allowed server request disk (update "saves/snes/quest/battery/quest.srm")
      planned_update

backed_up : backup_existing_save backup_calls "saves/snes/quest/battery/quest.srm" disk ≡ (
  ("saves/snes/quest/battery/quest.srm", 1 ∷ 2 ∷ [])
      ∷ ("saves/snes/quest/battery/quest.srm.20240103000000.1.bak", 1 ∷ 2 ∷ [])
      ∷ [],
  none,
)
unfolding backup_existing_save Dict.lookup Dict.insert Dict.erase string_dec
backed_up = refl

write_save_upload-IsAtomic_example :
    IsAtomic "saves/snes/quest/battery/quest.srm"
      (some (1 ∷ 2 ∷ []))
      request.chunks
      16
      (write_save_upload server "saves/snes/quest/battery/quest.srm" request.chunks false 16 disk)
unfolding string_dec Dict.lookup
write_save_upload-IsAtomic_example =
    write_save_upload-IsAtomic server "saves/snes/quest/battery/quest.srm" request.chunks 16 false
      disk
