-- ===== src/Server/Upload/Writes.antt =====
-- What a write leaves on the disk, whichever call fails.
use mathlib.Core.List
use text.Mathlib.TextLemmas.{append-nil, append_cancel_left, cons-ne-nil}
use gamehub.Prelude.{
  ℕ, ◌+◌, ◌≤◌, ◌≡◌, ◌≢◌, refl, sym, ◌∙◌, String, Bool, true, false, Option, none, some, List, [],
  ◌∷◌, ◌++◌, length, length-append, arith, ltb, Bool-cases, inl, inr,
}
use gamehub.Prelude.Dict
use gamehub.Server.Backups.Kept.{backup_existing_save-keeps}
use gamehub.Server.Suffix.{Answer, ok, err}
use gamehub.Server.Upload.{
  Server, Disk, Bytes, Fault, WriteStep, part_of, Received, complete, too_large, receive,
  discard_part, guarded, give_up, move_part, write_part, backup_first, write_save_upload,
}

part_ne : (path : String) → path ≢ part_of path
part_ne path e =
    cons-ne-nil _ _ (append_cancel_left path ".part" "" (sym e ∙ sym (append-nil path)))

-- The content of the upload, up to its first empty chunk.
abbrev pub payload : List Bytes → Bytes
payload [] = []
payload ([] ∷ chunks) = []
payload ((b ∷ chunk) ∷ chunks) = (b ∷ chunk) ++ payload chunks

-- What the reads come to, from any point of the upload.
abbrev ReceivesAll : ℕ → List Bytes → ℕ → Bytes → Received → Type 0
ReceivesAll max chunks w got (complete n content) =
    (n ≡ w + length (payload chunks)) × (content ≡ got ++ payload chunks) × (n ≤ max)
ReceivesAll max chunks w got (too_large content) = Unit

shift :
    (max b : ℕ) (chunk : Bytes) (chunks : List Bytes) (w : ℕ) (got : Bytes) (r : Received)
    → ReceivesAll max chunks (w + length (b ∷ chunk)) (got ++ (b ∷ chunk)) r
    → ReceivesAll max ((b ∷ chunk) ∷ chunks) w got r
shift max b chunk chunks w got (too_large content) h = tt
shift max b chunk chunks w got (complete n content) h = (
  omega (arith, h.0, length-append (b ∷ chunk) (payload chunks)),
  h.1 ∙ List.append_assoc got (b ∷ chunk) (payload chunks),
  h.2,
)

receive-all :
    (max : ℕ) (chunks : List Bytes) (w : ℕ) (got : Bytes)
    → w ≤ max
    → ReceivesAll max chunks w got (receive max chunks w got)
unfolding receive
receive-all max [] w got h = (omega arith, sym (List.append-nil got), h)
receive-all max ([] ∷ chunks) w got h = (omega arith, sym (List.append-nil got), h)
receive-all max ((b ∷ chunk) ∷ chunks) w got h =
    elim (Bool-cases (ltb max (w + length (b ∷ chunk)))) [
      | inl big ↦ rw (big, ReceivesAll) tt
      | inr fits ↦ rw fits (
          shift max b chunk chunks w got _
            (receive-all max chunks (w + length (b ∷ chunk)) (got ++ (b ∷ chunk)) (ground arith)))
    ]

-- After a write: the whole upload under its path and its length within the limit, or an error and
-- the old content.
abbrev pub IsAtomic : String → Option Bytes → List Bytes → ℕ → Answer ℕ × Disk → Type 0
IsAtomic path before chunks max (ok n, disk) =
    (Dict.lookup path disk ≡ some (payload chunks)) × (n ≡ length (payload chunks)) × (n ≤ max)
IsAtomic path before chunks max (err e, disk) = Dict.lookup path disk ≡ before

module _ (server : Server) (path : String) (chunks : List Bytes) (max : ℕ) where
  Keeps : Option Bytes → Disk → Type 0
  Keeps before disk = Dict.lookup path disk ≡ before

  discard-keeps :
      (before : Option Bytes) (disk : Disk)
      → Dict.lookup path disk ≡ before
      → Dict.lookup path (discard_part server path disk) ≡ before
  unfolding discard_part
  discard-keeps before disk h =
      ground (arith, part_ne path, Dict.lookup-erase path (part_of path) disk)

  part-keeps :
      (content : Bytes) (before : Option Bytes) (disk : Disk)
      → Dict.lookup path disk ≡ before
      → Dict.lookup path (Dict.insert (part_of path) content disk) ≡ before
  part-keeps content before disk h =
      ground (arith, part_ne path, Dict.lookup-insert path (part_of path) content disk)

  guarded-IsAtomic :
      (before : Option Bytes) (fault : Option Fault) (disk : Disk) (rest : Disk → Answer ℕ × Disk)
      → Dict.lookup path disk ≡ before
      → IsAtomic path before chunks max (rest disk)
      → IsAtomic path before chunks max (guarded server path fault disk rest)
  unfolding guarded give_up
  guarded-IsAtomic before none disk rest h r = r
  guarded-IsAtomic before (some fault) disk rest h r = discard-keeps before disk h

  write_part-IsAtomic :
      (before : Option Bytes) (received : Received) (disk : Disk)
      → Dict.lookup path disk ≡ before
      → ReceivesAll max chunks 0 [] received
      → IsAtomic path before chunks max (write_part server path max received disk)
  unfolding write_part
  write_part-IsAtomic before (too_large content) disk h r =
      discard-keeps before (Dict.insert (part_of path) content disk)
        (part-keeps content before disk h)
  write_part-IsAtomic before (complete n content) disk h r =
      let written = Dict.insert (part_of path) content disk in
      let kept = part-keeps content before disk h in
      guarded-IsAtomic before (server.faults WriteStep.sync) written _ kept (
        guarded-IsAtomic before (server.faults WriteStep.replace) written _ kept
          (moved content written r.1, omega (arith, r.0), r.2))
    where
      moved :
          (content : Bytes) (d : Disk)
          → content ≡ payload chunks
          → Dict.lookup path (move_part server path content d) ≡ some (payload chunks)
      moved content d e = unfold move_part in rw (Dict.lookup-insert_self, e)

  -- A write is atomic, whichever of its calls fails, those of the backup of the old file and of the
  -- pruning of older backups included: it reports the length of the upload, which is
  -- within the limit, and the path holds exactly the upload; or it reports an error, and the path
  -- holds what it held before.
  pub write_save_upload-IsAtomic :
      (create : Bool) (disk : Disk)
      → IsAtomic path
          (Dict.lookup path disk)
          chunks
          max
          (write_save_upload server path chunks create max disk)
  unfolding write_save_upload
  write_save_upload-IsAtomic create disk =
      let before = Dict.lookup path disk in
      let backed = backup_first server path create disk in
      let kept : Dict.lookup path backed.0 ≡ before = backed_up create in
      guarded-IsAtomic before (server.faults WriteStep.mkdir) disk _ refl (
        guarded-IsAtomic before backed.1 backed.0 _ kept (
          guarded-IsAtomic before (server.faults WriteStep.open_part) backed.0 _ kept (
            write_part-IsAtomic before (receive max chunks 0 [])
              (Dict.insert (part_of path) [] backed.0) (part-keeps [] before backed.0 kept)
              (receive-all max chunks 0 [] (omega arith)))))
    where
      backed_up :
          (b : Bool) → Dict.lookup path (backup_first server path b disk).0 ≡ Dict.lookup path disk
      backed_up true = unfold backup_first in refl
      backed_up false = unfold backup_first in backup_existing_save-keeps server.backups path disk
