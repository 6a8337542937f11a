-- ===== src/Downloads/Checked.antt =====
-- What a download leaves at its destination.
use text.Mathlib.TextLemmas.{append-nil, append_cancel_left, cons-ne-nil}
use gamehub.Prelude.{
  ◌≡◌, ◌≢◌, refl, sym, ap, ◌∙◌, ◌⊎◌, inl, inr, String, ◌<>◌, true, ◌==◌, Option, none, some, [],
  is_some, arith, Bool-cases, Option-cases,
}
use gamehub.Prelude.Dict
use gamehub.Downloads.{
  Bytes, Disk, Fault, special, plain, Faults, received, Effect, emptied, cleanup_part_file,
  remove_source, copy_over, replace_file, mismatch, check_and_replace, download_with_atomic_write,
}

part_ne : (path : String) → path ≢ path <> ".part"
part_ne path e =
    cons-ne-nil _ _ (append_cancel_left path ".part" "" (sym e ∙ sym (append-nil path)))

module _ (path : String) where
  abbrev part : String
  part = path <> ".part"

  insert-part :
      (content : Bytes) (disk : Disk)
      → Dict.lookup path (Dict.insert part content disk) ≡ Dict.lookup path disk
  insert-part content disk = ground (arith, part_ne path, Dict.lookup-insert path part content disk)

  erase-part : (disk : Disk) → Dict.lookup path (Dict.erase part disk) ≡ Dict.lookup path disk
  erase-part disk = ground (arith, part_ne path, Dict.lookup-erase path part disk)

  emptied-part :
      (fault : Option String) (disk : Disk)
      → Dict.lookup path (emptied fault part disk).1 ≡ Dict.lookup path disk
  emptied-part none disk = insert-part [] disk
  emptied-part (some text) disk = refl

  cleanup-part :
      (faults : Faults) (disk : Disk)
      → Dict.lookup path (cleanup_part_file faults part disk).1 ≡ Dict.lookup path disk
  unfolding cleanup_part_file
  cleanup-part faults disk = elim (Option-cases faults.unlink) [
    | inl e ↦ rw e (erase-part disk)
    | inr (plain text, e) ↦ rw e refl
    | inr (special text, e) ↦ elim (Bool-cases (is_some (Dict.lookup part disk))) [
      | inl there ↦ rw (e, there) (emptied-part faults.truncate disk)
      | inr gone ↦ rw (e, gone) refl
    ]
  ]

  remove-part :
      (faults : Faults) (disk : Disk)
      → Dict.lookup path (remove_source faults part disk).1 ≡ Dict.lookup path disk
  unfolding remove_source
  remove-part faults disk = elim (Option-cases faults.unlink) [
    | inl e ↦ rw e (erase-part disk)
    | inr (fault, e) ↦ rw e (emptied-part faults.truncate disk)
  ]

  module _ (sha256 : Bytes → String) (expected : String) (content : Bytes) where
    -- The destination holds the whole download, which has the expected checksum.
    abbrev pub Complete : Disk → Type 0
    Complete disk = (Dict.lookup path disk ≡ some content) × (sha256 content ≡ expected)

    -- A copy that took the place of a failed rename failed too, and left this.
    abbrev pub Torn : Faults → Disk → Type 0
    Torn faults disk =
        (partial : Bytes) × (text : String) × (faults.copy ≡ some (partial, text))
        × (is_some faults.rename ≡ true)
        × (Dict.lookup path disk ≡ some partial)

    abbrev pub IsChecked : Faults → Option Bytes → Effect → Type 0
    IsChecked faults before (none, disk) = Complete disk
    IsChecked faults before (some text, disk) =
        (Dict.lookup path disk ≡ before) ⊎ (Complete disk ⊎ Torn faults disk)

    of-Complete :
        (faults : Faults) (before : Option Bytes) (effect : Effect)
        → Complete effect.1
        → IsChecked faults before effect
    of-Complete faults before (none, disk) c = c
    of-Complete faults before (some text, disk) c = inr (inl c)

    copy_over-IsChecked :
        (faults : Faults) (before : Option Bytes) (disk : Disk)
        → is_some faults.rename ≡ true
        → sha256 content ≡ expected
        → IsChecked faults before (copy_over faults part path content disk)
    unfolding copy_over
    copy_over-IsChecked faults before disk denied good = copied faults.copy refl
      where
        copied :
            (copy : Option (Bytes × String))
            → faults.copy ≡ copy
            → IsChecked faults before (elim copy [
              | some (partial, text) ↦ (some text, Dict.insert path partial disk)
              | none ↦ remove_source faults part (Dict.insert path content disk)
            ])
        copied none e =
            of-Complete faults before (remove_source faults part (Dict.insert path content disk)) (
              remove-part faults (Dict.insert path content disk)
                  ∙ Dict.lookup-insert_self path content disk,
              good,
            )
        copied (some (partial, text)) e =
            inr (inr (partial, text, e, denied, Dict.lookup-insert_self path partial disk))

    replace_file-IsChecked :
        (faults : Faults) (before : Option Bytes) (disk : Disk)
        → Dict.lookup path disk ≡ before
        → sha256 content ≡ expected
        → IsChecked faults before (replace_file faults part path content disk)
    unfolding replace_file
    replace_file-IsChecked faults before disk kept good = renamed faults.rename refl
      where
        renamed :
            (rename : Option Fault)
            → faults.rename ≡ rename
            → IsChecked faults before (elim rename [
              | none ↦ (none, Dict.insert path content (Dict.erase part disk))
              | some (plain text) ↦ (some text, disk)
              | some (special text) ↦ copy_over faults part path content disk
            ])
        renamed none e = (Dict.lookup-insert_self path content _, good)
        renamed (some (plain text)) e = inl kept
        renamed (some (special text)) e = copy_over-IsChecked faults before disk (ap is_some e) good

    mismatch-IsChecked :
        (faults : Faults) (before : Option Bytes) (effect : Effect)
        → Dict.lookup path effect.1 ≡ before
        → IsChecked faults before (mismatch sha256 effect)
    unfolding mismatch
    mismatch-IsChecked faults before (none, disk) kept = inl kept
    mismatch-IsChecked faults before (some text, disk) kept = inl kept

    check_and_replace-IsChecked :
        (faults : Faults) (before : Option Bytes) (disk : Disk)
        → Dict.lookup path disk ≡ before
        → IsChecked faults before (check_and_replace sha256 faults path expected content disk)
    unfolding check_and_replace
    check_and_replace-IsChecked faults before disk kept =
        elim (Bool-cases (sha256 content == expected)) [
          | inl e ↦
              rw (e, IsChecked) (replace_file-IsChecked faults before disk kept (ground arith))
          | inr e ↦
              rw (e, IsChecked)
                (mismatch-IsChecked faults before (cleanup_part_file faults part disk)
                  (cleanup-part faults disk ∙ kept))
        ]

  -- A download that returns has left its whole content at the destination, with the expected
  -- checksum. One that raises has left the old content there, or the whole checked download, or,
  -- only if the rename was denied and the copy that replaced it failed, what that copy had written.
  pub download_with_atomic_write-IsChecked :
      (sha256 : Bytes → String) (faults : Faults) (expected : String) (disk : Disk)
      → IsChecked sha256 expected
          (received faults.httpx faults.chunks)
          faults
          (Dict.lookup path disk)
          (download_with_atomic_write sha256 faults path expected disk)
  unfolding download_with_atomic_write
  download_with_atomic_write-IsChecked sha256 faults expected disk = prepared faults.prepare
    where
      content : Bytes
      content = received faults.httpx faults.chunks

      streamed :
          (stream : Option String)
          → IsChecked sha256 expected content faults (Dict.lookup path disk) (elim stream [
            | some text ↦ (some text, Dict.insert part content disk)
            | none ↦
                check_and_replace sha256 faults path expected content
                  (Dict.insert part content disk)
          ])
      streamed (some text) = inl (insert-part content disk)
      streamed none =
          check_and_replace-IsChecked sha256 expected content faults (Dict.lookup path disk)
            (Dict.insert part content disk) (insert-part content disk)

      prepared :
          (prepare : Option String)
          → IsChecked sha256 expected content faults (Dict.lookup path disk) (elim prepare [
            | some text ↦ (some text, disk)
            | none ↦ elim faults.stream [
              | some text ↦ (some text, Dict.insert part content disk)
              | none ↦
                  check_and_replace sha256 faults path expected content
                    (Dict.insert part content disk)
            ]
          ])
      prepared (some text) = inl refl
      prepared none = streamed faults.stream
