-- ===== src/Examples/Downloads.antt =====
-- A download whose rename is denied, and which is copied instead.
use gamehub.Prelude.{◌≡◌, refl, String, none, some, true, [], ◌∷◌, string_dec}
use gamehub.Prelude.Dict
use gamehub.Downloads.{
  Bytes, Disk, Faults, special, received, replace_file, download_with_atomic_write,
}
use gamehub.Downloads.Checked.{IsChecked, download_with_atomic_write-IsChecked}

abbrev faults : Faults
faults = record {
  prepare = none;
  httpx = true;
  chunks = (1 ∷ []) ∷ [] ∷ (2 ∷ 3 ∷ []) ∷ [];
  stream = none;
  rename = some (special "cross-device link");
  copy = none;
  unlink = none;
  truncate = none;
}

abbrev sha256 : Bytes → String
sha256 content = "remote"

abbrev disk : Disk
disk = ("quest.srm", 9 ∷ []) ∷ []

copied :
    download_with_atomic_write sha256 faults "quest.srm" "remote" disk
    ≡ (none, ("quest.srm", 1 ∷ 2 ∷ 3 ∷ []) ∷ [])
unfolding download_with_atomic_write string_dec replace_file Dict.erase Dict.insert received
copied = refl

download_with_atomic_write-IsChecked_example :
    IsChecked "quest.srm" sha256 "remote"
      (received true faults.chunks)
      faults
      (Dict.lookup "quest.srm" disk)
      (download_with_atomic_write sha256 faults "quest.srm" "remote" disk)
download_with_atomic_write-IsChecked_example =
    download_with_atomic_write-IsChecked "quest.srm" sha256 faults "remote" disk
