-- ===== src/Examples/Scan.antt =====
-- Saves of one title on the server: a file, its backup and a nested save, and a layout with a link.
use gamehub.Prelude.{
  ℕ, String, Option, none, some, List, [], ◌∷◌, ◌<>◌, ◌==◌, if◌then◌else◌, ◌≡◌, refl, map,
  string_dec,
}
use mathlib.Core.Option
use gamehub.Models.{SaveSpec}
use gamehub.Server.Scan.{
  Stat, Entry, Entries, link, file, directory, nil, entry, IndexedSaveBinding, scan_save_specs,
}
use gamehub.Server.Scan.Complete.{IsIndex, scan_save_specs-IsIndex}

abbrev stat : Stat
stat = record { st_size = 8; st_mtime_ns = 5 }

abbrev only : Entry → Entries
only e = entry e nil

abbrev root_with : Entry → Entries
root_with e = only (
    directory "snes" (
      only (
        directory "quest" (
          entry (directory "per_game" (only (directory "00" (only (file "slot" stat))))) (
            only (
              directory "battery" (
                entry (file "quest.srm.20240101000000.bak" stat)
                  (entry (file "quest.srm" stat) (only e)))))))))

abbrev tree : Entries
tree = root_with (file "quest.sav" stat)

abbrev slashed : List String → String
slashed [] = ""
slashed (part ∷ parts) = "/" <> part <> slashed parts

abbrev hash : List String → String → ℕ → ℕ → String
hash path rel size mtime = "hash"

abbrev index_titles : String → String → Option IndexedSaveBinding
index_titles system name =
    if name == "quest" then some (record { title_id = "title_1"; system = system }) else none

listed :
    Option.map
      (λ r. map (λ (s : SaveSpec). s.rel_path) r.0)
      (scan_save_specs (λ t. t) hash slashed (λ n. "now") (λ t. t) ("snes" ∷ []) index_titles tree)
    ≡ some (
        "/saves/snes/quest/battery/quest.sav" ∷ "/saves/snes/quest/battery/quest.srm"
        ∷ "/saves/snes/quest/per_game/00/slot" ∷ [])
unfolding scan_save_specs string_dec
listed = refl

link_refused :
    scan_save_specs
      (λ t. t)
      hash
      slashed
      (λ n. "now")
      (λ t. t)
      ("snes" ∷ [])
      index_titles
      (root_with (link "quest.sav"))
    ≡ none
unfolding scan_save_specs string_dec
link_refused = refl

scan_save_specs-IsIndex_example :
    IsIndex
      (λ t. t)
      hash
      slashed
      (λ n. "now")
      (λ t. t)
      ("snes" ∷ [])
      index_titles
      tree
      (scan_save_specs (λ t. t) hash slashed (λ n. "now") (λ t. t) ("snes" ∷ []) index_titles tree)
scan_save_specs-IsIndex_example =
    scan_save_specs-IsIndex (λ t. t) hash slashed (λ n. "now") (λ t. t) ("snes" ∷ []) index_titles
      tree
