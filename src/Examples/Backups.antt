-- ===== src/Examples/Backups.antt =====
-- Three backups of one file, a backup of another, and a file that is none.
use Prim.Native.String.{String}
use gamehub.Prelude.{ℕ, zero, suc, ◌≡◌, refl, ap, ◌∙◌, sym, false, some, [], ◌∷◌, arith, string_dec}
use gamehub.Prelude.Dict
use gamehub.Prelude.Dict.{Dict}
use gamehub.Backups.{is_backup_of, prune_backup_family}
use gamehub.Backups.Create.{Directory, backup_existing_file}
use gamehub.Backups.Created.{IsSafe, backup_existing_file-IsSafe}
use gamehub.Prelude.Text.{text_length}

abbrev files : Dict String
files =
    ("state.json.20240101000000.bak", "old")
    ∷ ("state.json.20240103000000.1.bak", "newest")
    ∷ ("state.json.20240102000000.bak", "newer")
    ∷ ("other.json.20240101000000.bak", "other")
    ∷ ("state.json", "now")
    ∷ []

oldest_pruned :
    (prune_backup_family (λ t. t) "state.json" 2 files).1 ≡ "state.json.20240101000000.bak" ∷ []
unfolding prune_backup_family
oldest_pruned = refl

not_its_backup : is_backup_of (λ t. t) "state.json" "other.json.20240101000000.bak" ≡ false
unfolding is_backup_of
not_its_backup = refl

-- Numbers as strokes.
abbrev strokes : ℕ → String
strokes zero = ""
strokes (suc n) = String.◌∷◌ "1" (strokes n)

length-strokes : (n : ℕ) → text_length (strokes n) ≡ n
unfolding text_length
length-strokes zero = refl
length-strokes (suc n) = ap suc (length-strokes n)

strokes_inj : (a b : ℕ) → strokes a ≡ strokes b → a ≡ b
strokes_inj a b h = sym (length-strokes a) ∙ ap text_length h ∙ length-strokes b

abbrev directory : Directory String
directory = record { files = files; others = "state.json.20240105000000.bak" ∷ [] }

there : Dict.lookup "state.json" files ≡ some "now"
unfolding Dict.lookup string_dec
there = refl

backup_existing_file-IsSafe_example :
    IsSafe
      (λ t. t)
      strokes
      strokes_inj
      "state.json"
      "20240105000000"
      2
      "now"
      directory
      "other.json.20240101000000.bak"
      (backup_existing_file (λ t. t) strokes "state.json" 2 "20240105000000" directory)
backup_existing_file-IsSafe_example =
    backup_existing_file-IsSafe (λ t. t) strokes strokes_inj "state.json" "20240105000000" 2 "now"
      directory "other.json.20240101000000.bak" there (omega arith) not_its_backup
