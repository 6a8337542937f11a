-- ===== src/Server/Bindings/Coherent.antt =====
-- What holds of every binding that the server builds.
use mathlib.Core.Option.{some-injective}
use gamehub.Prelude.{
  String, Bool, ◌≡◌, refl, subst, true, false, ◌==◌, Option, none, some, List, [], ◌∷◌, ◌++◌, map,
  any, All, All-append, Option-cases, Bool-cases, inl, inr, is_empty, is_some, arith, if◌then◌else◌,
}
use gamehub.Prelude.Dict
use gamehub.Prelude.Dict.{Dict}
use gamehub.Prelude.Sort.{sort_by, sort_by-All}
use gamehub.Prelude.Text.{split, starts_with, has_char}
use gamehub.Ids.{make_save_binding_id}
use gamehub.Models.{
  TitleEntry, SaveBindingSpec, kind_text, SaveKind, battery, memory_card, per_game, LocalRoot,
  retroarch_saves, retroarch_saves_psx, pcsx2_memcards, dolphin_gc, dolphin_wii, azahar_sdmc,
  Strategy, exact_files, learned_tree, LearnRule, dolphin_gc_gci_tree, dolphin_wii_title_tree,
  azahar_title_data_tree,
}
use gamehub.Server.Bindings.{
  is_traversal, validate_candidate_filenames, validate_server_rel_dir, validate_strategy_fields,
  validated, all_validated, battery_save_suffixes, battery_bindings, card_bindings, binding,
  learned_binding, tree_bindings, title_bindings, save_title_dir_name, bindings_of_titles,
  build_save_bindings,
}

-- The rule of the saves below a root of emulators, if they are learned.
abbrev pub tree_of : LocalRoot → Option LearnRule
tree_of retroarch_saves = none
tree_of retroarch_saves_psx = none
tree_of pcsx2_memcards = none
tree_of dolphin_gc = some dolphin_gc_gci_tree
tree_of dolphin_wii = some dolphin_wii_title_tree
tree_of azahar_sdmc = some azahar_title_data_tree

-- The systems that keep this kind of save below this root.
abbrev pub systems_of : LocalRoot → SaveKind → List String
systems_of retroarch_saves battery =
    "GB" ∷ "GBA" ∷ "GBC" ∷ "GEN_MD" ∷ "N64" ∷ "NDS" ∷ "NES" ∷ "SNES" ∷ []
systems_of retroarch_saves_psx memory_card = "PSX" ∷ []
systems_of pcsx2_memcards memory_card = "PS2" ∷ []
systems_of dolphin_gc per_game = "GC" ∷ []
systems_of dolphin_wii per_game = "WII" ∷ []
systems_of azahar_sdmc per_game = "N3DS" ∷ []
systems_of _ _ = []

abbrev pub strategy_of : Option LearnRule → Strategy
strategy_of none = exact_files
strategy_of (some rule) = learned_tree

abbrev pub is_in : List String → String → Bool
is_in names name = any (λ n. name == n) names

-- The directory is relative, without backslashes and without steps upwards.
abbrev pub HasSafeDir : SaveBindingSpec → Type 0
HasSafeDir b =
    (any is_traversal (split b'/' b.server_rel_dir) ≡ false)
    × (starts_with b.server_rel_dir "/" ≡ false)
    × (has_char 92 b.server_rel_dir ≡ false)

validate_server_rel_dir_lem :
    (value dir : String)
    → validate_server_rel_dir value ≡ some dir
    → (any is_traversal (split b'/' dir) ≡ false)
      × (starts_with dir "/" ≡ false)
      × (has_char 92 dir ≡ false)
unfolding validate_server_rel_dir
validate_server_rel_dir_lem value dir h = ground arith

module _ (upper : String → String) (sha256_text : String → String) where
  -- Root, kind, strategy and rule agree with the system, and the id is that of title and kind.
  abbrev pub Agrees : SaveBindingSpec → Type 0
  Agrees b =
      (is_in (systems_of b.local_root b.kind) (upper b.system) ≡ true)
      × (b.learn_rule ≡ tree_of b.local_root)
      × (b.strategy ≡ strategy_of (tree_of b.local_root))
      × (b.binding_id ≡ make_save_binding_id sha256_text b.title_id b.kind)

  -- An exact binding names files and a learned one names none.
  abbrev pub NamesFiles : SaveBindingSpec → Type 0
  NamesFiles b = is_empty b.candidate_filenames ≡ is_some (tree_of b.local_root)

  abbrev pub IsSound : SaveBindingSpec → Type 0
  IsSound b = HasSafeDir b × Agrees b × NamesFiles b

  fields_lem :
      (names : List String) (strategy : Strategy) (rule rule' : Option LearnRule)
      → validate_strategy_fields strategy names rule ≡ true
      → rule ≡ rule'
      → strategy ≡ strategy_of rule'
      → is_empty names ≡ is_some rule'
  unfolding validate_strategy_fields
  fields_lem names exact_files rule none h e f = ground (arith, h, e)
  fields_lem names exact_files rule (some r) h e f = absurd (ground (arith, f))
  fields_lem names learned_tree rule none h e f = absurd (ground (arith, f))
  fields_lem names learned_tree rule (some r) h e f = ground (arith, h, e)

  validated-IsSound : (b b' : SaveBindingSpec) → Agrees b → validated b ≡ some b' → IsSound b'
  unfolding validated
  validated-IsSound b b' agrees h = elim (Option-cases (validate_server_rel_dir b.server_rel_dir)) [
    | inl e ↦ absurd (ground arith)
    | inr (dir, e) ↦ elim (Option-cases (validate_candidate_filenames b.candidate_filenames)) [
      | inl e' ↦ absurd (ground arith)
      | inr (names, e') ↦
          let fits : validate_strategy_fields b.strategy names b.learn_rule ≡ true = ground arith in
          let same : record b { server_rel_dir = dir; candidate_filenames = names } ≡ b' =
            ground arith in
          subst IsSound same (
            validate_server_rel_dir_lem b.server_rel_dir dir e,
            agrees,
            fields_lem names b.strategy b.learn_rule (tree_of b.local_root) fits agrees.1 agrees.2,
          )
    ]
  ]

  all_validated-IsSound :
      (bs bs' : List SaveBindingSpec)
      → All Agrees bs
      → all_validated bs ≡ some bs'
      → All IsSound bs'
  unfolding all_validated
  all_validated-IsSound [] bs' hs h = subst (All IsSound) (some-injective _ _ h) tt
  all_validated-IsSound (b ∷ bs) bs' hs h = elim (Option-cases (validated b)) [
    | inl e ↦ absurd (ground arith)
    | inr (b', e) ↦ elim (Option-cases (all_validated bs)) [
      | inl e' ↦ absurd (ground arith)
      | inr (rest, e') ↦
          let same : b' ∷ rest ≡ bs' = ground arith in
          subst (All IsSound) same
            (validated-IsSound b b' hs.0 e, all_validated-IsSound bs rest hs.1 e')
    ]
  ]

  lookup-is_in :
      (k : String) (d : Dict (List String)) (v : List String)
      → Dict.lookup k d ≡ some v
      → is_in (map (λ (e : String × List String). e.0) d) k ≡ true
  unfolding Dict.lookup
  lookup-is_in k [] v h = absurd (ground (arith, h))
  lookup-is_in k ((j, w) ∷ d) v h = elim (Bool-cases (k == j)) [
    | inl e ↦ ground (arith, e)
    | inr e ↦ ground (arith, e, lookup-is_in k d v (ground (arith, e, h)))
  ]

  battery_bindings-Agrees :
      (title : TitleEntry) (dir : String) (found : Option (List String))
      → Dict.lookup (upper title.system) battery_save_suffixes ≡ found
      → All Agrees (battery_bindings upper sha256_text title dir found)
  unfolding battery_bindings binding
  battery_bindings-Agrees title dir none e = tt
  battery_bindings-Agrees title dir (some suffixes) e =
      ((lookup-is_in (upper title.system) battery_save_suffixes suffixes e, refl, refl, refl), tt)

  -- A binding that is made for one system only.
  only_for :
      (system wanted : String) (b : SaveBindingSpec)
      → ((system == wanted) ≡ true → Agrees b)
      → All Agrees (if system == wanted then b ∷ [] else [])
  only_for system wanted b h = elim (Bool-cases (system == wanted)) [
    | inl e ↦ rw e (h e, tt)
    | inr e ↦ rw e tt
  ]

  one_lem : (system wanted : String) → (system == wanted) ≡ true → is_in (wanted ∷ []) system ≡ true
  one_lem system wanted e = ground (arith, e)

  card_bindings-Agrees :
      (title : TitleEntry) (dir : String)
      → All Agrees (card_bindings upper sha256_text title dir (upper title.system))
  unfolding card_bindings binding
  card_bindings-Agrees title dir =
      let system = upper title.system in
      All-append Agrees _ _
        (only_for system "PSX" _ (λ e. (one_lem system "PSX" e, refl, refl, refl)))
        (only_for system "PS2" _ (λ e. (one_lem system "PS2" e, refl, refl, refl)))

  tree_bindings-Agrees :
      (title : TitleEntry) (dir : String)
      → All Agrees (tree_bindings upper sha256_text title dir (upper title.system))
  unfolding tree_bindings learned_binding binding
  tree_bindings-Agrees title dir =
      let system = upper title.system in
      All-append Agrees _ _
        (All-append Agrees _ _
          (only_for system "GC" _ (λ e. (one_lem system "GC" e, refl, refl, refl)))
          (only_for system "WII" _ (λ e. (one_lem system "WII" e, refl, refl, refl))))
        (only_for system "N3DS" _ (λ e. (one_lem system "N3DS" e, refl, refl, refl)))

  title_bindings-Agrees :
      (title : TitleEntry) (dir : String) → All Agrees (title_bindings upper sha256_text title dir)
  unfolding title_bindings
  title_bindings-Agrees title dir =
      let cards =
        All-append Agrees _ _
          (battery_bindings-Agrees title dir
            (Dict.lookup (upper title.system) battery_save_suffixes) refl)
          (card_bindings-Agrees title dir) in
      All-append Agrees _ _ cards (tree_bindings-Agrees title dir)

  bindings_of_titles-IsSound :
      (titles : List TitleEntry) (bindings : List SaveBindingSpec)
      → bindings_of_titles upper sha256_text titles ≡ some bindings
      → All IsSound bindings
  unfolding bindings_of_titles
  bindings_of_titles-IsSound [] bindings h = subst (All IsSound) (some-injective _ _ h) tt
  bindings_of_titles-IsSound (title ∷ titles) bindings h =
      elim (Option-cases (save_title_dir_name title.title_rel_dir)) [
        | inl e ↦ absurd (ground arith)
        | inr (dir, e) ↦
            elim (Option-cases (all_validated (title_bindings upper sha256_text title dir))) [
              | inl e' ↦ absurd (ground arith)
              | inr (own, e') ↦ elim (Option-cases (bindings_of_titles upper sha256_text titles)) [
                | inl e'' ↦ absurd (ground arith)
                | inr (others, e'') ↦
                    let same : own ++ others ≡ bindings = ground arith in
                    subst (All IsSound) same (
                      All-append IsSound own others
                        (all_validated-IsSound (title_bindings upper sha256_text title dir) own
                          (title_bindings-Agrees title dir) e')
                        (bindings_of_titles-IsSound titles others e''))
              ]
            ]
      ]

  -- Every binding that the server builds has a relative directory without backslashes and without
  -- empty, "." or ".." parts. Its root is one where its system, in capitals, keeps saves of its kind:
  -- RetroArch's for the eight cartridge systems and PSX, PCSX2's for PS2, and the trees of Dolphin
  -- and Azahar for GC, WII and N3DS. A binding of a tree has the rule of that tree and names no
  -- files; any other has no rule and names at least one file. The id is that of title and kind.
  pub build_save_bindings-IsSound :
      (titles : List TitleEntry) (bindings : List SaveBindingSpec)
      → build_save_bindings upper sha256_text titles ≡ some bindings
      → All IsSound bindings
  unfolding build_save_bindings
  build_save_bindings-IsSound titles bindings h =
      elim (Option-cases (bindings_of_titles upper sha256_text titles)) [
        | inl e ↦ absurd (ground arith)
        | inr (built, e) ↦
            let key = λ (b : SaveBindingSpec).
              b.system ∷ b.title_id ∷ kind_text b.kind ∷ b.binding_id ∷ [] in
            let same : sort_by key built ≡ bindings = ground arith in
            subst (All IsSound) same
              (sort_by-All key IsSound built (bindings_of_titles-IsSound titles built e))
      ]
