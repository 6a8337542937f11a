-- ===== src/Examples/Bindings.antt =====
-- The bindings of the small library.
use gamehub.Prelude.{◌≡◌, refl, List, [], ◌∷◌, none, some, All}
use gamehub.Prelude.Dict
use gamehub.Models.{SaveBindingSpec}
use gamehub.Server.Bindings.{build_save_bindings, server_save_binding_dir}
use gamehub.Server.Bindings.Coherent.{IsSound, build_save_bindings-IsSound}
use gamehub.Examples.{machine, title}

-- What the server builds for the two titles.
abbrev built : List SaveBindingSpec
built =
    elim (build_save_bindings machine.upper machine.sha256_text (title "psx" ∷ title "snes" ∷ [])) [
      | none ↦ []
      | some bindings ↦ bindings
    ]

builds :
    build_save_bindings machine.upper machine.sha256_text (title "psx" ∷ title "snes" ∷ [])
    ≡ some built
unfolding build_save_bindings Dict.lookup server_save_binding_dir
builds = refl

build_save_bindings-IsSound_example : All (IsSound machine.upper machine.sha256_text) built
build_save_bindings-IsSound_example =
    build_save_bindings-IsSound machine.upper machine.sha256_text (title "psx" ∷ title "snes" ∷ [])
      built builds
