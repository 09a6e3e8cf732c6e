-- ===== src/Characters/BuiltIn.antt =====
-- character_packs/__init__.py: `BuiltInPacks`.
pub mod First
pub mod Second
pub mod Third
use oi_interface.Base.{List, [], ◌∷◌}
use oi_interface.Characters.Pack.{CharacterPack}
use oi_interface.Characters.BuiltIn.First.{
  create_synth_goblin, create_pixel_robot, create_minimal_blob, create_retro_terminal,
}
use oi_interface.Characters.BuiltIn.Second.{
  create_wise_owl, create_cute_cat, create_geometric_glyph,
}
use oi_interface.Characters.BuiltIn.Third.{create_nature_leaf, create_neon_fox, create_crystal_gem}

-- `BuiltInPacks.list`
abbrev pub builtin_packs : List CharacterPack
builtin_packs =
    create_synth_goblin ∷ create_pixel_robot ∷ create_minimal_blob ∷ create_retro_terminal
    ∷ create_wise_owl ∷ create_cute_cat ∷ create_geometric_glyph ∷ create_nature_leaf
    ∷ create_neon_fox ∷ create_crystal_gem ∷ []
