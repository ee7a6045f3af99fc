-- ===== src/Protection/Handover.antt =====
-- From a locked disc to the extraction of its files.
use arcology.Base.{ℕ, ◌<◌, ◌≡◌, true, false, some, [], ◌∷◌, none, Option, List, ◌⊎◌, length}
use arcology.Base.Text.{Text}
use arcology.Disc.{Bytes, Image}
use arcology.Protection.{
  RemovalCall, register_module, register_cleaned, queue_cleaned, complete_analysis, removed,
}

-- The calls of a removal that went through, in their order: the module only if there is one.
abbrev pub HandsOver : Option Bytes → Image → Text → ℕ → List RemovalCall → Type 0
HandsOver module_file cleaned fs index calls =
    ((d : Bytes) × (module_file ≡ some d)
      × (0 < length d)
      × (calls
          ≡ register_module d
            ∷ register_cleaned cleaned
            ∷ queue_cleaned cleaned fs index
            ∷ complete_analysis (removed true)
            ∷ []))
    ⊎ (((module_file ≡ none) ⊎ (module_file ≡ some []))
        × (calls
            ≡ register_cleaned cleaned
              ∷ queue_cleaned cleaned fs index
              ∷ complete_analysis (removed false)
              ∷ []))
