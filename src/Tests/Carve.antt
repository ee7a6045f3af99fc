-- ===== src/Tests/Carve.antt =====
-- Carve and its modules on a disc of twelve bytes.
use arcology.Base.{
  ℕ, all, ◌≡◌, refl, true, false, none, some, [], ◌∷◌, any, arith, get_or, map, ◌==◌,
}
use arcology.Base.Text.{codes}
use arcology.Base.Int.{pos}
use arcology.Disc.{Image}
use arcology.Carve.{
  Found, is_region_uniform, unpartitioned, should_register_derived, choose_partitions, is_nexus,
  between, offset_index, pre_partition, post_partition,
}
use arcology.Disc.Schemes.{detect_acorn_partitions}
use arcology.Carve.Effects.{process_partitions}
use arcology.Carve.Whole.{process_partitions_restores}
use arcology.Carve.Restore.{keeps, ends_nonneg, probe_passes}

-- Three bytes of 7, then 1 to 4, then zeros.
abbrev small_disc : Image
small_disc = record { size = 12; byte = λ o. get_or (7 ∷ 7 ∷ 7 ∷ 1 ∷ 2 ∷ 3 ∷ 4 ∷ []) o 0 }

abbrev part : ℕ → ℕ → ℕ → Found
part index start size = record {
  index = index;
  start_byte = start;
  size_bytes = pos size;
  filesystem = codes "fat16";
  disc_name = [];
  container_format = none;
  is_printer = false;
}

gaps :
    unpartitioned small_disc false (part 1 8 2 ∷ part 0 3 3 ∷ [])
    ≡ record { start = pos 0; size = 3; label = pre_partition }
      ∷ record { start = pos 6; size = 2; label = between 0 1 }
      ∷ record { start = pos 10; size = 2; label = post_partition }
      ∷ []
unfolding unpartitioned
gaps = refl

uniform_head : is_region_uniform 2 small_disc 0 3 ≡ some 7
unfolding is_region_uniform
uniform_head = refl

mixed : is_region_uniform 2 small_disc 2 3 ≡ none
unfolding is_region_uniform
mixed = refl

whole_disc_stays : should_register_derived small_disc (part 0 0 12 ∷ []) ≡ false
unfolding should_register_derived
whole_disc_stays = refl

ends : all ends_nonneg (part 1 8 2 ∷ part 0 3 3 ∷ []) ≡ true
ends = refl

pass :
    all (probe_passes small_disc (λ p. true) (λ p bytes. p.index == 9)) (
      map (offset_index 0) (
        choose_partitions small_disc
          (detect_acorn_partitions small_disc)
          none
          (part 1 8 2 ∷ part 0 3 3 ∷ [])
          []
          none))
    ≡ true
unfolding choose_partitions detect_acorn_partitions offset_index
pass = refl

-- A probe that raised on a partition with the index 9.
process_partitions_restores_example :
    any (keeps 6 4) (
      process_partitions small_disc
        (λ p. true)
        (λ p bytes. p.index == 9)
        (is_nexus (detect_acorn_partitions small_disc))
        false
        0
        (choose_partitions small_disc
          (detect_acorn_partitions small_disc)
          none
          (part 1 8 2 ∷ part 0 3 3 ∷ [])
          []
          none))
    ≡ true
process_partitions_restores_example =
    process_partitions_restores small_disc none (part 1 8 2 ∷ part 0 3 3 ∷ []) [] none (λ p. true)
      (λ p bytes. p.index == 9) false 0 6 (omega arith) ends pass
