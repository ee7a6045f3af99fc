-- ===== src/Carve/Effects.antt =====
-- What process_partition_detect does with the partitions and the gaps, as the list of its calls.
use arcology.Base.{ℕ, Bool, not, ◌&&◌, Option, none, some, List, [], ◌∷◌, ◌++◌, map, if◌then◌else◌}
use arcology.Base.Int.{pos, negsuc}
use arcology.Disc.{Bytes, Image}
use arcology.Carve.{
  chunk_size, extract_partition_range, is_region_uniform, Found, offset_index,
  should_register_derived, Gap, unpartitioned,
}

pub data Effect : Type 0 where
  -- register_derived_artefact with the image of a partition, and the protection probe of what it registered
  register_partition : Found → Bytes → Effect
  probe_derived : Found → Bytes → Effect
  -- the same probe, where it raises, which ends the handler
  probe_failed : Found → Effect
  -- register_derived_artefact with the bytes of a gap, or a note of the byte that fills it
  register_gap : Gap → Bytes → Effect
  omit_gap : Gap → ℕ → Effect
  -- the OSError of a seek below 0, which ends the handler
  seek_failed : Gap → Effect
  -- a copy in the cache of partition images, and the probe of the whole disc, with the copy where there is one
  cache_partition : ℕ → Effect
  probe_original : Found → Bool → Effect

-- `registers` is whether the API takes a partition, and `raises` whether the probe of its image, or the request that
-- follows from it, raises.
module _ (image : Image) (registers : Found → Bool) (raises : Found → Bytes → Bool) where
  -- The loop over the partitions, with what the handler does after it.
  unfoldable pub partition_effects : List Found → List Effect → List Effect
  unfolding extract_partition_range
  partition_effects [] after = after
  partition_effects (p ∷ ps) after =
      let bytes = extract_partition_range chunk_size image p.start_byte p.size_bytes in
      let rest = partition_effects ps after in
      let probed = if raises p bytes then probe_failed p ∷ [] else probe_derived p bytes ∷ rest in
      register_partition p bytes ∷ (if registers p && not p.is_printer then probed else rest)

  -- The note where a byte fills the gap, or its bytes.
  unfoldable pub gap_outcome : ℕ → Gap → Option ℕ → Effect
  unfolding extract_partition_range
  gap_outcome start g (some fill_byte) = omit_gap g fill_byte
  gap_outcome start g none =
      register_gap g (extract_partition_range chunk_size image start (pos g.size))

  unfoldable pub gap_effect : ℕ → Gap → Effect
  unfolding is_region_uniform gap_outcome
  gap_effect start g = gap_outcome start g (is_region_uniform chunk_size image start g.size)

  unfoldable pub gap_effects : List Gap → List Effect
  unfolding gap_effect
  gap_effects [] = []
  gap_effects (g ∷ gs) =
      let rest = gap_effects gs in
      elim g.start [ pos start ↦ gap_effect start g ∷ rest | negsuc n ↦ seek_failed g ∷ [] ]

  unfoldable pub derived_effects : Bool → List Found → List Effect
  unfolding partition_effects gap_effects unpartitioned
  derived_effects firmware ps = partition_effects ps (gap_effects (unpartitioned image firmware ps))

-- The branch for one partition that is the whole disc.
unfoldable pub original_effects : Bool → List Found → List Effect
original_effects is_compressed ps =
    (if is_compressed then map (λ p. cache_partition p.index) ps else [])
    ++ map (λ p. probe_original p is_compressed) ps

-- From `partition_index_base` on.
unfoldable pub process_partitions :
    Image → (Found → Bool) → (Found → Bytes → Bool) → Bool → Bool → ℕ → List Found → List Effect
unfolding offset_index should_register_derived derived_effects original_effects
process_partitions image registers raises firmware is_compressed base partitions =
    let ps = map (offset_index base) partitions in
    if should_register_derived image ps
    then derived_effects image registers raises firmware ps
    else original_effects is_compressed ps
