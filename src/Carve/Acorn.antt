-- ===== src/Carve/Acorn.antt =====
-- That the partitions which detect_acorn_partitions reports end at byte 0 or later.
use arcology.Base.{
  ℕ, zero, suc, ◌+◌, ◌-◌, ◌*◌, ◌≡◌, refl, Bool, true, false, not, ◌||◌, Option, none, some, List,
  [], ◌∷◌, map, length, all, All, take, ltb, leb, ◌==◌, arith, if◌then◌else◌, if_cases, Bool-cases,
  inl, inr, and-eq_true,
}
use arcology.Base.Text.{Text, codes, same_text}
use arcology.Disc.Fat.{Fat}
use arcology.Base.Int.{pos, pos_part, sub_ℕ, shift}
use arcology.Disc.{
  Bytes, Image, Partition, Detection, not_detected, detected, Scheme, ics_idefs, simtec,
  nexus_scheme, read, byte_at, u32, bit,
}
use arcology.Disc.Ics.{
  if_any, ics_partition, ics_entries, detect_ics_partitions, validate_ics_checksum,
}
use arcology.Disc.Filecore.{boot_block_offset, boot_block_size}
use arcology.Disc.Hccs.{hccs_partitions, detect_hccs_partitions, detect_simtec_signature}
use arcology.Disc.Hccs.Laws.{IsChain, hccs_partitions-IsChain}
use arcology.Disc.Nexus.{nexus_entries, detect_nexus_partitions}
use arcology.Disc.Nexus.Laws.{IsInside, nexus_entries_lem}
use arcology.Disc.Schemes.{or_else, detect_acorn_partitions}
use arcology.Carve.{Found, of_partition, whole_disc, choose_partitions}
use arcology.Carve.Cover.{and-of}
use arcology.Carve.Restore.{is_nonneg, ends_nonneg}

abbrev is_forward : Partition → Bool
is_forward p = is_nonneg (shift p.size_bytes p.start_byte)

abbrev all_forward : Detection → Bool
all_forward not_detected = true
all_forward (detected scheme header ps) = all is_forward ps

-- As a data type, so that the detection is found from the goal.
data AreForward (d : Detection) : Type 0 where
  are_forward : all_forward d ≡ true → AreForward d

forward_of : {d : Detection} → AreForward d → all_forward d ≡ true
forward_of (are_forward h) = h

-- A size that is cut at the end of the image ends there.
cut_forward : (n s : ℕ) → is_nonneg (shift (sub_ℕ n s) s) ≡ true
cut_forward n s = elim (Bool-cases (leb s n)) [
  | inl e ↦ rw e refl
  | inr e ↦ let back : leb (suc (s - n - 1)) s ≡ true = ground (arith, e) in rw (e, back) refl
]

ics_partition_forward :
    (image : Image) (count start size : ℕ)
    → is_forward (ics_partition image count start size) ≡ true
unfolding ics_partition
ics_partition_forward image count start size =
    if_cases (λ z. is_nonneg (shift z (start * 512)) ≡ true)
      (ltb image.size (start * 512 + size * 512)) (sub_ℕ image.size (start * 512))
      (pos (size * 512)) (λ e. cut_forward image.size (start * 512)) (λ e. refl)

ics_entries_forward :
    (image : Image) (sector : Bytes) (left entry count : ℕ)
    → all is_forward (ics_entries image sector left entry count) ≡ true
unfolding ics_entries
ics_entries_forward image sector zero entry count = refl
ics_entries_forward image sector (suc left) entry count =
    let start = u32 sector (entry * 8) in
    let size = u32 sector (entry * 8 + 4) in
    let skip = ics_entries image sector left (suc entry) count in
    let first = ics_partition image count start size in
    let more = ics_entries image sector left (suc entry) (suc count) in
    let fwd = λ (ps : List Partition). all is_forward ps ≡ true in
    if_cases fwd (leb 4 count) [] _ (λ e. refl)
      (λ e.
        if_cases fwd (size == 0) [] _ (λ e. refl)
          (λ e.
            if_cases fwd (bit size 31) skip (first ∷ more)
              (λ e. ics_entries_forward image sector left (suc entry) count)
              (λ e.
                and-of (is_forward first) (all is_forward more)
                  (ics_partition_forward image count start size)
                  (ics_entries_forward image sector left (suc entry) (suc count)))))

sized_forward : (p : Partition) → p.size_bytes ≡ pos (pos_part p.size_bytes) → is_forward p ≡ true
sized_forward p e = rw e refl

chain_forward :
    (n offset index : ℕ) (ps : List Partition)
    → IsChain n offset index ps
    → all is_forward ps ≡ true
chain_forward n offset index [] h = refl
chain_forward n offset index (p ∷ ps) h =
    and-of (is_forward p) (all is_forward ps) (sized_forward p h.2)
      (chain_forward n (offset + pos_part p.size_bytes) (suc index) ps h.5)

inside_forward :
    (image : Image) (ps : List Partition) → All (IsInside image) ps → all is_forward ps ≡ true
inside_forward image [] h = refl
inside_forward image (p ∷ ps) h =
    and-of (is_forward p) (all is_forward ps) (sized_forward p h.0.0) (inside_forward image ps h.1)

any_forward :
    (scheme : Scheme) (header : List ℕ) (ps : List Partition)
    → all is_forward ps ≡ true
    → AreForward (if_any (detected scheme header ps) ps)
any_forward scheme header [] h = are_forward refl
any_forward scheme header (p ∷ ps) h = are_forward h

either_forward : (a b : Detection) → AreForward a → AreForward b → AreForward (or_else a b)
either_forward not_detected b h k = k
either_forward (detected scheme header ps) b h k = h

if_forward :
    (test : Bool) (a b : Detection)
    → AreForward a
    → AreForward b
    → AreForward (if test then a else b)
if_forward true a b h k = h
if_forward false a b h k = k

ics_forward : (image : Image) → AreForward (detect_ics_partitions image)
unfolding detect_ics_partitions
ics_forward image =
    let sector = read image 0 512 in
    if_forward (ltb image.size 512) not_detected _ (are_forward refl) (
      if_forward (ltb (length sector) 512) not_detected _ (are_forward refl) (
        if_forward (not (validate_ics_checksum sector)) not_detected _ (are_forward refl) (
          any_forward ics_idefs (u32 sector 0x1f8 ∷ []) (ics_entries image sector 63 0 0)
            (ics_entries_forward image sector 63 0 0))))

hccs_forward : (image : Image) → AreForward (detect_hccs_partitions image)
unfolding detect_hccs_partitions
hccs_forward image =
    let ps = hccs_partitions image image.size 0 0 in
    any_forward _ _ ps
      (chain_forward image.size 0 0 ps (hccs_partitions-IsChain image image.size 0 0))

none_here : AreForward not_detected
none_here = are_forward refl

simtec_forward : (image : Image) → AreForward (detect_simtec_signature image)
unfolding detect_simtec_signature
simtec_forward image =
    let signed = same_text (read image (boot_block_offset + 432) 4) (codes "andy") in
    if_forward (ltb image.size (boot_block_offset + boot_block_size)) not_detected _ none_here
      (if_forward signed (detected simtec [] []) not_detected (are_forward refl) none_here)

nexus_forward : (image : Image) → AreForward (detect_nexus_partitions image)
unfolding detect_nexus_partitions
nexus_forward image =
    let header = read image 0x20000 256 in
    let ps = nexus_entries image header 15 0 in
    let numbers =
      byte_at header 4 ∷ byte_at header 5 ∷ (byte_at header 7 * 256 + byte_at header 6) ∷ [] in
    if_forward (ltb image.size (131072 + 16 + 16)) not_detected _ none_here (
      if_forward (ltb (length header) 16 || not (same_text (take 4 header) (codes "Net1")))
        not_detected _ none_here
        (any_forward nexus_scheme numbers ps
          (inside_forward image ps (nexus_entries_lem image header 15 0).0)))

detect_acorn_partitions_forward :
    (image : Image) → all_forward (detect_acorn_partitions image) ≡ true
unfolding detect_acorn_partitions
detect_acorn_partitions_forward image = forward_of (
    either_forward (detect_nexus_partitions image) _ (nexus_forward image) (
      either_forward (detect_ics_partitions image) _ (ics_forward image) (
        either_forward (detect_hccs_partitions image) _ (hccs_forward image)
          (simtec_forward image))))

found_nonneg :
    (ps : List Partition) → all is_forward ps ≡ true → all ends_nonneg (map of_partition ps) ≡ true
unfolding of_partition
found_nonneg [] h = refl
found_nonneg (p ∷ ps) h =
    let (one, more) = and-eq_true (is_forward p) (all is_forward ps) h in
    and-of (is_forward p) (all ends_nonneg (map of_partition ps)) one (found_nonneg ps more)

detection_nonneg :
    (image : Image) (d : Detection) (adfs : Option Text) (sfdisk : List Found) (hint : Text)
    (fat : Option Fat)
    → all_forward d ≡ true
    → all ends_nonneg sfdisk ≡ true
    → all ends_nonneg (choose_partitions image d adfs sfdisk hint fat) ≡ true
unfolding choose_partitions whole_disc
detection_nonneg image (detected scheme header (p ∷ ps)) adfs sfdisk hint fat h k =
    found_nonneg (p ∷ ps) h
detection_nonneg image (detected scheme header []) adfs sfdisk hint fat h k = refl
detection_nonneg image not_detected (some label) sfdisk hint fat h k = refl
detection_nonneg image not_detected none [] hint fat h k = refl
detection_nonneg image not_detected none (p ∷ ps) hint fat h k = k

pub choose_partitions_nonneg :
    (image : Image) (adfs : Option Text) (sfdisk : List Found) (hint : Text) (fat : Option Fat)
    → all ends_nonneg sfdisk ≡ true
    → all ends_nonneg (choose_partitions image (detect_acorn_partitions image) adfs sfdisk hint fat)
      ≡ true
choose_partitions_nonneg image adfs sfdisk hint fat =
    detection_nonneg image (detect_acorn_partitions image) adfs sfdisk hint fat
      (detect_acorn_partitions_forward image)
