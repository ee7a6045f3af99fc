-- ===== src/Imd/Density/Laws.antt =====
-- What detect_track_density_mismatch counts, and which discs it takes for double-stepped ones.
use arcology.Base.{
  and-eq_true, ℕ, ◌+◌, ◌*◌, ◌/◌, ◌%◌, ◌≤◌, ◌<◌, ◌≡◌, refl, ap, ◌∙◌, Bool, true, false, not, ◌&&◌,
  List, [], ◌∷◌, length, ltb, leb, ◌==◌, all, count, if◌then◌else◌, arith, Bool-cases, inl, inr,
  All, ==_iff,
}
use arcology.Imd.Tracks.{Track}
use arcology.Imd.Density.{
  Counts, no_counts, is_halved, count_data, count_track, count_tracks,
  detect_track_density_mismatch,
}

-- The kinds of track that the loop tells apart.
abbrev pub is_even : Track → Bool
is_even t = t.cylinder % 2 == 0

unfoldable pub is_checked : Track → Bool
is_checked t = t.has_data && is_even t

unfoldable pub is_matching : Track → Bool
is_matching t = t.has_data && is_even t && is_halved t

unfoldable pub is_odd : Track → Bool
is_odd t = t.has_data && not (is_even t)

count_track_lem :
    (t : Track) (c : Counts)
    → ((count_track t c).checked ≡ c.checked + (if is_checked t then 1 else 0))
      × ((count_track t c).matching ≡ c.matching + (if is_matching t then 1 else 0))
      × ((count_track t c).odd_duplicate
            + (count_track t c).odd_varied
            + (count_track t c).odd_uniform
          ≡ c.odd_duplicate + c.odd_varied + c.odd_uniform + (if is_odd t then 1 else 0))
unfolding count_track count_data is_checked is_matching is_odd
count_track_lem t c = (ground arith, ground arith, ground arith)

count_tracks_lem :
    (ts : List Track) (c : Counts)
    → ((count_tracks ts c).checked ≡ c.checked + count is_checked ts)
      × ((count_tracks ts c).matching ≡ c.matching + count is_matching ts)
      × ((count_tracks ts c).odd_duplicate
            + (count_tracks ts c).odd_varied
            + (count_tracks ts c).odd_uniform
          ≡ c.odd_duplicate + c.odd_varied + c.odd_uniform + count is_odd ts)
unfolding count_tracks
count_tracks_lem [] c = (omega arith, omega arith, omega arith)
count_tracks_lem (t ∷ ts) c =
    let (p, q, r) = count_track_lem t c in
    let (x, y, z) = count_tracks_lem ts (count_track t c) in
    (omega (arith, p, x), omega (arith, q, y), omega (arith, r, z))

pub detected_lem :
    (tracks : List Track)
    → (detect_track_density_mismatch tracks).detected ≡ (
        leb 6 (count is_checked tracks)
        && leb (7 * count is_checked tracks) (10 * count is_matching tracks))
unfolding detect_track_density_mismatch
detected_lem tracks =
    let (p, q, r) = count_tracks_lem tracks no_counts in
    let checked : (count_tracks tracks no_counts).checked ≡ count is_checked tracks =
      omega (arith, p) in
    let matching : (count_tracks tracks no_counts).matching ≡ count is_matching tracks =
      omega (arith, q) in
    rw (checked, matching) refl

module _ (p q : Track → Bool) where
  count_mono : (ts : List Track) → All (λ t. p t ≡ true → q t ≡ true) ts → count p ts ≤ count q ts
  count_mono [] h = omega arith
  count_mono (t ∷ ts) (h, hs) =
      let rest = count_mono ts hs in
      elim (Bool-cases (p t)) [
        | inl e ↦ rw (e, h e) (omega (arith, rest))
        | inr e ↦ rw e (ground (arith, rest))
      ]

kinds_lem :
    (t : Track)
    → (if is_checked t then 1 else 0) + (if is_odd t then 1 else 0) ≡ (if t.has_data then 1 else 0)
unfolding is_checked is_odd
kinds_lem t = ground arith

kinds_count : (ts : List Track) → count is_checked ts + count is_odd ts ≡ count (λ t. t.has_data) ts
kinds_count [] = omega arith
kinds_count (t ∷ ts) = omega (arith, kinds_lem t, kinds_count ts)

matching_is_checked : (ts : List Track) → All (λ t. is_matching t ≡ true → is_checked t ≡ true) ts
unfolding is_matching is_checked
matching_is_checked [] = tt
matching_is_checked (t ∷ ts) = ((λ h. ground arith), matching_is_checked ts)

-- Each track with data is counted once, as an even one or as one of the three kinds of odd track, and no more
-- even tracks match than there are.
pub data_tracks_counted :
    (tracks : List Track)
    → let c = (detect_track_density_mismatch tracks).counts in
      (c.checked + (c.odd_duplicate + c.odd_varied + c.odd_uniform)
        ≡ count (λ t. t.has_data) tracks)
      × (c.matching ≤ c.checked)
unfolding detect_track_density_mismatch
data_tracks_counted tracks =
    let (p, q, r) = count_tracks_lem tracks no_counts in
    let fewer = count_mono is_matching is_checked tracks (matching_is_checked tracks) in
    (omega (arith, p, r, kinds_count tracks), omega (arith, p, q, fewer))

-- A track with data whose cylinder is even, as a 40-track disc in an 80-track drive has it.
abbrev pub IsDoubleStepped : Track → Type 0
IsDoubleStepped t = is_checked t ≡ true → is_halved t ≡ true

-- A track whose sectors, at least one, all say the cylinder that it is on.
abbrev pub IsOwnCylinder : Track → Type 0
IsOwnCylinder t =
    t.has_data ≡ true → (0 < length t.sector_cyls) × All (λ c. c ≡ t.cylinder) t.sector_cyls

checked_is_matching :
    (ts : List Track)
    → All IsDoubleStepped ts
    → All (λ t. is_checked t ≡ true → is_matching t ≡ true) ts
unfolding is_matching is_checked
checked_is_matching [] h = tt
checked_is_matching (t ∷ ts) (h, hs) =
    ((λ e. ap (λ b. b && is_halved t) e ∙ h e), checked_is_matching ts hs)

-- A disc whose even tracks with data all say half their cylinder is detected, where there are six or more.
pub detected-IsDoubleStepped :
    (tracks : List Track)
    → All IsDoubleStepped tracks
    → 6 ≤ count is_checked tracks
    → (detect_track_density_mismatch tracks).detected ≡ true
detected-IsDoubleStepped tracks h enough =
    let more = count_mono is_checked is_matching tracks (checked_is_matching tracks h) in
    detected_lem tracks ∙ ground (arith, more)

-- The even tracks with data on cylinder 0, which is half of itself.
unfoldable pub is_on_0 : Track → Bool
is_on_0 t = t.has_data && t.cylinder == 0

halved_zero :
    (cs : List ℕ) (k : ℕ)
    → 0 < length cs
    → All (λ c. c ≡ k) cs
    → all (λ c. c == k / 2) cs ≡ true
    → k ≡ 0
halved_zero [] k n own h = absurd (omega (arith, n))
halved_zero (c ∷ cs) k n (own, owns) h =
    let (same, _) = and-eq_true (c == k / 2) (all (λ d. d == k / 2) cs) h in
    omega (arith, own, (==_iff c (k / 2)).0 same)

own_halved :
    (t : Track)
    → 0 < length t.sector_cyls
    → All (λ c. c ≡ t.cylinder) t.sector_cyls
    → is_halved t ≡ true
    → t.cylinder ≡ 0
unfolding is_halved
own_halved t n own h =
    let (_, halves) =
      and-eq_true (ltb 0 (length t.sector_cyls)) (all (λ c. c == t.cylinder / 2) t.sector_cyls) h in
    halved_zero t.sector_cyls t.cylinder n own halves

matching_is_on_0 :
    (ts : List Track) → All IsOwnCylinder ts → All (λ t. is_matching t ≡ true → is_on_0 t ≡ true) ts
unfolding is_matching is_on_0 is_checked
matching_is_on_0 [] h = tt
matching_is_on_0 (t ∷ ts) (h, hs) = (
  (λ e.
      let (checked, halved) = and-eq_true (is_checked t) (is_halved t) e in
      let (data1, _) = and-eq_true t.has_data (is_even t) checked in
      let zero_cylinder = own_halved t (h data1).0 (h data1).1 halved in
      rw (data1, zero_cylinder) refl),
  matching_is_on_0 ts hs,
)

-- A disc whose tracks say their own cylinder is not detected, where less than 70 % of its even tracks with
-- data are on cylinder 0.
detected-IsOwnCylinder :
    (tracks : List Track)
    → All IsOwnCylinder tracks
    → 10 * count is_on_0 tracks < 7 * count is_checked tracks
    → (detect_track_density_mismatch tracks).detected ≡ false
detected-IsOwnCylinder tracks h few =
    let fewer = count_mono is_matching is_on_0 tracks (matching_is_on_0 tracks h) in
    detected_lem tracks ∙ ground (arith, fewer)
