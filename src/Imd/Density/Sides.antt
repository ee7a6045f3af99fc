-- ===== src/Imd/Density/Sides.antt =====
-- When detect_independent_sides finds two sides, and the reason it gives.
use mathlib.Core.Bool.{or-false, or_assoc, and-true, and_assoc}
use arcology.Base.{
  ℕ, ◌+◌, ◌≡◌, refl, sym, ap, ◌∙◌, Bool, true, false, not, ◌&&◌, ◌||◌, List, [], ◌∷◌, all, any,
  count, ltb, ◌==◌, if◌then◌else◌, arith, Bool-cases, inl, inr,
}
use arcology.Imd.Tracks.{Track}
use arcology.Imd.Density.{SideCounts, no_sides, count_side, count_sides, detect_independent_sides}

-- A side with data on a head, and one whose sectors all say head 0.
abbrev pub on_head : ℕ → Track → Bool
on_head h t = t.has_data && t.head == h

abbrev pub says_head_0 : Track → Bool
says_head_0 t = all (λ h. h == 0) t.idam_heads

count_side_lem :
    (t : Track) (s : SideCounts)
    → ((count_side t s).h0_data ≡ (s.h0_data || on_head 0 t))
      × ((count_side t s).h1_data ≡ (s.h1_data || on_head 1 t))
      × ((count_side t s).h1_tracks ≡ s.h1_tracks + (if on_head 1 t then 1 else 0))
      × ((count_side t s).h1_idam_all_zero
          ≡ (s.h1_idam_all_zero && (not (on_head 1 t) || says_head_0 t)))
unfolding count_side
count_side_lem t s = (ground arith, ground arith, ground arith, ground arith)

-- The state after the tracks, by tests on all of them.
count_sides_lem :
    (ts : List Track) (s : SideCounts)
    → ((count_sides ts s).h0_data ≡ (s.h0_data || any (on_head 0) ts))
      × ((count_sides ts s).h1_data ≡ (s.h1_data || any (on_head 1) ts))
      × ((count_sides ts s).h1_tracks ≡ s.h1_tracks + count (on_head 1) ts)
      × ((count_sides ts s).h1_idam_all_zero
          ≡ (s.h1_idam_all_zero && all (λ t. not (on_head 1 t) || says_head_0 t) ts))
unfolding count_sides
count_sides_lem [] s = (
  sym (or-false s.h0_data),
  sym (or-false s.h1_data),
  omega arith,
  sym (and-true s.h1_idam_all_zero),
)
count_sides_lem (t ∷ ts) s =
    let (a, b, c, d) = count_side_lem t s in
    let (p, q, r, u) = count_sides_lem ts (count_side t s) in
    (
      p
          ∙ ap (λ x. x || any (on_head 0) ts) a
          ∙ or_assoc s.h0_data (on_head 0 t) (any (on_head 0) ts),
      q
          ∙ ap (λ x. x || any (on_head 1) ts) b
          ∙ or_assoc s.h1_data (on_head 1 t) (any (on_head 1) ts),
      omega (arith, r, c),
      u
          ∙ ap (λ x. x && all (λ v. not (on_head 1 v) || says_head_0 v) ts) d
          ∙ and_assoc s.h1_idam_all_zero (not (on_head 1 t) || says_head_0 t)
              (all (λ v. not (on_head 1 v) || says_head_0 v) ts),
    )

any-count : (ts : List Track) → any (on_head 1) ts ≡ ltb 0 (count (on_head 1) ts)
any-count [] = refl
any-count (t ∷ ts) = elim (Bool-cases (on_head 1 t)) [
  | inl e ↦ rw e (ground arith)
  | inr e ↦ rw (e, any-count ts) (ground arith)
]

twice_and : (a b c : Bool) → (a && b && c && b) ≡ (a && (b && c))
twice_and false b c = refl
twice_and true false c = refl
twice_and true true c = and-true c

-- The sides are found independent where both heads have a track with data and no sector of head 1 with data
-- says another head than 0.
detect_independent_sides_iff :
    (tracks : List Track)
    → (detect_independent_sides tracks).detected ≡ (
        any (on_head 0) tracks
        && (any (on_head 1) tracks && all (λ t. not (on_head 1 t) || says_head_0 t) tracks))
unfolding detect_independent_sides
detect_independent_sides_iff tracks =
    let (p, q, r, u) = count_sides_lem tracks no_sides in
    let tracks1 : (count_sides tracks no_sides).h1_tracks ≡ count (on_head 1) tracks =
      omega (arith, r) in
    rw (p, q, tracks1, u, any-count tracks)
      (twice_and (any (on_head 0) tracks) (ltb 0 (count (on_head 1) tracks))
        (all (λ t. not (on_head 1 t) || says_head_0 t) tracks))
