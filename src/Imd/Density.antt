-- ===== src/Imd/Density.antt =====
-- detect_track_density_mismatch and detect_independent_sides of imd.py: what the tracks of a file say about
-- the drive that read it. A set of heads is modelled by its sorted list.
pub mod Laws
pub mod Sides
use arcology.Base.{
  ℕ, ◌+◌, ◌*◌, ◌/◌, ◌%◌, Bool, true, false, not, ◌&&◌, List, [], ◌∷◌, length, ltb, leb, ◌==◌, all,
  any, select, if◌then◌else◌,
}
use arcology.Imd.Tracks.{Track}

-- `set.add`
unfoldable pub add_head : ℕ → List ℕ → List ℕ
add_head h [] = h ∷ []
add_head h (k ∷ ks) =
    let rest = add_head h ks in if h == k then k ∷ ks else if ltb h k then h ∷ k ∷ ks else k ∷ rest

pub record Counts : Type 0 where
  pub matching : ℕ
  pub checked : ℕ
  pub odd_duplicate : ℕ
  pub odd_varied : ℕ
  pub odd_uniform : ℕ
  pub all_heads : List ℕ
  pub data_heads : List ℕ

abbrev pub no_counts : Counts
no_counts = record {
  matching = 0;
  checked = 0;
  odd_duplicate = 0;
  odd_varied = 0;
  odd_uniform = 0;
  all_heads = [];
  data_heads = [];
}

-- `t['sector_cyls'] and all(c == expected for c in t['sector_cyls'])`
unfoldable pub is_halved : Track → Bool
is_halved t = ltb 0 (length t.sector_cyls) && all (λ c. c == t.cylinder / 2) t.sector_cyls

unfoldable pub count_data : Track → Counts → Counts
unfolding is_halved
count_data t c =
    if t.cylinder % 2 == 0
    then record c {
      checked = c.checked + 1;
      matching = c.matching + (if is_halved t then 1 else 0);
    }
    else if is_halved t
    then record c { odd_duplicate = c.odd_duplicate + 1 }
    else if t.is_uniform_fill
    then record c { odd_uniform = c.odd_uniform + 1 }
    else record c { odd_varied = c.odd_varied + 1 }

-- One track of the loop.
unfoldable pub count_track : Track → Counts → Counts
unfolding count_data add_head
count_track t c =
    let seen : Counts = record c { all_heads = add_head t.head c.all_heads } in
    if not t.has_data
    then seen
    else count_data t (record seen { data_heads = add_head t.head c.data_heads })

unfoldable pub count_tracks : List Track → Counts → Counts
unfolding count_track
count_tracks [] c = c
count_tracks (t ∷ ts) c = count_tracks ts (count_track t c)

-- `checked >= 6 and confidence >= 0.70`, where the confidence is matching / checked.
pub record Mismatch : Type 0 where
  pub detected : Bool
  pub counts : Counts
  pub blank_heads : List ℕ

unfoldable pub detect_track_density_mismatch : List Track → Mismatch
unfolding count_tracks
detect_track_density_mismatch tracks =
    let c = count_tracks tracks no_counts in
    record {
      detected = leb 6 c.checked && leb (7 * c.checked) (10 * c.matching);
      counts = c;
      blank_heads = select (λ h. not (any (λ k. k == h) c.data_heads)) c.all_heads;
    }

-- The variables of detect_independent_sides.
pub record SideCounts : Type 0 where
  pub h0_data : Bool
  pub h1_data : Bool
  pub h1_tracks : ℕ
  pub h1_idam_all_zero : Bool

abbrev pub no_sides : SideCounts
no_sides = record { h0_data = false; h1_data = false; h1_tracks = 0; h1_idam_all_zero = true }

unfoldable pub count_side : Track → SideCounts → SideCounts
count_side t s =
    if not t.has_data
    then s
    else if t.head == 0
    then record s { h0_data = true }
    else if t.head == 1
    then record s {
      h1_data = true;
      h1_tracks = s.h1_tracks + 1;
      h1_idam_all_zero = s.h1_idam_all_zero && all (λ h. h == 0) t.idam_heads;
    }
    else s

unfoldable pub count_sides : List Track → SideCounts → SideCounts
unfolding count_side
count_sides [] s = s
count_sides (t ∷ ts) s = count_sides ts (count_side t s)

-- The reason, as one of its four texts.
pub data Reason : Type 0 where
  independent no_head_0 no_head_1 double_sided : Reason

pub record Independence : Type 0 where
  pub detected : Bool
  pub reason : Reason
  pub h1_tracks : ℕ
  pub h1_idam_all_zero : Bool

unfoldable pub detect_independent_sides : List Track → Independence
unfolding count_sides
detect_independent_sides tracks =
    let s = count_sides tracks no_sides in
    let found = s.h0_data && s.h1_data && s.h1_idam_all_zero && ltb 0 s.h1_tracks in
    record {
      detected = found;
      reason =
          if found
          then independent
          else if not s.h0_data
          then no_head_0
          else if not s.h1_data
          then no_head_1
          else double_sided;
      h1_tracks = s.h1_tracks;
      h1_idam_all_zero = s.h1_idam_all_zero;
    }
