-- ===== src/Queue/Rows.antt =====
-- UPDATE and its row count, for any condition and any new values.
use arcology.Base.{◌≡◌, refl, Bool, false, List, [], ◌∷◌, arith, ltb, any, count}
use arcology.Queue.{Analysis, update}

module _ (p : Analysis → Bool) where
  pub update_none :
      (f : Analysis → Analysis) (rows : List Analysis) → count p rows ≡ 0 → update p f rows ≡ rows
  update_none f [] h = refl
  update_none f (a ∷ rows) h = ground (arith, update_none f rows)

  pub any-count : (rows : List Analysis) → ltb 0 (count p rows) ≡ any p rows
  any-count [] = refl
  any-count (a ∷ rows) = ground (arith, any-count rows)

  pub count_none : (rows : List Analysis) → any p rows ≡ false → count p rows ≡ 0
  count_none rows h = ground (arith, any-count rows)

  pub update_clears :
      (f : Analysis → Analysis) (rows : List Analysis)
      → ((a : Analysis) → p (f a) ≡ false)
      → count p (update p f rows) ≡ 0
  update_clears f [] h = refl
  update_clears f (a ∷ rows) h = ground (arith, h a, update_clears f rows h)
