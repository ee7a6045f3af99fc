-- ===== src/Slugs/Redirect.antt =====
-- That safe_redirect_path stays on the origin.
use arcology.Base.{
  ◌≡◌, ◌↔◌, inl, inr, refl, true, false, [], ◌∷◌, ◌==◌, arith, Bool-cases, any, All,
}
use arcology.Base.Text.{Text, codes, starts_with}
use arcology.Slugs.{is_control, is_safe_redirect_path, safe_redirect_path}

-- A path that a browser resolves on the same origin: one slash, no second slash after it, and no backslash
-- or control character anywhere.
abbrev pub IsLocalPath : Text → Type 0
IsLocalPath [] = ⊥
IsLocalPath (c ∷ cs) =
    (c ≡ 0x2f)
    × (starts_with cs (codes "/") ≡ false)
    × All (λ ch. (is_control ch ≡ false) × ((ch == 0x5c) ≡ false)) (c ∷ cs)

clean_chars :
    (s : Text)
    → any is_control s ≡ false
    → any (λ c. c == 0x5c) s ≡ false
    → All (λ ch. (is_control ch ≡ false) × ((ch == 0x5c) ≡ false)) s
clean_chars [] h k = tt
clean_chars (c ∷ cs) h k =
    ((ground arith, ground arith), clean_chars cs (ground arith) (ground arith))

no_control :
    (s : Text)
    → All (λ ch. (is_control ch ≡ false) × ((ch == 0x5c) ≡ false)) s
    → (any is_control s ≡ false) × (any (λ c. c == 0x5c) s ≡ false)
no_control [] h = (refl, refl)
no_control (c ∷ cs) h = let (k, l) = no_control cs h.1 in (ground arith, ground arith)

-- A redirect target is accepted exactly when it is a local path.
is_safe_redirect_path_iff :
    (target : Text) → (is_safe_redirect_path target ≡ true) ↔ IsLocalPath target
unfolding is_safe_redirect_path starts_with
is_safe_redirect_path_iff [] = ((λ h. cc), (λ h. absurd h))
is_safe_redirect_path_iff (c ∷ cs) = (
  (λ h. (ground arith, ground arith, clean_chars (c ∷ cs) (ground arith) (ground arith))),
  (λ h. let (k, l) = no_control (c ∷ cs) h.2 in ground arith),
)

-- The redirect goes to a local path whenever the default is one.
pub safe_redirect_path-IsLocalPath :
    (target default : Text) → IsLocalPath default → IsLocalPath (safe_redirect_path target default)
unfolding safe_redirect_path
safe_redirect_path-IsLocalPath target default d = elim (Bool-cases (is_safe_redirect_path target)) [
  | inl e ↦ rw e ((is_safe_redirect_path_iff target).0 e)
  | inr e ↦ rw e d
]
