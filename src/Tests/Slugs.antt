-- ===== src/Tests/Slugs.antt =====
-- Slugs and redirect targets.
use arcology.Base.{◌≤◌, ◌≡◌, refl, ◌+◌, true, false, Bool, ◌||◌, some, arith, length}
use arcology.Base.Text.{Text, codes, same_text, starts_with, drop_while, rstrip}
use arcology.Slugs.{
  generate_slug, collapse, is_dash, is_slug_char, numbered, digits, ensure_unique_slug, first_free,
  is_safe_redirect_path, safe_redirect_path,
}
use arcology.Slugs.Form.{is_slug, generate_slug_lem}

abbrev identity : Text → Text
identity s = s

accession : generate_slug identity 200 (codes "disc 1/4: install_") ≡ codes "disc-1-4-install"
unfolding generate_slug collapse is_dash is_slug_char drop_while rstrip
accession = refl

generate_slug_lem_example :
    (is_slug (generate_slug identity 10 (codes "disc 1/4: install_")) ≡ true)
    × (length (generate_slug identity 10 (codes "disc 1/4: install_")) ≤ 10)
generate_slug_lem_example = generate_slug_lem identity 10 (codes "disc 1/4: install_") (omega arith)

abbrev is_taken : Text → Bool
is_taken s = same_text s (codes "disc") || same_text s (codes "disc-2")

third : ensure_unique_slug is_taken 170 5 (codes "disc") ≡ some (codes "disc-3")
unfolding ensure_unique_slug first_free numbered digits same_text
third = refl

free : is_taken (numbered (codes "disc") (170 + 1)) ≡ false
unfolding numbered digits same_text
free = refl

refused : safe_redirect_path (codes "//evil.com") (codes "/") ≡ codes "/"
unfolding safe_redirect_path is_safe_redirect_path starts_with
refused = refl
