-- ===== src/Transport/Slugs/Safety.antt =====
-- config.go and helpers.go: what passes the checks can be a part of a storage key.
use Prim.Native.String.{count}
use octo_doc.Base.{
  ◌≤◌, String, Bool, true, false, ◌≡◌, refl, sym, ap, ◌∙◌, ◌==◌, arith, eqb, inl, inr, Bool-cases,
  if◌then◌else◌,
}
use octo_doc.Base.Text.{has_nul}
use octo_doc.Platform.Exec.{ok, pure, fail}
use octo_doc.Service.Collection.Finding.{all_hex, IsAddress}
use octo_doc.Service.Collection.Scan.{is_hex}
use octo_doc.Transport.Slugs.{
  invalid_slug, is_slug_char, all_slug_chars, is_slug, safe_slug, require_slug, is_sha_char,
  all_sha_chars, require_sha256,
}

has_nul-slug : (s : String) → all_slug_chars s ≡ true → has_nul s ≡ false
unfolding all_slug_chars has_nul is_slug_char
has_nul-slug String.[] h = refl
has_nul-slug (String.◌∷◌ c s) h = ground (arith, has_nul-slug s)

require_slug_passes :
    {S : Type 0} (value slug : String) (s s' : S) (is : Bool)
    → is_slug value ≡ is
    → (let checked : String = (if is then value else "") in
          if checked == "" then fail invalid_slug else pure checked)
        s
      ≡ (ok slug, s')
    → (slug ≡ value) × (s' ≡ s) × (is_slug value ≡ true)
require_slug_passes value slug s s' true p h = elim (Bool-cases (value == "")) [
  | inl e ↦ absurd (ground arith)
  | inr e ↦ (ground arith, ground arith, p)
]
require_slug_passes value slug s s' false p h = absurd (ground arith)

-- A slug that a request is let through with is the text of the request, has 1 to 64 characters, and
-- is without the zero character, by which the parts of a storage key are told apart.
pub require_slug_safe :
    {S : Type 0} (value slug : String) (s s' : S)
    → require_slug value s ≡ (ok slug, s')
    → (slug ≡ value) × (s' ≡ s) × (1 ≤ count slug) × (count slug ≤ 64) × (has_nul slug ≡ false)
unfolding require_slug safe_slug is_slug
require_slug_safe value slug s s' h =
    let (same, unchanged, is) = require_slug_passes value slug s s' (is_slug value) refl h in
    let good : is_slug slug ≡ true = ap is_slug same ∙ is in
    (same, unchanged, ground arith, ground arith, has_nul-slug slug (ground arith))

all_hex-sha : (s : String) → all_sha_chars s ≡ true → all_hex s ≡ true
unfolding all_sha_chars all_hex is_sha_char is_hex
all_hex-sha String.[] h = refl
all_hex-sha (String.◌∷◌ c s) h = ground (arith, all_hex-sha s)

-- An asset id that a request is let through with is the text of the request and a content address:
-- 64 lower-case hexadecimal characters.
pub require_sha256-IsAddress :
    {S : Type 0} (value sha : String) (s s' : S)
    → require_sha256 value s ≡ (ok sha, s')
    → (sha ≡ value) × (s' ≡ s) × IsAddress sha
unfolding require_sha256
require_sha256-IsAddress value sha s s' h = elim (Bool-cases (eqb (count value) 64)) [
  | inl n ↦ elim (Bool-cases (all_sha_chars value)) [
    | inl p ↦
        let same : value ≡ sha = ground arith in
        (
          ground arith,
          ground arith,
          (ap all_hex (sym same) ∙ all_hex-sha value p, rw (← same) (ground arith)),
        )
    | inr p ↦ absurd (ground arith)
  ]
  | inr n ↦ absurd (ground arith)
]
