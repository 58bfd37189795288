-- ===== src/Transport/Slugs.antt =====
-- internal/config/config.go, `SafeSlug`, and internal/transport/httpx/helpers.go: what a request may
-- name.
pub mod Safety
use Prim.Native.Char.{code}
use Prim.Native.String.{count}
use octo_doc.Base.{
  ℕ, String, Bool, true, false, not, ◌&&◌, ◌||◌, Option, none, some, ◌==◌, leb, eqb, if◌then◌else◌,
}
use octo_doc.Base.Int.{ℤ, pos, negsuc, ltb_ℤ}
use octo_doc.Platform.Errors.{AppError, validation, new_err}
use octo_doc.Platform.Exec.{Exec, pure, fail}

-- `[a-zA-Z0-9_-]`
unfoldable pub is_slug_char : ℕ → Bool
is_slug_char c =
    leb b'a' c && leb c b'z'
    || leb b'A' c && leb c b'Z'
    || leb b'0' c && leb c b'9'
    || eqb c b'_'
    || eqb c b'-'

unfoldable pub all_slug_chars : String → Bool
unfolding is_slug_char
all_slug_chars String.[] = true
all_slug_chars (String.◌∷◌ c s) = is_slug_char (code c) && all_slug_chars s

-- the match of `slugRe`
unfoldable pub is_slug : String → Bool
unfolding all_slug_chars
is_slug s = leb 1 (count s) && leb (count s) 64 && all_slug_chars s

unfoldable pub safe_slug : String → String
unfolding is_slug
safe_slug slug = if is_slug slug then slug else ""

unfoldable pub invalid_slug : AppError
unfolding validation new_err
invalid_slug = validation "invalid or missing slug" "invalid_slug"

unfoldable pub require_slug : {S : Type 0} → String → Exec S String
unfolding safe_slug
require_slug value =
    let slug = safe_slug value in if slug == "" then fail invalid_slug else pure slug

-- a character that `requireSHA256` passes
unfoldable pub is_sha_char : ℕ → Bool
is_sha_char c = leb b'0' c && leb c b'9' || leb b'a' c && leb c b'f'

unfoldable pub all_sha_chars : String → Bool
unfolding is_sha_char
all_sha_chars String.[] = true
all_sha_chars (String.◌∷◌ c s) = is_sha_char (code c) && all_sha_chars s

unfoldable pub invalid_sha256 : AppError
unfolding validation new_err
invalid_sha256 = validation "invalid asset id" "invalid_sha256"

unfoldable pub require_sha256 : {S : Type 0} → String → Exec S String
unfolding all_sha_chars
require_sha256 value =
    if not (eqb (count value) 64)
    then fail invalid_sha256
    else if all_sha_chars value
    then pure value
    else fail invalid_sha256

-- `parseVersionParam`, behind `strconv.Atoi`, which is a parameter
unfoldable pub version_param : (String → Option ℤ) → String → Option ℤ
version_param atoi s = elim (atoi s) [
  | none ↦ none
  | some n ↦ if ltb_ℤ n (pos 0) then none else some n
]
