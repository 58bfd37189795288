-- ===== src/Service/Assets/Sniffing.antt =====
-- internal/service/asset.go: the media type of an upload, from its bytes alone.
use Prim.Native.String.{count}
use octo_doc.Base.{
  ℕ, zero, suc, String, Bool, not, ◌&&◌, ◌||◌, Option, none, some, ◌==◌, leb, if◌then◌else◌,
}
use octo_doc.Base.Slices.{take, slice, has_prefix, after}

-- `http.DetectContentType`, `strings.ToLower`, and `strings.TrimSpace`
pub record Texts : Type 0 where
  pub detect : String → String
  pub to_lower : String → String
  pub trim_space : String → String

-- the text before the first semicolon
unfoldable pub before_semicolon : String → Option String
unfolding has_prefix
before_semicolon String.[] = none
before_semicolon (String.◌∷◌ c s) =
    if has_prefix ";" (String.◌∷◌ c s)
    then some ""
    else elim (before_semicolon s) [ none ↦ none | some t ↦ some (String.◌∷◌ c t) ]

module _ (texts : Texts) where
  open texts use {detect, to_lower, trim_space}

  -- the loop over `<!DOCTYPE ...>` and comments
  unfoldable pub skip_markup : ℕ → String → String
  unfolding after has_prefix
  skip_markup zero s = s
  skip_markup (suc f) s =
      if has_prefix "<!" s
      then elim (after ">" s) [ none ↦ s | some rest ↦ skip_markup f (trim_space rest) ]
      else s

  unfoldable pub skip_prolog : String → String
  unfolding after has_prefix
  skip_prolog s =
      if has_prefix "<?xml" s
      then elim (after "?>" s) [ none ↦ s | some rest ↦ trim_space rest ]
      else s

  unfoldable pub is_svg : String → Bool
  unfolding skip_markup skip_prolog has_prefix take
  is_svg bytes =
      let start = skip_prolog (trim_space (to_lower (take 1024 bytes))) in
      has_prefix "<svg" (skip_markup (count start) start)

  unfoldable pub riff_type : String → String
  unfolding slice
  riff_type bytes =
      if slice 8 12 bytes == "WAVE"
      then "audio/wav"
      else if slice 8 12 bytes == "WEBP"
      then "image/webp"
      else ""

  unfoldable pub sniff_extra : String → String
  unfolding riff_type is_svg slice take
  sniff_extra bytes =
      let riff = (if leb 12 (count bytes) && take 4 bytes == "RIFF" then riff_type bytes else "") in
      if not (riff == "")
      then riff
      else if leb 4 (count bytes) && take 4 bytes == "OggS"
      then "audio/ogg"
      else if leb 12 (count bytes)
          && slice 4 8 bytes == "ftyp"
          && (slice 8 12 bytes == "avif" || slice 8 12 bytes == "avis")
      then "image/avif"
      else if is_svg bytes
      then "image/svg+xml"
      else ""

  unfoldable pub sniff_mime : String → String
  unfolding sniff_extra before_semicolon
  sniff_mime bytes =
      let m = sniff_extra bytes in
      if m == ""
      then (let ct = detect bytes in
          elim (before_semicolon ct) [ none ↦ ct | some t ↦ trim_space t ])
      else m
