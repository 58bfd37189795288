-- ===== src/Core/Stamp/Headings.antt =====
-- internal/core/stamp.go: collectHeadings. `lower` is `unicode.ToLower`.
use Prim.Native.Char.{Char, len_utf8}
use Prim.Native.String.{count}
use octo_doc.Base.{
  ℕ, zero, suc, ◌+◌, ◌-◌, String, List, [], ◌∷◌, ◌++◌, Option, none, some, leb, ltb, if◌then◌else◌,
}
use octo_doc.Base.Text.{strip_prefix, concat}
use octo_doc.Core.Stamp.Patterns.{
  ◌>>=◌, until, tag_opens, any_tag, spaces, replace_matches, trim_js_space,
}

pub record Heading : Type 0 where
  pub end : ℕ
  pub text : String

-- a text cut behind a number of bytes; `none` where it has fewer, and where the cut would part a
-- character
unfoldable pub cut_bytes : ℕ → String → Option (String × String)
cut_bytes zero s = some ("", s)
cut_bytes (suc n) String.[] = none
cut_bytes (suc n) (String.◌∷◌ c s) =
    let rest = cut_bytes (suc n - len_utf8 c) s in
    if leb (len_utf8 c) (suc n) then (do (a, b) ← rest; some (String.◌∷◌ c a, b)) else none

-- the offset in bytes of the first occurrence of a text that is not empty
unfoldable pub index_bytes : String → String → Option ℕ
unfolding strip_prefix
index_bytes p String.[] = none
index_bytes p (String.◌∷◌ c s) =
    let later = index_bytes p s in
    elim (strip_prefix p (String.◌∷◌ c s)) [
      | some rest ↦ some 0
      | none ↦ (do n ← later; some (len_utf8 c + n))
    ]

unfoldable pub lowered : (Char → Char) → String → String
lowered lower String.[] = ""
lowered lower (String.◌∷◌ c s) = String.◌∷◌ (lower c) (lowered lower s)

-- the offset in the lowered text, which the source reads as one in the text
unfoldable pub index_fold_close : (Char → Char) → String → String → Option ℕ
unfolding index_bytes lowered
index_fold_close lower s prefix = index_bytes (lowered lower prefix) (lowered lower s)

-- `(?i)<hN\b[^>]*>`
unfoldable pub heading_opens : String → String → Option String
unfolding tag_opens until
heading_opens level s = do r ← tag_opens (concat ("h" ∷ level ∷ [])) s; q ← until b'>' r; some q.1

unfoldable pub heading_text : String → String
unfolding any_tag spaces replace_matches trim_js_space
heading_text inner = trim_js_space (replace_matches spaces " " (replace_matches any_tag "" inner))

-- A heading's content, and the text behind its closing tag. The outer `none` is a cut that is out of
-- range or parts a character, the inner one a heading that is not closed.
unfoldable pub close_heading : (Char → Char) → String → String → Option (Option (String × String))
unfolding index_fold_close cut_bytes until
close_heading lower level content =
    elim (index_fold_close lower content (concat ("</h" ∷ level ∷ []))) [
      | none ↦ some none
      | some rel ↦ elim (cut_bytes rel content) [
        | none ↦ none
        | some (inner, close) ↦ elim (until b'>' close) [
          | none ↦ some none
          | some (tag, rest) ↦ some (some (inner, rest))
        ]
      ]
    ]

-- The headings of a level from an offset on; the loop goes on at the offset `resume`. `total` is the
-- length of the document.
unfoldable pub level_headings : (Char → Char) → String → ℕ → String → ℕ → ℕ → Option (List Heading)
unfolding heading_opens heading_text close_heading
level_headings lower level total String.[] at resume = some []
level_headings lower level total (String.◌∷◌ c s) at resume =
    elim (if ltb at resume then none else heading_opens level (String.◌∷◌ c s)) [
      | none ↦ level_headings lower level total s (suc at) resume
      | some content ↦ elim (close_heading lower level content) [
        | none ↦ none
        | some none ↦ level_headings lower level total s (suc at) (total - count content)
        | some (some (inner, rest)) ↦ (do
          hs ← level_headings lower level total s (suc at) (total - count rest)
          some (record { end = total - count rest; text = heading_text inner } ∷ hs))
      ]
    ]

-- `sort.SliceStable` by the end
unfoldable pub insert_heading : Heading → List Heading → List Heading
insert_heading h [] = h ∷ []
insert_heading h (k ∷ ks) =
    let rest = insert_heading h ks in if ltb k.end h.end then k ∷ rest else h ∷ k ∷ ks

unfoldable pub sort_headings : List Heading → List Heading
unfolding insert_heading
sort_headings [] = []
sort_headings (h ∷ hs) = insert_heading h (sort_headings hs)

unfoldable pub collect_headings : (Char → Char) → String → Option (List Heading)
unfolding level_headings sort_headings
collect_headings lower html = do
  one ← level_headings lower "1" (count html) html 0 0
  two ← level_headings lower "2" (count html) html 0 0
  three ← level_headings lower "3" (count html) html 0 0
  some (sort_headings (one ++ (two ++ three)))

-- the last heading that ends before an offset
unfoldable pub nearest_heading_at : List Heading → ℕ → Option String → Option String
nearest_heading_at [] idx best = best
nearest_heading_at (h ∷ hs) idx best =
    let later = nearest_heading_at hs idx (some h.text) in if leb h.end idx then later else best
