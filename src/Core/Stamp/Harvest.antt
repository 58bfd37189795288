-- ===== src/Core/Stamp/Harvest.antt =====
-- internal/core/stamp.go: the artifacts of a document and where they stand.
use Prim.Native.Char.{Char, code}
use Prim.Native.String.{count}
use octo_doc.Base.{
  ℕ, suc, ◌+◌, ◌-◌, String, Bool, true, false, not, ◌&&◌, ◌||◌, List, [], ◌∷◌, ◌++◌, Option, none,
  some, leb, ltb, eqb, if◌then◌else◌,
}
use octo_doc.Base.Slices.{drop, slice}
use octo_doc.Core.Stamp.Patterns.{
  ◌>>=◌, is_word, is_letter, is_code, is_js_space, starts, one, fold_prefix, quoted, tag_opens,
  tag_closes, self_closes, word_end,
}
use octo_doc.Core.Stamp.Headings.{lowered}

abbrev pub stampable_tags : List String
stampable_tags =
    "img" ∷ "svg" ∷ "canvas" ∷ "video" ∷ "pre" ∷ "figure" ∷ "iframe" ∷ "section" ∷ "aside"
    ∷ "blockquote" ∷ "table" ∷ "details" ∷ []

abbrev pub raw_text_tags : List String
raw_text_tags = "script" ∷ "style" ∷ "textarea" ∷ "title" ∷ []

-- An element as it is harvested.
pub record Element : Type 0 where
  pub open_start : ℕ
  pub open_end : ℕ
  pub close_end : ℕ
  pub tag : String
  pub attrs : String
  pub inner_html : String
  pub is_void : Bool

-- The rest of an open tag from the offset `at` on: the offset behind its ">". `quote` is the open
-- quotation mark, or 0.
unfoldable pub open_tag_end : ℕ → String → ℕ → Option ℕ
open_tag_end quote String.[] at = none
open_tag_end quote (String.◌∷◌ c s) at =
    let ch = code c in
    let inside =
      if eqb quote 0
      then (if eqb ch 34 || eqb ch 39 then ch else 0)
      else if eqb ch quote
      then 0
      else quote in
    let rest = open_tag_end inside s (suc at) in
    if eqb quote 0 && eqb ch b'>' then some (suc at) else rest

-- `attrAwareOpenTagEnd` on the text that starts at the "<"
unfoldable pub attr_aware_open_tag_end : String → ℕ → Option ℕ
unfolding open_tag_end
attr_aware_open_tag_end String.[] lt = none
attr_aware_open_tag_end (String.◌∷◌ c s) lt = open_tag_end 0 s (suc lt)

-- the text behind the first closing tag
unfoldable pub behind_close : String → String → Option String
unfolding tag_closes
behind_close tag String.[] = none
behind_close tag (String.◌∷◌ c s) =
    let later = behind_close tag s in
    elim (tag_closes tag (String.◌∷◌ c s)) [ some rest ↦ some rest | none ↦ later ]

-- `body` is the text behind the open tag, at `open_end`.
unfoldable pub skip_raw_text_body_at : ℕ → String → String → String → ℕ → ℕ
unfolding self_closes behind_close
skip_raw_text_body_at total open_tag attrs body open_end =
    if self_closes attrs
    then open_end
    else elim (behind_close open_tag body) [ none ↦ total | some rest ↦ total - count rest ]

-- `rawRe`
unfoldable pub raw_opens : List String → String → Option String
unfolding tag_opens
raw_opens [] s = none
raw_opens (t ∷ ts) s = elim (tag_opens t s) [ some rest ↦ some t | none ↦ raw_opens ts s ]

-- What the loop of `findCloseEnd` does at an offset.
pub data Move : Type 0 where
  found : ℕ → Move
  give_up : Move
  resume : ℕ → ℕ → Move

-- the text at the offset `at`, which is not before the one where the loop went on; `close`, `open`
-- and `raw` in this order
unfoldable pub close_move : ℕ → String → String → ℕ → ℕ → ℕ → Move
unfolding tag_closes tag_opens raw_opens attr_aware_open_tag_end skip_raw_text_body_at
close_move total tag s at from depth = elim (tag_closes tag s) [
  | some rest ↦
      if eqb depth 1 then found (total - count rest) else resume (total - count rest) (depth - 1)
  | none ↦ elim (tag_opens tag s) [
    | some rest ↦ elim (attr_aware_open_tag_end s at) [
      | some end ↦ resume end (depth + 1)
      | none ↦ resume (total - count rest) (depth + 1)
    ]
    | none ↦ elim (raw_opens raw_text_tags s) [
      | some raw ↦ elim (attr_aware_open_tag_end s at) [
        | none ↦ give_up
        | some end ↦
            resume (skip_raw_text_body_at total raw (slice 0 (end - at) s) (drop (end - at) s) end)
              depth
      ]
      | none ↦ resume from depth
    ]
  ]
]

-- the loop on the text at the offset `at`, where it goes on at `from`
unfoldable pub close_from : ℕ → String → String → ℕ → ℕ → ℕ → Option ℕ
unfolding close_move
close_from total tag String.[] at from depth = none
close_from total tag (String.◌∷◌ c s) at from depth =
    elim (if ltb at from
      then resume from depth
      else close_move total tag (String.◌∷◌ c s) at from depth) [
        | found end ↦ some end
        | give_up ↦ none
        | resume from' depth' ↦ close_from total tag s (suc at) from' depth'
      ]

unfoldable pub find_close_end : String → String → ℕ → ℕ
unfolding close_from drop
find_close_end html tag open_end =
    elim (close_from (count html) tag (drop open_end html) open_end open_end 1) [
      | some end ↦ end
      | none ↦ open_end
    ]

-- whether a tag or the end of its attributes makes an element void
unfoldable pub is_void_tag : String → Bool
unfolding fold_prefix
is_void_tag tag =
    (elim (fold_prefix "img" tag) [ some rest ↦ eqb (count rest) 0 | none ↦ false ])
    || (elim (fold_prefix "iframe" tag) [ some rest ↦ eqb (count rest) 0 | none ↦ false ])

-- the set `seen` and the elements
pub record Harvested : Type 0 where
  pub seen : List ℕ
  pub elements : List Element

abbrev pub seen_at : ℕ → List ℕ → Bool
seen_at n [] = false
seen_at n (m ∷ ms) = eqb m n || seen_at n ms

unfoldable pub element_at : String → ℕ → ℕ → String → String → Element
unfolding is_void_tag self_closes find_close_end slice
element_at html open_start open_end tag attrs =
    let void = is_void_tag tag || self_closes attrs in
    let close_end = if void then open_end else find_close_end html tag open_end in
    let closing = count tag + 3 in
    record {
      open_start = open_start;
      open_end = open_end;
      close_end = close_end;
      tag = tag;
      attrs = attrs;
      inner_html =
          if void
          then ""
          else if leb (open_end + closing) close_end && leb (close_end - closing) (count html)
          then slice open_end (close_end - closing) html
          else "";
      is_void = void;
    }

unfoldable pub harvest : String → ℕ → ℕ → String → String → Harvested → Harvested
harvest html open_start open_end tag attrs h = if seen_at open_start h.seen then h else record {
  seen = open_start ∷ h.seen;
  elements = h.elements ++ element_at html open_start open_end tag attrs ∷ [];
}

-- the open tag of `tag` at the start of a text, at the offset `at`
unfoldable pub harvest_tag : String → String → String → ℕ → Harvested → Harvested
harvest_tag html tag s at h = elim (tag_opens tag s) [
  | none ↦ h
  | some rest ↦ elim (attr_aware_open_tag_end s at) [
    | none ↦ h
    | some end ↦ harvest html at end tag (slice (at + 1 + count tag) (end - 1) html) h
  ]
]

-- the loop over the open tags, on the text at the offset `at`
unfoldable pub harvest_tags_from : String → String → String → ℕ → Harvested → Harvested
unfolding harvest_tag
harvest_tags_from html tag String.[] at h = h
harvest_tags_from html tag (String.◌∷◌ c s) at h =
    harvest_tags_from html tag s (suc at) (harvest_tag html tag (String.◌∷◌ c s) at h)

unfoldable pub harvest_stampable_tags : String → List String → Harvested → Harvested
unfolding harvest_tags_from
harvest_stampable_tags html [] h = h
harvest_stampable_tags html (t ∷ ts) h =
    harvest_stampable_tags html ts (harvest_tags_from html t html 0 h)

-- the characters of `[\w-]*` at the start of a text, up to the last one of a word
unfoldable pub name_from : String → String
unfolding is_word is_code
name_from String.[] = ""
name_from (String.◌∷◌ c s) =
    let rest = name_from s in
    if is_word c || is_code b'-' c && (elim rest [ String.[] ↦ false | String.◌∷◌ d t ↦ true ])
    then String.◌∷◌ c rest
    else ""

-- the name that `probeTagRe` finds at the start of a text
unfoldable pub probe_tag : String → Option String
unfolding one starts is_code is_letter name_from
probe_tag s = do r ← one (is_code b'<') s; if starts is_letter r then some (name_from r) else none

-- `\bword\b` in either case; the Boolean tells whether a character of a word stands in front
unfoldable pub has_word : String → Bool → String → Bool
unfolding fold_prefix word_end is_word
has_word word inside String.[] = false
has_word word inside (String.◌∷◌ c s) =
    has_word word (is_word c) s
    || not inside && elim (do r ← fold_prefix word (String.◌∷◌ c s); word_end r) [
      | none ↦ false
      | some r ↦ true
    ]

unfoldable pub opt_in_artifact : String → Bool
unfolding has_word
opt_in_artifact attrs = has_word "data-odoc-artifact" false attrs

-- `class="…odoc-artifact…"`
unfoldable pub opt_in_class : String → Bool
unfolding fold_prefix quoted is_js_space has_word
opt_in_class String.[] = false
opt_in_class (String.◌∷◌ c s) =
    opt_in_class s || elim (do r ← fold_prefix "class" (String.◌∷◌ c s); quoted is_js_space r) [
      | none ↦ false
      | some q ↦ has_word "odoc-artifact" false q.0
    ]

-- an open tag with a marker at the start of a text, at the offset `at`; `lower` is `unicode.ToLower`
unfoldable pub harvest_marker : (Char → Char) → String → String → ℕ → Harvested → Harvested
harvest_marker lower html s at h = elim (probe_tag s) [
  | none ↦ h
  | some name ↦ elim (attr_aware_open_tag_end s at) [
    | none ↦ h
    | some end ↦
        let attrs = slice (at + 1 + count name) (end - 1) html in
        if opt_in_artifact attrs || opt_in_class attrs
        then harvest html at end (lowered lower name) attrs h
        else h
  ]
]

unfoldable pub harvest_opt_in_markers : (Char → Char) → String → String → ℕ → Harvested → Harvested
unfolding harvest_marker
harvest_opt_in_markers lower html String.[] at h = h
harvest_opt_in_markers lower html (String.◌∷◌ c s) at h =
    harvest_opt_in_markers lower html s (suc at) (harvest_marker lower html (String.◌∷◌ c s) at h)

abbrev pub no_elements : Harvested
no_elements = record { seen = []; elements = [] }

-- both passes over a document
unfoldable pub harvest_all : (Char → Char) → String → List Element
unfolding harvest_stampable_tags harvest_opt_in_markers
harvest_all lower html =
    (harvest_opt_in_markers lower html html 0
      (harvest_stampable_tags html stampable_tags no_elements)).elements
