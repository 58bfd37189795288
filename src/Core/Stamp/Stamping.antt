-- ===== src/Core/Stamp/Stamping.antt =====
-- internal/core/stamp.go: StampAids.
use Prim.Native.Char.{Char}
use Prim.Native.String.{count}
use octo_doc.Base.{String, ◌&&◌, List, [], ◌∷◌, Option, none, some, leb, ltb, map, if◌then◌else◌}
use octo_doc.Base.Text.{concat}
use octo_doc.Base.Slices.{take, drop}
use octo_doc.Core.Types.{StampedArtifact}
use octo_doc.Core.Stamp.Patterns.{◌>>=◌, aid_attr, spaced_aid_attr, replace_matches, self_closes}
use octo_doc.Core.Stamp.Identity.{aid_for, utf16_slice}
use octo_doc.Core.Stamp.Headings.{Heading, collect_headings, nearest_heading_at}
use octo_doc.Core.Stamp.Harvest.{Element, harvest_all}

-- An element with its attributes, less an old identity, and its identity.
pub record Stamp : Type 0 where
  pub element : Element
  pub cleaned_attrs : String
  pub aid : String

unfoldable pub stamp_of : Element → Stamp
unfolding replace_matches spaced_aid_attr aid_attr aid_for
stamp_of e =
    let cleaned_attrs = replace_matches spaced_aid_attr "" e.attrs in
    let cleaned_inner = replace_matches aid_attr "" e.inner_html in
    record {
      element = e;
      cleaned_attrs = cleaned_attrs;
      aid = aid_for e.tag cleaned_inner cleaned_attrs;
    }

unfoldable pub artifact_of : List Heading → Stamp → StampedArtifact
unfolding utf16_slice nearest_heading_at
artifact_of headings s = record {
  aid = s.aid;
  tag = s.element.tag;
  head = utf16_slice s.element.inner_html 80;
  heading = nearest_heading_at headings s.element.open_start none;
}

-- `sort.SliceStable`, the later offsets first
unfoldable pub insert_stamp : Stamp → List Stamp → List Stamp
insert_stamp s [] = s ∷ []
insert_stamp s (t ∷ ts) =
    let rest = insert_stamp s ts in
    if ltb s.element.open_start t.element.open_start then t ∷ rest else s ∷ t ∷ ts

unfoldable pub sort_stamps : List Stamp → List Stamp
unfolding insert_stamp
sort_stamps [] = []
sort_stamps (s ∷ ss) = insert_stamp s (sort_stamps ss)

unfoldable pub stamped_open : Stamp → String
unfolding self_closes
stamped_open s =
    let close = if s.element.is_void && self_closes s.element.attrs then "/>" else ">" in
    concat ("<" ∷ s.element.tag ∷ s.cleaned_attrs ∷ " data-odoc-aid=\"" ∷ s.aid ∷ "\"" ∷ close ∷ [])

-- `out[:openStart] + stampedOpen + out[openEnd:]`; a panic where `out` has become too short
unfoldable pub put_stamp : Stamp → String → Option String
unfolding take drop
put_stamp s out =
    if leb s.element.open_end (count out)
    then some
        (concat (take s.element.open_start out ∷ stamped_open s ∷ drop s.element.open_end out ∷ []))
    else none

unfoldable pub put_stamps : List Stamp → String → Option String
unfolding put_stamp
put_stamps [] out = some out
put_stamps (s ∷ ss) out = do next ← put_stamp s out; put_stamps ss next

-- `none` is a panic, or the cut of a character by `index_fold_close`.
unfoldable pub stamp_aids : (Char → Char) → String → Option (String × List StampedArtifact)
unfolding collect_headings harvest_all stamp_of artifact_of sort_stamps put_stamps
stamp_aids lower html = do
  headings ← collect_headings lower html
  let stamps = map stamp_of (harvest_all lower html)
  out ← put_stamps (sort_stamps stamps) html
  some (out, map (artifact_of headings) stamps)
