-- ===== src/Examples/Stamp.antt =====
-- Documents whose artifacts are stamped.
use Prim.Native.Char.{Char}
use Prim.Native.String.{count}
use octo_doc.Base.{inl, List, [], ◌∷◌, Option, none, some, String, ◌≡◌, refl, arith, map, All}
use octo_doc.Core.Types.{StampedArtifact}
use octo_doc.Core.Stamp.Headings.{Heading, collect_headings}
use octo_doc.Core.Stamp.Harvest.{
  Element, harvest_all, harvest, element_at, probe_tag, attr_aware_open_tag_end, opt_in_artifact,
  opt_in_class,
}
use octo_doc.Core.Stamp.Patterns.{tag_opens}
use octo_doc.Base.Slices.{slice}
use octo_doc.Core.Stamp.Places.{IsInside, Separate, harvest_all-Separate}
use octo_doc.Core.Stamp.Stamping.{stamp_of, artifact_of, stamped_open, stamp_aids}
use octo_doc.Core.Stamp.Weaving.{woven, stamp_aids-woven}
use octo_doc.Core.Stamp.Order.{AreDisjoint, Apart}
use mathlib.Core.List.{Perm}

abbrev lower : Char → Char
lower c = c

abbrev stamp_text : Option (String × List StampedArtifact) → String
stamp_text none = ""
stamp_text (some (text, aids)) = text

abbrev page : String
page = "<h1>A  b</h1><img src=\"a\"><aside>c</aside>"

abbrev headings : List Heading
headings = record { end = 13; text = "A b" } ∷ []

page-headings : collect_headings lower page ≡ some headings
unfolding collect_headings
page-headings = refl

page-AreDisjoint : AreDisjoint (harvest_all lower page)
unfolding harvest_all probe_tag attr_aware_open_tag_end opt_in_artifact slice opt_in_class tag_opens
    harvest element_at
page-AreDisjoint = ((inl (omega arith), tt), (tt, tt))

stamp_aids-woven_example :
    (es : List Element) × Perm es (harvest_all lower page)
    × Apart (count page) es
    × (stamp_aids lower page
        ≡ some (
          woven page es (count page),
          map (artifact_of headings) (map stamp_of (harvest_all lower page)),
        ))
stamp_aids-woven_example = stamp_aids-woven lower page headings page-headings page-AreDisjoint

stamped_page :
    stamp_text (stamp_aids lower page)
    ≡ "<h1>A  b</h1><img src=\"a\" data-odoc-aid=\"t5k8hiqlf7\"><aside data-odoc-aid=\"27i31j5f724\">c</aside>"
unfolding stamp_aids stamped_open probe_tag attr_aware_open_tag_end opt_in_artifact slice
    opt_in_class tag_opens harvest element_at
stamped_page = refl

harvest_all-Separate_example :
    Separate (harvest_all lower page) × All (IsInside (count page)) (harvest_all lower page)
harvest_all-Separate_example = harvest_all-Separate page lower

-- An open tag inside an attribute: what was written for it is cut.
nested_tags :
    stamp_text (stamp_aids lower "<img alt=\"<svg>\">")
    ≡ "<img alt=\"<svg>\" data-odoc-aid=\"20akg6pyvkt\">ta-odoc-aid=\"13ea6k1flsn\">\">"
unfolding stamp_aids stamped_open probe_tag attr_aware_open_tag_end opt_in_artifact slice
    opt_in_class tag_opens harvest element_at
nested_tags = refl
