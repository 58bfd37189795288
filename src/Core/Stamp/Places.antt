-- ===== src/Core/Stamp/Places.antt =====
-- Where the harvested elements stand.
use Prim.Native.Char.{Char, code}
use Prim.Native.String.{count}
use Prim.Native.String.count
use octo_doc.Base.{
  ℕ, suc, ◌+◌, ◌≤◌, ◌<◌, String, Bool, true, false, ◌||◌, List, [], ◌∷◌, ◌++◌, some, ◌≡◌, refl,
  subst, arith, eqb, ◌-◌, ◌&&◌, if◌then◌else◌, All, All-append, Bool-cases, Option-cases, inl, inr,
}
use octo_doc.Core.Stamp.Patterns.{tag_opens}
use octo_doc.Core.Stamp.Harvest.{
  Element, Harvested, seen_at, open_tag_end, attr_aware_open_tag_end, element_at, harvest,
  harvest_tag, harvest_tags_from, harvest_stampable_tags, harvest_marker, harvest_opt_in_markers,
  harvest_all, stampable_tags, no_elements, probe_tag, opt_in_artifact, opt_in_class,
}
use octo_doc.Core.Stamp.Headings.{lowered}
use octo_doc.Base.Slices.{slice}

open_tag_end_bounds :
    (quote : ℕ) (s : String) (at end : ℕ)
    → open_tag_end quote s at ≡ some end
    → (at < end) × (end ≤ at + count s)
unfolding open_tag_end
open_tag_end_bounds quote String.[] at end h = ground arith
open_tag_end_bounds quote (String.◌∷◌ c s) at end h =
    let ch = code c in
    let inside : ℕ =
      if eqb quote 0
      then (if eqb ch 34 || eqb ch 39 then ch else 0)
      else if eqb ch quote
      then 0
      else quote in
    let size = count.cons c s in
    elim (Bool-cases (eqb quote 0 && eqb ch b'>')) [
      | inl done ↦ ground arith
      | inr on ↦
          let later : open_tag_end inside s (suc at) ≡ some end = ground arith in
          let (above, within) = open_tag_end_bounds inside s (suc at) end later in
          (omega arith, omega arith)
    ]

attr_aware_open_tag_end_bounds :
    (s : String) (at end : ℕ)
    → attr_aware_open_tag_end s at ≡ some end
    → (at < end) × (end ≤ at + count s)
unfolding attr_aware_open_tag_end
attr_aware_open_tag_end_bounds String.[] at end h = ground arith
attr_aware_open_tag_end_bounds (String.◌∷◌ c s) at end h =
    omega (arith, count.cons c s, open_tag_end_bounds 0 s (suc at) end h)

-- An open tag is not empty and stands in a document of the length `total`.
abbrev pub IsInside : ℕ → Element → Type 0
IsInside total e = (e.open_start < e.open_end) × (e.open_end ≤ total)

-- No two elements start at the same place.
abbrev starts_at : ℕ → List Element → Bool
starts_at n [] = false
starts_at n (e ∷ es) = eqb e.open_start n || starts_at n es

abbrev pub Separate : List Element → Type 0
Separate [] = Unit {0}
Separate (e ∷ es) = (starts_at e.open_start es ≡ false) × Separate es

starts_at-append :
    (n : ℕ) (es fs : List Element) → starts_at n (es ++ fs) ≡ (starts_at n es || starts_at n fs)
starts_at-append n [] fs = refl
starts_at-append n (e ∷ es) fs = ground (arith, starts_at-append n es fs)

Separate-append :
    (es : List Element) (e : Element)
    → Separate es
    → starts_at e.open_start es ≡ false
    → Separate (es ++ e ∷ [])
Separate-append [] e h n = (refl, tt)
Separate-append (f ∷ es) e (h, hs) n = (
  ground (arith, starts_at-append f.open_start es (e ∷ [])),
  Separate-append es e hs (ground arith),
)

if_holds : {A : Type 0} (P : A → Type 0) (b : Bool) (x y : A) → P x → P y → P (if b then x else y)
if_holds P true x y p q = p
if_holds P false x y p q = q

-- The set `seen` has the starts of the elements.
record IsHarvest (total : ℕ) (h : Harvested) : Type 0 where
  seen : (n : ℕ) → seen_at n h.seen ≡ starts_at n h.elements
  separate : Separate h.elements
  inside : All (IsInside total) h.elements

element_at-start :
    (html : String) (start end : ℕ) (tag attrs : String)
    → ((element_at html start end tag attrs).open_start ≡ start)
      × ((element_at html start end tag attrs).open_end ≡ end)
unfolding element_at
element_at-start html start end tag attrs = (refl, refl)

add-IsHarvest :
    (total : ℕ) (e : Element) (h : Harvested)
    → IsInside total e
    → seen_at e.open_start h.seen ≡ false
    → IsHarvest total h
    → IsHarvest total (record { seen = e.open_start ∷ h.seen; elements = h.elements ++ e ∷ [] })
add-IsHarvest total e h inside new v = record {
  seen = λ n. ground (arith, v.seen n, starts_at-append n h.elements (e ∷ []));
  separate = Separate-append h.elements e v.separate (ground (arith, v.seen e.open_start));
  inside = All-append (IsInside total) h.elements (e ∷ []) v.inside (inside, tt);
}

harvest-IsHarvest :
    (html : String) (start end : ℕ) (tag attrs : String) (h : Harvested)
    → start < end
    → end ≤ count html
    → IsHarvest (count html) h
    → IsHarvest (count html) (harvest html start end tag attrs h)
unfolding harvest
harvest-IsHarvest html start end tag attrs h p q v = elim (Bool-cases (seen_at start h.seen)) [
  | inl old ↦ rw old v
  | inr new ↦
      let e = element_at html start end tag attrs in
      let (s, t) = element_at-start html start end tag attrs in
      let inside : IsInside (count html) e = (omega arith, omega arith) in
      let fresh : seen_at e.open_start h.seen ≡ false = rw s new in
      let added = add-IsHarvest (count html) e h inside fresh v in
      rw new (
        subst
          (λ n.
            IsHarvest (count html) (record { seen = n ∷ h.seen; elements = h.elements ++ e ∷ [] }))
          s added)
]

module _ (html : String) where
  abbrev Kept : Harvested → Type 0
  Kept h = IsHarvest (count html) h

  harvest_tag-IsHarvest :
      (tag s : String) (at : ℕ) (h : Harvested)
      → at + count s ≡ count html
      → Kept h
      → Kept (harvest_tag html tag s at h)
  unfolding harvest_tag
  harvest_tag-IsHarvest tag s at h e v = elim (Option-cases (tag_opens tag s)) [
    | inl p ↦ rw (p, harvest_tag) v
    | inr (rest, p) ↦ elim (Option-cases (attr_aware_open_tag_end s at)) [
      | inl q ↦ rw (p, q, harvest_tag) v
      | inr (end, q) ↦
          let (above, within) = attr_aware_open_tag_end_bounds s at end q in
          rw (p, q, harvest_tag) (harvest-IsHarvest html at end tag _ h above (omega arith) v)
    ]
  ]

  harvest_marker-IsHarvest :
      (lower : Char → Char) (s : String) (at : ℕ) (h : Harvested)
      → at + count s ≡ count html
      → Kept h
      → Kept (harvest_marker lower html s at h)
  unfolding harvest_marker
  harvest_marker-IsHarvest lower s at h e v = elim (Option-cases (probe_tag s)) [
    | inl p ↦ rw (p, harvest_marker) v
    | inr (name, p) ↦ elim (Option-cases (attr_aware_open_tag_end s at)) [
      | inl q ↦ rw (p, q, harvest_marker) v
      | inr (end, q) ↦
          let (above, within) = attr_aware_open_tag_end_bounds s at end q in
          let attrs = slice (at + 1 + count name) (end - 1) html in
          rw (p, q, harvest_marker)
            (if_holds Kept (opt_in_artifact attrs || opt_in_class attrs)
              (harvest html at end (lowered lower name) attrs h) h
              (harvest-IsHarvest html at end (lowered lower name) attrs h above (omega arith) v) v)
    ]
  ]

  harvest_tags_from-IsHarvest :
      (tag s : String) (at : ℕ) (h : Harvested)
      → at + count s ≡ count html
      → Kept h
      → Kept (harvest_tags_from html tag s at h)
  unfolding harvest_tags_from
  harvest_tags_from-IsHarvest tag String.[] at h e v = v
  harvest_tags_from-IsHarvest tag (String.◌∷◌ c s) at h e v =
      harvest_tags_from-IsHarvest tag s (suc at) (harvest_tag html tag (String.◌∷◌ c s) at h)
        (omega (arith, count.cons c s)) (harvest_tag-IsHarvest tag (String.◌∷◌ c s) at h e v)

  harvest_stampable_tags-IsHarvest :
      (tags : List String) (h : Harvested) → Kept h → Kept (harvest_stampable_tags html tags h)
  unfolding harvest_stampable_tags
  harvest_stampable_tags-IsHarvest [] h v = v
  harvest_stampable_tags-IsHarvest (t ∷ ts) h v =
      harvest_stampable_tags-IsHarvest ts (harvest_tags_from html t html 0 h)
        (harvest_tags_from-IsHarvest t html 0 h (omega arith) v)

  harvest_opt_in_markers-IsHarvest :
      (lower : Char → Char) (s : String) (at : ℕ) (h : Harvested)
      → at + count s ≡ count html
      → Kept h
      → Kept (harvest_opt_in_markers lower html s at h)
  unfolding harvest_opt_in_markers
  harvest_opt_in_markers-IsHarvest lower String.[] at h e v = v
  harvest_opt_in_markers-IsHarvest lower (String.◌∷◌ c s) at h e v =
      harvest_opt_in_markers-IsHarvest lower s (suc at)
        (harvest_marker lower html (String.◌∷◌ c s) at h) (omega (arith, count.cons c s))
        (harvest_marker-IsHarvest lower (String.◌∷◌ c s) at h e v)

  -- Every artifact that is harvested has an open tag that is not empty and stands in the document,
  -- and no two of them start at the same place, although both passes may come upon a tag.
  pub harvest_all-Separate :
      (lower : Char → Char)
      → Separate (harvest_all lower html) × All (IsInside (count html)) (harvest_all lower html)
  unfolding harvest_all
  harvest_all-Separate lower =
      let start : Kept no_elements = record { seen = λ n. refl; separate = tt; inside = tt } in
      let tags = harvest_stampable_tags-IsHarvest stampable_tags no_elements start in
      let v =
        harvest_opt_in_markers-IsHarvest lower html 0
          (harvest_stampable_tags html stampable_tags no_elements) (omega arith) tags in
      (v.separate, v.inside)
