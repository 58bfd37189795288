-- ===== src/Core/Stamp/Weaving.antt =====
-- The stamped text: the document with its open tags replaced and everything between them kept.
use Prim.Native.Char.{Char}
use Prim.Native.String.{◌++◌ as append, count}
use Prim.Native.String.append
use Prim.Native.String.count
use octo_doc.Base.{
  ℕ, zero, suc, ◌+◌, ◌≤◌, String, true, List, [], ◌∷◌, some, ◌≡◌, ◌∙◌, refl, sym, ap, arith, leb,
  map, ◌&&◌, if◌then◌else◌,
}
use mathlib.Core.List.{Perm}
use octo_doc.Base.Text.{concat, append_assoc, append_empty}
use octo_doc.Base.Slices.{take, drop, slice, count-take, take-whole}
use octo_doc.Core.Stamp.Headings.{Heading, collect_headings}
use octo_doc.Core.Stamp.Harvest.{Element, harvest_all}
use octo_doc.Core.Stamp.Identity.{aid_for}
use octo_doc.Core.Stamp.Patterns.{aid_attr, spaced_aid_attr, replace_matches, self_closes}
use octo_doc.Core.Stamp.Places.{harvest_all-Separate}
use octo_doc.Core.Stamp.Order.{
  AreDisjoint, Apart, elements, sort_stamps-perm, sort_stamps-Apart, sort_stamps_of_elements,
}
use octo_doc.Core.Stamp.Stamping.{
  stamp_of, artifact_of, sort_stamps, stamped_open, put_stamp, put_stamps, stamp_aids,
}

count-append : (s t : String) → count (append s t) ≡ count s + count t
count-append String.[] t = rw (append.nil t) (omega (arith, count.nil))
count-append (String.◌∷◌ c s) t =
    rw (append.cons c s t)
      (omega (arith, count.cons c (append s t), count.cons c s, count-append s t))

take-append : (n : ℕ) (s t : String) → n ≤ count s → take n (append s t) ≡ take n s
unfolding take
take-append zero s t h = refl
take-append (suc n) String.[] t h = absurd (omega (arith, count.nil))
take-append (suc n) (String.◌∷◌ c s) t h =
    rw (append.cons c s t) (ap (String.◌∷◌ c) (take-append n s t (omega (arith, count.cons c s))))

drop-append : (n : ℕ) (s t : String) → n ≤ count s → drop n (append s t) ≡ append (drop n s) t
unfolding drop
drop-append zero s t h = refl
drop-append (suc n) String.[] t h = absurd (omega (arith, count.nil))
drop-append (suc n) (String.◌∷◌ c s) t h =
    rw (append.cons c s t) (drop-append n s t (omega (arith, count.cons c s)))

take-take : (n b : ℕ) (s : String) → n ≤ b → take n (take b s) ≡ take n s
unfolding take
take-take zero b s h = refl
take-take (suc n) zero s h = absurd (omega arith)
take-take (suc n) (suc b) String.[] h = refl
take-take (suc n) (suc b) (String.◌∷◌ c s) h = ap (String.◌∷◌ c) (take-take n b s (omega arith))

-- An open tag with its identity: the tag, the attributes without an old identity, and the identity of
-- the element as it is without old ones.
abbrev pub identified : Element → String
identified e =
    let attrs = replace_matches spaced_aid_attr "" e.attrs in
    let aid = aid_for e.tag (replace_matches aid_attr "" e.inner_html) attrs in
    let close = if e.is_void && self_closes e.attrs then "/>" else ">" in
    concat ("<" ∷ e.tag ∷ attrs ∷ " data-odoc-aid=\"" ∷ aid ∷ "\"" ∷ close ∷ [])

-- the first `b` characters of a document, with the open tags replaced by those with an identity
abbrev pub woven : String → List Element → ℕ → String
woven html [] b = take b html
woven html (e ∷ es) b =
    append (woven html es e.open_start) (append (identified e) (slice e.open_end b html))

stamped_open-identified : (e : Element) → stamped_open (stamp_of e) ≡ identified e
unfolding stamped_open stamp_of
stamped_open-identified e = refl

put_stamp-before :
    (e : Element) (html tail : String) (b : ℕ)
    → b ≤ count html
    → e.open_start ≤ e.open_end
    → e.open_end ≤ b
    → put_stamp (stamp_of e) (append (take b html) tail)
      ≡ some (
          append
            (take e.open_start html)
            (append (append (identified e) (slice e.open_end b html)) tail))
unfolding put_stamp slice stamp_of stamped_open
put_stamp-before e html tail b h p q =
    let n = count-take b html h in
    let whole : leb e.open_end (count (append (take b html) tail)) ≡ true =
      ground (arith, count-append (take b html) tail) in
    let front =
      take-append e.open_start (take b html) tail (omega arith)
      ∙ take-take e.open_start b html (omega arith) in
    let back = drop-append e.open_end (take b html) tail (omega arith) in
    let opened = identified e in
    let kept = slice e.open_end b html in
    rw whole (
      rw (front, back)
        (ap (λ x. some (append (take e.open_start html) x))
          (ap (append opened) (append_empty (append kept tail))
            ∙ sym (append_assoc opened kept tail))))

put_stamps-woven :
    (es : List Element) (html tail : String) (b : ℕ)
    → b ≤ count html
    → Apart b es
    → put_stamps (map stamp_of es) (append (take b html) tail)
      ≡ some (append (woven html es b) tail)
unfolding put_stamps
put_stamps-woven [] html tail b h apart = refl
put_stamps-woven (e ∷ es) html tail b h (p, q, rest) =
    let replaced = append (identified e) (slice e.open_end b html) in
    rw (put_stamp-before e html tail b h p q) (
      put_stamps-woven es html (append replaced tail) e.open_start (omega arith) rest
      ∙ ap some (sym (append_assoc (woven html es e.open_start) replaced tail)))

-- Where the document's headings are found, and no open tag of an artifact stands inside another one's,
-- the stamped text is the document in which the open tag of each artifact that is harvested, and of
-- no other one, is replaced by the tag with the identity of its element, and every other character of
-- the document is in its place.
pub stamp_aids-woven :
    (lower : Char → Char) (html : String) (headings : List Heading)
    → collect_headings lower html ≡ some headings
    → AreDisjoint (harvest_all lower html)
    → (es : List Element) × Perm es (harvest_all lower html)
      × Apart (count html) es
      × (stamp_aids lower html
          ≡ some (
            woven html es (count html),
            map (artifact_of headings) (map stamp_of (harvest_all lower html)),
          ))
unfolding stamp_aids
stamp_aids-woven lower html headings found disjoint =
    let all = harvest_all lower html in
    let es = elements (sort_stamps (map stamp_of all)) in
    let apart = sort_stamps-Apart (count html) all (harvest_all-Separate html lower).1 disjoint in
    let whole : append (take (count html) html) "" ≡ html =
      append_empty (take (count html) html) ∙ take-whole (count html) html (omega arith) in
    let put : put_stamps (sort_stamps (map stamp_of all)) html ≡ some (woven html es (count html)) =
      ap (λ ss. put_stamps ss html) (sym (sort_stamps_of_elements all))
      ∙ sym (ap (put_stamps (map stamp_of es)) whole)
      ∙ put_stamps-woven es html "" (count html) (omega arith) apart
      ∙ ap some (append_empty (woven html es (count html))) in
    (es, sort_stamps-perm all, apart, rw (found, put) refl)
