-- ===== src/Transport/Export/Marks.antt =====
-- The marks that an export puts around the text of comments.
use Prim.Native.String.{◌++◌ as append}
use Prim.Native.String.append
use Prim.Native.String.{len}
use Prim.Native.Char.{Char, code}
use text.Mathlib.TextEquality.{Char-path}
use mathlib.Core.Path.{ap₂}
use octo_doc.Base.{
  ◌==◌, ◌||◌, if◌then◌else◌, ltb, Bool, false, Bool-cases, Option-cases, eqb, eqb→eq, inl, inr,
  String, List, [], ◌∷◌, none, some, ◌≡◌, refl, sym, ap, subst, ◌∙◌, arith,
}
use octo_doc.Base.Slices.{after}
use octo_doc.Base.Text.{strip_prefix, append_assoc, append_empty}
use octo_doc.Core.Markup.{replace_first}
use octo_doc.Core.Types.{CommentSnapshot}
use octo_doc.Transport.Export.{needle, opening, closing, mark_one, mark_anchored_text}

-- A page becomes another one by the marks of comments, in their order: a comment that has no text to
-- find, or whose text the page does not have, leaves the page; the others stand around their text at
-- its first place, and what is before and behind it stays.
pub data Marked : List CommentSnapshot → String → String → Type 0 where
  finished : {s : String} → Marked [] s s
  without_text :
      {c : CommentSnapshot} {cs : List CommentSnapshot} {s t : String}
      → needle c ≡ none
      → Marked cs s t
      → Marked (c ∷ cs) s t
  not_found :
      {c : CommentSnapshot} {cs : List CommentSnapshot} {s t : String} (text : String)
      → needle c ≡ some text
      → after text s ≡ none
      → Marked cs s t
      → Marked (c ∷ cs) s t
  around :
      {c : CommentSnapshot} {cs : List CommentSnapshot} {s t : String} (text before behind : String)
      → needle c ≡ some text
      → after text s ≡ some behind
      → s ≡ append before (append text behind)
      → Marked cs (append before (append (opening c) (append text (append closing behind)))) t
      → Marked (c ∷ cs) s t

strip_prefix-some : (p s rest : String) → strip_prefix p s ≡ some rest → s ≡ append p rest
unfolding strip_prefix
strip_prefix-some String.[] s rest h = ground (arith, append.nil rest)
strip_prefix-some (String.◌∷◌ c p) String.[] rest h = absurd (ground arith)
strip_prefix-some (String.◌∷◌ c p) (String.◌∷◌ d s) rest h =
    elim (Bool-cases (eqb (code c) (code d))) [
      | inl same ↦
          let tail : s ≡ append p rest = strip_prefix-some p s rest (ground arith) in
          ap₂ String.◌∷◌ (Char-path d c (eqb→eq (code d) (code c) (ground arith))) tail
          ∙ sym (append.cons c p rest)
      | inr other ↦ absurd (ground arith)
    ]

replace_first-absent : (p new s : String) → after p s ≡ none → replace_first p new s ≡ s
unfolding after replace_first
replace_first-absent p new String.[] h = refl
replace_first-absent p new (String.◌∷◌ c s) h =
    elim (Option-cases (strip_prefix p (String.◌∷◌ c s))) [
      | inl e ↦ ground (arith, replace_first-absent p new s)
      | inr (rest, e) ↦ absurd (ground arith)
    ]

module _ (p new s rest : String) (c : Char) where
  after-here : strip_prefix p (String.◌∷◌ c s) ≡ some rest → after p (String.◌∷◌ c s) ≡ some rest
  unfolding after
  after-here e = ground arith

  replace_first-here :
      strip_prefix p (String.◌∷◌ c s) ≡ some rest
      → replace_first p new (String.◌∷◌ c s) ≡ append new rest
  unfolding replace_first
  replace_first-here e = ground arith

replace_first-later :
    (p new s : String) (c : Char)
    → strip_prefix p (String.◌∷◌ c s) ≡ none
    → replace_first p new (String.◌∷◌ c s) ≡ String.◌∷◌ c (replace_first p new s)
unfolding replace_first
replace_first-later p new s c e = ground arith

-- Where a text is found, it is replaced at its first place.
replace_first-found :
    (p new s behind : String)
    → (p == "") ≡ false
    → after p s ≡ some behind
    → (before : String) × (s ≡ append before (append p behind))
      × (replace_first p new s ≡ append before (append new behind))
unfolding after replace_first strip_prefix
replace_first-found String.[] new String.[] behind filled h = absurd (ground arith)
replace_first-found (String.◌∷◌ d p) new String.[] behind filled h = absurd (ground arith)
replace_first-found p new (String.◌∷◌ c s) behind filled h =
    elim (Option-cases (strip_prefix p (String.◌∷◌ c s))) [
      | inl e ↦
          let (before, parts, replaced) =
            replace_first-found p new s behind filled (ground arith) in
          (
            String.◌∷◌ c before,
            ap (String.◌∷◌ c) parts ∙ sym (append.cons c before (append p behind)),
            replace_first-later p new s c e
                ∙ ap (String.◌∷◌ c) replaced
                ∙ sym (append.cons c before (append new behind)),
          )
      | inr (rest, e) ↦
          let same : rest ≡ behind = ground (arith, after-here p new s rest c e) in
          (
            "",
            strip_prefix-some p (String.◌∷◌ c s) rest e
                ∙ ap (append p) same
                ∙ sym (append.nil (append p behind)),
            replace_first-here p new s rest c e
                ∙ ap (append new) same
                ∙ sym (append.nil (append new behind)),
          )
    ]

chosen-filled :
    (held text : String) (short : Bool)
    → (if held == "" || short then none else some held) ≡ some text
    → (text == "") ≡ false
chosen-filled held text short h = elim (Bool-cases (held == "")) [
  | inl p ↦ absurd (ground arith)
  | inr p ↦ let same : held ≡ text = ground arith in ap (λ t. t == "") (sym same) ∙ p
]

needle-filled : (c : CommentSnapshot) (text : String) → needle c ≡ some text → (text == "") ≡ false
unfolding needle
needle-filled c text h = elim (Option-cases c.anchor) [
  | inl e ↦ absurd (ground arith)
  | inr (a, e) ↦ chosen-filled a.text text (ltb (len a.text) 2) (ground (arith, h, e))
]

module _ (c : CommentSnapshot) (out : String) where
  mark_one-without : needle c ≡ none → mark_one c out ≡ out
  unfolding mark_one
  mark_one-without e = ground arith

  mark_one-with :
      (text : String)
      → needle c ≡ some text
      → mark_one c out
        ≡ replace_first text (append (opening c) (append text (append closing ""))) out
  unfolding mark_one
  mark_one-with text e = ground arith

  in_marks :
      (text behind : String)
      → append (append (opening c) (append text (append closing ""))) behind
        ≡ append (opening c) (append text (append closing behind))
  in_marks text behind =
      rw
        (
          append_empty closing,
          append_assoc (opening c) (append text closing) behind,
          append_assoc text closing behind,
        )
        refl

-- The page with the marks is the page that the marks of the comments make, one comment after the
-- other.
pub mark_anchored_text-Marked :
    (html : String) (cs : List CommentSnapshot) → Marked cs html (mark_anchored_text html cs)
unfolding mark_anchored_text
mark_anchored_text-Marked html [] = finished
mark_anchored_text-Marked html (c ∷ cs) =
    let marked = mark_anchored_text-Marked (mark_one c html) cs in
    let from : (s : String)
        → mark_one c html ≡ s
        → Marked cs s (mark_anchored_text (mark_one c html) cs) =
      λ s same. subst (λ s. Marked cs s (mark_anchored_text (mark_one c html) cs)) same marked in
    elim (Option-cases (needle c)) [
      | inl e ↦ without_text e (from html (mark_one-without c html e))
      | inr (text, e) ↦ elim (Option-cases (after text html)) [
        | inl absent ↦
            not_found text e absent
              (from html (mark_one-with c html text e ∙ replace_first-absent text _ html absent))
        | inr (behind, found) ↦
            let (before, parts, replaced) =
              replace_first-found text (append (opening c) (append text (append closing ""))) html
                behind (needle-filled c text e) found in
            around text before behind e found parts (
              from _ (
                mark_one-with c html text e
                ∙ replaced
                ∙ ap (append before) (in_marks c html text behind)))
      ]
    ]
