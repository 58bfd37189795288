-- ===== src/Core/Reconcile.antt =====
-- internal/core/reconcile.go: the anchors of live comments against the artifacts of a new version.
use Prim.Native.Char.{code}
use octo_doc.Base.{
  ℕ, String, Bool, true, false, not, ◌&&◌, ◌||◌, List, [], ◌∷◌, Option, none, some, ◌==◌, eqb, leb,
  keep, member, if◌then◌else◌,
}
use octo_doc.Base.Text.{concat, strip_prefix}
use octo_doc.Base.Int.{ℤ, pos, eqb_ℤ}
use octo_doc.Core.Types.{
  AnchorKind, Anchor, EventKind, CommentEvent, zero_event, Comment, CommentSnapshot,
  StampedArtifact,
}
use octo_doc.Core.Runtime.{Clock, Machine, read_iso}
use octo_doc.Core.Events.{append_event}
use octo_doc.Core.Legacy.{ensure_migrated}
use octo_doc.Core.Fold.{snapshot_at}

-- `strings.ToLower` and `strings.EqualFold`, whose Unicode tables are not modelled
pub record CaseFolding : Type 0 where
  pub to_lower : String → String
  pub equal_fold : String → String → Bool

-- `\w` of the regular expression
is_word : ℕ → Bool
is_word c =
    leb b'0' c && leb c b'9' || leb b'A' c && leb c b'Z' || eqb c b'_' || leb b'a' c && leb c b'z'

-- the longest run of word characters at the front, and the rest
word_run : String → String × String
unfolding is_word
word_run String.[] = ("", "")
word_run (String.◌∷◌ c s) =
    let (w, rest) = word_run s in
    if is_word (code c) then (String.◌∷◌ c w, rest) else ("", String.◌∷◌ c s)

-- the group of `aidSelectorRe` where it matches at the front
selector_aid_here : String → Option String
unfolding strip_prefix word_run
selector_aid_here s = elim (strip_prefix "[data-odoc-aid=\"" s) [
  | none ↦ none
  | some t ↦
      let (w, rest) = word_run t in
      elim (strip_prefix "\"]" rest) [ none ↦ none | some _ ↦ if w == "" then none else some w ]
]

-- `aidSelectorRe.FindStringSubmatch`: the leftmost match
unfoldable pub selector_aid : String → Option String
unfolding selector_aid_here
selector_aid String.[] = none
selector_aid (String.◌∷◌ c s) = elim (selector_aid_here (String.◌∷◌ c s)) [
  | some w ↦ some w
  | none ↦ selector_aid s
]

abbrev pub is_element : AnchorKind → Bool
is_element AnchorKind.element = true
is_element _ = false

abbrev pub is_lost : AnchorKind → Bool
is_lost AnchorKind.lost = true
is_lost _ = false

unfoldable pub known_aid : Anchor → String
unfolding selector_aid
known_aid a =
    if is_element a.kind && not (a.aid == "")
    then a.aid
    else if is_element a.kind && not (a.selector == "")
    then elim (selector_aid a.selector) [ none ↦ "" | some w ↦ w ]
    else ""

-- the tag of an anchor's fingerprint, "" without one
fingerprint_tag : Anchor → String
fingerprint_tag a = elim a.fingerprint [ none ↦ "" | some f ↦ f.tag ]

want_head : Anchor → String
want_head a = elim a.fallback [
  | none ↦ ""
  | some f ↦ elim f.nearest_heading [ none ↦ "" | some t ↦ t ]
]

-- the aid of the single element of a list, and what the list says if it has none or more
only_aid : List StampedArtifact → String → String → String
only_aid [] if_none if_more = if_none
only_aid (x ∷ []) if_none if_more = x.aid
only_aid (x ∷ y ∷ xs) if_none if_more = if_more

abbrev pub tag_matches : String → StampedArtifact → Bool
tag_matches tag x = tag == "" || x.tag == tag

unfoldable pub reconcile_event : Anchor → ℤ → String → CommentEvent
reconcile_event anchor version at = record zero_event {
  kind = EventKind.anchor_changed;
  at_version = version;
  at = at;
  by = "reconcile";
  reset_status = some false;
  anchor = some anchor;
}

-- the keys of the set `byAID`
abbrev pub aids_of : List StampedArtifact → List String
aids_of [] = []
aids_of (x ∷ xs) = x.aid ∷ aids_of xs

module _ (fold : CaseFolding) where
  unfoldable pub want_tag : Anchor → String
  unfolding fingerprint_tag
  want_tag a =
      if not (fingerprint_tag a == "")
      then fingerprint_tag a
      else if not (a.label == "")
      then fold.to_lower a.label
      else ""

  head_matches : String → StampedArtifact → Bool
  head_matches head x =
      head == "" || (elim x.heading [ none ↦ false | some h ↦ fold.equal_fold h head ])

  unfoldable pub find_rebind_aid : Anchor → List StampedArtifact → String
  unfolding want_tag want_head head_matches only_aid
  find_rebind_aid a aids =
      let tag = want_tag a in
      only_aid (keep (λ x. tag_matches tag x && head_matches (want_head a) x) aids)
        (only_aid (keep (tag_matches tag) aids) "" "") ""

  rebind_label : Anchor → String
  unfolding fingerprint_tag
  rebind_label a =
      let label = if a.label == "" then fingerprint_tag a else a.label in
      if label == "" then "element" else label

  -- the anchor to record for a drifted comment, `none` for no change
  unfoldable pub next_anchor : Anchor → List StampedArtifact → Option Anchor
  unfolding find_rebind_aid rebind_label
  next_anchor a aids =
      let new_aid = find_rebind_aid a aids in
      if not (new_aid == "")
      then some (record {
        kind = AnchorKind.element;
        text = "";
        context_before = "";
        context_after = "";
        aid = new_aid;
        selector = concat ("[data-odoc-aid=\"" ∷ new_aid ∷ "\"]" ∷ []);
        label = rebind_label a;
        reason = "";
        fingerprint = a.fingerprint;
        fallback = a.fallback;
      })
      else if is_lost a.kind
      then none
      else some (record {
        kind = AnchorKind.lost;
        text = "";
        context_before = "";
        context_after = "";
        aid = "";
        selector = "";
        label = a.label;
        reason = "no_candidate";
        fingerprint = a.fingerprint;
        fallback = a.fallback;
      })

  -- the event that `reconcileComment` appends for a snapshot, if any
  reconcile_anchor : Anchor → List StampedArtifact → List String → Option Anchor
  unfolding known_aid next_anchor
  reconcile_anchor a aids by_aid =
      if not (is_element a.kind || is_lost a.kind)
      then none
      else if not (known_aid a == "") && member (known_aid a) by_aid
      then none
      else next_anchor a aids

  unfoldable pub reconcile_snapshot :
      Option CommentSnapshot → List StampedArtifact → List String → Option Anchor
  unfolding reconcile_anchor
  reconcile_snapshot none aids by_aid = none
  reconcile_snapshot (some s) aids by_aid = elim s.anchor [
    | none ↦ none
    | some a ↦ if s.deleted then none else reconcile_anchor a aids by_aid
  ]

  module _ (clock : Clock) where
    unfoldable pub reconcile_comment :
        Comment → List StampedArtifact → List String → ℤ → String → Machine → Comment × Machine
    unfolding snapshot_at reconcile_snapshot append_event reconcile_event
    reconcile_comment c aids by_aid version at m =
        let (snap, c₁, m₁) = snapshot_at clock c version m in
        elim (reconcile_snapshot snap aids by_aid) [
          | none ↦ (c₁, m₁)
          | some anchor ↦ append_event clock c₁ (reconcile_event anchor version at) m₁
        ]

    reconcile_all :
        List Comment
        → List StampedArtifact
        → List String
        → ℤ
        → String
        → Machine
        → List Comment × Machine
    unfolding reconcile_comment
    reconcile_all [] aids by_aid version at m = ([], m)
    reconcile_all (c ∷ cs) aids by_aid version at m =
        let (c', m₁) = reconcile_comment c aids by_aid version at m in
        let (cs', m₂) = reconcile_all cs aids by_aid version at m₁ in (c' ∷ cs', m₂)

    unfoldable pub reconcile_anchors :
        List Comment → List StampedArtifact → ℤ → Machine → List Comment × Machine
    unfolding reconcile_all ensure_migrated read_iso
    reconcile_anchors cs aids v m =
        let (cs₁, _, m₁) = ensure_migrated clock cs m in
        let version = if eqb_ℤ v (pos 0) then pos 1 else v in
        let (at, m₂) = read_iso clock m₁ in reconcile_all cs₁ aids (aids_of aids) version at m₂
