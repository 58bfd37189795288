-- ===== src/Examples/Exports.antt =====
-- A page with a comment on one of its words, exported.
use octo_doc.Base.{String, false, [], ◌∷◌, none, some, ◌≡◌, refl}
use octo_doc.Base.Int.{pos}
use octo_doc.Core.Types.{Anchor, AnchorKind, CommentSnapshot, unresolved}
use octo_doc.Transport.Export.{mark_anchored_text}
use octo_doc.Transport.Export.Banner.{indent_lines}
use octo_doc.Transport.Export.Marks.{Marked, mark_anchored_text-Marked}

abbrev on : String → Anchor
on word = record {
  kind = AnchorKind.text;
  text = word;
  context_before = "";
  context_after = "";
  aid = "";
  selector = "";
  label = "";
  reason = "";
  fingerprint = none;
  fallback = none;
}

abbrev remark : String → String → CommentSnapshot
remark id word = record {
  id = id;
  author = none;
  created = "2024";
  created_in = pos 1;
  version = pos 1;
  anchor = some (on word);
  text = "unclear";
  status = unresolved;
  applied_in = none;
  replies = [];
  reactions = [];
  deleted = false;
}

abbrev page : String
page = "<p>one two</p>"

mark_anchored_text-Marked_example :
    Marked (remark "c1" "two" ∷ []) page (mark_anchored_text page (remark "c1" "two" ∷ []))
mark_anchored_text-Marked_example = mark_anchored_text-Marked page (remark "c1" "two" ∷ [])

marks_word :
    mark_anchored_text page (remark "c1" "two" ∷ [])
    ≡ "<p>one <!--ODOC-COMMENT id=\"c1\" by=\"anonymous\"-->two<!--/ODOC-COMMENT--></p>"
unfolding mark_anchored_text
marks_word = refl

-- The text of the second comment stands in the mark of the first one.
marks_mark :
    mark_anchored_text "<p>one by</p>" (remark "c1" "one" ∷ remark "c2" "by" ∷ [])
    ≡ "<p><!--ODOC-COMMENT id=\"c1\" <!--ODOC-COMMENT id=\"c2\" by=\"anonymous\"-->by<!--/ODOC-COMMENT-->=\"anonymous\"-->one<!--/ODOC-COMMENT--> by</p>"
unfolding mark_anchored_text
marks_mark = refl

indents_end : indent_lines "    reactions: ! (1)\n" "  " ≡ "      reactions: ! (1)\n  "
unfolding indent_lines
indents_end = refl
