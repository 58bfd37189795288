-- ===== src/Service/Comments.antt =====
-- internal/service/comment.go: the serialized owner of the comments of a slug.
pub mod Missing
use octo_doc.Base.{ℕ, String, true, false, List, [], Option, none, eqb, if◌then◌else◌}
use octo_doc.Base.Int.{ℤ, pos, eqb_ℤ}
use octo_doc.Platform.Exec.{Error, Exec, pure, ◌>>=◌, ◌>>◌}
use octo_doc.Core.Types.{Author, Anchor, CommentEvent, Comment, CommentSnapshot, StampedArtifact}
use octo_doc.Core.Runtime.{Clock, Machine, read_iso}
use octo_doc.Core.Legacy.{ensure_migrated}
use octo_doc.Core.Fold.{version_latest, snapshot_list, history_list}
use octo_doc.Core.Reconcile.{CaseFolding}
use octo_doc.Core.Requests.{
  Body, OpResult, OpKind, create, reply, patch_anchor, react, delete, raw_events, wipe,
  publish_merge, CommentOp,
}
use octo_doc.Core.Ops.{Outcome, apply_comment_op}
use octo_doc.Storage.Backend.{MetadataStore}
use octo_doc.Service.Ids.{new_comment_id, new_reply_id}
use octo_doc.Service.World.{World, stored, computed, with_lock}

pub record MutationResult : Type 0 where
  pub status : ℕ
  pub body : Body

-- Go's zero value, from which the composite literals start
abbrev pub zero_op : CommentOp
zero_op = record {
  kind = OpKind.other "";
  at = "";
  id = "";
  author = none;
  text = "";
  anchor = none;
  parent_id = "";
  reply_id = "";
  reset_status = false;
  actor = "";
  comment_id = "";
  emoji = "";
  by = "";
  events = [];
  response_body = none;
  local_comments = [];
  aids = [];
  version = pos 0;
}

abbrev run : (Machine → Outcome) → Machine → (List Comment × OpResult) × Machine
run f m = let (cs, res, m') = f m in ((cs, res), m')

module _ {S : Type 0} (meta : MetadataStore S) (clock : Clock) (fold : CaseFolding) where
  open meta use {get_comments, put_comments, delete_comments}

  -- what `applyOp` stores: nothing on a failure
  unfoldable pub persist : String → List Comment → OpResult → Exec (World S) (Unit {0})
  persist slug cs res =
      if eqb res.status 200
      then (if res.wipe then stored (delete_comments slug) else stored (put_comments slug cs))
      else pure tt

  unfoldable pub apply_op : String → CommentOp → Exec (World S) MutationResult
  unfolding persist apply_comment_op
  apply_op slug op = do
    list ← stored (get_comments slug)
    (cs, res) ← computed (run (apply_comment_op clock fold list op))
    persist slug cs res
    pure (record { status = res.status; body = res.body })

  unfoldable pub mutate : Option Error → String → CommentOp → Exec (World S) MutationResult
  unfolding with_lock apply_op
  mutate ctx slug op = with_lock ctx (apply_op slug op)

  abbrev migrated : List Comment → Machine → List Comment × Machine
  migrated cs m = let (cs', _, m') = ensure_migrated clock cs m in (cs', m')

  unfoldable pub read : Option Error → String → Exec (World S) (List Comment)
  unfolding with_lock ensure_migrated
  read ctx slug = with_lock ctx (do list ← stored (get_comments slug); computed (migrated list))

  folded : List Comment → ℤ → Machine → List CommentSnapshot × Machine
  unfolding history_list snapshot_list
  folded cs version m =
      let (snaps, _, m') =
        if eqb_ℤ version version_latest
        then history_list clock cs m
        else snapshot_list clock cs version m in
      (snaps, m')

  unfoldable pub list : Option Error → String → ℤ → Exec (World S) (List CommentSnapshot)
  unfolding read folded
  list ctx slug version = do cs ← read ctx slug; computed (folded cs version)

  now : Exec (World S) String
  now = computed (read_iso clock)

  unfoldable pub create_comment :
      String
      → Option Error
      → String
      → Option Author
      → String
      → Option Anchor
      → ℤ
      → Exec (World S) MutationResult
  unfolding mutate now new_comment_id
  create_comment random ctx slug author text anchor version = do
    at ← now
    mutate ctx slug (record zero_op {
      kind = create;
      id = new_comment_id random at;
      author = author;
      text = text;
      anchor = anchor;
      version = version;
      at = at;
    })

  unfoldable pub reply_to :
      String
      → Option Error
      → String
      → String
      → Option Author
      → String
      → ℤ
      → Exec (World S) MutationResult
  unfolding mutate now new_reply_id
  reply_to random ctx slug parent_id author text version = do
    at ← now
    mutate ctx slug (record zero_op {
      kind = reply;
      parent_id = parent_id;
      reply_id = new_reply_id random at;
      author = author;
      text = text;
      version = version;
      at = at;
    })

  unfoldable pub react_to :
      Option Error → String → String → String → String → ℤ → Exec (World S) MutationResult
  unfolding mutate now
  react_to ctx slug comment_id emoji by version = do
    at ← now
    mutate ctx slug (record zero_op {
      kind = react;
      comment_id = comment_id;
      emoji = emoji;
      by = by;
      version = version;
      at = at;
    })

  unfoldable pub reanchor :
      Option Error → String → String → Option Anchor → ℤ → String → Exec (World S) MutationResult
  unfolding mutate now
  reanchor ctx slug id anchor version actor = do
    at ← now
    mutate ctx slug (record zero_op {
      kind = patch_anchor;
      id = id;
      anchor = anchor;
      reset_status = true;
      version = version;
      actor = actor;
      at = at;
    })

  unfoldable pub remove :
      Option Error → String → String → ℤ → String → Exec (World S) MutationResult
  unfolding mutate now
  remove ctx slug id version actor = do
    at ← now
    mutate ctx slug
        (record zero_op { kind = delete; id = id; version = version; actor = actor; at = at })

  unfoldable pub append_raw :
      Option Error
      → String
      → String
      → List CommentEvent
      → Option String
      → Exec (World S) MutationResult
  unfolding mutate now
  append_raw ctx slug id events response_body = do
    at ← now
    mutate ctx slug (record zero_op {
      kind = raw_events;
      id = id;
      events = events;
      response_body = response_body;
      at = at;
    })

  wipe_op : Exec (World S) CommentOp
  unfolding now
  wipe_op = do at ← now; pure (record zero_op { kind = wipe; at = at })

  unfoldable pub wipe_all : Option Error → String → Exec (World S) MutationResult
  unfolding mutate wipe_op
  wipe_all ctx slug = do op ← wipe_op; mutate ctx slug op

  unfoldable pub wipe_locked : String → Exec (World S) MutationResult
  unfolding apply_op wipe_op
  wipe_locked slug = do op ← wipe_op; apply_op slug op

  unfoldable pub publish_merge_locked :
      String → List Comment → List StampedArtifact → ℤ → Exec (World S) MutationResult
  unfolding apply_op now
  publish_merge_locked slug local aids version = do
    at ← now
    apply_op slug (record zero_op {
      kind = publish_merge;
      local_comments = local;
      aids = aids;
      version = version;
      at = at;
    })
