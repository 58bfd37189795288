-- ===== src/Service/Comments/Missing.antt =====
-- Operations whose target is missing, and those whose target is there.
use octo_doc.Base.{
  refl, ◌||◌, String, Bool, true, false, List, Option, none, some, ◌≡◌, ◌∙◌, ◌⊎◌, ap, sym, ◌==◌,
  arith, inl, inr, Bool-cases,
}
use octo_doc.Platform.Exec.{Exec, Result, ok, err, then_on, then_on-ok, ◌>>=◌, ◌>>◌, pure}
use octo_doc.Core.Types.{Comment, CommentSnapshot}
use octo_doc.Core.Runtime.{Clock, Machine}
use octo_doc.Core.Fold.{snapshot_at}
use octo_doc.Core.Legacy.{ensure_migrated}
use octo_doc.Core.Reconcile.{CaseFolding}
use octo_doc.Core.Requests.{
  Body, error, not_found, CommentOp, OpKind, create, reply, patch_anchor, react, delete, raw_events,
  wipe, publish_merge,
}
use octo_doc.Core.Ops.{
  op_react, op_delete, op_reply, op_patch_anchor, op_raw_events, dispatch, apply_comment_op,
  op_create, op_publish_merge, react_host, react_seen, react_answer,
}
use octo_doc.Storage.Backend.{MetadataStore}
use octo_doc.Service.World.{World, computed}
use octo_doc.Service.Comments.{MutationResult, apply_op, persist, run}
use octo_doc.Core.Requests.Search.{
  has_comment, has_reply, find_by_id-absent, find_by_id-present, find_host-absent,
  find_host-present,
}

-- whether the list has what an operation names: the comment that is replied to, moved or appended to,
-- the comment or the reply that is reacted to or removed
abbrev pub has_target : OpKind → List Comment → CommentOp → Bool
has_target reply cs op = has_comment op.parent_id cs
has_target patch_anchor cs op = has_comment op.id cs
has_target raw_events cs op = has_comment op.id cs
has_target react cs op = has_comment op.comment_id cs || has_reply op.comment_id cs
has_target delete cs op = has_comment op.id cs || has_reply op.id cs
has_target _ cs op = true

-- the code of the answer where the target is missing
abbrev pub missing_code : OpKind → String
missing_code reply = "parent_not_found"
missing_code _ = "not_found"

abbrev pub is_error : String → Body → Bool
is_error code (error c) = c == code
is_error code _ = false

-- whether an answer is the error with the code
abbrev pub answers_with : String → Result MutationResult → Bool
answers_with code (ok r) = is_error code r.body
answers_with code (err e) = false

module _ (clock : Clock) (fold : CaseFolding) where
  dispatch-missing :
      (k : OpKind) (cs : List Comment) (op : CommentOp) (now : String) (m : Machine)
      → has_target k cs op ≡ false
      → dispatch clock fold k cs op now m ≡ (cs, not_found (missing_code k), m)
  unfolding dispatch op_react op_delete op_reply op_patch_anchor op_raw_events
  dispatch-missing reply cs op now m h = rw (find_by_id-absent op.parent_id cs h, op_reply) refl
  dispatch-missing patch_anchor cs op now m h =
      rw (find_by_id-absent op.id cs h, op_patch_anchor) refl
  dispatch-missing raw_events cs op now m h = rw (find_by_id-absent op.id cs h, op_raw_events) refl
  dispatch-missing react cs op now m h = rw (find_host-absent op.comment_id cs h, op_react) refl
  dispatch-missing delete cs op now m h = rw (find_host-absent op.id cs h, op_delete) refl
  dispatch-missing create cs op now m h = cc
  dispatch-missing wipe cs op now m h = cc
  dispatch-missing publish_merge cs op now m h = cc
  dispatch-missing (OpKind.other s) cs op now m h = cc

  react_answer-answers :
      (answered : Option CommentSnapshot × Comment × Machine) (reply_id : String)
      → is_error "not_found" (react_answer answered reply_id).1.body ≡ false
  unfolding react_answer
  react_answer-answers (none, c, m) reply_id = refl
  react_answer-answers (some s, c, m) reply_id = refl

  react_seen-answers :
      (seen : Option CommentSnapshot × Comment × Machine) (reply_id now : String) (op : CommentOp)
      → is_error "not_found" (react_seen clock seen reply_id op now).1.body ≡ false
  unfolding react_seen
  react_seen-answers (none, c, m) reply_id now op = refl
  react_seen-answers (some s, c, m) reply_id now op = react_answer-answers _ reply_id

  react_host-answers :
      (c : Comment) (reply_id : String) (op : CommentOp) (now : String) (m : Machine)
      → is_error "not_found" (react_host clock c reply_id op now m).1.body ≡ false
  unfolding react_host
  react_host-answers c reply_id op now m =
      react_seen-answers (snapshot_at clock c op.version m) reply_id now op

  dispatch-present :
      (k : OpKind) (cs : List Comment) (op : CommentOp) (now : String) (m : Machine)
      → has_target k cs op ≡ true
      → is_error (missing_code k) (dispatch clock fold k cs op now m).1.body ≡ false
  unfolding dispatch op_react op_delete op_reply op_patch_anchor op_raw_events op_create
      op_publish_merge
  dispatch-present reply cs op now m h =
      let (i, c, p, g) = find_by_id-present op.parent_id cs h in rw (p, is_error, op_reply) refl
  dispatch-present patch_anchor cs op now m h =
      let (i, c, p, g) = find_by_id-present op.id cs h in rw (p, is_error, op_patch_anchor) refl
  dispatch-present raw_events cs op now m h =
      let (i, c, p, g) = find_by_id-present op.id cs h in
      rw (p, is_error, op_raw_events) (ground arith)
  dispatch-present react cs op now m h =
      let (i, r, c, p, g) = find_host-present op.comment_id cs h in
      rw (p, g, is_error, op_react)
        (react_host-answers c (elim r [ none ↦ "" | some _ ↦ op.comment_id ]) op now m)
  dispatch-present delete cs op now m h =
      let (i, r, c, p, g) = find_host-present op.id cs h in rw (p, is_error, op_delete) refl
  dispatch-present create cs op now m h = refl
  dispatch-present wipe cs op now m h = refl
  dispatch-present publish_merge cs op now m h = refl
  dispatch-present (OpKind.other s) cs op now m h = refl

  module _ (cs : List Comment) (op : CommentOp) (m : Machine) where
    apply_comment_op-missing :
        has_target op.kind (ensure_migrated clock cs m).0 op ≡ false
        → (apply_comment_op clock fold cs op m).1 ≡ not_found (missing_code op.kind)
    unfolding apply_comment_op
    apply_comment_op-missing h = elim (Bool-cases (op.at == "")) [
      | inl p ↦ rw (p, apply_comment_op) (ap (λ r. r.1) (dispatch-missing op.kind _ op _ _ h))
      | inr p ↦ rw (p, apply_comment_op) (ap (λ r. r.1) (dispatch-missing op.kind _ op _ _ h))
    ]

    apply_comment_op-present :
        has_target op.kind (ensure_migrated clock cs m).0 op ≡ true
        → is_error (missing_code op.kind) (apply_comment_op clock fold cs op m).1.body ≡ false
    unfolding apply_comment_op
    apply_comment_op-present h = elim (Bool-cases (op.at == "")) [
      | inl p ↦ rw (p, apply_comment_op) (dispatch-present op.kind _ op _ _ h)
      | inr p ↦ rw (p, apply_comment_op) (dispatch-present op.kind _ op _ _ h)
    ]

  module _ {S : Type 0} (meta : MetadataStore S) where
    -- `apply_op` behind the read of the comments
    abbrev on_comments : String → CommentOp → List Comment → Exec (World S) MutationResult
    on_comments slug op cs = do
      (cs', res) ← computed (run (apply_comment_op clock fold cs op))
      persist meta clock fold slug cs' res
      pure (record { status = res.status; body = res.body })

    apply_op-read :
        (slug : String) (op : CommentOp) (w : World S) (cs : List Comment) (s : S)
        → meta.get_comments slug w.store ≡ (ok cs, s)
        → apply_op meta clock fold slug op w ≡ on_comments slug op cs (record w { store = s })
    unfolding apply_op
    apply_op-read slug op w cs s g =
        ap (λ p. then_on (on_comments slug op) (p.0, record w { store = p.1 })) g

    on_comments-missing :
        (slug : String) (op : CommentOp) (cs : List Comment) (w : World S)
        → has_target op.kind (ensure_migrated clock cs w.machine).0 op ≡ false
        → on_comments slug op cs w ≡ (
          ok (record { status = 404; body = error (missing_code op.kind) }),
          record w { machine = (apply_comment_op clock fold cs op w.machine).2 },
        )
    unfolding persist
    on_comments-missing slug op cs w h =
        let r = apply_comment_op clock fold cs op w.machine in
        ap
          (λ res.
            (persist meta clock fold slug r.0 res
                >> pure (record { status = res.status; body = res.body }))
              (record w { machine = r.2 }))
          (apply_comment_op-missing cs op w.machine h)

    on_comments-present :
        (slug : String) (op : CommentOp) (cs : List Comment) (w w' : World S) (r : MutationResult)
        → has_target op.kind (ensure_migrated clock cs w.machine).0 op ≡ true
        → on_comments slug op cs w ≡ (ok r, w')
        → is_error (missing_code op.kind) r.body ≡ false
    on_comments-present slug op cs w w' r h e =
        let (cs', res, m') = apply_comment_op clock fold cs op w.machine in
        let (u, w₁, stored_there, rest) =
          then_on-ok (persist meta clock fold slug cs' res (record w { machine = m' })) _ r w' e in
        ap (λ p. answers_with (missing_code op.kind) p.0) (sym rest)
        ∙ apply_comment_op-present cs op w.machine h

    on_comments-answers :
        (slug : String) (op : CommentOp) (cs : List Comment) (w : World S)
        (out : Result MutationResult × World S)
        → has_target op.kind (ensure_migrated clock cs w.machine).0 op ≡ true
        → on_comments slug op cs w ≡ out
        → answers_with (missing_code op.kind) out.0 ≡ false
    on_comments-answers slug op cs w (ok r, w') h e = on_comments-present slug op cs w w' r h e
    on_comments-answers slug op cs w (err x, w') h e = refl

    -- Over any backend, where the comments of a slug can be read: either the migrated comments do not
    -- have the comment or the reply that the operation names, the answer is 404 with the code
    -- "parent_not_found" for a reply and "not_found" otherwise, and nothing is written; or they have
    -- it, or the operation names none, and there is no answer with that code. A reply is there if an
    -- event of a log added it.
    pub apply_op-missing :
        (slug : String) (op : CommentOp) (w : World S) (cs : List Comment) (s : S)
        → meta.get_comments slug w.store ≡ (ok cs, s)
        → ((has_target op.kind (ensure_migrated clock cs w.machine).0 op ≡ false)
            × ((apply_op meta clock fold slug op w).0
                ≡ ok (record { status = 404; body = error (missing_code op.kind) }))
            × ((apply_op meta clock fold slug op w).1.store ≡ s))
          ⊎ ((has_target op.kind (ensure_migrated clock cs w.machine).0 op ≡ true)
              × (answers_with (missing_code op.kind) (apply_op meta clock fold slug op w).0
                  ≡ false))
    apply_op-missing slug op w cs s g =
        let read = apply_op-read slug op w cs s g in
        elim (Bool-cases (has_target op.kind (ensure_migrated clock cs w.machine).0 op)) [
          | inl h ↦ inr (h, on_comments-answers slug op cs (record w { store = s }) _ h (sym read))
          | inr h ↦
              let e = read ∙ on_comments-missing slug op cs (record w { store = s }) h in
              inl (h, ap (λ r. r.0) e, ap (λ r. r.1.store) e)
        ]
