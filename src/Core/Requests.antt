-- ===== src/Core/Requests.antt =====
-- internal/core/ops.go: what an operation asks and answers, and the search for its target. A pointer
-- into the list is an index.
pub mod Search
use octo_doc.Base.{
  ℕ, suc, String, Bool, true, false, ◌&&◌, List, [], ◌∷◌, Option, none, some, ◌==◌, if◌then◌else◌,
}
use octo_doc.Base.Int.{ℤ}
use octo_doc.Core.Types.{
  Author, Anchor, ReplySeed, EventKind, CommentEvent, Reactions, Comment, CommentSnapshot,
  ReplySnapshot, StampedArtifact,
}
use octo_doc.Core.Events.{events_of}

-- the bodies of results, one constructor for each shape that the source builds
pub data Body : Type 0 where
  snapshot : Option CommentSnapshot → Body
  error : String → Body
  replied : String → String → Option Author → String → String → ℤ → Body
  reactions : Reactions → Body
  done : Body
  wiped : ℕ → Body
  merged : ℕ → Body
  given : String → Body
  -- the nil dereference of a snapshot that is gone
  panic : Body

pub record OpResult : Type 0 where
  pub status : ℕ
  pub body : Body
  pub wipe : Bool

abbrev pub answer : ℕ → Body → OpResult
answer status body = record { status = status; body = body; wipe = false }

abbrev pub not_found : String → OpResult
not_found code = answer 404 (error code)

pub data OpKind : Type 0 where
  create reply patch_anchor react delete raw_events wipe publish_merge : OpKind
  other : String → OpKind

-- `response_body` is the caller's JSON text, `none` for nil.
pub record CommentOp : Type 0 where
  pub kind : OpKind
  pub at : String
  pub id : String
  pub author : Option Author
  pub text : String
  pub anchor : Option Anchor
  pub parent_id : String
  pub reply_id : String
  pub reset_status : Bool
  pub actor : String
  pub comment_id : String
  pub emoji : String
  pub by : String
  pub events : List CommentEvent
  pub response_body : Option String
  pub local_comments : List Comment
  pub aids : List StampedArtifact
  pub version : ℤ

-- `findByID`
unfoldable pub find_by_id : List Comment → String → Option ℕ
find_by_id [] id = none
find_by_id (c ∷ cs) id =
    if c.id == id then some 0 else elim (find_by_id cs id) [ none ↦ none | some i ↦ some (suc i) ]

abbrev pub is_reply_added : EventKind → Bool
is_reply_added EventKind.reply_added = true
is_reply_added _ = false

-- the seed of the first `reply_added` event of the log with that id
unfoldable pub find_seed : List CommentEvent → String → Option ReplySeed
find_seed [] id = none
find_seed (e ∷ es) id = elim e.reply [
  | none ↦ find_seed es id
  | some r ↦ if is_reply_added e.kind && r.id == id then some r else find_seed es id
]

unfoldable pub find_reply : List Comment → String → Option (ℕ × ReplySeed)
unfolding find_seed
find_reply [] id = none
find_reply (c ∷ cs) id = elim (find_seed (events_of c) id) [
  | some r ↦ some (0, r)
  | none ↦ elim (find_reply cs id) [ none ↦ none | some (i, r) ↦ some (suc i, r) ]
]

-- The index of the comment, and the reply's seed where the id names a reply.
unfoldable pub find_host : List Comment → String → Option (ℕ × Option ReplySeed)
unfolding find_by_id find_reply
find_host cs id = elim (find_by_id cs id) [
  | some i ↦ some (i, none)
  | none ↦ elim (find_reply cs id) [ none ↦ none | some (i, r) ↦ some (i, some r) ]
]

reply_reactions : List ReplySnapshot → String → Reactions
reply_reactions [] id = []
reply_reactions (r ∷ rs) id = if r.id == id then r.reactions else reply_reactions rs id

unfoldable pub reactions_of : CommentSnapshot → String → Reactions
unfolding reply_reactions
reactions_of s reply_id = if reply_id == "" then s.reactions else reply_reactions s.replies reply_id
