-- ===== src/Core/Types.antt =====
-- internal/core/types.go: the domain types. A pointer is an `Option`, "" is an absent text as in
-- the source, an `int` is a ℤ. The `Kind` texts are enumerations, with `other` for any other text.
use octo_doc.Base.{String, Bool, List, Option, none}
use octo_doc.Base.Int.{ℤ, pos}
use octo_doc.Base.Dict.{Dict}

-- `AgentStatus` is a text in the source too; "" stands for no verdict.
abbrev pub AgentStatus : Type 0
AgentStatus = String

pub record Author : Type 0 where
  pub login : String
  pub name : String
  pub avatar_url : Option String
  pub kind : String

-- `ratio` is a JSON number that the program only copies: its text.
pub record AnchorFallback : Type 0 where
  pub nearest_heading : Option String
  pub ratio : Option String

pub record AnchorFingerprint : Type 0 where
  pub tag : String

pub data AnchorKind : Type 0 where
  text element lost : AnchorKind
  other : String → AnchorKind

pub record Anchor : Type 0 where
  pub kind : AnchorKind
  pub text : String
  pub context_before : String
  pub context_after : String
  pub aid : String
  pub selector : String
  pub label : String
  pub reason : String
  pub fingerprint : Option AnchorFingerprint
  pub fallback : Option AnchorFallback

pub record ReplySeed : Type 0 where
  pub id : String
  pub author : Option Author
  pub text : String
  pub agent_status : AgentStatus

pub data EventKind : Type 0 where
  created text_edited anchor_changed : EventKind
  marked_applied marked_open deleted : EventKind
  reaction_added reaction_removed : EventKind
  reply_added reply_text_edited reply_deleted : EventKind
  reply_reaction_added reply_reaction_removed : EventKind
  other : String → EventKind

pub record CommentEvent : Type 0 where
  pub kind : EventKind
  pub eid : String
  pub at_version : ℤ
  pub at : String
  pub anchor : Option Anchor
  pub reset_status : Option Bool
  pub text : String
  pub applied_in : Option ℤ
  pub by : String
  pub agent_status : AgentStatus
  pub emoji : String
  pub reply : Option ReplySeed
  pub reply_id : String

-- Go's zero value, from which the composite literals of the source start.
abbrev pub zero_event : CommentEvent
zero_event = record {
  kind = EventKind.other "";
  eid = "";
  at_version = pos 0;
  at = "";
  anchor = none;
  reset_status = none;
  text = "";
  applied_in = none;
  by = "";
  agent_status = "";
  emoji = "";
  reply = none;
  reply_id = "";
}

-- Reactions: emoji to the logins that reacted.
abbrev pub Reactions : Type 0
Reactions = Dict (List String)

-- A legacy reply as `json.Unmarshal` reads it.
pub record RawReply : Type 0 where
  pub id : String
  pub author : Option Author
  pub text : String
  pub agent_status : AgentStatus
  pub version : Option ℤ
  pub created : String
  pub reactions : Reactions

-- `events` is `none` for Go's nil slice. A legacy reply that `json.Unmarshal` refuses is `none`.
pub record Comment : Type 0 where
  pub id : String
  pub author : Option Author
  pub created : String
  pub created_in : ℤ
  pub events : Option (List CommentEvent)
  pub version : Option ℤ
  pub anchor : Option Anchor
  pub text : Option String
  pub status : String
  pub applied_in : Option ℤ
  pub replies : List (Option RawReply)
  pub reactions : Reactions

-- The source writes "open" and "applied" alone into a snapshot's status.
pub data Status : Type 0 where
  unresolved applied : Status

pub record ReplySnapshot : Type 0 where
  pub id : String
  pub parent_id : String
  pub author : Option Author
  pub text : String
  pub agent_status : Option AgentStatus
  pub created : String
  pub reactions : Reactions
  pub deleted : Bool

pub record CommentSnapshot : Type 0 where
  pub id : String
  pub author : Option Author
  pub created : String
  pub created_in : ℤ
  pub version : ℤ
  pub anchor : Option Anchor
  pub text : String
  pub status : Status
  pub applied_in : Option ℤ
  pub replies : List ReplySnapshot
  pub reactions : Reactions
  pub deleted : Bool

pub record StampedArtifact : Type 0 where
  pub aid : String
  pub tag : String
  pub head : String
  pub heading : Option String
