-- ===== src/Examples/Service.antt =====
-- A document with a version and a draft, published again, promoted and removed.
use octo_doc.Base.{
  String, false, ◌⊎◌, ◌-◌, ◌^◌, inr, true, List, ◌∷◌, [], none, some, ◌≡◌, refl, ap, ◌==◌, arith,
}
use octo_doc.Base.Int.{pos, negsuc}
use octo_doc.Base.Dict.{lookup, insert}
use octo_doc.Base.Text.{nul_key, nul_prefix, strip_prefix}
use octo_doc.Platform.Exec.{ok}
use octo_doc.Core.Types.{Comment, EventKind, zero_event}
use octo_doc.Service.Numbering.{next}
use octo_doc.Core.Reconcile.{CaseFolding}
use octo_doc.Core.Events.{with_eid}
use octo_doc.Core.Legacy.{ensure_migrated}
use octo_doc.Core.Requests.{CommentOp, delete, error}
use octo_doc.Storage.Types.{VersionRef}
use octo_doc.Storage.Decimal.{itoa, atoi}
use octo_doc.Storage.Memory.{
  get_comments, put_comments, Store, empty, put_doc, put_draft, get_doc, get_draft, list_versions,
  blob_key,
}
use octo_doc.Storage.Memory.Instance.{memory_meta, memory_blobs}
use octo_doc.Service.World.{World}
use octo_doc.Service.Records.{Config, PublishInput, PublishResult}
use octo_doc.Service.Docs.{resolve_version, publish_locked}
use octo_doc.Service.Comments.{zero_op, apply_op}
use octo_doc.Service.Comments.Missing.{has_target, missing_code, answers_with, apply_op-missing}
use octo_doc.Service.Docs.Promotion.{draft_input}
use octo_doc.Service.Docs.Publication.{publish_locked_contract}
use octo_doc.Service.Docs.Versions.{IsNumbered, next_number, chosen_version, resolve_version-fresh}
use octo_doc.Examples.Core.{clock, machine, comment}

abbrev folding : CaseFolding
folding = record { to_lower = λ s. s; equal_fold = λ s t. s == t }

abbrev config : Config
config = record {
  base_url = "https://docs";
  max_bytes = 1000;
  stamp_aids = λ html. record { html = html; aids = [] };
}

abbrev world : World Store
world = record {
  store = (put_draft "guide" "<b>" (put_doc "guide" (pos 1) "<p>" empty).1).1;
  machine = machine;
}

abbrev input : PublishInput
input = draft_input "guide" "<b>" "Guide"

next_number_lem : next_number "guide" world.store ≡ 2
unfolding list_versions put_draft put_doc insert empty nul_key itoa strip_prefix nul_prefix atoi
next_number_lem = refl

two_fits : IsNumbered "guide" world.store
two_fits = omega (arith, next_number_lem)

publish_locked_contract_example :
    (r : PublishResult) × (w' : World Store) × (publish_locked
        (memory_meta 0)
        memory_blobs
        clock
        folding
        config
        input
        (config.stamp_aids "<b>")
        world
      ≡ (ok r, w'))
    × (r.version ≡ chosen_version "guide" (pos 0) world.store)
    × (w'.store.blobs
        ≡ insert
            (blob_key "guide" (chosen_version "guide" (pos 0) world.store))
            "<b>"
            world.store.blobs)
publish_locked_contract_example =
    publish_locked_contract 0 clock folding config input (config.stamp_aids "<b>") world
      (inr two_fits)

resolve_version-fresh_example :
    (resolve_version (memory_meta 0) memory_blobs clock folding config "guide" (pos 0) world
      ≡ (ok (pos (next_number "guide" world.store)), world))
    × (get_doc "guide" (pos (next_number "guide" world.store)) world.store ≡ none)
resolve_version-fresh_example =
    resolve_version-fresh 0 clock folding config "guide" (pos 0) world refl two_fits

draft_there : get_draft "guide" world.store ≡ some "<b>"
unfolding get_draft put_draft put_doc lookup insert empty nul_key itoa
draft_there = refl

abbrev result : PublishResult
result =
    (publish_locked_contract 0 clock folding config input (config.stamp_aids "<b>") world
      (inr two_fits)).0

abbrev after : World Store
after =
    (publish_locked_contract 0 clock folding config input (config.stamp_aids "<b>") world
      (inr two_fits)).1

abbrev refs : List VersionRef
refs = record { n = pos 2; created = none } ∷ record { n = pos 1; created = none } ∷ []

-- a comment with a reply, in the store
abbrev replied_to : Comment
replied_to = record comment {
  events = some (
      record zero_event {
        kind = EventKind.reply_added;
        eid = "e1";
        reply = some (record { id = "r1"; author = none; text = "yes"; agent_status = "" });
      }
      ∷ []);
}

abbrev discussed : World Store
discussed = record { store = put_comments "guide" (replied_to ∷ []) empty; machine = machine }

abbrev removal : String → CommentOp
removal id = record zero_op { kind = delete; id = id }

comments_there : get_comments "guide" discussed.store ≡ replied_to ∷ []
unfolding get_comments put_comments lookup insert empty
comments_there = refl

apply_op-missing_example :
    ((has_target delete (ensure_migrated clock (replied_to ∷ []) machine).0 (removal "r9") ≡ false)
      × ((apply_op (memory_meta 0) clock folding "guide" (removal "r9") discussed).0
          ≡ ok (record { status = 404; body = error (missing_code delete) }))
      × ((apply_op (memory_meta 0) clock folding "guide" (removal "r9") discussed).1.store
          ≡ discussed.store))
    ⊎ ((has_target delete (ensure_migrated clock (replied_to ∷ []) machine).0 (removal "r9") ≡ true)
        × (answers_with
              (missing_code delete)
              (apply_op (memory_meta 0) clock folding "guide" (removal "r9") discussed).0
            ≡ false))
apply_op-missing_example =
    apply_op-missing clock folding (memory_meta 0) "guide" (removal "r9") discussed
      (replied_to ∷ []) discussed.store (ap (λ cs. (ok cs, discussed.store)) comments_there)

r9_is_missing :
    has_target delete (ensure_migrated clock (replied_to ∷ []) machine).0 (removal "r9") ≡ false
unfolding ensure_migrated with_eid
r9_is_missing = refl

r1_is_there :
    has_target delete (ensure_migrated clock (replied_to ∷ []) machine).0 (removal "r1") ≡ true
unfolding ensure_migrated with_eid
r1_is_there = refl

-- Behind the greatest 64-bit integer comes the least one.
next_wraps : next (pos (2 ^ 63 - 1)) ≡ negsuc (2 ^ 63 - 1)
unfolding next
next_wraps = refl
