-- ===== src/Service/Docs/Promotion.antt =====
-- `promote`: a version that was published is reported, whatever happens to the draft behind it.
use octo_doc.Base.{String, [], none, some, ◌≡◌, ◌∙◌, ap}
use octo_doc.Base.Int.{pos}
use octo_doc.Platform.Exec.{ok, Exec, pure, then_on, ◌>>◌, attempt}
use octo_doc.Core.Runtime.{Clock}
use octo_doc.Core.Reconcile.{CaseFolding}
use octo_doc.Storage.Backend.{MetadataStore, BlobStore}
use octo_doc.Service.World.{World, stored}
use octo_doc.Service.Records.{Config, PublishInput, PublishResult}
use octo_doc.Service.Docs.{publish_locked, clear_draft_meta, promote, promote_html}

-- the request that publishes a draft
abbrev pub draft_input : String → String → String → PublishInput
draft_input slug html title = record {
  slug = slug;
  html = html;
  version = pos 0;
  title = title;
  local_comments = [];
}

module _ {S : Type 0} (meta : MetadataStore S) (blobs : BlobStore S) (clock : Clock)
    (fold : CaseFolding) (config : Config) where
  -- what `promote_html` does behind the publication
  abbrev cleanup : String → PublishResult → Exec (World S) PublishResult
  cleanup slug result = do
    attempt (stored (blobs.delete_draft slug))
    attempt (clear_draft_meta meta blobs clock fold config slug)
    pure result

  promote_html-ok :
      (slug title html : String) (w w' : World S) (r : PublishResult)
      → publish_locked meta blobs clock fold config
          (draft_input slug html title)
          (config.stamp_aids html)
          w
        ≡ (ok r, w')
      → (promote_html meta blobs clock fold config slug title (some html) w).0 ≡ ok r
  unfolding promote_html
  promote_html-ok slug title html w w' r h = ap (λ p. (then_on (cleanup slug) p).0) h

  -- Over any backend: where there is a draft and its publication succeeds, promoting the draft
  -- returns the result of the publication, whether or not the draft and its marker can be cleared.
  pub promote-ok :
      (slug title html : String) (w w' : World S) (s : S) (r : PublishResult)
      → blobs.get_draft slug w.store ≡ (ok (some html), s)
      → publish_locked meta blobs clock fold config
          (draft_input slug html title)
          (config.stamp_aids html)
          (record w { store = s })
        ≡ (ok r, w')
      → (promote meta blobs clock fold config none slug title w).0 ≡ ok r
  unfolding promote
  promote-ok slug title html w w' s r g h =
      ap
        (λ p.
          (then_on (promote_html meta blobs clock fold config slug title)
            (p.0, record w { store = p.1 })).0)
        g
      ∙ promote_html-ok slug title html (record w { store = s }) w' r h
