-- ===== src/Service/Assets/Uploads.antt =====
-- internal/service/asset.go: what `Put` accepts, and what `Get` then returns.
use Prim.Native.String.{count}
use octo_doc.Base.{
  ℕ, ◌+◌, String, Bool, true, false, not, Option, none, some, ◌≡◌, ◌∙◌, refl, ap, inl, inr, arith,
  ltb, eqb, member, ◌||◌, Bool-cases, if◌then◌else◌,
}
use octo_doc.Base.Slices.{take, take-whole, count-take}
use octo_doc.Platform.Exec.{Error, app, driver, err}
use octo_doc.Core.Runtime.{Clock, read_iso}
use octo_doc.Storage.Types.{AssetMeta}
use octo_doc.Storage.Backend.{MetadataStore, BlobStore}
use octo_doc.Storage.Memory.{Store, put_asset, put_asset_meta, get_asset_meta}
use octo_doc.Service.World.{World}
use octo_doc.Service.Assets.{
  too_large, empty_asset, unsupported, AssetConfig, AssetResult, content, put, put_data, result_of,
}
use octo_doc.Service.Assets.Sniffing.{sniff_mime}

-- the time of an asset's record: that of the first registration
abbrev pub created_first : Option AssetMeta → String → String
created_first none now = now
created_first (some old) now = old.created

-- the record that an upload leaves
abbrev pub record_of : Clock → AssetConfig → String → String → String → World Store → AssetMeta
record_of clock config slug bytes original_name w = record {
  slug = slug;
  sha256 = config.sha256 bytes;
  mime = sniff_mime config.texts bytes;
  size = count bytes;
  original_name = original_name;
  created =
      created_first (get_asset_meta slug (config.sha256 bytes) w.store)
        (clock.iso w.machine.readings);
}

module _ (now : ℕ) (clock : Clock) (config : AssetConfig) (slug bytes original_name : String)
    (w : World Store) where
  abbrev result : AssetResult
  result = record {
    sha256 = config.sha256 bytes;
    mime = sniff_mime config.texts bytes;
    size = count bytes;
  }

  abbrev written : World Store
  written = record {
    store =
        put_asset_meta
          (record {
            slug = slug;
            sha256 = config.sha256 bytes;
            mime = sniff_mime config.texts bytes;
            size = count bytes;
            original_name = original_name;
            created = clock.iso w.machine.readings;
          })
          (put_asset slug (config.sha256 bytes) bytes w.store);
    machine = (read_iso clock w.machine).1;
  }

-- the status of a failure that is an application error
abbrev pub status_of : Error → ℕ
status_of (app e) = e.status
status_of (driver s) = 500

-- what makes an upload unacceptable
unfoldable pub is_refused : AssetConfig → String → Bool
is_refused config whole =
    ltb config.max_bytes (count whole)
    || eqb (count whole) 0
    || not (member (sniff_mime config.texts whole) config.mime_allow)

put_data-refused :
    {S : Type 0} (meta : MetadataStore S) (blobs : BlobStore S) (clock : Clock)
    (config : AssetConfig) (cancelled : Option Error) (slug bytes original_name : String)
    (w : World S)
    → ltb config.max_bytes (count bytes) ≡ false
    → (eqb (count bytes) 0 || not (member (sniff_mime config.texts bytes) config.mime_allow)) ≡ true
    → (e : Error) × (put_data meta blobs clock config cancelled slug bytes original_name w
        ≡ (err e, w))
      × (status_of e ≡ 400)
unfolding put_data result_of empty_asset unsupported
put_data-refused meta blobs clock config cancelled slug bytes original_name w fits bad =
    elim (Bool-cases (eqb (count bytes) 0)) [
      | inl empty ↦ (app empty_asset, rw fits (rw empty refl), refl)
      | inr filled ↦
          let unknown : member (sniff_mime config.texts bytes) config.mime_allow ≡ false =
            ground arith in
          (
            app (unsupported (sniff_mime config.texts bytes)),
            rw fits (rw filled (rw unknown refl)),
            refl,
          )
    ]

-- Over any backend: an upload that is over the limit, empty, or of a type that is not allowed is
-- refused with the status 413 if it is over the limit and 400 if not, and nothing is written.
pub put-refused :
    {S : Type 0} (meta : MetadataStore S) (blobs : BlobStore S) (clock : Clock)
    (config : AssetConfig) (cancelled : Option Error) (slug whole original_name : String)
    (w : World S)
    → is_refused config whole ≡ true
    → (e : Error) × (put meta blobs clock config cancelled slug (content whole) original_name w
        ≡ (err e, w))
      × (status_of e ≡ (if ltb config.max_bytes (count whole) then 413 else 400))
unfolding put put_data is_refused too_large
put-refused {S} meta blobs clock config cancelled slug whole original_name w h =
    elim (Bool-cases (ltb config.max_bytes (count whole))) [
      | inl over ↦
          let long : ltb config.max_bytes (count (take (config.max_bytes + 1) whole)) ≡ true =
            ground (arith, count-take (config.max_bytes + 1) whole) in
          (app (too_large config.max_bytes), rw long refl, rw over refl)
      | inr fits ↦
          let whole_read : take (config.max_bytes + 1) whole ≡ whole =
            take-whole (config.max_bytes + 1) whole (ground arith) in
          let (e, refused, bad) =
            put_data-refused meta blobs clock config cancelled slug whole original_name w fits
              (ground arith) in
          (
            e,
            ap (λ b. put_data meta blobs clock config cancelled slug b original_name w) whole_read
                ∙ refused,
            rw fits bad,
          )
    ]
