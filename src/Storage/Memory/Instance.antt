-- ===== src/Storage/Memory/Instance.antt =====
-- The in-memory store as the two interfaces. `now` is the time in milliseconds at which sessions
-- are read and written. No operation fails.
use octo_doc.Base.{ℕ, List, [], ◌∷◌}
use octo_doc.Base.Int.{ℤ, pos}
use octo_doc.Platform.Exec.{Exec, ok}
use octo_doc.Storage.Backend.{MetadataStore, BlobStore}
use octo_doc.Storage.Memory
use octo_doc.Storage.Memory.{Store}

abbrev reads : {A : Type 0} → (Store → A) → Exec Store A
reads f s = (ok (f s), s)

abbrev writes : (Store → Store) → Exec Store (Unit {0})
writes f s = (ok tt, f s)

abbrev both : {A : Type 0} → (Store → A × Store) → Exec Store A
both f s = let (a, s') = f s in (ok a, s')

abbrev pub ints : List ℕ → List ℤ
ints [] = []
ints (n ∷ ns) = pos n ∷ ints ns

abbrev pub memory_meta : ℕ → MetadataStore Store
memory_meta now = record {
  get_meta = λ slug. reads (Memory.get_meta slug);
  put_meta = λ slug m. writes (Memory.put_meta slug m);
  delete_meta = λ slug. writes (Memory.delete_meta slug);
  list_meta = reads Memory.list_meta;
  get_comments = λ slug. reads (Memory.get_comments slug);
  put_comments = λ slug cs. writes (Memory.put_comments slug cs);
  delete_comments = λ slug. writes (Memory.delete_comments slug);
  get_session = λ sid. both (Memory.get_session now sid);
  put_session = λ sid session ttl. writes (Memory.put_session now sid session ttl);
  delete_session = λ sid. writes (Memory.delete_session sid);
  get_token = λ token. reads (Memory.get_token token);
  put_token = λ token rec. writes (Memory.put_token token rec);
  any_token = reads Memory.any_token;
  put_asset_meta = λ m. writes (Memory.put_asset_meta m);
  get_asset_meta = λ slug sha. reads (Memory.get_asset_meta slug sha);
  list_asset_meta = λ slug. reads (Memory.list_asset_meta slug);
  delete_asset_meta = λ slug sha. writes (Memory.delete_asset_meta slug sha);
  list_asset_slugs = reads Memory.list_asset_slugs;
}

abbrev pub memory_blobs : BlobStore Store
memory_blobs = record {
  put_doc = λ slug v html. both (Memory.put_doc slug v html);
  get_doc = λ slug v. reads (Memory.get_doc slug v);
  head_doc = λ slug v. reads (Memory.head_doc slug v);
  list_versions = λ slug. reads (λ s. ints (Memory.list_versions slug s));
  delete_doc = λ slug. writes (Memory.delete_doc slug);
  put_draft = λ slug html. both (Memory.put_draft slug html);
  get_draft = λ slug. reads (Memory.get_draft slug);
  delete_draft = λ slug. writes (Memory.delete_draft slug);
  put_asset = λ slug sha bytes. writes (Memory.put_asset slug sha bytes);
  get_asset = λ slug sha. reads (Memory.get_asset slug sha);
  delete_asset = λ slug sha. writes (Memory.delete_asset slug sha);
}
