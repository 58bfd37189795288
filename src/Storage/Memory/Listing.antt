-- ===== src/Storage/Memory/Listing.antt =====
-- The listing of documents names every document that has a record.
use octo_doc.Base.{String, Bool, true, false, ◌||◌, List, [], ◌∷◌, some, ◌≡◌, ◌==◌, arith}
use octo_doc.Base.Dict.{Dict, lookup}
use octo_doc.Storage.Types.{DocMeta, MetaEntry}
use octo_doc.Storage.Memory.{Store, insert_entry, sort_entries, list_meta, get_meta}

abbrev pub lists : String → List MetaEntry → Bool
lists slug [] = false
lists slug (e ∷ es) = e.slug == slug || lists slug es

lists-insert_entry :
    (slug : String) (e : MetaEntry) (es : List MetaEntry)
    → lists slug (insert_entry e es) ≡ (e.slug == slug || lists slug es)
unfolding insert_entry
lists-insert_entry slug e [] = ground arith
lists-insert_entry slug e (f ∷ fs) = ground (arith, lists-insert_entry slug e fs)

lists-sort_entries :
    (slug : String) (m : DocMeta) (ms : Dict DocMeta)
    → lookup slug ms ≡ some m
    → lists slug (sort_entries ms) ≡ true
unfolding lookup sort_entries
lists-sort_entries slug m [] h = cc
lists-sort_entries slug m ((k, n) ∷ ms) h = ground (
  arith,
  lists-insert_entry slug (record { slug = k; meta = n }) (sort_entries ms),
  lists-sort_entries slug m ms,
)

pub lists-list_meta :
    (slug : String) (m : DocMeta) (s : Store)
    → get_meta slug s ≡ some m
    → lists slug (list_meta s) ≡ true
unfolding get_meta list_meta
lists-list_meta slug m s h = lists-sort_entries slug m s.meta h
