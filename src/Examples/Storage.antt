-- ===== src/Examples/Storage.antt =====
-- A store with one document.
use octo_doc.Base.{◌||◌, ◌&&◌, List, [], ◌∷◌, some, ◌≡◌, refl, ◌==◌, eqb, arith}
use octo_doc.Base.Int.{pos}
use octo_doc.Base.Dict.{lookup, insert}
use octo_doc.Base.Text.{has_nul, nul_key}
use octo_doc.Storage.Decimal.{itoa}
use octo_doc.Storage.Memory.{Store, empty, put_doc, get_doc, get_draft, get_asset, list_versions}
use octo_doc.Storage.Memory.Refinement.{
  Agrees, Write, blank, place_all, store_all, store_all-Agrees,
}
use octo_doc.Storage.Memory.Versions.{holds_version, holds_version-list_versions-put_doc}

abbrev store : Store
store = (put_doc "guide" (pos 1) "<p>" empty).1

put_doc_example :
    holds_version 2 (list_versions "guide" (put_doc "guide" (pos 2) "<b>" store).1)
    ≡ ("guide" == "guide" && eqb 2 2 || holds_version 2 (list_versions "guide" store))
unfolding has_nul
put_doc_example =
    holds_version-list_versions-put_doc "guide" "guide" 2 2 "<b>" store refl refl (omega arith)

stored_html : get_doc "guide" (pos 1) store ≡ some "<p>"
unfolding get_doc put_doc empty lookup insert nul_key itoa
stored_html = refl

abbrev writes : List Write
writes =
    Write.put_version "guide" 1 "<p>"
    ∷ Write.save "guide" "<b>"
    ∷ Write.upload "guide" "aa" "png"
    ∷ Write.put_version "notes" 1 "<i>"
    ∷ Write.discard "guide"
    ∷ Write.remove "notes"
    ∷ []

store_all-Agrees_example : Agrees "guide" 1 "aa" (place_all writes blank) (store_all writes empty)
unfolding has_nul get_doc get_draft get_asset empty lookup
store_all-Agrees_example =
    store_all-Agrees writes "guide" 1 "aa" blank empty refl (omega arith) refl
      ((refl, omega arith), (refl, (refl, ((refl, omega arith), (refl, (refl, tt))))))
      (refl, refl, refl)
