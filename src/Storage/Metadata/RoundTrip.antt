-- ===== src/Storage/Metadata/RoundTrip.antt =====
-- Metadata that is written and read back.
use octo_doc.Base.{String, false, [], ◌∷◌, none, some, ◌≡◌, ◌∙◌, refl, ap, ◌==◌, eq_iff, arith}
use octo_doc.Base.Dict.{Dict, lookup, insert, delete, lookup-insert}
use octo_doc.Storage.Types.{Json, DocMeta}
use octo_doc.Storage.Metadata.{Codec, marshal_json, unmarshal_json, extra_of}

module _ {V : Type 0} where
  delete-absent : (k : String) (m : Dict V) → lookup k m ≡ none → delete k m ≡ m
  unfolding lookup delete
  delete-absent k [] h = refl
  delete-absent k ((j, v) ∷ m) h = ground (arith, delete-absent k m)

  delete-insert_self :
      (k : String) (v : V) (m : Dict V) → lookup k m ≡ none → delete k (insert k v m) ≡ m
  unfolding lookup delete insert
  delete-insert_self k v [] h = ground (arith, eq_iff k k)
  delete-insert_self k v ((j, w) ∷ m) h = ground (arith, delete-insert_self k v m)

  delete-insert_other :
      (k j : String) (v : V) (m : Dict V)
      → (j == k) ≡ false
      → delete k (insert j v m) ≡ insert j v (delete k m)
  unfolding delete insert
  delete-insert_other k j v [] h = ground arith
  delete-insert_other k j v ((i, w) ∷ m) h =
      ground (arith, eq_iff i j, eq_iff i k, eq_iff j k, delete-insert_other k j v m)

extra_of-empty : (codec : Codec) (extra : Dict Json) → extra_of codec [] extra ≡ extra
unfolding extra_of
extra_of-empty codec [] = refl
extra_of-empty codec (f ∷ fs) = refl

-- No further field has the name of a known one.
abbrev pub IsFurther : Dict Json → Type 0
IsFurther extra =
    (lookup "slug" extra ≡ none) × (lookup "title" extra ≡ none) × (lookup "versions" extra ≡ none)

-- Metadata that is written as an object and read back into an empty record is the same, where none of
-- its further fields has the name of a known one, and its list of versions is read back from what is
-- written of it.
pub unmarshal_json-marshal_json :
    (codec : Codec) (m : DocMeta)
    → codec.decode_versions (codec.encode_versions m.versions) ≡ some m.versions
    → IsFurther m.extra
    → unmarshal_json codec
        (marshal_json codec m)
        (record { slug = ""; title = ""; versions = []; extra = [] })
      ≡ some m
unfolding unmarshal_json marshal_json
unmarshal_json-marshal_json codec m codes (no_slug, no_title, no_versions) =
    let slug = Json.text m.slug in
    let title = Json.text m.title in
    let versions = codec.encode_versions m.versions in
    let one = insert "slug" slug m.extra in
    let two = insert "title" title one in
    let three = insert "versions" versions two in
    let slug_is : lookup "slug" three ≡ some slug =
      lookup-insert "versions" "slug" versions two
      ∙ (lookup-insert "title" "slug" title one ∙ lookup-insert "slug" "slug" slug m.extra) in
    let title_is : lookup "title" three ≡ some title =
      lookup-insert "versions" "title" versions two ∙ lookup-insert "title" "title" title one in
    let versions_is : lookup "versions" three ≡ some versions =
      lookup-insert "versions" "versions" versions two in
    let without_slug : delete "slug" three
        ≡ insert "versions" versions (insert "title" title m.extra) =
      delete-insert_other "slug" "versions" versions two refl
      ∙ ap (insert "versions" versions) (
          delete-insert_other "slug" "title" title one refl
          ∙ ap (insert "title" title) (delete-insert_self "slug" slug m.extra no_slug)) in
    let without_title : delete "title" (insert "versions" versions (insert "title" title m.extra))
        ≡ insert "versions" versions m.extra =
      delete-insert_other "title" "versions" versions (insert "title" title m.extra) refl
      ∙ ap (insert "versions" versions) (delete-insert_self "title" title m.extra no_title) in
    let further : delete "versions" (delete "title" (delete "slug" three)) ≡ m.extra =
      ap (λ d. delete "versions" (delete "title" d)) without_slug
      ∙ (ap (delete "versions") without_title
          ∙ delete-insert_self "versions" versions m.extra no_versions) in
    rw (slug_is, title_is, versions_is, codes, further)
      (ap (λ e. some (record m { extra = e })) (extra_of-empty codec m.extra))
