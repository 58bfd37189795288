-- ===== src/Service/Docs/Publication.antt =====
-- `publish_locked` over the store in memory: it succeeds and writes one document.
use Prim.Native.String.{len}
use octo_doc.Base.{
  ℕ, ◌⊎◌, String, Bool, true, false, List, [], ◌∷◌, ◌++◌, some, ◌≡◌, ◌∙◌, refl, ap, eq_iff, arith,
  length, eqb, if◌then◌else◌,
}
use octo_doc.Base.Int.{ℤ, pos, ltb_ℤ}
use octo_doc.Base.Dict.{insert, lookup-insert}
use octo_doc.Platform.Exec.{Exec, ok, then_on, ◌>>=◌, ◌>>◌, pure}
use octo_doc.Core.Types.{Comment, StampedArtifact}
use octo_doc.Base.Text.{concat}
use octo_doc.Core.Runtime.{itoa, Clock, read_iso, read_rfc3339}
use octo_doc.Core.Reconcile.{CaseFolding}
use octo_doc.Core.Requests.{OpResult, CommentOp, publish_merge}
use octo_doc.Core.Ops.{apply_comment_op}
use octo_doc.Storage.Types.{VersionRef}
use octo_doc.Storage.Memory.{
  Store, blob_key, put_doc, head_doc, get_meta, put_meta, get_comments, put_comments,
  delete_comments,
}
use octo_doc.Storage.Memory.Instance.{memory_meta, memory_blobs}
use octo_doc.Service.World.{World, stored}
use octo_doc.Service.Comments.{zero_op, MutationResult, persist, apply_op, publish_merge_locked}
use octo_doc.Service.Docs.Versions.{chosen_version, IsNumbered, resolve_version_lem}
use octo_doc.Service.Records.{Config, PublishInput, PublishResult, StampResult}
use octo_doc.Service.Numbering.{has_version}
use octo_doc.Service.Docs.{
  check_written, record_version, publish_version, merged_count, new_meta, with_now, published_meta,
  with_version, upsert_meta, publish_locked,
}

-- The action succeeds with a value that satisfies `Q`, and leaves the documents as they are.
abbrev pub Keeps : {A : Type 0} → (A → Type 0) → Exec (World Store) A → World Store → Type 0
Keeps {A} Q m w =
    (a : A) × (w' : World Store) × (m w ≡ (ok a, w')) × (w'.store.blobs ≡ w.store.blobs) × Q a

abbrev Any : {A : Type 0} → A → Type 0
Any a = Unit {0}

bind-Keeps :
    {A B : Type 0} (Q : B → Type 0) (m : Exec (World Store) A) (f : A → Exec (World Store) B)
    (w : World Store)
    → Keeps Any m w
    → ((a : A) (w' : World Store) → Keeps Q (f a) w')
    → Keeps Q (m >>= f) w
bind-Keeps Q m f w (a, w₁, p, q, u) h =
    let (b, w₂, p', q', g) = h a w₁ in (b, w₂, ap (then_on f) p ∙ p', q' ∙ q, g)

head_doc-put_doc :
    (slug : String) (v : ℤ) (html : String) (s : Store)
    → head_doc slug v (put_doc slug v html s).1 ≡ some (len html)
unfolding head_doc put_doc
head_doc-put_doc slug v html s = ground (
  arith,
  lookup-insert (blob_key slug v) (blob_key slug v) html s.blobs,
  eq_iff (blob_key slug v) (blob_key slug v),
)

module _ (now : ℕ) (clock : Clock) (fold : CaseFolding) where
  persist-Keeps :
      (slug : String) (cs : List Comment) (res : OpResult) (w : World Store)
      → Keeps Any (persist (memory_meta now) clock fold slug cs res) w
  unfolding persist put_comments delete_comments
  persist-Keeps slug cs res w = stores (eqb res.status 200) res.wipe
    where
      stores :
          (success wiped : Bool)
          → Keeps Any
              (if success
                then (if wiped
                    then stored ((memory_meta now).delete_comments slug)
                    else stored ((memory_meta now).put_comments slug cs))
                else pure tt)
              w
      stores true true = (tt, _, refl, refl, tt)
      stores true false = (tt, _, refl, refl, tt)
      stores false wiped = (tt, w, refl, refl, tt)

  apply_op-Keeps :
      (slug : String) (op : CommentOp) (w : World Store)
      → Keeps Any (apply_op (memory_meta now) clock fold slug op) w
  unfolding apply_op
  apply_op-Keeps slug op w =
      let r = apply_comment_op clock fold (get_comments slug w.store) op w.machine in
      let result : MutationResult = record { status = r.1.status; body = r.1.body } in
      let w₁ : World Store = record w { machine = r.2 } in
      bind-Keeps Any (persist (memory_meta now) clock fold slug r.0 r.1) (λ a. pure result) w₁
        (persist-Keeps slug r.0 r.1 w₁) (λ a w'. (result, w', refl, refl, tt))

  publish_merge_locked-Keeps :
      (slug : String) (local : List Comment) (aids : List StampedArtifact) (v : ℤ) (w : World Store)
      → Keeps Any (publish_merge_locked (memory_meta now) clock fold slug local aids v) w
  unfolding publish_merge_locked
  publish_merge_locked-Keeps slug local aids v w =
      let (at, m) = read_iso clock w.machine in
      apply_op-Keeps slug
        (record zero_op {
          kind = publish_merge;
          local_comments = local;
          aids = aids;
          version = v;
          at = at;
        })
        (record w { machine = m })

  module _ (config : Config) where
    with_version-Keeps :
        (v : ℤ) (vs : List VersionRef) (w : World Store)
        → Keeps Any (with_version (memory_meta now) memory_blobs clock fold config v vs) w
    unfolding with_version with_now
    with_version-Keeps v vs w = chosen (has_version v vs)
      where
        chosen :
            (b : Bool)
            → Keeps Any
                (if b
                  then pure vs
                  else with_now (memory_meta now) memory_blobs clock fold config v vs)
                w
        chosen true = (vs, w, refl, refl, tt)
        chosen false =
            let (created, m) = read_rfc3339 clock w.machine in
            (
              vs ++ record { n = v; created = some created } ∷ [],
              record w { machine = m },
              refl,
              refl,
              tt,
            )

    upsert_meta-Keeps :
        (input : PublishInput) (v : ℤ) (w : World Store)
        → Keeps Any (upsert_meta (memory_meta now) memory_blobs clock fold config input v) w
    unfolding upsert_meta put_meta
    upsert_meta-Keeps input v w =
        let prev = new_meta input.slug (get_meta input.slug w.store) in
        bind-Keeps Any
          (with_version (memory_meta now) memory_blobs clock fold config v prev.versions)
          (λ vs. stored ((memory_meta now).put_meta input.slug (published_meta input prev vs))) w
          (with_version-Keeps v prev.versions w)
          (λ vs w'. (
            tt,
            record w' { store = put_meta input.slug (published_meta input prev vs) w'.store },
            refl,
            refl,
            tt,
          ))

    record_version-Keeps :
        (input : PublishInput) (stamped : StampResult) (v : ℤ) (size : ℕ) (w : World Store)
        → Keeps
            (λ r. r.version ≡ v)
            (record_version (memory_meta now) memory_blobs clock fold config input stamped v size)
            w
    unfolding record_version
    record_version-Keeps input stamped v size w =
        let merge =
          publish_merge_locked (memory_meta now) clock fold input.slug input.local_comments
            stamped.aids v in
        let answer : MutationResult → Exec (World Store) PublishResult = λ merged. pure (record {
          slug = input.slug;
          version = v;
          url = concat (config.base_url ∷ "/d/" ∷ input.slug ∷ "/v/" ∷ itoa v ∷ []);
          size = size;
          aids = length stamped.aids;
          merged_comments = merged_count merged.body;
        }) in
        bind-Keeps (λ r. r.version ≡ v)
          (upsert_meta (memory_meta now) memory_blobs clock fold config input v)
          (λ u. merge >>= answer) w (upsert_meta-Keeps input v w)
          (λ u w₁.
            bind-Keeps (λ r. r.version ≡ v) merge answer w₁
              (publish_merge_locked-Keeps input.slug input.local_comments stamped.aids v w₁)
              (λ m w₂. (_, w₂, refl, refl, refl)))

    publish_version-stored :
        (input : PublishInput) (stamped : StampResult) (v : ℤ) (w : World Store)
        → publish_version (memory_meta now) memory_blobs clock fold config input stamped v w
          ≡ record_version
              (memory_meta now)
              memory_blobs
              clock
              fold
              config
              input
              stamped
              v
              (len stamped.html)
              (record w { store = (put_doc input.slug v stamped.html w.store).1 })
    unfolding publish_version check_written put_doc
    publish_version-stored input stamped v w =
        ap
          (λ head.
            (check_written (memory_meta now) memory_blobs clock fold config head
                >> record_version (memory_meta now) memory_blobs clock fold config input stamped v
                    (len stamped.html))
              (record w { store = (put_doc input.slug v stamped.html w.store).1 }))
          (head_doc-put_doc input.slug v stamped.html w.store)

    -- A publication over the store in memory succeeds, where its version is explicit and positive, or
    -- one more than the greatest version listed for the slug is a 64-bit integer. Its result has the
    -- explicit version if that is positive, or else that next number; afterwards the documents are
    -- those before, with the stamped text written as that version of the slug.
    pub publish_locked_contract :
        (input : PublishInput) (stamped : StampResult) (w : World Store)
        → (ltb_ℤ (pos 0) input.version ≡ true) ⊎ IsNumbered input.slug w.store
        → (r : PublishResult) × (w' : World Store) × (publish_locked
              (memory_meta now)
              memory_blobs
              clock
              fold
              config
              input
              stamped
              w
            ≡ (ok r, w'))
          × (r.version ≡ chosen_version input.slug input.version w.store)
          × (w'.store.blobs
              ≡ insert
                  (blob_key input.slug (chosen_version input.slug input.version w.store))
                  stamped.html
                  w.store.blobs)
    unfolding publish_locked put_doc
    publish_locked_contract input stamped w f =
        let v = chosen_version input.slug input.version w.store in
        let (r, w', p, q, e) =
          record_version-Keeps input stamped v (len stamped.html)
            (record w { store = (put_doc input.slug v stamped.html w.store).1 }) in
        (
          r,
          w',
          ap
                (then_on
                  (publish_version (memory_meta now) memory_blobs clock fold config input stamped))
                (resolve_version_lem now clock fold config input.slug input.version w f)
              ∙ (publish_version-stored input stamped v w ∙ p),
          e,
          q,
        )
