-- ===== src/Core/Requests/Search.antt =====
-- ops.go, FindHost and findByID: what the search for a comment or a reply finds.
use octo_doc.Base.{
  ℕ, suc, refl, ◌&&◌, ◌||◌, [], ◌∷◌, get_elem?, String, Bool, true, false, List, Option, none, some,
  ◌≡◌, ◌==◌, arith, inl, inr, Bool-cases, Option-cases,
}
use octo_doc.Core.Types.{Comment, CommentEvent, ReplySeed}
use octo_doc.Core.Events.{events_of}
use octo_doc.Core.Requests.{is_reply_added, find_seed, find_reply, find_host, find_by_id}

-- whether a comment has the id
abbrev pub has_comment : String → List Comment → Bool
has_comment id [] = false
has_comment id (c ∷ cs) = c.id == id || has_comment id cs

-- whether the event adds the reply with the id
abbrev pub adds_reply : String → CommentEvent → Bool
adds_reply id e = is_reply_added e.kind && elim e.reply [ none ↦ false | some r ↦ r.id == id ]

abbrev pub logs_reply : String → List CommentEvent → Bool
logs_reply id [] = false
logs_reply id (e ∷ es) = adds_reply id e || logs_reply id es

-- whether the reply was added to a comment
abbrev pub has_reply : String → List Comment → Bool
has_reply id [] = false
has_reply id (c ∷ cs) = logs_reply id (events_of c) || has_reply id cs

pub find_by_id-absent :
    (id : String) (cs : List Comment) → has_comment id cs ≡ false → find_by_id cs id ≡ none
unfolding find_by_id
find_by_id-absent id [] h = refl
find_by_id-absent id (c ∷ cs) h = ground (arith, find_by_id-absent id cs, h)

pub find_by_id-present :
    (id : String) (cs : List Comment)
    → has_comment id cs ≡ true
    → (i : ℕ) × (c : Comment) × (find_by_id cs id ≡ some i) × (get_elem? cs i ≡ some c)
unfolding find_by_id
find_by_id-present id [] h = absurd (ground arith)
find_by_id-present id (c ∷ cs) h = elim (Bool-cases (c.id == id)) [
  | inl p ↦ (0, c, rw p refl, refl)
  | inr p ↦
      let (i, d, q, g) = find_by_id-present id cs (ground (arith, h)) in
      (suc i, d, rw (p, q) refl, g)
]

find_seed-absent :
    (id : String) (es : List CommentEvent) → logs_reply id es ≡ false → find_seed es id ≡ none
unfolding find_seed
find_seed-absent id [] h = refl
find_seed-absent id (e ∷ es) h = ground (arith, find_seed-absent id es, h)

logs_reply_of_none :
    (id : String) (es : List CommentEvent) → find_seed es id ≡ none → logs_reply id es ≡ false
unfolding find_seed
logs_reply_of_none id [] h = refl
logs_reply_of_none id (e ∷ es) h = ground (arith, logs_reply_of_none id es, h)

find_seed-present :
    (id : String) (es : List CommentEvent)
    → logs_reply id es ≡ true
    → (r : ReplySeed) × (find_seed es id ≡ some r)
find_seed-present id es h = elim (Option-cases (find_seed es id)) [
  | inl e ↦ absurd (ground (arith, logs_reply_of_none id es e, h))
  | inr found ↦ found
]

find_reply-absent :
    (id : String) (cs : List Comment) → has_reply id cs ≡ false → find_reply cs id ≡ none
unfolding find_reply
find_reply-absent id [] h = refl
find_reply-absent id (c ∷ cs) h =
    ground (arith, find_reply-absent id cs, find_seed-absent id (events_of c), h)

find_reply-present :
    (id : String) (cs : List Comment)
    → has_reply id cs ≡ true
    → (i : ℕ) × (r : ReplySeed) × (c : Comment) × (find_reply cs id ≡ some (i, r))
      × (get_elem? cs i ≡ some c)
unfolding find_reply
find_reply-present id [] h = absurd (ground arith)
find_reply-present id (c ∷ cs) h = elim (Bool-cases (logs_reply id (events_of c))) [
  | inl p ↦
      let (r, q) = find_seed-present id (events_of c) p in (0, r, c, rw (q, find_reply) refl, refl)
  | inr p ↦
      let (i, r, d, q, g) = find_reply-present id cs (ground (arith, h)) in
      (suc i, r, d, rw (find_seed-absent id (events_of c) p, q, find_reply) refl, g)
]

pub find_host-absent :
    (id : String) (cs : List Comment)
    → (has_comment id cs || has_reply id cs) ≡ false
    → find_host cs id ≡ none
unfolding find_host
find_host-absent id cs h =
    rw
      (
        find_by_id-absent id cs (ground (arith, h)),
        find_reply-absent id cs (ground (arith, h)),
        find_host,
      )
      refl

pub find_host-present :
    (id : String) (cs : List Comment)
    → (has_comment id cs || has_reply id cs) ≡ true
    → (i : ℕ) × (r : Option ReplySeed) × (c : Comment) × (find_host cs id ≡ some (i, r))
      × (get_elem? cs i ≡ some c)
unfolding find_host
find_host-present id cs h = elim (Bool-cases (has_comment id cs)) [
  | inl p ↦ let (i, c, q, g) = find_by_id-present id cs p in (i, none, c, rw (q, find_host) refl, g)
  | inr p ↦
      let (i, r, c, q, g) = find_reply-present id cs (ground (arith, h, p)) in
      (i, some r, c, rw (find_by_id-absent id cs p, q, find_host) refl, g)
]
