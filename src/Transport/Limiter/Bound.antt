-- ===== src/Transport/Limiter/Bound.antt =====
-- middleware.go, `allow`: how many requests of a key pass in one window.
use octo_doc.Base.{
  ℕ, ◌+◌, ◌-◌, ◌/◌, ◌^◌, ◌≤◌, ◌<◌, String, false, List, [], ◌∷◌, none, some, ◌≡◌, ◌∙◌, ap, ◌==◌,
  eq_iff, arith, inl, inr, refl, true, Option-cases, All, Bool-cases, ltb, if◌then◌else◌,
}
use octo_doc.Base.Dict.{Dict, lookup, insert, lookup-insert, lookup-insert_self}
use octo_doc.Transport.Limiter.{Window, Limiter, Hit, hit_key, window_for, sweep, swept, allow}

-- the requests of a key that a sequence of requests lets through
unfoldable pub passed : String → List Hit → Limiter → ℕ
passed k [] rl = 0
passed k (h ∷ hs) rl =
    let rest = passed k hs (allow h rl).1 in
    if hit_key h == k then elim (allow h rl).0 [ none ↦ rest + 1 | some seconds ↦ rest ] else rest

lookup-sweep :
    (k : String) (now : ℕ) (w : Window) (ws : Dict Window)
    → lookup k ws ≡ some w
    → ltb w.reset_at now ≡ false
    → lookup k (sweep now ws) ≡ some w
unfolding lookup sweep
lookup-sweep k now w [] h live = h
lookup-sweep k now w ((j, v) ∷ ws) h live = ground (arith, lookup-sweep k now w ws, eq_iff j k)

lookup-swept :
    (k : String) (now : ℕ) (w : Window) (ws : Dict Window)
    → lookup k ws ≡ some w
    → ltb w.reset_at now ≡ false
    → lookup k (swept now ws) ≡ some w
unfolding swept
lookup-swept k now w ws h live = ground (arith, lookup-sweep k now w ws h live)

-- a window that is not over counts one more
bumped : Window → Window
bumped w = record w { count = w.count + 1 }

module _ (k : String) (h : Hit) (rl : Limiter) (w : Window) (limited : 0 < rl.max)
    (found : lookup k rl.hits ≡ some w) (live : h.now ≤ w.reset_at) where
  max-allow : (allow h rl).1.max ≡ rl.max
  unfolding allow
  max-allow = ground arith

  not_over : ltb w.reset_at h.now ≡ false
  not_over = ground arith

  lookup-allow_same : hit_key h ≡ k → lookup k (allow h rl).1.hits ≡ some (bumped w)
  unfolding allow window_for bumped
  lookup-allow_same e =
      let here : lookup (hit_key h) rl.hits ≡ some w = ap (λ j. lookup j rl.hits) e ∙ found in
      let kept : lookup k (insert (hit_key h) (bumped w) rl.hits) ≡ some (bumped w) =
        rw e (lookup-insert_self k (bumped w) rl.hits) in
      ground
        (arith, here, kept, lookup-swept k h.now (bumped w) (insert (hit_key h) (bumped w) rl.hits))

  allow_same :
      hit_key h ≡ k
      → (allow h rl).0
        ≡ (if ltb rl.max (w.count + 1) then some ((w.reset_at - h.now) / 10 ^ 9 + 1) else none)
  unfolding allow window_for
  allow_same e =
      let here : lookup (hit_key h) rl.hits ≡ some w = ap (λ j. lookup j rl.hits) e ∙ found in
      ground (arith, here)

  lookup-allow_other : (hit_key h == k) ≡ false → lookup k (allow h rl).1.hits ≡ some w
  unfolding allow bumped
  lookup-allow_other e =
      let own = bumped (window_for rl h (lookup (hit_key h) rl.hits)) in
      let kept : lookup k (insert (hit_key h) own rl.hits) ≡ some w =
        lookup-insert (hit_key h) k own rl.hits ∙ rw e found in
      ground (arith, kept, lookup-swept k h.now w (insert (hit_key h) own rl.hits))

-- the requests of a key that pass while a window of it lasts
passed_in_window :
    (k : String) (hs : List Hit) (rl : Limiter) (w : Window)
    → 0 < rl.max
    → lookup k rl.hits ≡ some w
    → All (λ h. h.now ≤ w.reset_at) hs
    → passed k hs rl ≤ rl.max - w.count
unfolding passed bumped
passed_in_window k [] rl w limited found live = omega arith
passed_in_window k (h ∷ hs) rl w limited found live = elim (Bool-cases (hit_key h == k)) [
  | inl p ↦
      let same : hit_key h ≡ k = (eq_iff (hit_key h) k).0 p in
      let rest : passed k hs (allow h rl).1 ≤ (allow h rl).1.max - (bumped w).count =
        passed_in_window k hs (allow h rl).1 (bumped w)
          (omega (arith, max-allow k h rl w limited found live.0))
          (lookup-allow_same k h rl w limited found live.0 same) live.1 in
      ground (
        arith,
        max-allow k h rl w limited found live.0,
        allow_same k h rl w limited found live.0 same,
      )
  | inr p ↦
      let rest : passed k hs (allow h rl).1 ≤ (allow h rl).1.max - w.count =
        passed_in_window k hs (allow h rl).1 w
          (omega (arith, max-allow k h rl w limited found live.0))
          (lookup-allow_other k h rl w limited found live.0 p) live.1 in
      ground (arith, max-allow k h rl w limited found live.0)
]

-- The request opens a window for its key: there is none, or the one that there is is over.
abbrev pub Opens : Hit → Limiter → Type 0
Opens h rl = (w : Window) → lookup (hit_key h) rl.hits ≡ some w → w.reset_at < h.now

module _ (h : Hit) (rl : Limiter) (limited : 0 < rl.max) (opens : Opens h rl) where
  fresh : Window
  fresh = record { count = 0; reset_at = h.now + rl.window }

  window_for-fresh : window_for rl h (lookup (hit_key h) rl.hits) ≡ fresh
  unfolding window_for fresh
  window_for-fresh = elim (Option-cases (lookup (hit_key h) rl.hits)) [
    | inl e ↦ ap (window_for rl h) e
    | inr (w, e) ↦
        let over : ltb w.reset_at h.now ≡ true = ground (arith, opens w e) in
        ap (window_for rl h) e ∙ rw over refl
  ]

  max-allow_new : (allow h rl).1.max ≡ rl.max
  unfolding allow
  max-allow_new = ground arith

  lookup-allow_new : lookup (hit_key h) (allow h rl).1.hits ≡ some (bumped fresh)
  unfolding allow bumped fresh
  lookup-allow_new =
      let hits = insert (hit_key h) (bumped fresh) rl.hits in
      let kept : lookup (hit_key h) hits ≡ some (bumped fresh) =
        lookup-insert_self (hit_key h) (bumped fresh) rl.hits in
      ground (arith, window_for-fresh, kept, lookup-swept (hit_key h) h.now (bumped fresh) hits)

-- A limit that is positive holds: of the requests behind one that opens a window for a key, because
-- the key has none or the one that it has is over, as long as the window lasts, at most as many pass,
-- together with it, as the limit allows, whatever requests of other keys stand between them.
pub allow_bound :
    (first : Hit) (hs : List Hit) (rl : Limiter)
    → 0 < rl.max
    → Opens first rl
    → All (λ h. h.now ≤ first.now + rl.window) hs
    → passed (hit_key first) (first ∷ hs) rl ≤ rl.max
unfolding passed bumped fresh
allow_bound first hs rl limited opens live =
    let rest : passed (hit_key first) hs (allow first rl).1 ≤ (allow first rl).1.max - 1 =
      passed_in_window (hit_key first) hs (allow first rl).1 (bumped (fresh first rl limited opens))
        (omega (arith, max-allow_new first rl limited opens))
        (lookup-allow_new first rl limited opens) live in
    ground (arith, max-allow_new first rl limited opens)
