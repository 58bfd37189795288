-- ===== src/Service/Docs/Versions.antt =====
-- `resolve_version` over the store in memory: a version that is chosen is new.
use octo_doc.Base.{
  ℕ, suc, ◌<◌, ◌^◌, ◌⊎◌, ◌∙◌, String, true, false, List, [], ◌∷◌, none, ◌≡◌, refl, ap, arith, inl,
  inr, ltb, leb, Bool-cases, Option-cases, if◌then◌else◌,
}
use octo_doc.Base.Int.{ℤ, pos, ltb_ℤ, wrap_64}
use octo_doc.Platform.Exec.{ok}
use octo_doc.Core.Runtime.{Clock}
use octo_doc.Core.Reconcile.{CaseFolding}
use octo_doc.Storage.Memory.{Store, list_versions, get_doc}
use octo_doc.Storage.Memory.Versions.{holds_version, Fits, listed_of_get_doc}
use octo_doc.Storage.Memory.Instance.{ints, memory_meta, memory_blobs}
use octo_doc.Service.World.{World}
use octo_doc.Service.Records.{Config}
use octo_doc.Service.Numbering.{next, max_version}
use octo_doc.Service.Docs.{resolve_version}

-- the greatest of a number and those of a list
abbrev pub maximum : ℕ → List ℕ → ℕ
maximum a [] = a
maximum a (n ∷ ns) = maximum (if ltb a n then n else a) ns

max_version-ints : (a : ℕ) (ns : List ℕ) → max_version (pos a) (ints ns) ≡ pos (maximum a ns)
unfolding max_version
max_version-ints a [] = refl
max_version-ints a (n ∷ ns) = ground (arith, max_version-ints n ns, max_version-ints a ns)

maximum-above : (a : ℕ) (ns : List ℕ) → leb a (maximum a ns) ≡ true
maximum-above a [] = ground arith
maximum-above a (n ∷ ns) = ground (arith, maximum-above n ns, maximum-above a ns)

maximum-bound : (a k : ℕ) (ns : List ℕ) → holds_version k ns ≡ true → leb k (maximum a ns) ≡ true
maximum-bound a k [] h = cc
maximum-bound a k (n ∷ ns) h =
    ground
      (arith, maximum-bound n k ns, maximum-bound a k ns, maximum-above n ns, maximum-above a ns)

-- the version that a slug's next publication gets
abbrev pub next_number : String → Store → ℕ
next_number slug s = suc (maximum 0 (list_versions slug s))

get_doc-next_number :
    (slug : String) (s : Store)
    → Fits (next_number slug s)
    → get_doc slug (pos (next_number slug s)) s ≡ none
get_doc-next_number slug s f = elim (Option-cases (get_doc slug (pos (next_number slug s)) s)) [
  | inl p ↦ p
  | inr (html, p) ↦ absurd (
      ground (
        arith,
        maximum-bound 0 (next_number slug s) (list_versions slug s)
            (listed_of_get_doc slug html (next_number slug s) s f p),
      ))
]

-- the version that a publication gets: the explicit one, or the next number
abbrev pub chosen_version : String → ℤ → Store → ℤ
chosen_version slug explicit s =
    if ltb_ℤ (pos 0) explicit then explicit else pos (next_number slug s)

-- The next number is a 64-bit integer.
abbrev pub IsNumbered : String → Store → Type 0
IsNumbered slug s = next_number slug s < 2 ^ 63

next-pos : (n : ℕ) → suc n < 2 ^ 63 → next (pos n) ≡ pos (suc n)
unfolding next wrap_64
next-pos n h = ground (arith, h)

module _ (now : ℕ) (clock : Clock) (fold : CaseFolding) (config : Config) where
  next_of_listed :
      (slug : String) (w : World Store)
      → IsNumbered slug w.store
      → next (max_version (pos 0) (ints (list_versions slug w.store)))
        ≡ pos (next_number slug w.store)
  next_of_listed slug w f =
      ap next (max_version-ints 0 (list_versions slug w.store))
      ∙ next-pos (maximum 0 (list_versions slug w.store)) f

  -- Without an explicit version, and where one more than the greatest version listed for the slug is
  -- a 64-bit integer, that is the version chosen over the store in memory, nothing changes, and no
  -- document of the slug has that version yet.
  pub resolve_version-fresh :
      (slug : String) (explicit : ℤ) (w : World Store)
      → ltb_ℤ (pos 0) explicit ≡ false
      → IsNumbered slug w.store
      → (resolve_version (memory_meta now) memory_blobs clock fold config slug explicit w
          ≡ (ok (pos (next_number slug w.store)), w))
        × (get_doc slug (pos (next_number slug w.store)) w.store ≡ none)
  unfolding resolve_version
  resolve_version-fresh slug explicit w e f = (
    rw e (ap (λ v. (ok v, w)) (next_of_listed slug w f)),
    get_doc-next_number slug w.store (omega (arith, f)),
  )

  pub resolve_version_lem :
      (slug : String) (explicit : ℤ) (w : World Store)
      → (ltb_ℤ (pos 0) explicit ≡ true) ⊎ IsNumbered slug w.store
      → resolve_version (memory_meta now) memory_blobs clock fold config slug explicit w
        ≡ (ok (chosen_version slug explicit w.store), w)
  unfolding resolve_version
  resolve_version_lem slug explicit w f = elim (Bool-cases (ltb_ℤ (pos 0) explicit)) [
    | inl e ↦ rw e
    | inr e ↦ elim f [
      | inl g ↦ absurd (ground arith)
      | inr g ↦ rw e (ap (λ v. (ok v, w)) (next_of_listed slug w g))
    ]
  ]
