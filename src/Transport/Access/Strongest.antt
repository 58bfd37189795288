-- ===== src/Transport/Access/Strongest.antt =====
-- capability.go, `bestCred` over the store in memory: the strongest credential counts.
use octo_doc.Base.{
  ℕ, ◌≤◌, String, Bool, true, false, List, [], ◌∷◌, ◌≡◌, ◌⊎◌, ◌∙◌, refl, sym, ap, eq_iff, arith,
  inl, inr, All, member, ltb, Bool-cases, if◌then◌else◌,
}
use octo_doc.Platform.Exec.{ok, then_on}
use octo_doc.Core.Runtime.{Clock}
use octo_doc.Core.Reconcile.{CaseFolding}
use octo_doc.Storage.Memory.{Store}
use octo_doc.Storage.Memory.Instance.{memory_meta}
use octo_doc.Service.World.{World}
use octo_doc.Service.Auth.{AuthConfig, Capability, cap_none, capability_for}
use octo_doc.Service.Auth.Sharing.{access, capability_for_memory}
use octo_doc.Transport.Access.{Request, Outside, rank, best_of, best_cred, cred_candidates}

-- the choice by the capabilities alone
module _ (cap_of : String → Capability) where
  pick : String × Capability → String → String × Capability
  pick best cred = if ltb (rank best.1) (rank (cap_of cred)) then (cred, cap_of cred) else best

  strongest : List String → String × Capability → String × Capability
  strongest [] best = best
  strongest (cred ∷ creds) best = strongest creds (pick best cred)

  pick-ge :
      (best : String × Capability) (cred : String)
      → (rank best.1 ≤ rank (pick best cred).1) × (rank (cap_of cred) ≤ rank (pick best cred).1)
  unfolding pick
  pick-ge best cred = elim (Bool-cases (ltb (rank best.1) (rank (cap_of cred)))) [
    | inl p ↦ rw (p, rank) (ground arith)
    | inr p ↦ rw (p, rank) (ground arith)
  ]

  pick-cases :
      (best : String × Capability) (cred : String)
      → (pick best cred ≡ best) ⊎ (pick best cred ≡ (cred, cap_of cred))
  unfolding pick
  pick-cases best cred = chosen (ltb (rank best.1) (rank (cap_of cred)))
    where
      chosen :
          (b : Bool)
          → ((if b then (cred, cap_of cred) else best) ≡ best)
            ⊎ ((if b then (cred, cap_of cred) else best) ≡ (cred, cap_of cred))
      chosen true = inr refl
      chosen false = inl refl

  strongest-ge :
      (creds : List String) (best : String × Capability)
      → rank best.1 ≤ rank (strongest creds best).1
  unfolding strongest
  strongest-ge [] best = omega arith
  strongest-ge (cred ∷ creds) best =
      omega (arith, pick-ge best cred, strongest-ge creds (pick best cred))

  strongest-bound :
      (creds : List String) (best : String × Capability)
      → All (λ cred. rank (cap_of cred) ≤ rank (strongest creds best).1) creds
  unfolding strongest
  strongest-bound [] best = tt
  strongest-bound (cred ∷ creds) best = (
    omega (arith, pick-ge best cred, strongest-ge creds (pick best cred)),
    strongest-bound creds (pick best cred),
  )

  -- the credential chosen is one of them and has the capability, or nothing was chosen
  abbrev IsChosen : List String → String × Capability → String × Capability → Type 0
  IsChosen creds best found =
      (found ≡ best) ⊎ ((member found.0 creds ≡ true) × (cap_of found.0 ≡ found.1))

  strongest-IsChosen :
      (creds : List String) (best : String × Capability)
      → IsChosen creds best (strongest creds best)
  unfolding strongest
  strongest-IsChosen [] best = inl refl
  strongest-IsChosen (cred ∷ creds) best = elim (strongest-IsChosen creds (pick best cred)) [
    | inl e ↦ elim (pick-cases best cred) [
      | inl old ↦ inl (e ∙ old)
      | inr new ↦
          let whole : strongest creds (pick best cred) ≡ (cred, cap_of cred) = e ∙ new in
          inr (
            ap (λ r. member r.0 (cred ∷ creds)) whole ∙ ground (arith, eq_iff cred cred),
            ap (λ r. cap_of r.0) whole ∙ sym (ap (λ r. r.1) whole),
          )
    ]
    | inr (m, c) ↦ inr (ground arith, c)
  ]

module _ (now : ℕ) (clock : Clock) (fold : CaseFolding) (config : AuthConfig) (outside : Outside)
    (slug : String) (w : World Store) where
  abbrev pub cap_in : String → Capability
  cap_in cred = access now clock fold config slug cred w.store

  best_of_memory :
      (creds : List String) (best : String × Capability)
      → best_of fold outside (memory_meta now) clock config slug creds best w
        ≡ (ok (strongest cap_in creds best), w)
  unfolding best_of strongest pick
  best_of_memory [] best = refl
  best_of_memory (cred ∷ creds) best =
      ap
        (then_on (λ cap.
          best_of fold outside (memory_meta now) clock config slug creds
            (if ltb (rank best.1) (rank cap) then (cred, cap) else best)))
        (capability_for_memory now clock fold config slug cred w)
      ∙ best_of_memory creds (pick cap_in best cred)

  -- Over the store in memory, the best credential of a request is found with no write. No credential
  -- of the request has a higher capability for the document than the one found; the credential found
  -- is one of them and has that capability, or it is empty and there is no access.
  pub best_cred_strongest :
      (r : Request)
      → (found : String × Capability) × (best_cred fold outside
            (memory_meta now)
            clock
            config
            r
            slug
            w
          ≡ (ok found, w))
        × All
            (λ cred.
              (capability_for (memory_meta now) clock fold config slug cred w
                ≡ (ok (cap_in cred), w))
              × (rank (cap_in cred) ≤ rank found.1))
            (cred_candidates fold outside r slug)
        × ((found ≡ ("", cap_none))
            ⊎ ((member found.0 (cred_candidates fold outside r slug) ≡ true)
                × (capability_for (memory_meta now) clock fold config slug found.0 w
                    ≡ (ok found.1, w))))
  unfolding best_cred
  best_cred_strongest r =
      let creds = cred_candidates fold outside r slug in
      let found = strongest cap_in creds ("", cap_none) in
      (
        found,
        best_of_memory creds ("", cap_none),
        with_caps (rank found.1) creds (strongest-bound cap_in creds ("", cap_none)),
        elim (strongest-IsChosen cap_in creds ("", cap_none)) [
          | inl e ↦ inl e
          | inr (m, c) ↦ inr (
            m,
            capability_for_memory now clock fold config slug found.0 w ∙ ap (λ cap. (ok cap, w)) c,
          )
        ],
      )
    where
      with_caps :
          (k : ℕ) (creds : List String)
          → All (λ cred. rank (cap_in cred) ≤ k) creds
          → All
              (λ cred.
                (capability_for (memory_meta now) clock fold config slug cred w
                  ≡ (ok (cap_in cred), w))
                × (rank (cap_in cred) ≤ k))
              creds
      with_caps k [] h = tt
      with_caps k (cred ∷ creds) h =
          ((capability_for_memory now clock fold config slug cred w, h.0), with_caps k creds h.1)
