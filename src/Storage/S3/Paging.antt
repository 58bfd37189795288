-- ===== src/Storage/S3/Paging.antt =====
-- A listing in pages: its versions, and that its loop ends.
use octo_doc.Base.{
  ℕ, zero, suc, ◌≤◌, String, Bool, true, false, List, [], ◌∷◌, ◌++◌, Option, ◌≡◌, ◌∙◌, refl, sym,
  ap, arith, Option-cases, inl, inr,
}
use octo_doc.Platform.Exec.{Exec, ok, pure, then_on}
use octo_doc.Storage.S3.{
  Page, Client, Errors, key_version, versions_in, sort_ints, goes_on, list_pages,
}

versions_in-append :
    (ks js : List (Option String)) → versions_in (ks ++ js) ≡ versions_in ks ++ versions_in js
unfolding versions_in
versions_in-append [] js = refl
versions_in-append (k ∷ ks) js = elim (Option-cases (key_version k)) [
  | inl p ↦ rw (p, versions_in) (versions_in-append ks js)
  | inr (n, p) ↦ rw (p, versions_in) (ap (λ ns. n ∷ ns) (versions_in-append ks js))
]

append_assoc : {A : Type 0} (xs ys zs : List A) → (xs ++ ys) ++ zs ≡ xs ++ (ys ++ zs)
append_assoc [] ys zs = refl
append_assoc (x ∷ xs) ys zs = ap (λ t. x ∷ t) (append_assoc xs ys zs)

regroup :
    (out : List ℕ) (ks js : List (Option String))
    → (out ++ versions_in ks) ++ versions_in js ≡ out ++ versions_in (ks ++ js)
regroup out ks js =
    append_assoc out (versions_in ks) (versions_in js)
    ∙ ap (λ ns. out ++ ns) (sym (versions_in-append ks js))

module _ {C : Type 0} (client : Client C) (errors : Errors) (prefix : String) where
  -- From a token on, the listing has these keys, in so many pages, and leaves the service so.
  pub data Lists : ℕ → Option String → C → List (Option String) → C → Type 0 where
    last :
        {token : Option String} {c c' : C} (page : Page)
        → client.list_objects prefix token c ≡ (ok page, c')
        → goes_on page ≡ false
        → Lists 1 token c page.contents c'
    more :
        {n : ℕ} {token : Option String} {c c' c'' : C} {keys : List (Option String)} (page : Page)
        → client.list_objects prefix token c ≡ (ok page, c')
        → goes_on page ≡ true
        → Lists n page.next_token c' keys c''
        → Lists (suc n) token c (page.contents ++ keys) c''

  -- What the loop does on a page.
  listed_on : ℕ → List ℕ → Page → Bool → Exec C (List ℕ)
  listed_on rounds out page true =
      list_pages client errors rounds prefix page.next_token (out ++ versions_in page.contents)
  listed_on rounds out page false = pure (sort_ints (out ++ versions_in page.contents))

  list_pages-suc :
      (rounds : ℕ) (token : Option String) (out : List ℕ) (c c' : C) (page : Page) (on : Bool)
      → client.list_objects prefix token c ≡ (ok page, c')
      → goes_on page ≡ on
      → list_pages client errors (suc rounds) prefix token out c ≡ listed_on rounds out page on c'
  unfolding list_pages listed_on
  list_pages-suc rounds token out c c' page true e g =
      ap (then_on _) e ∙ ap (λ b. listed_on rounds out page b c') g
  list_pages-suc rounds token out c c' page false e g =
      ap (then_on _) e ∙ ap (λ b. listed_on rounds out page b c') g

  -- The versions of a slug are those of the keys on all pages, each as often as there, sorted: the loop
  -- ends with them where it has a round for each page.
  pub list_pages-Lists :
      (rounds : ℕ) (out : List ℕ) {n : ℕ} {token : Option String} {c c' : C}
      {keys : List (Option String)}
      → Lists n token c keys c'
      → n ≤ rounds
      → list_pages client errors rounds prefix token out c
        ≡ (ok (sort_ints (out ++ versions_in keys)), c')
  unfolding listed_on
  list_pages-Lists zero out (last page e g) h = absurd (omega arith)
  list_pages-Lists (suc rounds) out (last page e g) h =
      list_pages-suc rounds _ out _ _ page false e g
  list_pages-Lists zero out (more page e g rest) h = absurd (omega arith)
  list_pages-Lists (suc rounds) out {c' = end} (more page e g rest) h =
      list_pages-suc rounds _ out _ _ page true e g
      ∙ (list_pages-Lists rounds (out ++ versions_in page.contents) rest (omega arith)
          ∙ ap (λ ns. (ok (sort_ints ns), end)) (regroup out page.contents _))
