-- ===== src/Settings/Checks.antt =====
-- Which configurations are accepted.
use octo_doc.Base.{
  ℕ, ◌≤◌, String, Bool, true, false, not, ◌&&◌, ◌||◌, List, [], ◌∷◌, ◌++◌, none, ◌≡◌, ◌≢◌, ◌⊎◌, inl,
  inr, refl, ◌==◌, eq_iff, arith, Bool-cases,
}
use octo_doc.Base.Int.{ℤ, pos, negsuc, leb_ℤ, ltb_ℤ}
use octo_doc.Settings.{Config, problem, is_empty, problems, validate}

abbrev pub IsBetween : ℕ → ℕ → ℤ → Type 0
IsBetween lo hi z = (n : ℕ) × (z ≡ pos n) × (lo ≤ n) × (n ≤ hi)

abbrev pub IsAtLeast : ℕ → ℤ → Type 0
IsAtLeast lo z = (n : ℕ) × (z ≡ pos n) × (lo ≤ n)

-- A configuration that the server can run with.
pub record IsUsable (c : Config) : Type 0 where
  pub database : c.database_url ≢ ""
  pub bucket : c.s3_bucket ≢ ""
  pub port : IsBetween 1 65535 c.port
  pub pool : IsBetween 1 2147483647 c.pg_pool_max
  pub rate : IsAtLeast 0 c.rate_limit_max
  pub html : IsAtLeast 1 c.max_html_bytes
  pub asset : IsAtLeast 1 c.max_asset_bytes
  pub mime : c.asset_mime_allow ≢ []
  pub keys : (c.s3_endpoint ≡ "") ⊎ ((c.s3_access_key_id ≢ "") × (c.s3_secret_key ≢ ""))

problem-append :
    (b : Bool) (t : String) (rest : List String)
    → problem b t ++ rest ≡ []
    → (b ≡ false) × (rest ≡ [])
unfolding problem
problem-append true t rest h = absurd (ground arith)
problem-append false t rest h = (refl, h)

append-problem :
    (b : Bool) (t : String) (rest : List String) → b ≡ false → rest ≡ [] → problem b t ++ rest ≡ []
unfolding problem
append-problem true t rest p q = absurd (ground arith)
append-problem false t rest p q = q

problem-empty : (b : Bool) (t : String) → problem b t ≡ [] → b ≡ false
unfolding problem
problem-empty true t h = absurd (ground arith)
problem-empty false t h = refl

empty-problem : (b : Bool) (t : String) → b ≡ false → problem b t ≡ []
unfolding problem
empty-problem true t h = absurd (ground arith)
empty-problem false t h = refl

text_test : (s t : String) → (s == t) ≡ false → s ≢ t
text_test s t h e = absurd (ground (arith, (eq_iff s t).1 e))

test_text : (s t : String) → s ≢ t → (s == t) ≡ false
test_text s t n = elim (Bool-cases (s == t)) [ inl p ↦ absurd (n ((eq_iff s t).0 p)) | inr p ↦ p ]

tests-IsBetween :
    (hi : ℕ) (z : ℤ) → (leb_ℤ z (pos 0) || ltb_ℤ (pos hi) z) ≡ false → IsBetween 1 hi z
tests-IsBetween hi (pos n) h = (n, refl, ground arith, ground arith)
tests-IsBetween hi (negsuc n) h = absurd (ground arith)

IsBetween-tests :
    (hi : ℕ) (z : ℤ) → IsBetween 1 hi z → (leb_ℤ z (pos 0) || ltb_ℤ (pos hi) z) ≡ false
IsBetween-tests hi z (n, e, p, q) = rw e (ground arith)

positive-IsAtLeast : (z : ℤ) → leb_ℤ z (pos 0) ≡ false → IsAtLeast 1 z
positive-IsAtLeast (pos n) h = (n, refl, ground arith)
positive-IsAtLeast (negsuc n) h = absurd (ground arith)

natural-IsAtLeast : (z : ℤ) → ltb_ℤ z (pos 0) ≡ false → IsAtLeast 0 z
natural-IsAtLeast (pos n) h = (n, refl, ground arith)
natural-IsAtLeast (negsuc n) h = absurd (ground arith)

is_empty_lem : (xs : List String) → is_empty xs ≡ false → xs ≢ []
unfolding is_empty
is_empty_lem [] h e = absurd (ground arith)
is_empty_lem (x ∷ xs) h e = absurd (ground arith)

ne_nil_lem : (xs : List String) → xs ≢ [] → is_empty xs ≡ false
unfolding is_empty
ne_nil_lem [] n = absurd (n refl)
ne_nil_lem (x ∷ xs) n = refl

keys_of_test :
    (endpoint key secret : String)
    → (not (endpoint == "") && (key == "" || secret == "")) ≡ false
    → (endpoint ≡ "") ⊎ ((key ≢ "") × (secret ≢ ""))
keys_of_test endpoint key secret h = elim (Bool-cases (endpoint == "")) [
  | inl p ↦ inl ((eq_iff endpoint "").0 p)
  | inr p ↦ inr (text_test key "" (ground arith), text_test secret "" (ground arith))
]

test_of_keys :
    (endpoint key secret : String)
    → (endpoint ≡ "") ⊎ ((key ≢ "") × (secret ≢ ""))
    → (not (endpoint == "") && (key == "" || secret == "")) ≡ false
test_of_keys endpoint key secret (inl e) = ground (arith, (eq_iff endpoint "").1 e)
test_of_keys endpoint key secret (inr (p, q)) =
    ground (arith, test_text key "" p, test_text secret "" q)

problems-IsUsable : (c : Config) → problems c ≡ [] → IsUsable c
unfolding problems
problems-IsUsable c h =
    let (a, h₁) = problem-append _ _ _ h in
    let (b, h₂) = problem-append _ _ _ h₁ in
    let (d, h₃) = problem-append _ _ _ h₂ in
    let (e, h₄) = problem-append _ _ _ h₃ in
    let (f, h₅) = problem-append _ _ _ h₄ in
    let (g, h₆) = problem-append _ _ _ h₅ in
    let (i, h₇) = problem-append _ _ _ h₆ in
    let (j, h₈) = problem-append _ _ _ h₇ in
    let k = problem-empty _ _ h₈ in
    record {
      database = text_test c.database_url "" a;
      bucket = text_test c.s3_bucket "" b;
      port = tests-IsBetween 65535 c.port d;
      pool = tests-IsBetween 2147483647 c.pg_pool_max e;
      rate = natural-IsAtLeast c.rate_limit_max f;
      html = positive-IsAtLeast c.max_html_bytes g;
      asset = positive-IsAtLeast c.max_asset_bytes i;
      mime = is_empty_lem c.asset_mime_allow j;
      keys = keys_of_test c.s3_endpoint c.s3_access_key_id c.s3_secret_key k;
    }

IsAtLeast-positive : (z : ℤ) → IsAtLeast 1 z → leb_ℤ z (pos 0) ≡ false
IsAtLeast-positive z (n, e, p) = rw e (ground arith)

IsAtLeast-natural : (z : ℤ) → IsAtLeast 0 z → ltb_ℤ z (pos 0) ≡ false
IsAtLeast-natural z (n, e, p) = rw e (ground arith)

IsUsable-problems : (c : Config) → IsUsable c → problems c ≡ []
unfolding problems
IsUsable-problems c v = append-problem _ _ _ (test_text c.database_url "" v.database) (
    append-problem _ _ _ (test_text c.s3_bucket "" v.bucket) (
      append-problem _ _ _ (IsBetween-tests 65535 c.port v.port) (
        append-problem _ _ _ (IsBetween-tests 2147483647 c.pg_pool_max v.pool) (
          append-problem _ _ _ (IsAtLeast-natural c.rate_limit_max v.rate) (
            append-problem _ _ _ (IsAtLeast-positive c.max_html_bytes v.html) (
              append-problem _ _ _ (IsAtLeast-positive c.max_asset_bytes v.asset) (
                append-problem _ _ _ (ne_nil_lem c.asset_mime_allow v.mime) (
                  empty-problem _ _
                    (test_of_keys c.s3_endpoint c.s3_access_key_id c.s3_secret_key v.keys)))))))))

problems-validate :
    (c : Config) (ps : List String) → problems c ≡ ps → validate c ≡ none → problems c ≡ []
unfolding validate
problems-validate c [] e h = e
problems-validate c (p ∷ ps) e h = let some_error = rw (e, validate) at h in absurd (ground arith)

-- A configuration is accepted exactly where it names a database and a bucket, its port, its pool and
-- its limits are in range, a type of assets is allowed, and an endpoint comes with both of its keys.
pub validate-IsUsable :
    (c : Config) → (validate c ≡ none → IsUsable c) × (IsUsable c → validate c ≡ none)
unfolding validate
validate-IsUsable c = (
  λ h. problems-IsUsable c (problems-validate c (problems c) refl h),
  λ v. rw (IsUsable-problems c v, validate) refl,
)
