-- ===== src/Examples/Transport.antt =====
-- Requests: the limiter, slugs, credentials, and texts in markup.
use octo_doc.Base.{ℕ, ◌≤◌, String, true, false, [], ◌∷◌, ◌≡◌, ◌⊎◌, refl, ◌==◌, arith, All, member}
use Prim.Native.String.{count}
use octo_doc.Base.Dict.{lookup}
use octo_doc.Base.Text.{concat, has_nul}
use octo_doc.Platform.Exec.{ok}
use octo_doc.Core.Cyrb53.{cyrb53}
use octo_doc.Core.Reconcile.{CaseFolding}
use octo_doc.Storage.Memory.{Store, empty}
use octo_doc.Storage.Memory.Instance.{memory_meta}
use octo_doc.Service.Auth.{AuthConfig, Capability, cap_none, capability_for}
use octo_doc.Service.World.{World}
use octo_doc.Transport.Access.{Request, Outside, rank, best_cred, cred_candidates}
use octo_doc.Transport.Access.Strongest.{cap_in, best_cred_strongest}
use octo_doc.Transport.Limiter.{Limiter, Hit, hit_key}
use octo_doc.Transport.Limiter.Bound.{passed, Opens, allow_bound}
use octo_doc.Transport.Slugs.{require_slug, safe_slug, is_slug, all_slug_chars, is_slug_char}
use octo_doc.Transport.Slugs.Safety.{require_slug_safe}
use octo_doc.Examples.Core.{clock, machine}

abbrev pub folding : CaseFolding
folding = record { to_lower = λ s. s; equal_fold = λ s t. s == t }

abbrev hit : ℕ → Hit
hit now = record { token = "t1"; ip = "10.0.0.1"; now = now }

-- the key has used up a window that ends at 4
abbrev limiter : Limiter
limiter = record {
  hits = (hit_key (hit 5), record { count = 1; reset_at = 4 }) ∷ [];
  window = 60;
  max = 1;
}

window_is_over : Opens (hit 5) limiter
unfolding lookup hit_key
window_is_over w h = ground (arith, h)

allow_bound_example : passed (hit_key (hit 5)) (hit 5 ∷ hit 6 ∷ hit 65 ∷ []) limiter ≤ 1
allow_bound_example =
    allow_bound (hit 5) (hit 6 ∷ hit 65 ∷ []) limiter (omega arith) window_is_over
      (omega arith, (omega arith, tt))

slug_passes : require_slug "my-doc" empty ≡ (ok "my-doc", empty)
unfolding require_slug safe_slug is_slug all_slug_chars is_slug_char
slug_passes = refl

require_slug_safe_example :
    (◌≡◌ {A = String} "my-doc" "my-doc")
    × (empty ≡ empty)
    × (1 ≤ count "my-doc")
    × (count "my-doc" ≤ 64)
    × (has_nul "my-doc" ≡ false)
require_slug_safe_example = require_slug_safe "my-doc" "my-doc" empty empty slug_passes

abbrev pub auth : AuthConfig
auth = record {
  write_token = "w";
  allow_bootstrap = true;
  owner = "";
  hash_code = λ s. concat ("#" ∷ s ∷ []);
}

abbrev pub outside : Outside
outside = record { trim_space = λ s. s; hash_slug = λ s. s }

abbrev request : Request
request = record {
  slug = "guide";
  authorization = "";
  cookies = ("octo_cap_guide", "old") ∷ [];
  query = ("code", "w") ∷ [];
}

abbrev world : World Store
world = record { store = empty; machine = machine }

best_cred_strongest_example :
    (found : String × Capability) × (best_cred folding outside
        (memory_meta 0)
        clock
        auth
        request
        "guide"
        world
      ≡ (ok found, world))
    × All
        (λ cred.
          (capability_for (memory_meta 0) clock folding auth "guide" cred world
            ≡ (ok (cap_in 0 clock folding auth outside "guide" world cred), world))
          × (rank (cap_in 0 clock folding auth outside "guide" world cred) ≤ rank found.1))
        (cred_candidates folding outside request "guide")
    × ((found ≡ ("", cap_none))
        ⊎ (member found.0 (cred_candidates folding outside request "guide") ≡ true)
          × (capability_for (memory_meta 0) clock folding auth "guide" found.0 world
              ≡ (ok found.1, world)))
best_cred_strongest_example = best_cred_strongest 0 clock folding auth outside "guide" world request

-- the vectors of the source's tests
hash_of_empty : cyrb53 "" 0 ≡ "wvjl67o803"
unfolding cyrb53
hash_of_empty = refl

hash_of_text : cyrb53 "hello world" 42 ≡ "2cnqnm2cxdq"
unfolding cyrb53
hash_of_text = refl

hash_of_wide : cyrb53 "你好，世界" 0 ≡ "2mzaffzikv"
unfolding cyrb53
hash_of_wide = refl

hash_of_pairs : cyrb53 "🚀🔥✅ emoji mix 🎉" 0 ≡ "1m6zub30lid"
unfolding cyrb53
hash_of_pairs = refl
