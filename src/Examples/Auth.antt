-- ===== src/Examples/Auth.antt =====
-- A document that is shared, and the first token.
use octo_doc.Base.{true, false, [], ◌∷◌, none, some, ◌≡◌, refl, ◌==◌}
use octo_doc.Base.Dict.{lookup, insert}
use octo_doc.Base.Text.{concat}
use octo_doc.Platform.Exec.{app, ok, err}
use octo_doc.Core.Reconcile.{CaseFolding}
use octo_doc.Storage.Types.{DocMeta}
use octo_doc.Storage.Memory.{Store, empty, put_meta, get_meta, any_token}
use octo_doc.Storage.Memory.Instance.{memory_meta}
use octo_doc.Service.World.{World}
use octo_doc.Service.Auth.{
  AuthConfig, already_bootstrapped, bootstrap, capability_for, generate_code, is_valid_write_token,
  revoke_code,
}
use octo_doc.Service.Auth.Sharing.{
  granted, generate_code-capability_for, revoke_code-capability_for,
}
use octo_doc.Service.Auth.Bootstrap.{bootstrap_once}
use octo_doc.Examples.Core.{clock, machine}

abbrev folding : CaseFolding
folding = record { to_lower = λ s. s; equal_fold = λ s t. s == t }

abbrev config : AuthConfig
config = record {
  write_token = "";
  allow_bootstrap = true;
  owner = "ana";
  hash_code = λ s. concat ("#" ∷ s ∷ []);
}

abbrev guide : DocMeta
guide = record { slug = "guide"; title = "Guide"; versions = []; extra = [] }

abbrev world : World Store
world = record { store = put_meta "guide" guide empty; machine = machine }

guide_stored : get_meta "guide" world.store ≡ some guide
unfolding get_meta put_meta empty lookup insert
guide_stored = refl

generate_code-capability_for_example :
    (w' : World Store) × (generate_code (memory_meta 0) clock folding config none "guide" "c1" world
      ≡ (ok "c1", w'))
    × (capability_for (memory_meta 0) clock folding config "guide" "c1" w'
        ≡ (ok (granted 0 clock folding config "c1" true world.store), w'))
generate_code-capability_for_example =
    generate_code-capability_for 0 clock folding config "guide" "c1" "c1" guide world guide_stored
      refl

revoke_code-capability_for_example :
    (w' : World Store) × (revoke_code (memory_meta 0) clock folding config none "guide" world
      ≡ (ok tt, w'))
    × (capability_for (memory_meta 0) clock folding config "guide" "c1" w'
        ≡ (ok (granted 0 clock folding config "c1" false world.store), w'))
revoke_code-capability_for_example =
    revoke_code-capability_for 0 clock folding config "guide" "c1" guide world guide_stored

untouched : any_token world.store ≡ false
unfolding any_token put_meta empty
untouched = refl

bootstrap_once_example :
    (w' : World Store) × (bootstrap (memory_meta 0) clock folding config none "t1" world
      ≡ (ok "t1", w'))
    × (is_valid_write_token (memory_meta 0) clock folding config "t1" w' ≡ (ok true, w'))
    × (bootstrap (memory_meta 0) clock folding config none "t2" w'
        ≡ (err (app already_bootstrapped), w'))
bootstrap_once_example =
    bootstrap_once 0 clock folding config "t1" "t2" world refl refl untouched refl
