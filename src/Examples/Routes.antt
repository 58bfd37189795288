-- ===== src/Examples/Routes.antt =====
-- A publication that a browser on an allowed origin sends with the write token.
use octo_doc.Base.{String, true, false, [], ◌∷◌, Option, none, some, ◌≡◌, refl, member}
use octo_doc.Base.Int.{pos}
use octo_doc.Base.Dict.{lookup, insert}
use octo_doc.Platform.Exec.{Exec, ok, pure}
use octo_doc.Service.Auth.{is_valid_write_token}
use octo_doc.Service.World.{World}
use octo_doc.Settings.{Config, load}
use octo_doc.Storage.Memory.{Store, empty}
use octo_doc.Storage.Memory.Instance.{memory_meta}
use octo_doc.Transport.Access.{bearer_token, require_write_auth}
use octo_doc.Transport.Limiter.{allow}
use octo_doc.Transport.Routes.{
  Wire, Answer, answered, Exchange, Route, is_read, allow_origin, cors_headers, wrap, limit, cors,
  gated, serve,
}
use octo_doc.Transport.Routes.Guards.{serve-IsAdmitted}
use octo_doc.Transport.Routes.Origins.{serve-allows_listed}
use octo_doc.Examples.Core.{clock, machine}
use octo_doc.Examples.Transport.{folding, outside, auth}

abbrev site : String
site = "https://app.example"

abbrev settings : Config
settings = record (load (λ k. none) (λ s. s) (λ s. s) (λ s. none)) {
  cors_origins = site ∷ [];
  rate_limit_max = pos 1;
}

abbrev publication : Wire
publication = record {
  method = "POST";
  origin = site;
  requested_method = "";
  forwarded_for = "";
  real_ip = "";
  remote_addr = "10.0.0.1";
  now = 5;
  access = record { slug = ""; authorization = "Bearer w"; cookies = []; query = [] };
}

abbrev host : String → Option String
host address = some address

abbrev handle : Route → Wire → Exec (World Store) String
handle route r = pure "published"

abbrev start : Exchange Store
start = record {
  world = record { store = empty; machine = machine };
  limiter = record { hits = []; window = 60; max = 1 };
  headers = [];
}

served : Answer String × Exchange Store
unfolding serve
served =
    serve (memory_meta 0) clock folding outside auth settings host handle Route.post_docs
      publication start

served_lem : served ≡ (answered "published", served.1)
unfolding served gated cors limit wrap require_write_auth allow lookup
served_lem = refl

serve-IsAdmitted_example :
    (w : World Store) × (is_valid_write_token
        (memory_meta 0)
        clock
        folding
        auth
        (bearer_token folding outside publication.access)
        start.world
      ≡ (ok true, w))
unfolding served
serve-IsAdmitted_example =
    serve-IsAdmitted (memory_meta 0) clock folding outside auth settings host handle Route.post_docs
      publication start served.1 "published" served_lem

is_write : is_read publication ≡ false
unfolding is_read
is_write = refl

shown : lookup allow_origin served.1.headers ≡ some site
unfolding served gated cors limit wrap require_write_auth allow lookup cors_headers insert
shown = refl

serve-allows_listed_example :
    (◌≡◌ {A = String} site publication.origin)
    × (member publication.origin settings.cors_origins ≡ true)
unfolding served
serve-allows_listed_example =
    serve-allows_listed (memory_meta 0) clock folding outside auth settings host handle
      Route.post_docs publication start.world start.limiter site is_write shown
