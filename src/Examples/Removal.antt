-- ===== src/Examples/Removal.antt =====
-- A comment that its author removes.
use octo_doc.Base.{[], ◌∷◌, some, none, String, Option, ◌≡◌, refl}
use octo_doc.Base.Int.{ℤ, pos}
use octo_doc.Core.Types.{Comment}
use octo_doc.Platform.Exec.{Result, ok}
use octo_doc.Storage.Memory.{Store, empty, put_session, put_comments, get_session, get_comments}
use octo_doc.Base.Dict.{lookup, insert}
use octo_doc.Core.Ops.{op_delete}
use octo_doc.Service.Comments
use octo_doc.Storage.Memory.Instance.{memory_meta}
use octo_doc.Storage.Types.{Session}
use octo_doc.Service.World.{World}
use octo_doc.Transport.Access.{Request, query_value, require_doc_cap}
use octo_doc.Transport.Responses.{other}
use octo_doc.Core.Requests.{done}
use octo_doc.Transport.Comments.{Answer, viewer, remove_one}
use octo_doc.Transport.Comments.Authority.{IsAuthorized, remove_one-IsAuthorized}
use octo_doc.Examples.Core.{clock, comment, machine}
use octo_doc.Examples.Transport.{folding, outside, auth}

abbrev ann : Session
ann = record { login = "ann"; name = "Ann"; avatar_url = none; created = "2024" }

abbrev typo : Comment
typo = record comment {
  author = some (record { login = "ann"; name = "Ann"; avatar_url = none; kind = "" });
}

abbrev deletion : Request
deletion = record {
  slug = "guide";
  authorization = "";
  cookies = [];
  query = ("id", "c1") ∷ ("code", "w") ∷ ("version", "2") ∷ [];
}

abbrev opened : World Store
opened = record {
  store = put_session 0 "s1" ann 60 (put_comments "guide" (typo ∷ []) empty);
  machine = machine;
}

abbrev two : String → Option ℤ
two s = some (pos 2)

removal : Result Answer × World Store
unfolding remove_one
removal =
    remove_one (memory_meta 0) clock folding outside auth two none "s1" deletion "guide" opened

abbrev removed : Answer
removed = record { status = 200; body = other done }

removal_lem : removal ≡ (ok removed, removal.1)
unfolding removal query_value lookup require_doc_cap get_session put_session insert put_comments
    empty Comments.read get_comments Comments.remove op_delete
removal_lem = refl

remove_one-IsAuthorized_example :
    (session : Option Session) × (w₁ w₂ : World Store) × (viewer
        (memory_meta 0)
        clock
        folding
        outside
        auth
        two
        "s1"
        opened
      ≡ (ok session, w₁))
    × (require_doc_cap folding outside (memory_meta 0) clock auth deletion "guide" w₁ ≡ (ok tt, w₂))
    × IsAuthorized
        (memory_meta 0)
        clock
        folding
        outside
        auth
        two
        none
        "guide"
        (query_value "id" deletion)
        session
        w₂
unfolding removal
remove_one-IsAuthorized_example =
    remove_one-IsAuthorized (memory_meta 0) clock folding outside auth two none "s1" "guide"
      deletion opened removal.1 removed removal_lem
