-- ===== src/Service/Ids.antt =====
-- internal/service/ids.go: the ids of new comments and replies.
use Prim.Native.Char.{code}
use octo_doc.Base.{String, ◌&&◌, [], ◌∷◌, leb, if◌then◌else◌}
use octo_doc.Base.Text.{concat}

-- the decimal digits of a text
unfoldable pub compact_time : String → String
compact_time String.[] = ""
compact_time (String.◌∷◌ c s) =
    let rest = compact_time s in
    if leb b'0' (code c) && leb (code c) b'9' then String.◌∷◌ c rest else rest

-- `random` is `randHex(4)`, eight hexadecimal digits from the random source.
unfoldable pub new_comment_id : String → String → String
unfolding compact_time
new_comment_id random at = concat ("c_" ∷ compact_time at ∷ "_" ∷ random ∷ [])

unfoldable pub new_reply_id : String → String → String
unfolding compact_time
new_reply_id random at = concat ("r_" ∷ compact_time at ∷ "_" ∷ random ∷ [])
