-- ===== src/Transport/Routes/Headers.antt =====
-- The headers that the middleware adds to an answer, and the origins that they name.
use octo_doc.Base.{
  String, Bool, true, false, List, [], some, ◌≡◌, refl, sym, subst, ◌==◌, arith, member,
  if◌then◌else◌,
}
use octo_doc.Base.Dict.{Dict, lookup, insert, lookup-insert, lookup-insert_self}
use octo_doc.Transport.Routes.{
  Wire, is_read, allow_origin, origin_headers, cors_headers, doc_security_headers, set_all,
}

-- The headers let at most the request's origin read the answer, and that only if it is allowed.
abbrev pub Listed : List String → Wire → Dict String → Type 0
Listed allowed r headers =
    (origin : String)
    → lookup allow_origin headers ≡ some origin
    → (origin ≡ r.origin) × (member r.origin allowed ≡ true)

insert-Listed :
    (allowed : List String) (r : Wire) (k v : String) (headers : Dict String)
    → (k == allow_origin) ≡ false
    → Listed allowed r headers
    → Listed allowed r (insert k v headers)
insert-Listed allowed r k v headers other listed origin h =
    listed origin (ground (arith, lookup-insert k allow_origin v headers))

-- a write's headers about the origin
write_headers :
    (allowed : List String) (r : Wire) (headers : Dict String)
    → is_read r ≡ false
    → origin_headers allowed r headers ≡ (
        if r.origin == ""
        then headers
        else if member r.origin allowed
        then insert "Vary" "Origin" (insert allow_origin r.origin headers)
        else headers)
unfolding origin_headers
write_headers allowed r headers write = ground arith

lookup-varied :
    (r : Wire) (headers : Dict String)
    → lookup allow_origin (insert "Vary" "Origin" (insert allow_origin r.origin headers))
      ≡ some r.origin
lookup-varied r headers = ground (
  arith,
  lookup-insert "Vary" allow_origin "Origin" (insert allow_origin r.origin headers),
  lookup-insert_self allow_origin r.origin headers,
)

varied-Listed :
    (allowed : List String) (r : Wire) (headers : Dict String)
    → Listed allowed r headers
    → (here : Bool) → member r.origin allowed ≡ here
    → Listed allowed r
        (if here then insert "Vary" "Origin" (insert allow_origin r.origin headers) else headers)
varied-Listed allowed r headers listed false e origin h = listed origin h
varied-Listed allowed r headers listed true e origin h =
    (ground (arith, lookup-varied r headers), e)

origin_headers-Listed :
    (allowed : List String) (r : Wire) (headers : Dict String)
    → is_read r ≡ false
    → Listed allowed r headers
    → Listed allowed r (origin_headers allowed r headers)
origin_headers-Listed allowed r headers write listed =
    subst (Listed allowed r) (sym (write_headers allowed r headers write))
      (elim (r.origin == "")
        as (λ b. Listed allowed r (
          if b
          then headers
          else if member r.origin allowed
          then insert "Vary" "Origin" (insert allow_origin r.origin headers)
          else headers)) [
            | true ↦ listed
            | false ↦ varied-Listed allowed r headers listed (member r.origin allowed) refl
          ])

pub cors_headers-Listed :
    (allowed : List String) (r : Wire) (headers : Dict String)
    → is_read r ≡ false
    → Listed allowed r headers
    → Listed allowed r (cors_headers allowed r headers)
unfolding cors_headers
cors_headers-Listed allowed r headers write listed =
    insert-Listed allowed r _ _ _ refl
      (insert-Listed allowed r _ _ _ refl (origin_headers-Listed allowed r headers write listed))

pub doc_headers-Listed :
    (allowed : List String) (r : Wire) (ancestors : String) (headers : Dict String)
    → Listed allowed r headers
    → Listed allowed r (set_all (doc_security_headers ancestors) headers)
unfolding set_all doc_security_headers
doc_headers-Listed allowed r ancestors headers listed = insert-Listed allowed r _ _ _ refl (
    insert-Listed allowed r _ _ _ refl
      (insert-Listed allowed r _ _ _ refl (insert-Listed allowed r _ _ _ refl listed)))

pub no_headers-Listed : (allowed : List String) (r : Wire) → Listed allowed r []
unfolding lookup
no_headers-Listed allowed r origin h = absurd (ground arith)
