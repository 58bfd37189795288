-- ===== src/Storage/S3/Keys.antt =====
-- Which keys of the store are read as versions.
use Prim.Native.Char.{Char, code}
use Prim.Native.String.{◌++◌ as append}
use Prim.Native.String.append
use octo_doc.Base.{
  ℕ, zero, suc, ◌+◌, ◌-◌, ◌*◌, ◌/◌, ◌%◌, ◌^◌, ◌<◌, String, Bool, true, false, not, ◌&&◌, none, some,
  ◌≡◌, ◌∙◌, refl, sym, ap, arith, eqb, leb, ltb, Bool-cases, inl, inr,
}
use octo_doc.Base.Text.{append_assoc, append_empty}
use octo_doc.Core.Runtime.{digit, digits_onto, format_uint, itoa}
use octo_doc.Base.Int.{pos}
use octo_doc.Storage.S3.{
  number_from, version_here, version_match, key_version, prefix_for, key_for, draft_key_for,
  asset_key_for,
}

digit_char : (d : ℕ) → d < 10 → (c : Char) × (digit d ≡ String.◌∷◌ c "") × (code c ≡ 48 + d)
unfolding digit
digit_char zero h = ("0", refl, refl)
digit_char (suc zero) h = ("1", refl, refl)
digit_char (suc (suc zero)) h = ("2", refl, refl)
digit_char (suc (suc (suc zero))) h = ("3", refl, refl)
digit_char (suc (suc (suc (suc zero)))) h = ("4", refl, refl)
digit_char (suc (suc (suc (suc (suc zero))))) h = ("5", refl, refl)
digit_char (suc (suc (suc (suc (suc (suc zero)))))) h = ("6", refl, refl)
digit_char (suc (suc (suc (suc (suc (suc (suc zero))))))) h = ("7", refl, refl)
digit_char (suc (suc (suc (suc (suc (suc (suc (suc zero)))))))) h = ("8", refl, refl)
digit_char (suc (suc (suc (suc (suc (suc (suc (suc (suc zero))))))))) h = ("9", refl, refl)
digit_char (suc (suc (suc (suc (suc (suc (suc (suc (suc (suc d)))))))))) h = absurd (omega arith)

-- Reading one digit in front of a text.
number_from-digit :
    (started : Bool) (k d : ℕ) (t : String)
    → d < 10
    → number_from started k (append (digit d) t) ≡ number_from true (k * 10 + d) t
unfolding number_from
number_from-digit started k d t h =
    let (c, text, value) = digit_char d h in
    let front : append (digit d) t ≡ String.◌∷◌ c t =
      ap (λ s. append s t) text ∙ (append.cons c "" t ∙ ap (String.◌∷◌ c) (append.nil t)) in
    let within : (leb b'0' (code c) && leb (code c) b'9') ≡ true = ground arith in
    let same : code c - b'0' ≡ d = omega arith in rw (front, within, same) refl

digits_onto-last :
    (f n : ℕ) (acc : String)
    → eqb (n / 10) 0 ≡ true
    → digits_onto (suc f) 10 n acc ≡ append (digit (n % 10)) acc
unfolding digits_onto
digits_onto-last f n acc p = rw p refl

digits_onto-more :
    (f n : ℕ) (acc : String)
    → eqb (n / 10) 0 ≡ false
    → digits_onto (suc f) 10 n acc ≡ digits_onto f 10 (n / 10) (append (digit (n % 10)) acc)
unfolding digits_onto
digits_onto-more f n acc p = rw p refl

number_from-last :
    (started : Bool) (k n : ℕ) (acc rest : String)
    → number_from started k (append (append (digit (n % 10)) acc) rest)
      ≡ number_from true (k * 10 + n % 10) (append acc rest)
number_from-last started k n acc rest =
    ap (number_from started k) (append_assoc (digit (n % 10)) acc rest)
    ∙ number_from-digit started k (n % 10) (append acc rest) (omega arith)

-- The digits of a number are read back, whatever stands behind them.
number_from-digits_onto :
    (f n : ℕ) (started : Bool) (acc rest : String)
    → n < 2 ^ suc f
    → number_from started 0 (append (digits_onto (suc f) 10 n acc) rest)
      ≡ number_from true n (append acc rest)
number_from-digits_onto zero n started acc rest h =
    let done : eqb (n / 10) 0 ≡ true = ground arith in
    let whole : 0 * 10 + n % 10 ≡ n = omega arith in
    rw (digits_onto-last zero n acc done)
      (number_from-last started 0 n acc rest ∙ ap (λ k. number_from true k (append acc rest)) whole)
number_from-digits_onto (suc f) n started acc rest h = elim (Bool-cases (eqb (n / 10) 0)) [
  | inl done ↦
      let whole : 0 * 10 + n % 10 ≡ n = ground arith in
      rw (digits_onto-last (suc f) n acc done) (
        number_from-last started 0 n acc rest
        ∙ ap (λ k. number_from true k (append acc rest)) whole)
  | inr on ↦
      let small : n / 10 < 2 ^ suc f = grind arith in
      let whole : n / 10 * 10 + n % 10 ≡ n = omega arith in
      rw (digits_onto-more (suc f) n acc on) (
        number_from-digits_onto f (n / 10) started (append (digit (n % 10)) acc) rest small
        ∙ (number_from-last true (n / 10) n acc rest
            ∙ ap (λ k. number_from true k (append acc rest)) whole))
]

-- A character of a key that starts no version: neither "/" nor "v".
abbrev is_plain : Char → Bool
is_plain c = not (eqb (code c) b'/') && not (eqb (code c) b'v')

abbrev pub all_plain : String → Bool
all_plain String.[] = true
all_plain (String.◌∷◌ c s) = is_plain c && all_plain s

version_here-plain :
    (c : Char) (s : String) → eqb (code c) b'/' ≡ false → version_here (String.◌∷◌ c s) ≡ none
unfolding version_here
version_here-plain c s h = ground arith

version_match-none :
    (c : Char) (s : String)
    → version_here (String.◌∷◌ c s) ≡ none
    → version_match (String.◌∷◌ c s) ≡ version_match s
unfolding version_match
version_match-none c s p = rw (p, version_match) refl

version_match-plain :
    (h t : String) → all_plain h ≡ true → version_match (append h t) ≡ version_match t
version_match-plain String.[] t p = ap version_match (append.nil t)
version_match-plain (String.◌∷◌ c h) t p =
    ap version_match (append.cons c h t)
    ∙ (version_match-none c (append h t) (version_here-plain c (append h t) (ground arith))
        ∙ version_match-plain h t (ground arith))

abbrev starts_v : String → Bool
starts_v String.[] = false
starts_v (String.◌∷◌ c s) = eqb (code c) b'v'

version_here-slash : (s : String) → starts_v s ≡ false → version_here (String.◌∷◌ "/" s) ≡ none
unfolding version_here
version_here-slash String.[] h = refl
version_here-slash (String.◌∷◌ c s) h = ground arith

starts_v-append :
    (h t : String) → all_plain h ≡ true → starts_v t ≡ false → starts_v (append h t) ≡ false
starts_v-append String.[] t p q = rw (append.nil t) q
starts_v-append (String.◌∷◌ c h) t p q = rw (append.cons c h t) (ground arith)

-- A segment of a key, with the slash in front of it, is no version.
version_match-segment :
    (h t : String)
    → all_plain h ≡ true
    → starts_v t ≡ false
    → version_match (String.◌∷◌ "/" (append h t)) ≡ version_match t
version_match-segment h t p q =
    version_match-none "/" (append h t) (version_here-slash (append h t) (starts_v-append h t p q))
    ∙ version_match-plain h t p

starts_v-slash : (s t : String) → starts_v (append (String.◌∷◌ "/" s) t) ≡ false
starts_v-slash s t = rw (append.cons "/" s t) refl

append-slash : (t : String) → append "/" t ≡ String.◌∷◌ "/" t
append-slash t = append.cons "/" "" t ∙ ap (String.◌∷◌ "/") (append.nil t)

version_here-read :
    (n : ℕ) (r : String)
    → number_from false 0 r ≡ some (n, "/index.html")
    → version_here (String.◌∷◌ "/" (String.◌∷◌ "v" r)) ≡ some n
unfolding version_here
version_here-read n r e = rw (e, version_here) refl

version_match-some :
    (c : Char) (s : String) (n : ℕ)
    → version_here (String.◌∷◌ c s) ≡ some n
    → version_match (String.◌∷◌ c s) ≡ some n
unfolding version_match
version_match-some c s n p = rw (p, version_match) refl

end_of_key : (n : ℕ) → number_from true n "/index.html" ≡ some (n, "/index.html")
unfolding number_from
end_of_key n = refl

version_match-version :
    (n : ℕ)
    → n < 2 ^ 63
    → version_match (append "/v" (append (itoa (pos n)) "/index.html")) ≡ some n
unfolding itoa format_uint
version_match-version n h =
    let r = append (digits_onto 64 10 n "") "/index.html" in
    let small : n < 2 ^ 64 = omega arith in
    let front : append "/v" r ≡ String.◌∷◌ "/" (String.◌∷◌ "v" r) =
      append.cons "/" "v" r
      ∙ ap (String.◌∷◌ "/") (append.cons "v" "" r ∙ ap (String.◌∷◌ "v") (append.nil r)) in
    let read : number_from false 0 r ≡ some (n, "/index.html") =
      number_from-digits_onto 63 n false "" "/index.html" small
      ∙ (ap (number_from true n) (append.nil "/index.html") ∙ end_of_key n) in
    rw front (version_match-some "/" (String.◌∷◌ "v" r) n (version_here-read n r read))

key_version-none : (k : String) → version_match k ≡ none → key_version (some k) ≡ none
unfolding key_version
key_version-none k p = rw (p, key_version) refl

key_version-some :
    (k : String) (n : ℕ) → version_match k ≡ some n → n < 2 ^ 63 → key_version (some k) ≡ some n
unfolding key_version
key_version-some k n p h =
    let small : ltb n (2 ^ 63) ≡ true = ground arith in rw (p, key_version) (rw small refl)

draft_segments : version_match "/draft/index.html" ≡ none
unfolding version_match version_here
draft_segments = refl

asset_segments :
    (sha : String) → all_plain sha ≡ true → version_match (append "/assets/" sha) ≡ none
unfolding version_match
asset_segments sha p =
    let parts : append "/assets/" sha
        ≡ String.◌∷◌ "/" (append "assets" (String.◌∷◌ "/" (append sha ""))) =
      append_assoc "/assets" "/" sha
      ∙ (ap (append "/assets") (append-slash sha)
          ∙ (append.cons "/" "assets" (String.◌∷◌ "/" sha)
              ∙ ap (λ x. String.◌∷◌ "/" (append "assets" (String.◌∷◌ "/" x)))
                  (sym (append_empty sha)))) in
    rw parts (
      version_match-segment "assets" (String.◌∷◌ "/" (append sha "")) refl refl
      ∙ version_match-segment sha "" p refl)

module _ (hash_slug : String → String) where
  version_match-prefix :
      (slug t : String)
      → all_plain (hash_slug slug) ≡ true
      → starts_v t ≡ false
      → version_match (append (prefix_for hash_slug slug) t) ≡ version_match t
  unfolding prefix_for
  version_match-prefix slug t p q =
      let h = hash_slug slug in
      let parts : append (prefix_for hash_slug slug) t
          ≡ append "docs" (String.◌∷◌ "/" (append h t)) =
        append_assoc "docs/" (append h "") t
        ∙ (ap (λ x. append "docs/" (append x t)) (append_empty h)
            ∙ (append_assoc "docs" "/" (append h t)
                ∙ ap (append "docs") (append-slash (append h t)))) in
      rw parts (
        version_match-plain "docs" (String.◌∷◌ "/" (append h t)) refl
        ∙ version_match-segment h t p q)

  -- The key of a version is read back as the version, and neither the key of the draft nor that of an
  -- asset is read as one. The hash of the slug and that of the asset are without "/" and "v", as
  -- hexadecimal digits are, and the version is a 64-bit integer.
  pub key_version-key_for :
      (slug sha : String) (n : ℕ)
      → all_plain (hash_slug slug) ≡ true
      → all_plain sha ≡ true
      → n < 2 ^ 63
      → (key_version (some (key_for hash_slug slug (pos n))) ≡ some n)
        × (key_version (some (draft_key_for hash_slug slug)) ≡ none)
        × (key_version (some (asset_key_for hash_slug slug sha)) ≡ none)
  unfolding key_for draft_key_for asset_key_for
  key_version-key_for slug sha n p q h = (
    key_version-some (key_for hash_slug slug (pos n)) n
        (version_match-prefix slug (append "/v" (append (itoa (pos n)) "/index.html")) p
            (starts_v-slash "v" (append (itoa (pos n)) "/index.html"))
          ∙ version_match-version n h)
        h,
    key_version-none (draft_key_for hash_slug slug)
        (version_match-prefix slug "/draft/index.html" p refl ∙ draft_segments),
    key_version-none (asset_key_for hash_slug slug sha) (
        version_match-prefix slug (append "/assets/" (append sha "")) p
          (starts_v-slash "assets/" (append sha ""))
        ∙ (ap (λ x. version_match (append "/assets/" x)) (append_empty sha)
            ∙ asset_segments sha q)),
  )
