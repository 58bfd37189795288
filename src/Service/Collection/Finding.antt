-- ===== src/Service/Collection/Finding.antt =====
-- internal/service/gc.go, `scanInto`: every content address in a text is found.
use Prim.Native.Char.{Char, code}
use Prim.Native.String.{◌++◌ as append, count}
use Prim.Native.String.append
use Prim.Native.String.count
use octo_doc.Base.{
  ℕ, zero, suc, ◌+◌, ◌-◌, ◌≤◌, String, Bool, true, false, ◌&&◌, List, [], ◌∷◌, ◌≡◌, ◌⊎◌, inl, inr,
  refl, sym, ap, ◌∙◌, eq_iff, arith, leb, ltb, member, All, Bool-cases, if◌then◌else◌,
}
use octo_doc.Base.Slices.{take, drop}
use octo_doc.Service.Collection.Scan.{
  is_hex, add_run, runs_of, hex_runs, add, slide, slide_aligned, max_slide_run, scan_run, scan_runs,
  scan_into,
}

-- texts of hexadecimal characters
unfoldable pub all_hex : String → Bool
unfolding is_hex
all_hex String.[] = true
all_hex (String.◌∷◌ c s) = is_hex (code c) && all_hex s

-- an address: 64 hexadecimal characters
abbrev pub IsAddress : String → Type 0
IsAddress sha = (all_hex sha ≡ true) × (count sha ≡ 64)

-- A text stands somewhere in another.
abbrev pub Within : String → String → Type 0
Within sha s = (l : String) × (r : String) × (s ≡ append l (append sha r))

-- no run of hexadecimal characters is so long that only aligned windows of it are taken
abbrev pub HasShortRuns : String → Type 0
HasShortRuns html = All (λ run. count run ≤ max_slide_run) (hex_runs html)

abbrev WithinOne : String → List String → Type 0
WithinOne sha [] = ⊥
WithinOne sha (s ∷ ss) = Within sha s ⊎ WithinOne sha ss

count-append : (s t : String) → count (append s t) ≡ count s + count t
count-append String.[] t = rw (append.nil t, count.nil) (omega arith)
count-append (String.◌∷◌ c s) t =
    rw (append.cons c s t, count.cons c (append s t), count.cons c s)
      (omega (arith, count-append s t))

Within-count : (sha s : String) → Within sha s → count sha ≤ count s
Within-count sha s (l, r, e) =
    rw e (rw (count-append l (append sha r), count-append sha r) (omega arith))

take-append : (s t : String) → take (count s) (append s t) ≡ s
unfolding take
take-append String.[] t = refl
take-append (String.◌∷◌ c s) t =
    rw (append.cons c s t, count.cons c s) (ap (String.◌∷◌ c) (take-append s t))

Within-long : (sha s : String) → Within sha s → count sha ≡ 64 → 64 ≤ count s
Within-long sha s w n = omega (arith, Within-count sha s w, n)

-- what is found stays found
member-add :
    (k w : String) (refs : List String) → member k refs ≡ true → member k (add w refs) ≡ true
unfolding add
member-add k w refs h = ground arith

add_self : (w : String) (refs : List String) → member w (add w refs) ≡ true
unfolding add
add_self w refs = ground (arith, eq_iff w w)

member-slide :
    (k s : String) (refs : List String) → member k refs ≡ true → member k (slide s refs) ≡ true
unfolding slide
member-slide k String.[] refs h = h
member-slide k (String.◌∷◌ c s) refs h = ground (
  arith,
  member-slide k s (add (take 64 (String.◌∷◌ c s)) refs)
      (member-add k (take 64 (String.◌∷◌ c s)) refs h),
)

member-slide_aligned :
    (k : String) (f : ℕ) (s : String) (refs : List String)
    → member k refs ≡ true
    → member k (slide_aligned f s refs) ≡ true
unfolding slide_aligned
member-slide_aligned k zero s refs h = h
member-slide_aligned k (suc f) s refs h = ground (
  arith,
  member-slide_aligned k f (drop 64 s) (add (take 64 s) refs) (member-add k (take 64 s) refs h),
)

member-scan_run :
    (k run : String) (refs : List String)
    → member k refs ≡ true
    → member k (scan_run run refs) ≡ true
unfolding scan_run
member-scan_run k run refs h = ground (
  arith,
  member-slide k run refs h,
  member-add k (drop (count run - 64) run) (slide_aligned (count run) run refs)
      (member-slide_aligned k (count run) run refs h),
)

member-scan_runs :
    (k : String) (runs refs : List String)
    → member k refs ≡ true
    → member k (scan_runs runs refs) ≡ true
unfolding scan_runs
member-scan_runs k [] refs h = h
member-scan_runs k (run ∷ runs) refs h =
    member-scan_runs k runs (scan_run run refs) (member-scan_run k run refs h)

pub member-scan_into :
    (k html : String) (refs : List String)
    → member k refs ≡ true
    → member k (scan_into html refs) ≡ true
unfolding scan_into
member-scan_into k html refs h = member-scan_runs k (hex_runs html) refs h

slide-cons :
    (c : Char) (s : String) (refs : List String)
    → 64 ≤ count (String.◌∷◌ c s)
    → slide (String.◌∷◌ c s) refs ≡ slide s (add (take 64 (String.◌∷◌ c s)) refs)
unfolding slide
slide-cons c s refs h = ground arith

-- The windows at every offset of a run have every text of 64 characters in it.
slide-finds :
    (sha l r : String) (refs : List String)
    → count sha ≡ 64
    → member sha (slide (append l (append sha r)) refs) ≡ true
slide-finds String.[] String.[] r refs n = absurd (omega (arith, count.nil, n))
slide-finds (String.◌∷◌ c s) String.[] r refs n =
    let sha = String.◌∷◌ c s in
    let whole = String.◌∷◌ c (append s r) in
    let same : append sha r ≡ whole = append.cons c s r in
    let front : take 64 whole ≡ sha =
      ap (λ k. take k whole) (sym n) ∙ (ap (take (count sha)) (sym same) ∙ take-append sha r) in
    let long : 64 ≤ count whole =
      Within-long sha whole ("", r, sym (append.nil (append sha r) ∙ same)) n in
    let found : member sha (add (take 64 whole) refs) ≡ true = rw front (add_self sha refs) in
    rw (append.nil (append sha r), same, slide-cons c (append s r) refs long)
      (member-slide sha (append s r) (add (take 64 whole) refs) found)
slide-finds sha (String.◌∷◌ c l) r refs n =
    let rest = append l (append sha r) in
    let long : 64 ≤ count (String.◌∷◌ c rest) =
      Within-long sha (String.◌∷◌ c rest) (String.◌∷◌ c l, r, sym (append.cons c l (append sha r)))
        n in
    rw (append.cons c l (append sha r), slide-cons c rest refs long)
      (slide-finds sha l r (add (take 64 (String.◌∷◌ c rest)) refs) n)

scan_runs-finds :
    (sha : String) (runs refs : List String)
    → count sha ≡ 64
    → All (λ run. count run ≤ max_slide_run) runs
    → WithinOne sha runs
    → member sha (scan_runs runs refs) ≡ true
unfolding scan_runs scan_run
scan_runs-finds sha [] refs n short found = absurd found
scan_runs-finds sha (run ∷ runs) refs n short (inl (l, r, e)) =
    let here : member sha (slide run refs) ≡ true = rw e (slide-finds sha l r refs n) in
    let short_run : leb (count run) max_slide_run ≡ true = ground (arith, short.0) in
    member-scan_runs sha runs (scan_run run refs) (rw short_run here)
scan_runs-finds sha (run ∷ runs) refs n short (inr later) =
    scan_runs-finds sha runs (scan_run run refs) n short.1 later

-- a run in front of a text of hexadecimal characters grows by it
runs_of-append :
    (sha s : String)
    → all_hex sha ≡ true
    → runs_of (append sha s) ≡ (append sha (runs_of s).0, (runs_of s).1)
unfolding runs_of all_hex
runs_of-append String.[] s h = rw (append.nil s, append.nil (runs_of s).0) refl
runs_of-append (String.◌∷◌ c sha) s h =
    let ih : runs_of (append sha s) ≡ (append sha (runs_of s).0, (runs_of s).1) =
      runs_of-append sha s (ground arith) in
    rw (append.cons c sha s, append.cons c sha (runs_of s).0) (ground (arith, ih))

add_run-WithinOne :
    (sha run : String) (later : List String)
    → count sha ≡ 64
    → Within sha run ⊎ WithinOne sha later
    → WithinOne sha (add_run run later)
unfolding add_run
add_run-WithinOne sha run later n (inl here) =
    let long : ltb (count run) 64 ≡ false = ground (arith, Within-long sha run here n) in
    rw long (inl here)
add_run-WithinOne sha run later n (inr there) = elim (Bool-cases (ltb (count run) 64)) [
  | inl p ↦ rw p there
  | inr p ↦ rw p (inr there)
]

runs_of-finds :
    (before sha s : String)
    → IsAddress sha
    → Within sha (runs_of (append before (append sha s))).0
      ⊎ WithinOne sha (runs_of (append before (append sha s))).1
unfolding runs_of
runs_of-finds String.[] sha s a =
    rw (append.nil (append sha s), runs_of-append sha s a.0)
      (inl ("", (runs_of s).0, sym (append.nil (append sha (runs_of s).0))))
runs_of-finds (String.◌∷◌ c before) sha s a = rw (append.cons c before (append sha s)) (
    grown (is_hex (code c)) (runs_of (append before (append sha s))) (runs_of-finds before sha s a))
  where
    grown :
        (hex : Bool) (found : String × List String)
        → Within sha found.0 ⊎ WithinOne sha found.1
        → (let r : String × List String =
              (if hex then (String.◌∷◌ c found.0, found.1) else ("", add_run found.0 found.1)) in
            Within sha r.0 ⊎ WithinOne sha r.1)
    grown true found (inl (l, r, e)) =
        inl (String.◌∷◌ c l, r, ap (String.◌∷◌ c) e ∙ sym (append.cons c l (append sha r)))
    grown true found (inr later) = inr later
    grown false found h = inr (add_run-WithinOne sha found.0 found.1 a.1 h)

-- Scanning a text whose runs of hexadecimal characters are no longer than 4096 finds every content
-- address in the text, wherever it stands.
pub scan_into-finds :
    (before sha later : String) (refs : List String)
    → IsAddress sha
    → HasShortRuns (append before (append sha later))
    → member sha (scan_into (append before (append sha later)) refs) ≡ true
unfolding scan_into hex_runs
scan_into-finds before sha later refs a short =
    let html = append before (append sha later) in
    scan_runs-finds sha (hex_runs html) refs a.1 short (
      add_run-WithinOne sha (runs_of html).0 (runs_of html).1 a.1
        (runs_of-finds before sha later a))
