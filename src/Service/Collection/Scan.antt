-- ===== src/Service/Collection/Scan.antt =====
-- internal/service/gc.go, `scanInto`: the content addresses in a text. The set of addresses is a
-- list; `strings.Clone` copies a text and is the identity here.
use Prim.Native.Char.{code}
use Prim.Native.String.{count}
use octo_doc.Base.{
  ℕ, zero, suc, ◌-◌, String, Bool, ◌&&◌, ◌||◌, List, [], ◌∷◌, leb, ltb, member, if◌then◌else◌,
}
use octo_doc.Base.Slices.{take, drop}

-- `[0-9a-f]`
unfoldable pub is_hex : ℕ → Bool
is_hex c = leb b'0' c && leb c b'9' || leb b'a' c && leb c b'f'

unfoldable pub add_run : String → List String → List String
add_run run later = if ltb (count run) 64 then later else run ∷ later

-- the run that a text starts with, and the long runs behind it
unfoldable pub runs_of : String → String × List String
unfolding is_hex add_run
runs_of String.[] = ("", [])
runs_of (String.◌∷◌ c s) =
    let (run, later) = runs_of s in
    if is_hex (code c) then (String.◌∷◌ c run, later) else ("", add_run run later)

-- `hexRunRe.FindAllString(html, -1)`: the maximal runs of 64 hexadecimal characters or more
unfoldable pub hex_runs : String → List String
unfolding runs_of add_run
hex_runs html = let (run, later) = runs_of html in add_run run later

unfoldable pub add : String → List String → List String
add w refs = if member w refs then refs else w ∷ refs

-- the windows at every offset
unfoldable pub slide : String → List String → List String
unfolding add take
slide String.[] refs = refs
slide (String.◌∷◌ c s) refs =
    let refs' = slide s (add (take 64 (String.◌∷◌ c s)) refs) in
    if ltb (count (String.◌∷◌ c s)) 64 then refs else refs'

-- the windows at offsets that are multiples of 64
unfoldable pub slide_aligned : ℕ → String → List String → List String
unfolding add take drop
slide_aligned zero s refs = refs
slide_aligned (suc f) s refs =
    let refs' = slide_aligned f (drop 64 s) (add (take 64 s) refs) in
    if ltb (count s) 64 then refs else refs'

abbrev pub max_slide_run : ℕ
max_slide_run = 4096

unfoldable pub scan_run : String → List String → List String
unfolding slide slide_aligned add drop
scan_run run refs =
    if leb (count run) max_slide_run
    then slide run refs
    else add (drop (count run - 64) run) (slide_aligned (count run) run refs)

unfoldable pub scan_runs : List String → List String → List String
unfolding scan_run
scan_runs [] refs = refs
scan_runs (run ∷ runs) refs = scan_runs runs (scan_run run refs)

unfoldable pub scan_into : String → List String → List String
unfolding scan_runs hex_runs
scan_into html refs = scan_runs (hex_runs html) refs
