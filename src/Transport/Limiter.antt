-- ===== src/Transport/Limiter.antt =====
-- internal/transport/httpx/middleware.go: the fixed-window rate limiter. Times and the length of a
-- window are nanoseconds.
pub mod Bound
use octo_doc.Base.{
  ℕ, ◌+◌, ◌-◌, ◌/◌, ◌^◌, String, Bool, true, false, List, [], ◌∷◌, Option, none, some, ltb, eqb,
  length, if◌then◌else◌,
}
use octo_doc.Base.Dict.{Dict, lookup, insert}
use octo_doc.Base.Slices.{take}
use octo_doc.Base.Text.{concat}

pub record Window : Type 0 where
  pub count : ℕ
  pub reset_at : ℕ

-- `max` is 0 for a limit that is 0 or negative.
pub record Limiter : Type 0 where
  pub hits : Dict Window
  pub window : ℕ
  pub max : ℕ

-- a request as the limiter sees it
pub record Hit : Type 0 where
  pub token : String
  pub ip : String
  pub now : ℕ

-- the first 16 characters of the token, which is ASCII, and the address
unfoldable pub hit_key : Hit → String
unfolding take
hit_key h = concat (take 16 h.token ∷ "|" ∷ h.ip ∷ [])

-- the window of the key, or a new one
unfoldable pub window_for : Limiter → Hit → Option Window → Window
window_for rl h none = record { count = 0; reset_at = h.now + rl.window }
window_for rl h (some w) =
    if ltb w.reset_at h.now then record { count = 0; reset_at = h.now + rl.window } else w

-- the windows that are not over
unfoldable pub sweep : ℕ → Dict Window → Dict Window
sweep now [] = []
sweep now ((k, w) ∷ ws) =
    let rest = sweep now ws in if ltb w.reset_at now then rest else (k, w) ∷ rest

unfoldable pub swept : ℕ → Dict Window → Dict Window
unfolding sweep
swept now hits = if ltb 10000 (length hits) then sweep now hits else hits

-- `allow`: `none` lets the request through, `some` has the seconds until the window is over.
unfoldable pub allow : Hit → Limiter → Option ℕ × Limiter
unfolding hit_key window_for swept
allow h rl =
    if eqb rl.max 0
    then (none, rl)
    else (let w = window_for rl h (lookup (hit_key h) rl.hits) in
        let hits = insert (hit_key h) (record w { count = w.count + 1 }) rl.hits in
        if ltb rl.max (w.count + 1)
        then (some ((w.reset_at - h.now) / 10 ^ 9 + 1), record rl { hits = hits })
        else (none, record rl { hits = swept h.now hits }))
