-- ===== src/Guard.antt =====
-- What stands between a socket and the router: the message rate limiter and the origin check of
-- src/connection-guard.mjs, and the once-only disconnect of src/connection-lifecycle.mjs.
pub mod Rate
pub mod Origins
pub mod Disconnect
use factory_network_server.Prelude.{
  ℕ, ◌+◌, Bool, true, false, Option, none, some, List, [], ◌∷◌, map, filter, if◌then◌else◌, leb,
  nat_eq, ◌||◌, not, contains,
}
use factory_network_server.Prelude.Texts.{Text, Text_eq}
use factory_network_server.Js.Strings.{trim, split}

-- The closure's variables, with the limit and the window that it was made with.
pub record Limiter : Type 0 where
  pub limit : ℕ
  pub window_ms : ℕ
  pub window_started_at : ℕ
  pub count : ℕ

unfoldable pub create_message_rate_limiter : ℕ → ℕ → ℕ → Limiter
create_message_rate_limiter limit window_ms now = record {
  limit = limit;
  window_ms = window_ms;
  window_started_at = now;
  count = 0;
}

-- `current - windowStartedAt >= windowMs`, also for a clock that went back.
unfoldable pub roll_window : ℕ → Limiter → Limiter
roll_window current l =
    if leb (l.window_started_at + l.window_ms) current
    then record l { window_started_at = current; count = 0 }
    else l

unfoldable pub take : ℕ → Limiter → Limiter × Bool
unfolding roll_window
take current l =
    let m = roll_window current l in
    let n = record m { count = m.count + 1 } in (n, leb n.limit 0 || leb n.count n.limit)

-- `take` at each of the times: how many messages pass.
unfoldable pub passed : List ℕ → Limiter → ℕ
passed [] l = 0
passed (t ∷ ts) l =
    let (m, ok) = take t l in let rest = passed ts m in if ok then rest + 1 else rest

abbrev pub is_full : Text → Bool
is_full [] = false
is_full (c ∷ s) = true

-- `.split(",").map(trim).filter(Boolean)`
unfoldable pub parse_allowed_origins : Text → List Text
parse_allowed_origins value = filter is_full (map trim (split 44 value))

-- `origin` is `none` where the request has no such header.
unfoldable pub is_origin_allowed : Option Text → List Text → Bool
is_origin_allowed origin [] = true
is_origin_allowed none (a ∷ allowed) = false
is_origin_allowed (some o) (a ∷ allowed) = contains o (a ∷ allowed)

-- The closure's flag beside the reasons for which `onDisconnect` has been called.
pub record Once (R : Type 0) : Type 0 where
  pub disconnected : Bool
  pub calls : List R

unfoldable pub create_disconnect_once : {R : Type 0} → Once R
create_disconnect_once = record { disconnected = false; calls = [] }

unfoldable pub disconnect_once : {R : Type 0} → R → Once R → Once R × Bool
disconnect_once reason o =
    if o.disconnected
    then (o, false)
    else (record o { disconnected = true; calls = reason ∷ o.calls }, true)

unfoldable pub disconnect_all : {R : Type 0} → List R → Once R → Once R
disconnect_all [] o = o
disconnect_all (r ∷ rs) o = disconnect_all rs (disconnect_once r o).0
