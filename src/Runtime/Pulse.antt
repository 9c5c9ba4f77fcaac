-- ===== src/Runtime/Pulse.antt =====
-- The heartbeat of src/server-runtime.mjs over its sweeps.
use factory_network_server.Prelude.{
  ℕ, ℕ_eq, ◌≡◌, refl, ap, Bool, true, List, [], ◌∷◌, arith, contains, distinct, nat_eq, ◌&&◌, ◌||◌,
  not,
}
use factory_network_server.State.{Net}
use factory_network_server.Runtime.{
  terminate_socket, Hearts, set_alive, on_pong, on_pongs, sweep_socket, sweep,
}

abbrev pub is_open_at : ℕ → Hearts → Bool
is_open_at ws h = (h.net.socket ws).is_open

sweep_socket_alive :
    (throws : ℕ → Bool) (w ws : ℕ) (h : Hearts)
    → (sweep_socket throws w h).is_alive ws ≡ (h.is_alive ws && not (nat_eq w ws))
unfolding sweep_socket set_alive
sweep_socket_alive throws w ws h = ground arith

sweep_socket_open :
    (throws : ℕ → Bool) (w ws : ℕ) (h : Hearts)
    → is_open_at ws (sweep_socket throws w h)
      ≡ (is_open_at ws h && not (nat_eq w ws && (not (h.is_alive ws) || throws ws)))
unfolding sweep_socket terminate_socket
sweep_socket_open throws w ws h = ground arith

-- A sweep lowers the flag of each of its sockets.
sweep_alive :
    (throws : ℕ → Bool) (all : List ℕ) (ws : ℕ) (h : Hearts)
    → (sweep throws all h).is_alive ws ≡ (h.is_alive ws && not (contains ws all))
unfolding sweep contains
sweep_alive throws [] ws h = ground arith
sweep_alive throws (w ∷ rest) ws h =
    ground (
      arith,
      sweep_alive throws rest ws (sweep_socket throws w h),
      sweep_socket_alive throws w ws h,
    )

-- It ends those whose flag is down already, and those whose ping throws.
sweep_open :
    (throws : ℕ → Bool) (all : List ℕ) (ws : ℕ) (h : Hearts)
    → distinct all ≡ true
    → is_open_at ws (sweep throws all h)
      ≡ (is_open_at ws h && not (contains ws all && (not (h.is_alive ws) || throws ws)))
unfolding sweep contains
sweep_open throws [] ws h d = ground arith
sweep_open throws (w ∷ rest) ws h d = ground (
  arith,
  d,
  sweep_open throws rest ws (sweep_socket throws w h),
  sweep_socket_open throws w ws h,
  sweep_socket_alive throws w ws h,
)

on_pongs_alive :
    (pongs : List ℕ) (ws : ℕ) (h : Hearts)
    → (on_pongs pongs h).is_alive ws ≡ (h.is_alive ws || contains ws pongs)
unfolding on_pongs on_pong set_alive contains
on_pongs_alive [] ws h = ground arith
on_pongs_alive (w ∷ rest) ws h = ground (arith, on_pongs_alive rest ws (on_pong w h))

on_pongs_net : (pongs : List ℕ) (h : Hearts) → (on_pongs pongs h).net ≡ h.net
unfolding on_pongs on_pong
on_pongs_net [] h = refl
on_pongs_net (w ∷ rest) h = on_pongs_net rest (on_pong w h)

-- A socket of both of two sweeps is open after them exactly if it was open and alive before, it
-- answered in between, and neither ping throws.
pub sweep_twice :
    (throws again : ℕ → Bool) (all pongs : List ℕ) (ws : ℕ) (h : Hearts)
    → distinct all ≡ true
    → contains ws all ≡ true
    → is_open_at ws (sweep again all (on_pongs pongs (sweep throws all h)))
      ≡ (is_open_at ws h && h.is_alive ws && not (throws ws) && contains ws pongs && not (again ws))
sweep_twice throws again all pongs ws h d m =
    let once = sweep throws all h in
    ground (
      arith,
      m,
      sweep_open again all ws (on_pongs pongs once) d,
      on_pongs_alive pongs ws once,
      ap (λ (n : Net). (n.socket ws).is_open) (on_pongs_net pongs once),
      sweep_open throws all ws h d,
      sweep_alive throws all ws h,
    )
