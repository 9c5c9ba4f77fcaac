-- ===== src/Guard/Disconnect.antt =====
-- `createDisconnectOnce` of src/connection-lifecycle.mjs.
use factory_network_server.Prelude.{◌≡◌, refl, true, false, List, [], ◌∷◌, arith}
use factory_network_server.Guard.{Once, create_disconnect_once, disconnect_once, disconnect_all}

once_more :
    {R : Type 0} (r : R) (o : Once R) → o.disconnected ≡ true → disconnect_once r o ≡ (o, false)
unfolding disconnect_once
once_more r o h = ground arith

again_does_nothing :
    {R : Type 0} (rs : List R) (o : Once R) → o.disconnected ≡ true → disconnect_all rs o ≡ o
unfolding disconnect_all
again_does_nothing [] o h = refl
again_does_nothing (r ∷ rs) o h = rw (once_more r o h) (again_does_nothing rs o h)

-- Of all the events that end a socket, the first alone runs the cleanup, with its reason.
pub disconnect_all-once :
    {R : Type 0} (r : R) (rs : List R)
    → disconnect_all (r ∷ rs) create_disconnect_once
      ≡ record { disconnected = true; calls = r ∷ [] }
unfolding disconnect_all disconnect_once create_disconnect_once
disconnect_all-once r rs = again_does_nothing rs _ refl
