-- ===== src/Server/Listening/Examples.antt =====
-- server/textserver.go: a server that is closed while it accepts.
use deadhorse.Common.{false, get_elem?, refl, some, suc, zero, ℕ, ◌≡◌, ◌≢◌, ◌≤◌, ◌⊎◌}
use deadhorse.Server.Listening.{
  Listening, Outcome, ServerReach, ServerStep, ServerSteps, accept, accept_error, after,
  close_begins, close_ends, created, fail_accept, has_listener, listen, no_step, one_more,
  return_closed, serve_returned, set_listener,
}
use deadhorse.Server.Listening.Shutdown.{close_is_final, serve_turn, serve_turns}

abbrev serving : (s : Listening) × ServerReach 1 s
serving =
    (_, after (after (after created (listen refl)) (set_listener refl refl)) (accept refl refl))

abbrev shut_down : (s : Listening) × ServerReach 1 s
shut_down = (_, after (after serving.1 (close_begins 0 refl)) (close_ends 0 refl))

abbrev served : (t : Listening) × ServerSteps shut_down.0 t
served = (_, one_more (one_more no_step (fail_accept refl)) (return_closed refl refl))

no_closer : (c : ℕ) → get_elem? shut_down.0.closers c ≢ some has_listener
no_closer zero e = cc
no_closer (suc c) e = cc

close_is_final_example :
    (served.0.accepted ≡ shut_down.0.accepted)
    × (served.0.serve ≡ serve_returned accept_error
        → shut_down.0.serve ≡ serve_returned accept_error)
    × (serve_turns served.1 ≤ 3)
    × (((o : Outcome) × (served.0.serve ≡ serve_returned o) × (served.0.socket_open ≡ false))
        ⊎ ((u : Listening) × (st : ServerStep served.0 u) × (serve_turn st ≡ 1)))
close_is_final_example = close_is_final shut_down.1 refl no_closer served.1
