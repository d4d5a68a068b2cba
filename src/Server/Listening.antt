-- ===== src/Server/Listening.antt =====
-- server/textserver.go: ListenAndServe and Close, called from different goroutines. Each constructor of
-- `ServerStep` is a section under `listenerMu`, or a call of the package net, whose outcome is left
-- open except that a closed listener accepts no connection, as net documents.
pub mod Shutdown
mod Examples
use deadhorse.Common.{
  Bool, List, false, get_elem?, if◌then◌else◌, replicate, set, some, suc, true, ℕ, ◌≡◌,
}

-- How ListenAndServe returned.
pub data Outcome : Type 0 where
  no_error : Outcome
  listen_error : Outcome
  accept_error : Outcome

-- Where ListenAndServe stands.
pub data ServePhase : Type 0 where
  not_called : ServePhase
  listening : ServePhase
  leaving : ServePhase
  accepting : ServePhase
  accept_failed : ServePhase
  serve_returned : Outcome → ServePhase

-- Where a call of Close stands.
pub data ClosePhase : Type 0 where
  before_close : ClosePhase
  has_listener : ClosePhase
  close_returned : ClosePhase

-- `closed` and `listener` of the server, whether the socket is open, the goroutines, and the number of
-- connections accepted so far.
pub record Listening : Type 0 where
  pub closed : Bool
  pub listener_set : Bool
  pub socket_open : Bool
  pub serve : ServePhase
  pub closers : List ClosePhase
  pub accepted : ℕ

-- `NewTextServer`, with some number of calls of Close to come.
abbrev pub new_listening : ℕ → Listening
new_listening n = record {
  closed = false;
  listener_set = false;
  socket_open = false;
  serve = not_called;
  closers = replicate n before_close;
  accepted = 0;
}

abbrev pub serve_at : ServePhase → Listening → Listening
serve_at ph s = record s { serve = ph }

-- `lis.Close()` in ListenAndServe, when Close was first.
abbrev pub give_up_listener : Listening → Listening
give_up_listener s = record s { socket_open = false; serve = serve_returned no_error }

-- The section of Close under `listenerMu`, and `lis.Close()` after it.
abbrev pub begin_close : ℕ → Listening → Listening
begin_close c s = record s {
  closed = true;
  closers = set s.closers c (if s.listener_set then has_listener else close_returned);
}

abbrev pub end_close : ℕ → Listening → Listening
end_close c s = record s { socket_open = false; closers = set s.closers c close_returned }

pub data ServerStep (s : Listening) : Listening → Type 0 where
  fail_listen : s.serve ≡ not_called → ServerStep s (serve_at (serve_returned listen_error) s)
  listen : s.serve ≡ not_called → ServerStep s (record s { socket_open = true; serve = listening })
  see_close : s.serve ≡ listening → s.closed ≡ true → ServerStep s (serve_at leaving s)
  set_listener :
      s.serve ≡ listening
      → s.closed ≡ false
      → ServerStep s (record s { listener_set = true; serve = accepting })
  leave : s.serve ≡ leaving → ServerStep s (give_up_listener s)
  accept :
      s.serve ≡ accepting
      → s.socket_open ≡ true
      → ServerStep s (record s { accepted = suc s.accepted })
  fail_accept : s.serve ≡ accepting → ServerStep s (serve_at accept_failed s)
  return_closed :
      s.serve ≡ accept_failed
      → s.closed ≡ true
      → ServerStep s (serve_at (serve_returned no_error) s)
  return_error :
      s.serve ≡ accept_failed
      → s.closed ≡ false
      → ServerStep s (serve_at (serve_returned accept_error) s)
  close_begins :
      (c : ℕ) → get_elem? s.closers c ≡ some before_close → ServerStep s (begin_close c s)
  close_ends : (c : ℕ) → get_elem? s.closers c ≡ some has_listener → ServerStep s (end_close c s)

pub data ServerReach (n : ℕ) : Listening → Type 0 where
  created : ServerReach n (new_listening n)
  after : {s t : Listening} → ServerReach n s → ServerStep s t → ServerReach n t

pub data ServerSteps (s : Listening) : Listening → Type 0 where
  no_step : ServerSteps s s
  one_more : {t u : Listening} → ServerSteps s t → ServerStep t u → ServerSteps s u
