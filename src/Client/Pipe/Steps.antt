-- ===== src/Client/Pipe/Steps.antt =====
-- client/conn.go: how concurrent calls share the connection of a shard. Each constructor of `Step` is
-- what one goroutine does between two points where it may be overtaken: a section under `mu`, an
-- operation on a channel, or the end of a blocking call, whose outcome is left open, as is every
-- `ctx.Done()`. A send into `pending` and the write behind it are one section under `mu`; a receive
-- from `pending` and the release of its token, which never waits, are one step. What a response line
-- says is left open; it is known by the connection and its number on it.
use deadhorse.Common.{
  List, [], false, get_elem?, length, none, some, suc, true, ℕ, ◌-◌, ◌<◌, ◌∷◌, ◌≡◌, ◌≢◌,
}
use deadhorse.Client.Pipe.{
  Link, Phase, aborting, acquire, admitted, caller_draining, clear_conn, connected, connecting,
  decoding, deliver, dialing_now, drain_call, enqueue, failed_with, go_to, got_line, install,
  is_current, joined_dial, line_of, new_link, not_written, put_gen, reader_at, reader_draining,
  reading, release, returned, stopped, submitted, take_call, write_done, write_failed,
}

abbrev pub IsAt : Link → ℕ → Phase → Type 0
IsAt s c ph = get_elem? s.calls c ≡ some ph

pub data Step (s : Link) : Link → Type 0 where
  -- ensureConn
  find_closed : (c : ℕ) → IsAt s c connecting → s.closed ≡ true → Step s (go_to c returned s)
  find_conn :
      (c g : ℕ)
      → IsAt s c connecting
      → s.closed ≡ false
      → s.current ≡ some g
      → Step s (go_to c (connected g) s)
  find_dial :
      (c d : ℕ)
      → IsAt s c connecting
      → s.closed ≡ false
      → s.current ≡ none
      → s.dialing ≡ some d
      → Step s (go_to c (joined_dial d) s)
  begin_dial :
      (c : ℕ)
      → IsAt s c connecting
      → s.closed ≡ false
      → s.current ≡ none
      → s.dialing ≡ none
      → Step s (
          go_to c
            (dialing_now s.next_dial)
            (record s { dialing = some s.next_dial; next_dial = suc s.next_dial }))
  see_dial_end :
      (c d : ℕ) → IsAt s c (joined_dial d) → s.dialing ≢ some d → Step s (go_to c connecting s)
  leave_dial : (c d : ℕ) → IsAt s c (joined_dial d) → Step s (go_to c returned s)
  fail_dial :
      (c d : ℕ) → IsAt s c (dialing_now d) → Step s (go_to c returned (record s { dialing = none }))
  dial_after_close :
      (c d : ℕ)
      → IsAt s c (dialing_now d)
      → s.closed ≡ true
      → Step s (go_to c returned (record s { dialing = none }))
  end_dial : (c d : ℕ) → IsAt s c (dialing_now d) → s.closed ≡ false → Step s (install c s)
  -- submit
  get_token :
      (c g : ℕ)
      → IsAt s c (connected g)
      → 0 < (s.gens g).sem
      → Step s (go_to c (admitted g) (put_gen g (acquire (s.gens g)) s))
  leave_queue : (c g : ℕ) → IsAt s c (connected g) → Step s (go_to c returned s)
  find_stale :
      (c g : ℕ)
      → IsAt s c (admitted g)
      → is_current g s ≡ false
      → Step s (go_to c connecting (put_gen g (release (s.gens g)) s))
  send :
      (c g : ℕ)
      → IsAt s c (admitted g)
      → is_current g s ≡ true
      → Step s (go_to c submitted (put_gen g (write_done c (enqueue c (s.gens g))) s))
  fail_send :
      (c g : ℕ)
      → IsAt s c (admitted g)
      → is_current g s ≡ true
      → Step s (go_to c (write_failed g) (put_gen g (not_written (enqueue c (s.gens g))) s))
  -- abort and drainPending, in a call
  abort_call :
      (c g : ℕ) → IsAt s c (write_failed g) → Step s (go_to c (caller_draining g) (clear_conn g s))
  drain_in_call :
      (c g x : ℕ) (rest : List ℕ)
      → IsAt s c (caller_draining g)
      → (s.gens g).pending ≡ x ∷ rest
      → Step s (deliver x (failed_with g) (put_gen g (drain_call rest (s.gens g)) s))
  end_drain_in_call :
      (c g : ℕ)
      → IsAt s c (caller_draining g)
      → (s.gens g).pending ≡ []
      → Step s (go_to c returned s)
  -- exchange
  receive : (c : ℕ) → IsAt s c submitted → s.inbox c ≢ [] → Step s (go_to c returned s)
  give_up : (c : ℕ) → IsAt s c submitted → Step s (go_to c returned s)
  -- readLoop
  receive_line :
      (g : ℕ) → (s.gens g).reader ≡ reading → Step s (put_gen g (reader_at got_line (s.gens g)) s)
  read_error :
      (g : ℕ) → (s.gens g).reader ≡ reading → Step s (put_gen g (reader_at aborting (s.gens g)) s)
  take_pending :
      (g x : ℕ) (rest : List ℕ)
      → (s.gens g).reader ≡ got_line
      → (s.gens g).pending ≡ x ∷ rest
      → Step s (put_gen g (take_call x rest (s.gens g)) s)
  find_nothing :
      (g : ℕ)
      → (s.gens g).reader ≡ got_line
      → (s.gens g).pending ≡ []
      → Step s (put_gen g (reader_at aborting (s.gens g)) s)
  deliver_line :
      (g x : ℕ)
      → (s.gens g).reader ≡ decoding x
      → Step s (
          deliver x
            (line_of g (length (s.gens g).answered - 1))
            (put_gen g (reader_at reading (s.gens g)) s))
  deliver_bad_line :
      (g x : ℕ)
      → (s.gens g).reader ≡ decoding x
      → Step s (deliver x (failed_with g) (put_gen g (reader_at aborting (s.gens g)) s))
  -- abort and drainPending, in the reader
  abort_reader :
      (g : ℕ)
      → (s.gens g).reader ≡ aborting
      → Step s (clear_conn g (put_gen g (reader_at reader_draining (s.gens g)) s))
  drain_in_reader :
      (g x : ℕ) (rest : List ℕ)
      → (s.gens g).reader ≡ reader_draining
      → (s.gens g).pending ≡ x ∷ rest
      → Step s (deliver x (failed_with g) (put_gen g (drain_call rest (s.gens g)) s))
  end_drain_in_reader :
      (g : ℕ)
      → (s.gens g).reader ≡ reader_draining
      → (s.gens g).pending ≡ []
      → Step s (put_gen g (reader_at stopped (s.gens g)) s)
  -- close
  close_link : Step s (record s { closed = true; current = none })

pub data Reach (n : ℕ) : Link → Type 0 where
  start : Reach n (new_link n)
  later : {s t : Link} → Reach n s → Step s t → Reach n t

-- Any number of steps.
pub data Steps (s : Link) : Link → Type 0 where
  here : Steps s s
  next : {t u : Link} → Steps s t → Step t u → Steps s u
