-- ===== src/Client/Pipe/Examples.antt =====
-- client/conn.go: concrete interleavings of calls on one connection.
use deadhorse.Common.{
  List, [], arith, get_elem?, length, none, refl, some, true, ℕ, ◌*◌, ◌++◌, ◌+◌, ◌<◌, ◌∷◌, ◌≡◌, ◌≢◌,
  ◌≤◌, ◌⊎◌,
}
use deadhorse.Client.Pipe.{
  Link, admitted, connecting, decoding, dialing_now, go_to, got_line, joined_dial, line_of,
  max_in_flight, put, submitted,
}
use deadhorse.Client.Pipe.Mismatch.{line_misdelivered}
use deadhorse.Client.Pipe.Slots.{held, no_wait}
use deadhorse.Client.Pipe.Dials.{one_dial}
use deadhorse.Client.Pipe.Answers.{answers_own_call}
use deadhorse.Client.Pipe.Liveness.{answered_soon}
use deadhorse.Client.Pipe.Ends.{reader_ends}
use deadhorse.Client.Pipe.Readers.{is_idle}
use deadhorse.Client.Pipe.Turns.{CanTurn, turns}
use deadhorse.Client.Pipe.Steps.{
  IsAt, Reach, Step, Steps, abort_call, abort_reader, begin_dial, close_link, deliver_line,
  drain_in_reader, end_dial, end_drain_in_reader, fail_send, find_conn, get_token, here, later,
  next, read_error, receive_line, send, start, take_pending,
}
use deadhorse.Client.Pipe.Deliveries.{delivers_once}
use deadhorse.Client.Pipe.Copies.{waiting}

-- Of three calls, the first dials.
abbrev dialed : (s : Link) × Reach 3 s
unfolding put
dialed = (_, later (later start (begin_dial 0 refl refl refl refl)) (end_dial 0 0 refl refl))

-- Two of them are sent.
abbrev two_sent : (s : Link) × Reach 3 s
unfolding put
two_sent = (
  _,
  later
      (later
        (later (later (later dialed.1 (get_token 0 0 refl (omega arith))) (send 0 0 refl refl))
          (find_conn 1 0 refl refl refl))
        (get_token 1 0 refl (omega arith)))
      (send 1 0 refl refl),
)

-- The write of the third fails.
abbrev third_failed : (s : Link) × Reach 3 s
unfolding put
third_failed = (
  _,
  later (later (later two_sent.1 (find_conn 2 0 refl refl refl)) (get_token 2 0 refl (omega arith)))
      (fail_send 2 0 refl refl),
)

-- It gives the connection up while the reader holds a line.
abbrev given_up : (s : Link) × Reach 3 s
unfolding put
given_up = (_, later (later third_failed.1 (receive_line 0 refl)) (abort_call 2 0 refl))

-- The second call is answered with the line of the first.
given_up_drained : (given_up.0.gens 0).drained ≡ 0
unfolding put
given_up_drained = refl

given_up_reader : (given_up.0.gens 0).reader ≡ got_line
unfolding put
given_up_reader = refl

given_up_last : (given_up.0.gens 0).queued ≡ (given_up.0.gens 0).sent ++ 2 ∷ []
unfolding put
given_up_last = refl

given_up_pending : (given_up.0.gens 0).pending ≡ 0 ∷ 1 ∷ 2 ∷ []
unfolding put
given_up_pending = refl

line_misdelivered_example :
    (t : Link) × Steps given_up.0 t
    × ((i : ℕ) × (get_elem? (t.inbox 1) i ≡ some (line_of 0 (length (given_up.0.gens 0).answered))))
    × (get_elem? (t.gens 0).sent (length (given_up.0.gens 0).answered) ≡ some 0)
    × (◌≢◌ {A = ℕ} 0 1)
    × IsAt t 1 submitted
unfolding given_up
line_misdelivered_example =
    line_misdelivered 0 2 0 1 (2 ∷ []) given_up.1 given_up_drained given_up_last given_up_reader
      refl given_up_pending refl

no_wait_example :
    ((given_up.0.gens 0).sem + held 0 given_up.0.calls + length (given_up.0.gens 0).pending
      ≡ max_in_flight)
    × ((c : ℕ)
        → IsAt given_up.0 c (admitted 0)
        → (length (given_up.0.gens 0).pending < max_in_flight)
          × ((given_up.0.gens 0).sem < max_in_flight))
    × ((given_up.0.gens 0).pending ≢ [] → (given_up.0.gens 0).sem < max_in_flight)
no_wait_example = no_wait 0 given_up.1

delivers_once_example :
    ((c : ℕ) → length (given_up.0.inbox c) ≤ 1)
    × ((g c : ℕ) (rest : List ℕ) → (given_up.0.gens g).pending ≡ c ∷ rest → given_up.0.inbox c ≡ [])
    × ((g c : ℕ) → (given_up.0.gens g).reader ≡ decoding c → given_up.0.inbox c ≡ [])
    × ((c : ℕ)
        → IsAt given_up.0 c submitted
        → (length (given_up.0.inbox c) ≡ 1)
          ⊎ ((g : ℕ) × (g < given_up.0.next_gen) × (0 < waiting c (given_up.0.gens g))))
delivers_once_example = delivers_once given_up.1

one_dial_example :
    ((c c' d d' : ℕ) → IsAt dialed.0 c (dialing_now d) → IsAt dialed.0 c' (dialing_now d') → c ≡ c')
    × ((c d : ℕ) → IsAt dialed.0 c (dialing_now d) → dialed.0.current ≡ none)
    × ((c d : ℕ)
        → IsAt dialed.0 c (joined_dial d)
        → ((c' : ℕ) × IsAt dialed.0 c' (dialing_now d))
          ⊎ Step dialed.0 (go_to c connecting dialed.0))
    × (dialed.0.closed ≡ true → dialed.0.current ≡ none)
one_dial_example = one_dial dialed.1

-- The reader takes the first call, and gives it its line.
abbrev first_answered : (s : Link) × Reach 3 s
unfolding put
first_answered = (
  _,
  later (later (later two_sent.1 (receive_line 0 refl)) (take_pending 0 0 (1 ∷ []) refl refl))
      (deliver_line 0 0 refl),
)

first_answered_drained : (first_answered.0.gens 0).drained ≡ 0
unfolding put
first_answered_drained = refl

first_answered_whole : (first_answered.0.gens 0).failed_writes ≡ 0
unfolding put
first_answered_whole = refl

first_answered_inbox : get_elem? (first_answered.0.inbox 0) 0 ≡ some (line_of 0 0)
unfolding put
first_answered_inbox = refl

answers_own_call_example : get_elem? (first_answered.0.gens 0).sent 0 ≡ some 0
answers_own_call_example =
    answers_own_call 0 0 0 0 first_answered.1 first_answered_whole first_answered_drained
      first_answered_inbox

-- The connection is closed, and the reader gives it up and drains the call that is left.
abbrev after_close : (s : Link) × Reach 3 s
unfolding put
after_close = (_, later first_answered.1 close_link)

abbrev after_drain : (t : Link) × Steps after_close.0 t
unfolding put
after_drain = (
  _,
  next
      (next (next (next here (read_error 0 refl)) (abort_reader 0 refl))
        (drain_in_reader 0 1 [] refl refl))
      (end_drain_in_reader 0 refl refl),
)

reader_ends_example :
    ((after_drain.0.gens 0).queued ≡ (after_close.0.gens 0).queued)
    × ((after_drain.0.gens 0).sent ≡ (after_close.0.gens 0).sent)
    × (turns 0 after_drain.1 ≤ 773)
    × (((is_idle (after_drain.0.gens 0).reader ≡ true) × ((after_drain.0.gens 0).pending ≡ []))
        ⊎ CanTurn after_drain.0 0)
unfolding after_close
reader_ends_example = reader_ends 0 after_close.1 (omega arith) refl after_drain.1

after_close_pending : get_elem? (after_close.0.gens 0).pending 0 ≡ some 1
unfolding put
after_close_pending = refl

answered_soon_example :
    (after_drain.0.inbox 1 ≢ []) ⊎ ((turns 0 after_drain.1 < 3 * 0 + 6) × CanTurn after_drain.0 0)
answered_soon_example = answered_soon 0 1 0 after_close.1 after_close_pending after_drain.1
