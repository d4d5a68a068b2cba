-- ===== src/Server/Listening/Shutdown.antt =====
-- What Close does to a server, whenever it comes.
use deadhorse.Common.{
  Bool, Bool-cases, arith, false, get_elem?, get_elem?-set_self, inl, inr, refl, some, true, ℕ, ◌+◌,
  ◌∙◌, ◌≡◌, ◌≢◌, ◌≤◌, ◌⊎◌,
}
use deadhorse.Server.Listening.{
  Listening, Outcome, ServePhase, ServerReach, ServerStep, ServerSteps, accept, accept_error,
  accept_failed, accepting, after, before_close, begin_close, close_begins, close_ends, created,
  fail_accept, fail_listen, has_listener, leave, leaving, listen, listening, no_error, no_step,
  not_called, one_more, return_closed, return_error, see_close, serve_returned, set_listener,
}

-- ListenAndServe has the socket in hand, and closes it or sets it as the listener.
abbrev pub HasSocket : ServePhase → Type 0
HasSocket listening = Unit
HasSocket leaving = Unit
HasSocket _ = ⊥

-- An open socket is in the hand of ListenAndServe, or it is the listener; and once Close was called, in
-- the first case ListenAndServe closes it, and in the second a call of Close.
record Sound (s : Listening) : Type 0 where
  pub known : s.socket_open ≡ true → (s.listener_set ≡ true) ⊎ HasSocket s.serve
  pub unbound : s.serve ≡ not_called → s.socket_open ≡ false
  pub closing :
      s.closed ≡ true
      → s.socket_open ≡ true
      → ((c : ℕ) × (get_elem? s.closers c ≡ some has_listener)) ⊎ HasSocket s.serve
  pub told : s.serve ≡ leaving → s.closed ≡ true
  pub given_up : s.serve ≡ serve_returned no_error → s.closed ≡ true

-- In a phase in which ListenAndServe does not have the socket.
without : {A B : Type 0} {ph q : ServePhase} → q ≡ ph → ¬ HasSocket ph → A ⊎ HasSocket q → A ⊎ B
without e free (inl a) = inl a
without e free (inr h) = absurd (free (rw e at h))

closed_socket : {b : Bool} → b ≡ false → b ≡ true → ⊥
closed_socket e f = cc

ServerStep-Sound : {s t : Listening} → ServerStep s t → Sound s → Sound t
ServerStep-Sound {s} (fail_listen e) k = record {
  known = λ f. absurd (closed_socket (k.unbound e) f);
  unbound = λ f. cc;
  closing = λ f g. absurd (closed_socket (k.unbound e) g);
  told = λ f. cc;
  given_up = λ f. cc;
}
ServerStep-Sound {s} (listen e) k = record {
  known = λ f. inr tt;
  unbound = λ f. cc;
  closing = λ f g. inr tt;
  told = λ f. cc;
  given_up = λ f. cc;
}
ServerStep-Sound {s} (see_close e h) k = record {
  known = λ f. inr tt;
  unbound = λ f. cc;
  closing = λ f g. inr tt;
  told = λ f. h;
  given_up = λ f. cc;
}
ServerStep-Sound {s} (set_listener e h) k = record {
  known = λ f. inl refl;
  unbound = λ f. cc;
  closing = λ f g. absurd (closed_socket h f);
  told = λ f. cc;
  given_up = λ f. cc;
}
ServerStep-Sound {s} (leave e) k = record {
  known = λ f. cc;
  unbound = λ f. cc;
  closing = λ f g. cc;
  told = λ f. cc;
  given_up = λ f. k.told e;
}
ServerStep-Sound {s} (accept e h) k = record {
  known = k.known;
  unbound = k.unbound;
  closing = k.closing;
  told = k.told;
  given_up = k.given_up;
}
ServerStep-Sound {s} (fail_accept e) k = record {
  known = λ f. without e (λ h. h) (k.known f);
  unbound = λ f. cc;
  closing = λ f g. without e (λ h. h) (k.closing f g);
  told = λ f. cc;
  given_up = λ f. cc;
}
ServerStep-Sound {s} (return_closed e h) k = record {
  known = λ f. without e (λ q. q) (k.known f);
  unbound = λ f. cc;
  closing = λ f g. without e (λ q. q) (k.closing f g);
  told = λ f. cc;
  given_up = λ f. h;
}
ServerStep-Sound {s} (return_error e h) k = record {
  known = λ f. without e (λ q. q) (k.known f);
  unbound = λ f. cc;
  closing = λ f g. absurd (closed_socket h f);
  told = λ f. cc;
  given_up = λ f. cc;
}
ServerStep-Sound {s} (close_begins c at) k = record {
  known = k.known;
  unbound = k.unbound;
  closing = λ f g. begun g;
  told = λ f. refl;
  given_up = λ f. refl;
}
  where
    begun :
        s.socket_open ≡ true
        → ((i : ℕ) × (get_elem? (begin_close c s).closers i ≡ some has_listener))
          ⊎ HasSocket s.serve
    begun g = elim (k.known g) [
      | inl is_set ↦
          inl (c, rw is_set (get_elem?-set_self s.closers c has_listener before_close at))
      | inr in_hand ↦ inr in_hand
    ]
ServerStep-Sound {s} (close_ends c at) k = record {
  known = λ f. cc;
  unbound = λ f. refl;
  closing = λ f g. cc;
  told = k.told;
  given_up = k.given_up;
}

ServerReach-Sound : {n : ℕ} {s : Listening} → ServerReach n s → Sound s
ServerReach-Sound created = record {
  known = λ f. cc;
  unbound = λ f. refl;
  closing = λ f g. cc;
  told = λ f. cc;
  given_up = λ f. cc;
}
ServerReach-Sound (after r st) = ServerStep-Sound st (ServerReach-Sound r)

-- 1 for a step of ListenAndServe.
abbrev pub serve_turn : {s t : Listening} → ServerStep s t → ℕ
serve_turn (close_begins c at) = 0
serve_turn (close_ends c at) = 0
serve_turn _ = 1

abbrev pub serve_turns : {s t : Listening} → ServerSteps s t → ℕ
serve_turns no_step = 0
serve_turns (one_more steps st) = serve_turns steps + serve_turn st

-- The steps that ListenAndServe has left after Close.
abbrev left : ServePhase → ℕ
left not_called = 3
left listening = 2
left leaving = 1
left accepting = 2
left accept_failed = 1
left (serve_returned _) = 0

-- Close was called, and no socket is open but one that ListenAndServe has in hand.
abbrev IsShut : Listening → Type 0
IsShut s = (s.closed ≡ true) × (s.socket_open ≡ true → HasSocket s.serve)

-- What is left of a server that is shut.
abbrev StaysShut : ℕ → Listening → Listening → Type 0
StaysShut turn s t =
    IsShut t
    × (t.accepted ≡ s.accepted)
    × (t.serve ≡ serve_returned accept_error → s.serve ≡ serve_returned accept_error)
    × (left t.serve + turn ≤ left s.serve)

no_socket :
    {b : Bool} {q ph : ServePhase}
    → q ≡ ph
    → ¬ HasSocket ph
    → (b ≡ true → HasSocket q)
    → b ≡ true
    → ⊥
no_socket e free keeps is_open = free (rw e at (keeps is_open))

ServerStep-StaysShut :
    {s t : Listening} (st : ServerStep s t) → IsShut s → StaysShut (serve_turn st) s t
ServerStep-StaysShut (fail_listen e) (h, keeps) =
    ((h, no_socket e (λ q. q) keeps), refl, (λ f. cc), rw e (omega arith))
ServerStep-StaysShut (listen e) (h, keeps) = ((h, λ _. tt), refl, (λ f. cc), rw e (omega arith))
ServerStep-StaysShut (see_close e _) (h, keeps) =
    ((h, λ _. tt), refl, (λ f. cc), rw e (omega arith))
ServerStep-StaysShut (set_listener e is_open) (h, keeps) = absurd (closed_socket is_open h)
ServerStep-StaysShut (leave e) (h, keeps) = ((h, λ f. cc), refl, (λ f. cc), rw e (omega arith))
ServerStep-StaysShut (accept e is_open) (h, keeps) = absurd (no_socket e (λ q. q) keeps is_open)
ServerStep-StaysShut (fail_accept e) (h, keeps) =
    ((h, no_socket e (λ q. q) keeps), refl, (λ f. cc), rw e (omega arith))
ServerStep-StaysShut (return_closed e _) (h, keeps) =
    ((h, no_socket e (λ q. q) keeps), refl, (λ f. cc), rw e (omega arith))
ServerStep-StaysShut (return_error e is_open) (h, keeps) = absurd (closed_socket is_open h)
ServerStep-StaysShut (close_begins c at) (h, keeps) = ((refl, keeps), refl, (λ f. f), omega arith)
ServerStep-StaysShut (close_ends c at) (h, keeps) = ((h, λ f. cc), refl, (λ f. f), omega arith)

ServerSteps-StaysShut :
    {s t : Listening} (steps : ServerSteps s t) → IsShut s → StaysShut (serve_turns steps) s t
ServerSteps-StaysShut no_step shut = (shut, refl, (λ f. f), omega arith)
ServerSteps-StaysShut (one_more steps st) shut =
    let (shut', same, told, le) = ServerSteps-StaysShut steps shut in
    let (shut'', same', told', le') = ServerStep-StaysShut st shut' in
    (shut'', same' ∙ same, (λ f. told (told' f)), omega arith)

left_le : (ph : ServePhase) → left ph ≤ 3
left_le not_called = omega arith
left_le listening = omega arith
left_le leaving = omega arith
left_le accepting = omega arith
left_le accept_failed = omega arith
left_le (serve_returned o) = omega arith

-- ListenAndServe has returned with no socket open, or can go on.
ends_or_goes_on :
    (t : Listening)
    → IsShut t
    → ((o : Outcome) × (t.serve ≡ serve_returned o) × (t.socket_open ≡ false))
      ⊎ ((u : Listening) × (st : ServerStep t u) × (serve_turn st ≡ 1))
ends_or_goes_on t (h, keeps) = by_phase t.serve refl
  where
    by_phase :
        (ph : ServePhase)
        → t.serve ≡ ph
        → ((o : Outcome) × (t.serve ≡ serve_returned o) × (t.socket_open ≡ false))
          ⊎ ((u : Listening) × (st : ServerStep t u) × (serve_turn st ≡ 1))
    by_phase not_called e = inr (_, listen e, refl)
    by_phase listening e = inr (_, see_close e h, refl)
    by_phase leaving e = inr (_, leave e, refl)
    by_phase accepting e = inr (_, fail_accept e, refl)
    by_phase accept_failed e = inr (_, return_closed e h, refl)
    by_phase (serve_returned o) e = elim (Bool-cases t.socket_open) [
      | inl is_open ↦ absurd (no_socket e (λ q. q) keeps is_open)
      | inr shut ↦ inl (o, e, shut)
    ]

-- Close is final, whenever it comes, also before or while ListenAndServe binds: in every reachable
-- state after a call of Close in which no call of it is about to close the listener, and whatever
-- steps follow, no connection is accepted any more; ListenAndServe does not return an error of
-- Accept, unless it had; it takes at most 3 more steps, and either it has returned with no socket
-- left open, or it can take one.
pub close_is_final :
    {n : ℕ} {s t : Listening}
    → ServerReach n s
    → s.closed ≡ true
    → ((c : ℕ) → get_elem? s.closers c ≢ some has_listener)
    → (steps : ServerSteps s t)
    → (t.accepted ≡ s.accepted)
      × (t.serve ≡ serve_returned accept_error → s.serve ≡ serve_returned accept_error)
      × (serve_turns steps ≤ 3)
      × (((o : Outcome) × (t.serve ≡ serve_returned o) × (t.socket_open ≡ false))
          ⊎ ((u : Listening) × (st : ServerStep t u) × (serve_turn st ≡ 1)))
close_is_final {s} {t} r h no_closer steps =
    let (shut, same, told, le) = ServerSteps-StaysShut steps at_start in
    (same, told, omega (arith, left_le s.serve), ends_or_goes_on t shut)
  where
    at_start : IsShut s
    at_start = (
      h,
      λ is_open. elim ((ServerReach-Sound r).closing h is_open) [
        | inl (c, at) ↦ absurd (no_closer c at)
        | inr in_hand ↦ in_hand
      ],
    )

-- ListenAndServe returns no error only after Close.
no_error_closed :
    {n : ℕ} {s : Listening} → ServerReach n s → s.serve ≡ serve_returned no_error → s.closed ≡ true
no_error_closed r e = (ServerReach-Sound r).given_up e
