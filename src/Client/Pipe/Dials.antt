-- ===== src/Client/Pipe/Dials.antt =====
-- Dials: who connects a shard, and when.
use deadhorse.Common.{
  ==_iff, Bool, Bool-cases, List, Option, ap, false, get_elem?, get_elem?-set_cases,
  get_elem?-set_ne, get_elem?-set_self, inl, inr, none, refl, replicate, set, some, sym, true, ℕ,
  ◌==◌, ◌∙◌, ◌≡◌, ◌≢◌, ◌⊎◌,
}
use deadhorse.Client.Pipe.{
  Link, Phase, admitted, caller_draining, clear_conn, connected, connecting, dialing_now, go_to,
  is_current, joined_dial, put_gen, reader_at, reader_draining, returned, submitted, write_failed,
}
use deadhorse.Client.Pipe.Known.{replicate-connecting}
use deadhorse.Client.Pipe.Steps.{
  IsAt, Reach, Step, abort_call, abort_reader, begin_dial, close_link, deliver_bad_line,
  deliver_line, dial_after_close, drain_in_call, drain_in_reader, end_dial, end_drain_in_call,
  end_drain_in_reader, fail_dial, fail_send, find_closed, find_conn, find_dial, find_nothing,
  find_stale, get_token, give_up, later, leave_dial, leave_queue, read_error, receive, receive_line,
  see_dial_end, send, start, take_pending,
}

abbrev is_dialing : Phase → Bool
is_dialing (dialing_now _) = true
is_dialing _ = false

-- One call dials while a dial is under way, and none otherwise; there is no connection meanwhile, and
-- none after `close`.
record DialsAlone (calls : List Phase) (dialing current : Option ℕ) (closed : Bool) : Type 0 where
  pub one :
      (c c' d d' : ℕ)
      → get_elem? calls c ≡ some (dialing_now d)
      → get_elem? calls c' ≡ some (dialing_now d')
      → c ≡ c'
  pub known : (c d : ℕ) → get_elem? calls c ≡ some (dialing_now d) → dialing ≡ some d
  pub someone : (d : ℕ) → dialing ≡ some d → (c : ℕ) × get_elem? calls c ≡ some (dialing_now d)
  pub free : (d : ℕ) → dialing ≡ some d → current ≡ none
  pub shut : closed ≡ true → current ≡ none

abbrev Alone : Link → Type 0
Alone s = DialsAlone s.calls s.dialing s.current s.closed

-- A call that is not dialing moves to a phase in which it is not.
moves-DialsAlone :
    {calls : List Phase} {dialing current : Option ℕ} {closed : Bool} (c : ℕ) (old new : Phase)
    → get_elem? calls c ≡ some old
    → is_dialing old ≡ false
    → is_dialing new ≡ false
    → DialsAlone calls dialing current closed
    → DialsAlone (set calls c new) dialing current closed
moves-DialsAlone {calls} c old new at idle idle' a = record {
  one = λ i j d d' e f. a.one i j d d' (before i d e) (before j d' f);
  known = λ i d e. a.known i d (before i d e);
  someone = λ d e.
      let (i, dials) = a.someone d e in
      (i, get_elem?-set_ne calls c i new (apart i d dials) ∙ dials);
  free = a.free;
  shut = a.shut;
}
  where
    before :
        (i d : ℕ)
        → get_elem? (set calls c new) i ≡ some (dialing_now d)
        → get_elem? calls i ≡ some (dialing_now d)
    before i d e = elim (get_elem?-set_cases calls c i new (dialing_now d) e) [
      | inl (_, same) ↦ let q = rw (← same) at idle' in cc
      | inr (_, dials) ↦ dials
    ]

    apart : (i d : ℕ) → get_elem? calls i ≡ some (dialing_now d) → c ≢ i
    apart i d dials same =
        let old_dials : some old ≡ some (dialing_now d) =
          sym at ∙ ap (get_elem? calls) same ∙ dials in
        let q : old ≡ dialing_now d = cc in let r = rw q at idle in cc

-- The call that dials is done with it.
ends-DialsAlone :
    {calls : List Phase} {dialing current current' : Option ℕ} {closed : Bool} (c d : ℕ)
    (new : Phase)
    → get_elem? calls c ≡ some (dialing_now d)
    → is_dialing new ≡ false
    → (closed ≡ true → current' ≡ none)
    → DialsAlone calls dialing current closed
    → DialsAlone (set calls c new) none current' closed
ends-DialsAlone {calls} c d new at idle shut a = record {
  one = λ i j d' d'' e f. absurd (nobody i d' e);
  known = λ i d' e. absurd (nobody i d' e);
  someone = λ d' e. cc;
  free = λ d' e. cc;
  shut = shut;
}
  where
    nobody : (i d' : ℕ) → get_elem? (set calls c new) i ≢ some (dialing_now d')
    nobody i d' e = elim (get_elem?-set_cases calls c i new (dialing_now d') e) [
      | inl (_, same) ↦ let q = rw (← same) at idle in cc
      | inr (ne, dials) ↦ ne (a.one c i d d' at dials)
    ]

begins-DialsAlone :
    {calls : List Phase} {closed : Bool} (c d : ℕ) (old : Phase)
    → get_elem? calls c ≡ some old
    → DialsAlone calls none none closed
    → DialsAlone (set calls c (dialing_now d)) (some d) none closed
begins-DialsAlone {calls} c d old at a = record {
  one = λ i j d' d'' e f. sym (only i d' e).0 ∙ (only j d'' f).0;
  known = λ i d' e. ap some (sym (only i d' e).1);
  someone = λ d' e.
      let same : d ≡ d' = cc in rw (← same) (c, get_elem?-set_self calls c (dialing_now d) old at);
  free = λ d' e. refl;
  shut = λ e. refl;
}
  where
    only :
        (i d' : ℕ)
        → get_elem? (set calls c (dialing_now d)) i ≡ some (dialing_now d')
        → (c ≡ i) × (d' ≡ d)
    only i d' e = elim (get_elem?-set_cases calls c i (dialing_now d) (dialing_now d') e) [
      | inl (same, same_dial) ↦ (same, cc)
      | inr (_, dials) ↦ let q = a.known i d' dials in cc
    ]

-- The connection goes.
clears-DialsAlone :
    {calls : List Phase} {dialing current : Option ℕ} {closed closed' : Bool}
    → DialsAlone calls dialing current closed
    → DialsAlone calls dialing none closed'
clears-DialsAlone a = record {
  one = a.one;
  known = a.known;
  someone = a.someone;
  free = λ d e. refl;
  shut = λ e. refl;
}

clear_conn-Alone : (s : Link) (h : ℕ) → Alone s → Alone (clear_conn h s)
clear_conn-Alone s h a = elim (Bool-cases (is_current h s)) [
  | inl e ↦ rw e (clears-DialsAlone a)
  | inr e ↦ rw e a
]

clear_conn_then-Alone :
    (s : Link) (h c : ℕ)
    → IsAt s c (write_failed h)
    → Alone s
    → Alone (go_to c (caller_draining h) (clear_conn h s))
clear_conn_then-Alone s h c at a = elim (Bool-cases (is_current h s)) [
  | inl e ↦
      rw e
        (moves-DialsAlone c (write_failed h) (caller_draining h) at refl refl (clears-DialsAlone a))
  | inr e ↦ rw e (moves-DialsAlone c (write_failed h) (caller_draining h) at refl refl a)
]

Step-Alone : {s t : Link} → Step s t → Alone s → Alone t
Step-Alone {s} (find_closed c at h) a = moves-DialsAlone c connecting returned at refl refl a
Step-Alone {s} (find_conn c j at h e) a = moves-DialsAlone c connecting (connected j) at refl refl a
Step-Alone {s} (find_dial c d at h e f) a =
    moves-DialsAlone c connecting (joined_dial d) at refl refl a
Step-Alone {s} (begin_dial c at h e f) a =
    rw e (begins-DialsAlone c s.next_dial connecting at (rw (e, f) at a))
Step-Alone {s} (see_dial_end c d at h) a =
    moves-DialsAlone c (joined_dial d) connecting at refl refl a
Step-Alone {s} (leave_dial c d at) a = moves-DialsAlone c (joined_dial d) returned at refl refl a
Step-Alone {s} (fail_dial c d at) a = ends-DialsAlone c d returned at refl a.shut a
Step-Alone {s} (dial_after_close c d at h) a = ends-DialsAlone c d returned at refl a.shut a
Step-Alone {s} (end_dial c d at h) a =
    ends-DialsAlone c d (connected s.next_gen) at refl (λ e. cc) a
Step-Alone {s} (get_token c h at e) a = moves-DialsAlone c (connected h) (admitted h) at refl refl a
Step-Alone {s} (leave_queue c h at) a = moves-DialsAlone c (connected h) returned at refl refl a
Step-Alone {s} (find_stale c h at e) a = moves-DialsAlone c (admitted h) connecting at refl refl a
Step-Alone {s} (send c h at e) a = moves-DialsAlone c (admitted h) submitted at refl refl a
Step-Alone {s} (fail_send c h at e) a =
    moves-DialsAlone c (admitted h) (write_failed h) at refl refl a
Step-Alone {s} (abort_call c h at) a = clear_conn_then-Alone s h c at a
Step-Alone {s} (drain_in_call c h x rest at e) a = a
Step-Alone {s} (end_drain_in_call c h at e) a =
    moves-DialsAlone c (caller_draining h) returned at refl refl a
Step-Alone {s} (receive c at h) a = moves-DialsAlone c submitted returned at refl refl a
Step-Alone {s} (give_up c at) a = moves-DialsAlone c submitted returned at refl refl a
Step-Alone {s} (receive_line h e) a = a
Step-Alone {s} (read_error h e) a = a
Step-Alone {s} (take_pending h x rest e f) a = a
Step-Alone {s} (find_nothing h e f) a = a
Step-Alone {s} (deliver_line h x e) a = a
Step-Alone {s} (deliver_bad_line h x e) a = a
Step-Alone {s} (abort_reader h e) a =
    clear_conn-Alone (put_gen h (reader_at reader_draining (s.gens h)) s) h a
Step-Alone {s} (drain_in_reader h x rest e f) a = a
Step-Alone {s} (end_drain_in_reader h e f) a = a
Step-Alone {s} close_link a = clears-DialsAlone a

Reach-Alone : {n : ℕ} {s : Link} → Reach n s → Alone s
Reach-Alone {n} start = record {
  one = λ c c' d d' e. absurd (nobody c d e);
  known = λ c d e. absurd (nobody c d e);
  someone = λ d e. cc;
  free = λ d e. cc;
  shut = λ e. refl;
}
  where
    nobody : (c d : ℕ) → get_elem? (replicate n connecting) c ≢ some (dialing_now d)
    nobody c d e = let q = replicate-connecting n c (dialing_now d) e in cc
Reach-Alone (later r st) = Step-Alone st (Reach-Alone r)

-- However the calls interleave: two calls never dial at the same time; while one does, no connection
-- is installed, so the end of a dial never replaces one; a call that waits for a dial to end waits
-- for the dial that is under way in another call, or can go on; and once the connection is closed,
-- none is installed, also when a dial was under way.
pub one_dial :
    {n : ℕ} {s : Link}
    → Reach n s
    → ((c c' d d' : ℕ) → IsAt s c (dialing_now d) → IsAt s c' (dialing_now d') → c ≡ c')
      × ((c d : ℕ) → IsAt s c (dialing_now d) → s.current ≡ none)
      × ((c d : ℕ)
          → IsAt s c (joined_dial d)
          → ((c' : ℕ) × IsAt s c' (dialing_now d)) ⊎ Step s (go_to c connecting s))
      × (s.closed ≡ true → s.current ≡ none)
one_dial {s} r =
    let a = Reach-Alone r in
    (
      a.one,
      (λ c d at. a.free d (a.known c d at)),
      (λ c d at. waits c d at a s.dialing refl),
      a.shut,
    )
  where
    waits :
        (c d : ℕ)
        → IsAt s c (joined_dial d)
        → Alone s
        → (dial : Option ℕ) → s.dialing ≡ dial
        → ((c' : ℕ) × IsAt s c' (dialing_now d)) ⊎ Step s (go_to c connecting s)
    waits c d at a none e = inr (see_dial_end c d at (λ f. cc))
    waits c d at a (some d') e = elim (Bool-cases (d' == d)) [
      | inl same ↦
          let q : s.dialing ≡ some d = e ∙ ap some ((==_iff d' d).0 same) in inl (a.someone d q)
      | inr other ↦
          inr (see_dial_end c d at (λ f. let q : d' ≡ d = cc in let h = (==_iff d' d).1 q in cc))
    ]
