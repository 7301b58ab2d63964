-- ===== src/MarkerDetect/Ipc/Sessions/Draining.antt =====
-- prototypes/marker-detect/ipc/server.go: the wait of `Close` for the handlers.
use tac_os.Base.{
  ℕ, ◌+◌, ◌*◌, ◌<◌, ◌≡◌, refl, sym, subst, ap, arith, Bool, true, false, Bool-cases, inl, inr, ◌⊎◌,
  List, [], ◌∷◌, length, Option, none, some, has, length-without_le, length-without_lt,
  without_same, ◌==◌,
}
use tac_os.MarkerDetect.Ipc.Sessions.{
  Server, begin_serve, accept, stop_serving, close, leave, end_detection, close_socket, forget,
  done, is_detecting, Step, serve, arrived, accepted, accept_failed, closes, detection_begins,
  detection_ends, leaves, socket_closed, forgotten, handler_done, Reach,
}
use tac_os.MarkerDetect.Ipc.Sessions.Closing.{IsTracked, Reach-IsTracked}

abbrev idle : Option ℕ → ℕ
idle none = 1
idle (some c) = 0

abbrev bit : Bool → ℕ
bit true = 1
bit false = 0

-- What is left to do in a closed server: an upper bound on the number of the steps.
abbrev pub remaining : Server → ℕ
remaining s =
    2 * length s.in_loop
    + idle s.detecting
    + length s.open_sockets
    + length s.conns
    + length s.handlers
    + length s.pending
    + bit s.serving

module _ (c : ℕ) (s : Server) where
  accept_less : s.closed ≡ true → has c s.pending ≡ true → remaining (accept c s) < remaining s
  unfolding accept
  accept_less e h =
      rw e (omega (arith, length-without_lt c s.pending h, length-without_le c s.open_sockets))

  leave_less : has c s.in_loop ≡ true → remaining (leave c s) < remaining s
  unfolding leave
  leave_less h = omega (arith, length-without_lt c s.in_loop h)

  detecting_in_loop : IsTracked s → s.detecting ≡ some c → has c s.in_loop ≡ true
  detecting_in_loop o d =
      o.detecting_loops c
        (subst (λ x. is_detecting c x ≡ true) (sym d) (let e : c == c ≡ true = ground arith in e))

  handler_shut :
      IsTracked s → s.closed ≡ true → has c s.handlers ≡ true → has c s.open_sockets ≡ false
  handler_shut o e h = elim (Bool-cases (has c s.open_sockets)) [
    | inl k ↦ absurd (ground (arith, o.pending_new c ((o.closed_shut e).0 c k)))
    | inr k ↦ k
  ]

  -- the socket of a handler is closed in a closed server, so that its write fails
  end_less :
      IsTracked s
      → s.closed ≡ true
      → s.detecting ≡ some c
      → remaining (end_detection c s) < remaining s
  unfolding end_detection leave
  end_less o e d =
      let loops = detecting_in_loop o d in
      let shut = handler_shut o e (o.loops_handled c loops) in
      rw (shut, d) (omega (arith, length-without_lt c s.in_loop loops))

  socket_less : has c s.open_sockets ≡ true → remaining (close_socket c s) < remaining s
  unfolding close_socket
  socket_less h = omega (arith, length-without_lt c s.open_sockets h)

  forget_less : has c s.conns ≡ true → remaining (forget c s) < remaining s
  unfolding forget
  forget_less h = omega (arith, length-without_lt c s.conns h)

  done_less : has c s.handlers ≡ true → remaining (done c s) < remaining s
  unfolding done
  done_less h = omega (arith, length-without_lt c s.handlers h)

  -- a deferred call that finds its work done changes nothing
  socket_same : has c s.open_sockets ≡ false → close_socket c s ≡ s
  unfolding close_socket
  socket_same h = ap (λ cs. record s { open_sockets = cs }) (without_same c s.open_sockets h)

  forget_same : has c s.conns ≡ false → forget c s ≡ s
  unfolding forget
  forget_same h = ap (λ cs. record s { conns = cs }) (without_same c s.conns h)

begin_same : (s : Server) → s.closed ≡ true → begin_serve s ≡ s
unfolding begin_serve
begin_same s e = rw e refl

close_same : (s : Server) → s.closed ≡ true → close s ≡ s
unfolding close
close_same s e = rw e refl

stop_less : (s : Server) → s.serving ≡ true → remaining (stop_serving s) < remaining s
unfolding stop_serving
stop_less s e = rw e (omega arith)

begins_less :
    (c : ℕ) (s : Server)
    → s.detecting ≡ none
    → remaining (record s { detecting = some c }) < remaining s
begins_less c s e = rw e (omega arith)

-- A step in a closed server changes nothing, or there is less to do.
abbrev Settles : Server → Server → Type 0
Settles s t = (t ≡ s) ⊎ (remaining t < remaining s)

-- a deferred call, with its work done already or not
either_way :
    (b : Bool) {s t : Server}
    → (b ≡ true → remaining t < remaining s)
    → (b ≡ false → t ≡ s)
    → Settles s t
either_way true f g = inr (f refl)
either_way false f g = inl (g refl)

not_both : {b : Bool} → b ≡ true → b ≡ false → ⊥
not_both h k = ground arith

Step-Settles : {s t : Server} → IsTracked s → s.closed ≡ true → Step s t → Settles s t
Step-Settles {s} o e serve = inl (begin_same s e)
Step-Settles {s} o e (arrived c serving listens free new) =
    absurd (not_both listens (o.closed_shut e).1)
Step-Settles {s} o e (accepted c h) = inr (accept_less c s e h)
Step-Settles {s} o e (accept_failed h free) = inr (stop_less s h)
Step-Settles {s} o e closes = inl (close_same s e)
Step-Settles {s} o e (detection_begins c h free) = inr (begins_less c s free)
Step-Settles {s} o e (detection_ends c h) = inr (end_less c s o e h)
Step-Settles {s} o e (leaves c h out) = inr (leave_less c s h)
Step-Settles {s} o e (socket_closed c h out) =
    either_way (has c s.open_sockets) (socket_less c s) (socket_same c s)
Step-Settles {s} o e (forgotten c has_handler out h) =
    either_way (has c s.conns) (forget_less c s) (forget_same c s)
Step-Settles {s} o e (handler_done c has_handler out h) = inr (done_less c s has_handler)

-- A step after which there is less to do.
abbrev pub Advances : Server → Type 0
Advances s = (t : Server) × Step s t × (remaining t < remaining s)

-- A handler that does not detect leaves its loop, or makes its next deferred call.
handler_step :
    (c : ℕ) (s : Server)
    → IsTracked s
    → s.closed ≡ true
    → s.detecting ≡ none
    → has c s.handlers ≡ true
    → Advances s
handler_step c s o e free h =
    let out : is_detecting c s.detecting ≡ false = rw free refl in
    elim (Bool-cases (has c s.in_loop)) [
      | inl k ↦ (leave c s, leaves c k out, leave_less c s k)
      | inr k ↦ elim (Bool-cases (has c s.conns)) [
        | inl m ↦ (forget c s, forgotten c h k (handler_shut c s o e h), forget_less c s m)
        | inr m ↦ (done c s, handler_done c h k m, done_less c s h)
      ]
    ]

has-head : (c : ℕ) (cs hs : List ℕ) → hs ≡ c ∷ cs → has c hs ≡ true
unfolding has
has-head c cs hs e = rw e (ground arith)

some_step :
    (s : Server) (hs : List ℕ) (detecting : Option ℕ)
    → IsTracked s
    → s.closed ≡ true
    → s.handlers ≡ hs
    → s.detecting ≡ detecting
    → (s.handlers ≡ []) ⊎ Advances s
some_step s [] detecting o e f d = inl f
some_step s (c ∷ cs) (some x) o e f d =
    inr (end_detection x s, detection_ends x d, end_less x s o e d)
some_step s (c ∷ cs) none o e f d = inr (handler_step c s o e d (has-head c cs s.handlers f))

-- After `Close` was called, in every state that the server reaches, each step of each goroutine changes
-- nothing or makes `remaining` less, so that at most so many steps change the state, whatever clients
-- do; and while a handler is left some step makes it less. So the handlers end, and `Close` returns,
-- if no goroutine that can make a step is kept from it forever, and every call of `Detect` returns.
pub Reach-Settles :
    {s : Server}
    → Reach s
    → s.closed ≡ true
    → ((t : Server) → Step s t → (t ≡ s) ⊎ (remaining t < remaining s))
      × ((s.handlers ≡ []) ⊎ ((t : Server) × Step s t × (remaining t < remaining s)))
Reach-Settles {s} r e =
    let o = Reach-IsTracked r in
    ((λ t step. Step-Settles o e step), some_step s s.handlers s.detecting o e refl refl)
