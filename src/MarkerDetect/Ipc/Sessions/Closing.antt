-- ===== src/MarkerDetect/Ipc/Sessions/Closing.antt =====
-- prototypes/marker-detect/ipc/server.go: what holds of the server between two steps.
use tac_os.Base.{
  ℕ, ◌==◌, ◌≡◌, refl, arith, true, false, List, ◌∷◌, Option, none, some, has, without, Within,
  Within-add, Within-without_left, Within-without_right, Within-without_both, InEither,
  InEither-add, InEither-without_left, InEither-without_both, InEither-moved,
  InEither-without_right, InEither-without_all, InEither-nil, has-without, if_both, subst, ==→≡,
  Bool-cases, inl, inr,
}
use tac_os.MarkerDetect.Ipc.Sessions.{
  Server, begin_serve, arrive, accept, stop_serving, close, leave, end_detection, close_socket,
  forget, done, is_detecting, Step, serve, arrived, accepted, accept_failed, closes,
  detection_begins, detection_ends, leaves, socket_closed, forgotten, handler_done, Reach, here,
  next,
}

-- A connection that is open is tracked or was just accepted; one that is tracked has a handler, and so
-- has one in its loop; the detection that runs is of a handler in its loop; a connection that was just
-- accepted has no handler; and a closed server has no listener, and no open connection but such a one.
pub record IsTracked (s : Server) : Type 0 where
  pub open_tracked : InEither s.open_sockets s.pending s.conns
  pub tracked_handled : Within s.conns s.handlers
  pub loops_handled : Within s.in_loop s.handlers
  pub detecting_loops : (c : ℕ) → is_detecting c s.detecting ≡ true → has c s.in_loop ≡ true
  pub pending_new : (c : ℕ) → has c s.pending ≡ true → has c s.handlers ≡ false
  pub closed_shut : s.closed ≡ true → Within s.open_sockets s.pending × (s.listening ≡ false)

IsTracked-begin_serve : (s : Server) → IsTracked s → IsTracked (begin_serve s)
unfolding begin_serve
IsTracked-begin_serve s o =
    if_both IsTracked s.closed _ _ (λ e. o)
      (λ e. record {
        open_tracked = o.open_tracked;
        tracked_handled = o.tracked_handled;
        loops_handled = o.loops_handled;
        detecting_loops = o.detecting_loops;
        pending_new = o.pending_new;
        closed_shut = λ c. cc;
      })

has_more : (c d : ℕ) (cs : List ℕ) → has d cs ≡ true → has d (c ∷ cs) ≡ true
unfolding has
has_more c d cs h = ground arith

new_pending :
    (c : ℕ) (pending handlers : List ℕ)
    → has c handlers ≡ false
    → ((d : ℕ) → has d pending ≡ true → has d handlers ≡ false)
    → (d : ℕ) → has d (c ∷ pending) ≡ true
    → has d handlers ≡ false
unfolding has
new_pending c pending handlers new h d k = elim (Bool-cases (c == d)) [
  | inl e ↦ subst (λ x. has x handlers ≡ false) (==→≡ c d e) new
  | inr e ↦ h d (ground arith)
]

IsTracked-arrive :
    (c : ℕ) (s : Server) → has c s.handlers ≡ false → IsTracked s → IsTracked (arrive c s)
unfolding arrive
IsTracked-arrive c s new o = record {
  open_tracked = InEither-add c s.open_sockets s.pending s.conns o.open_tracked;
  tracked_handled = o.tracked_handled;
  loops_handled = o.loops_handled;
  detecting_loops = o.detecting_loops;
  pending_new = new_pending c s.pending s.handlers new o.pending_new;
  closed_shut =
      λ f. (Within-add c s.open_sockets s.pending (o.closed_shut f).0, (o.closed_shut f).1);
}

IsTracked-stop_serving : (s : Server) → IsTracked s → IsTracked (stop_serving s)
unfolding stop_serving
IsTracked-stop_serving s o = record {
  open_tracked = o.open_tracked;
  tracked_handled = o.tracked_handled;
  loops_handled = o.loops_handled;
  detecting_loops = o.detecting_loops;
  pending_new = o.pending_new;
  closed_shut = λ e. ((o.closed_shut e).0, refl);
}

still_new :
    (c d : ℕ) (pending handlers : List ℕ)
    → (has d pending ≡ true → has d handlers ≡ false)
    → has d (without c pending) ≡ true
    → has d (c ∷ handlers) ≡ false
unfolding has
still_new c d pending handlers h k =
    ground (arith, has-without d c pending, h (ground (arith, has-without d c pending)))

IsTracked-accept : (c : ℕ) (s : Server) → IsTracked s → IsTracked (accept c s)
unfolding accept
IsTracked-accept c s o =
    if_both IsTracked s.closed _ _
      (λ e. record {
        open_tracked = InEither-without_both c s.open_sockets s.pending s.conns o.open_tracked;
        tracked_handled = o.tracked_handled;
        loops_handled = o.loops_handled;
        detecting_loops = o.detecting_loops;
        pending_new = λ d h. o.pending_new d (ground (arith, has-without d c s.pending));
        closed_shut =
            λ f. (Within-without_both c s.open_sockets s.pending (o.closed_shut f).0, refl);
      })
      (λ e. record {
        open_tracked = InEither-moved c s.open_sockets s.pending s.conns o.open_tracked;
        tracked_handled = Within-add c s.conns s.handlers o.tracked_handled;
        loops_handled = Within-add c s.in_loop s.handlers o.loops_handled;
        detecting_loops = λ d h. has_more c d s.in_loop (o.detecting_loops d h);
        pending_new = λ d. still_new c d s.pending s.handlers (o.pending_new d);
        closed_shut = λ f. cc;
      })

IsTracked-close : (s : Server) → IsTracked s → IsTracked (close s)
unfolding close
IsTracked-close s o =
    if_both IsTracked s.closed _ _ (λ e. o)
      (λ e.
        let (tracked, gone) =
          InEither-without_all s.open_sockets s.pending s.conns o.open_tracked in
        record {
          open_tracked = tracked;
          tracked_handled = o.tracked_handled;
          loops_handled = o.loops_handled;
          detecting_loops = o.detecting_loops;
          pending_new = o.pending_new;
          closed_shut = λ f. (gone, refl);
        })

-- a detection that is not of `c`
still_loops :
    (c d : ℕ) (detecting : Option ℕ) (cs : List ℕ)
    → is_detecting c detecting ≡ false
    → is_detecting d detecting ≡ true
    → has d cs ≡ true
    → has d (without c cs) ≡ true
still_loops c d (some x) cs out is h = ground (arith, has-without d c cs)
still_loops c d none cs out is h = cc

IsTracked-leave :
    (c : ℕ) (s : Server) → is_detecting c s.detecting ≡ false → IsTracked s → IsTracked (leave c s)
unfolding leave
IsTracked-leave c s out o = record {
  open_tracked = o.open_tracked;
  tracked_handled = o.tracked_handled;
  loops_handled = Within-without_left c s.in_loop s.handlers o.loops_handled;
  detecting_loops = λ d is. still_loops c d s.detecting s.in_loop out is (o.detecting_loops d is);
  pending_new = o.pending_new;
  closed_shut = o.closed_shut;
}

IsTracked-idle : (s : Server) → IsTracked s → IsTracked (record s { detecting = none })
IsTracked-idle s o = record {
  open_tracked = o.open_tracked;
  tracked_handled = o.tracked_handled;
  loops_handled = o.loops_handled;
  detecting_loops = λ d e. cc;
  pending_new = o.pending_new;
  closed_shut = o.closed_shut;
}

IsTracked-end_detection : (c : ℕ) (s : Server) → IsTracked s → IsTracked (end_detection c s)
unfolding end_detection
IsTracked-end_detection c s o =
    if_both IsTracked (has c s.open_sockets) _ _ (λ e. IsTracked-idle s o)
      (λ e. IsTracked-leave c (record s { detecting = none }) refl (IsTracked-idle s o))

IsTracked-close_socket : (c : ℕ) (s : Server) → IsTracked s → IsTracked (close_socket c s)
unfolding close_socket
IsTracked-close_socket c s o = record {
  open_tracked = InEither-without_left c s.open_sockets s.pending s.conns o.open_tracked;
  tracked_handled = o.tracked_handled;
  loops_handled = o.loops_handled;
  detecting_loops = o.detecting_loops;
  pending_new = o.pending_new;
  closed_shut = λ e.
      (Within-without_left c s.open_sockets s.pending (o.closed_shut e).0, (o.closed_shut e).1);
}

IsTracked-forget :
    (c : ℕ) (s : Server) → has c s.open_sockets ≡ false → IsTracked s → IsTracked (forget c s)
unfolding forget
IsTracked-forget c s h o = record {
  open_tracked = InEither-without_right c s.open_sockets s.pending s.conns h o.open_tracked;
  tracked_handled = Within-without_left c s.conns s.handlers o.tracked_handled;
  loops_handled = o.loops_handled;
  detecting_loops = o.detecting_loops;
  pending_new = o.pending_new;
  closed_shut = o.closed_shut;
}

IsTracked-done :
    (c : ℕ) (s : Server)
    → has c s.in_loop ≡ false
    → has c s.conns ≡ false
    → IsTracked s
    → IsTracked (done c s)
unfolding done
IsTracked-done c s out h o = record {
  open_tracked = o.open_tracked;
  tracked_handled = Within-without_right c s.conns s.handlers h o.tracked_handled;
  loops_handled = Within-without_right c s.in_loop s.handlers out o.loops_handled;
  detecting_loops = o.detecting_loops;
  pending_new = λ d k. ground (arith, has-without d c s.handlers, o.pending_new d k);
  closed_shut = o.closed_shut;
}

same_loop : (c d : ℕ) (cs : List ℕ) → has c cs ≡ true → c == d ≡ true → has d cs ≡ true
same_loop c d cs h e = subst (λ x. has x cs ≡ true) (==→≡ c d e) h

Step-IsTracked : {s t : Server} → Step s t → IsTracked s → IsTracked t
Step-IsTracked {s} serve o = IsTracked-begin_serve s o
Step-IsTracked {s} (arrived c serving listens free new) o = IsTracked-arrive c s new o
Step-IsTracked {s} (accepted c h) o = IsTracked-accept c s o
Step-IsTracked {s} (accept_failed h free) o = IsTracked-stop_serving s o
Step-IsTracked {s} closes o = IsTracked-close s o
Step-IsTracked {s} (detection_begins c h free) o = record {
  open_tracked = o.open_tracked;
  tracked_handled = o.tracked_handled;
  loops_handled = o.loops_handled;
  detecting_loops = λ d e. same_loop c d s.in_loop h e;
  pending_new = o.pending_new;
  closed_shut = o.closed_shut;
}
Step-IsTracked {s} (detection_ends c h) o = IsTracked-end_detection c s o
Step-IsTracked {s} (leaves c h out) o = IsTracked-leave c s out o
Step-IsTracked {s} (socket_closed c h out) o = IsTracked-close_socket c s o
Step-IsTracked {s} (forgotten c has_handler out h) o = IsTracked-forget c s h o
Step-IsTracked {s} (handler_done c has_handler out h) o = IsTracked-done c s out h o

-- In every state that the goroutines of the server reach: a connection with an open socket is tracked,
-- but for one that `Accept` has returned and `Serve` has not yet looked at under the lock; a tracked
-- one has a handler that `Close` waits for, and so has the one that runs a detection; and once `Close`
-- has been called no listener is open, and no connection but one that `Serve` has not looked at.
pub Reach-IsTracked : {s : Server} → Reach s → IsTracked s
unfolding has
Reach-IsTracked here = record {
  open_tracked = InEither-nil;
  tracked_handled = λ c h. cc;
  loops_handled = λ c h. cc;
  detecting_loops = λ c h. cc;
  pending_new = λ c h. cc;
  closed_shut = λ e. cc;
}
Reach-IsTracked (next r step) = Step-IsTracked step (Reach-IsTracked r)
