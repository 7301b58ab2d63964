-- ===== src/Dbms/Server/Orderly.antt =====
-- server/dbms/internal/server/server.go: what holds of the server between two steps.
use tac_os.Base.{
  InEither, InEither-add, InEither-without_both, InEither-moved, InEither-without_all,
  InEither-without_left, InEither-without_right, InEither-nil, Within-without_both, ℕ, ◌≡◌, refl,
  sym, subst, ◌∙◌, ap, Bool, true, false, not, has, Within, Within-add, Within-without_left,
  Within-without_right, if_both, Bytes,
}
use tac_os.Dbms.Database.Execute.{IsConsistentDb}
use tac_os.Dbms.Outcome.{Outcome}
use tac_os.Dbms.Database.{Database}
use tac_os.Dbms.Server.{
  Closing, unclosed, shut, finished, Server, is_closed, shut_sockets, release, arrive, accept,
  close_socket, forget, done, executes, Step, serves, arrived, accepted, accept_failed, executed,
  close_begins, close_ends, socket_closed, forgotten, worker_done, path_changes, Reach, here, next,
}
use tac_os.Dbms.Service.Executor.{Encoder}
use tac_os.Dbms.Service.Executor.Payloads.{Encodes, Executed, execute-Executed}
use tac_os.Dbms.Service.Executor.Payloads
use tac_os.Dbms.Value.{Float64}

-- `Close` has returned.
abbrev pub has_finished : Closing → Bool
has_finished unclosed = false
has_finished shut = false
has_finished finished = true

-- A connection that is open is tracked or has just been accepted, and one that is tracked has a
-- worker; a closed server has no listener, and no open connection but one that was just accepted; the
-- lock is held until `Close` is at its end; and the tables are consistent.
pub record IsOrderly {F : Type 0} (s : Server F) : Type 0 where
  pub open_tracked : InEither s.open_sockets s.pending s.connections
  pub tracked_handled : Within s.connections s.workers
  pub closed_shut :
      is_closed s.closing ≡ true → Within s.open_sockets s.pending × (s.listening ≡ false)
  pub locked : s.lock_held ≡ not (has_finished s.closing)
  pub consistent : IsConsistentDb s.db

module _ {F : Type 0} where
  IsOrderly-arrive :
      (c : ℕ) (s : Server F) → s.listening ≡ true → IsOrderly s → IsOrderly (arrive c s)
  unfolding arrive has
  IsOrderly-arrive c s listens o = record {
    open_tracked = InEither-add c s.open_sockets s.pending s.connections o.open_tracked;
    tracked_handled = o.tracked_handled;
    closed_shut =
        λ f. (Within-add c s.open_sockets s.pending (o.closed_shut f).0, (o.closed_shut f).1);
    locked = o.locked;
    consistent = o.consistent;
  }

  IsOrderly-accept : (c : ℕ) (s : Server F) → IsOrderly s → IsOrderly (accept c s)
  unfolding accept
  IsOrderly-accept c s o =
      if_both IsOrderly (is_closed s.closing) _ _
        (λ e. record {
          open_tracked =
              InEither-without_both c s.open_sockets s.pending s.connections o.open_tracked;
          tracked_handled = o.tracked_handled;
          closed_shut = λ f. (
            Within-without_both c s.open_sockets s.pending (o.closed_shut f).0,
            (o.closed_shut f).1,
          );
          locked = o.locked;
          consistent = o.consistent;
        })
        (λ e. record {
          open_tracked = InEither-moved c s.open_sockets s.pending s.connections o.open_tracked;
          tracked_handled = Within-add c s.connections s.workers o.tracked_handled;
          closed_shut = λ f. cc;
          locked = o.locked;
          consistent = o.consistent;
        })

  IsOrderly-shut_sockets :
      (s : Server F) → s.closing ≡ unclosed → IsOrderly s → IsOrderly (shut_sockets s)
  unfolding shut_sockets
  IsOrderly-shut_sockets s e o =
      let (tracked, gone) =
        InEither-without_all s.open_sockets s.pending s.connections o.open_tracked in
      record {
        open_tracked = tracked;
        tracked_handled = o.tracked_handled;
        closed_shut = λ f. (gone, refl);
        locked = o.locked ∙ ap (λ c. not (has_finished c)) e;
        consistent = o.consistent;
      }

  IsOrderly-release : (s : Server F) → s.closing ≡ shut → IsOrderly s → IsOrderly (release s)
  unfolding release
  IsOrderly-release s e o = record {
    open_tracked = o.open_tracked;
    tracked_handled = o.tracked_handled;
    closed_shut = λ f. o.closed_shut (ap is_closed e ∙ (unfold is_closed in refl));
    locked = refl;
    consistent = o.consistent;
  }

  IsOrderly-close_socket : (c : ℕ) (s : Server F) → IsOrderly s → IsOrderly (close_socket c s)
  unfolding close_socket
  IsOrderly-close_socket c s o = record {
    open_tracked = InEither-without_left c s.open_sockets s.pending s.connections o.open_tracked;
    tracked_handled = o.tracked_handled;
    closed_shut = λ e.
        (Within-without_left c s.open_sockets s.pending (o.closed_shut e).0, (o.closed_shut e).1);
    locked = o.locked;
    consistent = o.consistent;
  }

  IsOrderly-forget :
      (c : ℕ) (s : Server F) → has c s.open_sockets ≡ false → IsOrderly s → IsOrderly (forget c s)
  unfolding forget
  IsOrderly-forget c s h o = record {
    open_tracked = InEither-without_right c s.open_sockets s.pending s.connections h o.open_tracked;
    tracked_handled = Within-without_left c s.connections s.workers o.tracked_handled;
    closed_shut = o.closed_shut;
    locked = o.locked;
    consistent = o.consistent;
  }

  IsOrderly-done :
      (c : ℕ) (s : Server F) → has c s.connections ≡ false → IsOrderly s → IsOrderly (done c s)
  unfolding done
  IsOrderly-done c s h o = record {
    open_tracked = o.open_tracked;
    tracked_handled = Within-without_right c s.connections s.workers h o.tracked_handled;
    closed_shut = o.closed_shut;
    locked = o.locked;
    consistent = o.consistent;
  }

  -- a field that no condition reads
  same :
      (s t : Server F)
      → t ≡ record s { serving = t.serving; path = t.path }
      → IsOrderly s
      → IsOrderly t
  same s t e o = subst IsOrderly (sym e) (record {
    open_tracked = o.open_tracked;
    tracked_handled = o.tracked_handled;
    closed_shut = o.closed_shut;
    locked = o.locked;
    consistent = o.consistent;
  })

Executed-consistent :
    {F : Type 0} {p : Database F × Outcome Bytes} → Executed p → IsConsistentDb p.0
Executed-consistent (Payloads.executed c fits) = c

module _ {F : Type 0} ⦃float : Float64 F⦄ (encoder : Encoder F) (encodes : Encodes encoder) where
  IsOrderly-executes :
      (request : Bytes) (s : Server F) → IsOrderly s → IsOrderly (executes encoder request s)
  unfolding executes
  IsOrderly-executes request s o = record {
    open_tracked = o.open_tracked;
    tracked_handled = o.tracked_handled;
    closed_shut = o.closed_shut;
    locked = o.locked;
    consistent = Executed-consistent (execute-Executed encoder encodes request s.db o.consistent);
  }

  Step-IsOrderly : {s t : Server F} → Step encoder s t → IsOrderly s → IsOrderly t
  Step-IsOrderly {s} serves o = same s _ refl o
  Step-IsOrderly {s} (arrived c serving listens free new) o = IsOrderly-arrive c s listens o
  Step-IsOrderly {s} (accepted c h) o = IsOrderly-accept c s o
  Step-IsOrderly {s} (accept_failed h free) o = same s _ refl o
  Step-IsOrderly {s} (executed c request h) o = IsOrderly-executes request s o
  Step-IsOrderly {s} (close_begins e) o = IsOrderly-shut_sockets s e o
  Step-IsOrderly {s} (close_ends e) o = IsOrderly-release s e o
  Step-IsOrderly {s} (socket_closed c h) o = IsOrderly-close_socket c s o
  Step-IsOrderly {s} (forgotten c h) o = IsOrderly-forget c s h o
  Step-IsOrderly {s} (worker_done c h) o = IsOrderly-done c s h o
  Step-IsOrderly {s} (path_changes f) o = same s _ refl o

  -- In every state that the server reaches, whatever its clients send and in whatever order its
  -- goroutines run: the tables are consistent; a connection with an open socket is tracked, but for one
  -- that `Accept` has returned and `Serve` has not yet looked at under the lock; a tracked one has a
  -- worker that `Serve` waits for; once `Close` was called no listener is open, and no connection but
  -- one that `Serve` has not looked at; and the lock file is held exactly until `Close` is at its end.
  pub Reach-IsOrderly : {s : Server F} → Reach encoder s → IsOrderly s
  unfolding has is_closed
  Reach-IsOrderly (here inode) = record {
    open_tracked = InEither-nil;
    tracked_handled = λ c h. cc;
    closed_shut = λ e. cc;
    locked = refl;
    consistent = tt;
  }
  Reach-IsOrderly (next r step) = Step-IsOrderly step (Reach-IsOrderly r)
