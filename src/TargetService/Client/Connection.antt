-- ===== src/TargetService/Client/Connection.antt =====
-- target-service/dbclient/client.go: what a call leaves of the connection.
use tac_os.Base.{
  ◌≡◌, ◌≢◌, refl, ◌==◌, ltb, if◌then◌else◌, Bool, true, false, not, ◌||◌, Bool-cases, inl, inr,
  Bytes, length, Option, none, some,
}
use tac_os.Dbms.Frame.{uint32}
use tac_os.TargetService.Client.{
  Network, Decoded, malformed, trailing, decoded, Client, ExecError, bad_sql, frame_size,
  client_closed, context_done, dial_failed, ExecResult, answered, query_failed, failed, dropped,
  finish, on_body, on_header, on_header_sent, exchange, on_dialed, connected, exec, max_sql,
  write_all, all_sent,
}

-- The call failed before anything was sent, with the connection that there was.
abbrev pub is_early : ExecError → Bool
is_early bad_sql = true
is_early frame_size = true
is_early client_closed = true
is_early context_done = true
is_early dial_failed = true
is_early _ = false

-- The connection before a call, the result, and the connection behind it.
abbrev pub Leaves : {C R : Type 0} → Option C → ExecResult R → Option C → Type 0
Leaves before (failed e) after = if is_early e then after ≡ before else (after ≡ none)
Leaves before (answered r) after = after ≢ none
Leaves before (query_failed r) after = after ≢ none

-- What a call leaves, for a client with the connection `before`.
abbrev Ended : {W C R : Type 0} → Option C → Bool → W × Client C × ExecResult R → Type 0
Ended before closed (w, c, r) = (c.closed ≡ closed) × Leaves before r c.conn

Ended-if :
    {W C R : Type 0} (before : Option C) (closed : Bool) (b : Bool)
    (x y : W × Client C × ExecResult R)
    → Ended before closed x
    → Ended before closed y
    → Ended before closed (if b then x else y)
Ended-if before closed true x y hx hy = hx
Ended-if before closed false x y hx hy = hy

module _ {W C R : Type 0} (net : Network W C R) (before : Option C) (closed : Bool) (conn : C) where
  abbrev client : Client C
  client = record { conn = some conn; closed = closed }

  finish-Ended : (d : Decoded R) (w : W) → Ended before closed (finish net conn d client w)
  unfolding finish dropped
  finish-Ended malformed w = (refl, refl)
  finish-Ended trailing w = (refl, refl)
  finish-Ended (decoded r) w = elim (Bool-cases (net.is_valid r)) [
    | inl e ↦ rw e (elim (Bool-cases (net.is_ok r)) [
      | inl k ↦ rw k (refl, λ z. cc)
      | inr k ↦ rw k (refl, λ z. cc)
    ])
    | inr e ↦ rw e (refl, refl)
  ]

  on_body-Ended : (p : W × Option Bytes) → Ended before closed (on_body net conn client p)
  unfolding on_body dropped
  on_body-Ended (w, none) = (refl, refl)
  on_body-Ended (w, some body) =
      Ended-if before closed (not (net.valid_utf8 body)) _ _ (refl, refl)
        (finish-Ended (net.decode body) w)

  on_header-Ended : (p : W × Option Bytes) → Ended before closed (on_header net conn client p)
  unfolding on_header dropped
  on_header-Ended (w, none) = (refl, refl)
  on_header-Ended (w, some header) =
      Ended-if before closed (uint32 header == 0 || ltb max_sql (uint32 header)) _ _ (refl, refl)
        (on_body-Ended (net.read_full conn (uint32 header) w))

  on_header_sent-Ended :
      (sql : Bytes) (w : W) → Ended before closed (on_header_sent net conn sql client w)
  unfolding on_header_sent dropped
  on_header_sent-Ended sql w =
      Ended-if before closed (not (all_sent (write_all (net.write conn) sql w).1)) _ _ (refl, refl)
        (on_header-Ended _)

  exchange-Ended : (sql : Bytes) (w : W) → Ended before closed (exchange net conn sql client w)
  unfolding exchange dropped
  exchange-Ended sql w =
      Ended-if before closed (not (net.set_deadline conn w).1) _ _ (refl, refl)
        (Ended-if before closed _ _ _ (refl, refl) (on_header_sent-Ended sql _))

module _ {W C R : Type 0} (net : Network W C R) where
  on_dialed-Ended :
      (sql : Bytes) (closed : Bool) (p : W × Option C)
      → Ended none closed (on_dialed net sql (record { conn = none; closed = closed }) p)
  unfolding on_dialed
  on_dialed-Ended sql closed (w, none) = (refl, refl)
  on_dialed-Ended sql closed (w, some c) = exchange-Ended net none closed c sql w

  connected-Ended :
      (sql : Bytes) (before : Option C) (closed : Bool) (w : W)
      → Ended before closed (connected net sql (record { conn = before; closed = closed }) before w)
  unfolding connected
  connected-Ended sql none closed w = on_dialed-Ended sql closed (net.dial w)
  connected-Ended sql (some c) closed w = exchange-Ended net (some c) closed c sql w

  -- After `Exec` with a response, with an error in it or not, the client has a connection. After a
  -- failure it has none, unless the text or its length, a closed client, an ended context or a failed
  -- dial ended the call: then the connection is the one that it had. Whether the client is closed does
  -- not change.
  pub exec-Leaves :
      (sql : Bytes) (c : Client C) (w : W)
      → ((exec net sql c w).1.closed ≡ c.closed)
        × Leaves c.conn (exec net sql c w).2 (exec net sql c w).1.conn
  unfolding exec
  exec-Leaves sql c w =
      let early =
        λ (b : Bool) (x y : W × Client C × ExecResult R). Ended-if c.conn c.closed b x y in
      early (not (net.valid_utf8 sql) || net.is_blank sql) _ _ (refl, refl)
        (early (ltb max_sql (length sql)) _ _ (refl, refl)
          (early c.closed _ _ (refl, refl)
            (early (net.cancelled w) _ _ (refl, refl) (connected-Ended sql c.conn c.closed w))))

  -- On a closed client `Exec` always fails, the world is unchanged, and so is the client.
  pub exec-closed :
      (sql : Bytes) (c : Client C) (w : W)
      → c.closed ≡ true
      → (e : ExecError) × (is_early e ≡ true) × (exec net sql c w ≡ (w, c, failed e))
  unfolding exec
  exec-closed sql c w h = elim (Bool-cases (not (net.valid_utf8 sql) || net.is_blank sql)) [
    | inl e ↦ (bad_sql, refl, rw e refl)
    | inr e ↦ elim (Bool-cases (ltb max_sql (length sql))) [
      | inl k ↦ (frame_size, refl, rw (e, k) refl)
      | inr k ↦ (client_closed, refl, rw (e, k, h) refl)
    ]
  ]
