-- ===== src/Http2/Process.antt =====
-- src/http2.cpp: `process` keeps the buffers of a connection valid, and ends.
use uproxy.Base.{
  ℕ, zero, suc, ◌+◌, ◌-◌, ◌*◌, ◌^◌, ◌<◌, min, ◌≡◌, ◌≢◌, refl, Bool, true, false, not, ◌&&◌, List,
  [], ◌++◌, arith, length, if◌then◌else◌, ltb, Result, ok, err, stuck, bytes_eq,
}
use uproxy.Buffer.{RingBuffer, make, commit_read, peek, readable}
use uproxy.Buffer.Append.{append_lem}
use uproxy.Buffer.Fifo.{contents, IsValid, make-IsValid, commit_read-IsValid}
use uproxy.Http1.Message.{ParseResult, complete, incomplete, malformed}
use uproxy.Http2.Frame.{H2Frame, new_frame, write_settings}
use uproxy.Http2.Reader.{read_frame, byte_at}
use uproxy.Http2.Conn.{H2Conn, preface, sent, make_conn, feed}
use uproxy.Http2.Handle.{Handled, handle_frame, process_frames, process_rest, process}
use uproxy.Http2.Safe.{Good, write_settings-Good}
use uproxy.Http2.Streams.{IsConn, Steady}
use uproxy.Http2.Steady.{handle_frame-Keeps}

commit_read_size : (k : ℕ) (b : RingBuffer) → (commit_read k b).size ≡ b.size - min k b.size
unfolding commit_read
commit_read_size k b = refl

-- What a read leaves: a valid buffer, with fewer bytes where a frame was complete.
abbrev Read : RingBuffer → ParseResult × RingBuffer × H2Frame → Type 0
Read b x = IsValid x.1 × (x.0 ≡ complete → readable x.1 < readable b)

if-Read :
    (b : RingBuffer) (test : Bool) (x y : ParseResult × RingBuffer × H2Frame)
    → Read b x
    → (test ≡ false → Read b y)
    → Read b (if test then x else y)
if-Read b true x y h k = h
if-Read b false x y h k = k refl

read_frame-Read :
    (b : RingBuffer) (f₀ : H2Frame) (max_size : ℕ) → IsValid b → Read b (read_frame b f₀ max_size)
unfolding read_frame
read_frame-Read b f₀ max_size v =
    if-Read b (ltb (readable b) 9) _ _ (v, λ q. cc)
      (λ long.
        if-Read b (ltb max_size len) _ _ (v, λ q. cc)
          (λ fits.
            if-Read b (ltb (readable b) (9 + len)) _ _ (v, λ q. cc)
              (λ there. (
                commit_read-IsValid len (commit_read 9 b) (commit_read-IsValid 9 b v),
                λ q.
                    ground
                      (arith, long, commit_read_size 9 b, commit_read_size len (commit_read 9 b)),
              ))))
  where
    len : ℕ
    len = byte_at (peek 9 b) 0 * 2 ^ 16 + byte_at (peek 9 b) 1 * 2 ^ 8 + byte_at (peek 9 b) 2

-- A call that ends and leaves a valid connection.
abbrev pub Ends : Result (List ℕ) × H2Conn → Type 0
Ends r = (r.0 ≢ stuck) × IsConn r.1

process_frames_lem :
    (fuel : ℕ) (ready : List ℕ) (c : H2Conn)
    → IsConn c
    → readable c.recv_buf < fuel
    → Ends (process_frames fuel ready c)
unfolding process_frames
process_frames_lem zero ready c k h = absurd (omega arith)
process_frames_lem (suc fuel) ready c k h =
    parsed (λ ready' d k' l. process_frames_lem fuel ready' d k' l)
      (read_frame c.recv_buf new_frame c.max_frame_size).0 refl
  where
    frame : H2Frame
    frame = (read_frame c.recv_buf new_frame c.max_frame_size).2

    c' : H2Conn
    c' = record c { recv_buf = (read_frame c.recv_buf new_frame c.max_frame_size).1 }

    k' : IsConn c'
    k' = record {
      recv_valid = (read_frame-Read c.recv_buf new_frame c.max_frame_size k.recv_valid).0;
      send_valid = k.send_valid;
      streams_valid = k.streams_valid;
    }

    -- What the loop does with a frame that was handled.
    next : Handled → Result (List ℕ) × H2Conn
    next x = elim x.0 [
      | ok u ↦ process_frames fuel x.1 x.2
      | err e ↦ (err e, x.2)
      | stuck ↦ (stuck, x.2)
    ]

    Again : Type 0
    Again =
        (ready' : List ℕ) (d : H2Conn)
        → IsConn d
        → readable d.recv_buf < fuel
        → Ends (process_frames fuel ready' d)

    handled :
        Again
        → (x : Handled) → Steady (readable c'.recv_buf) x
        → readable c'.recv_buf < fuel
        → Ends (next x)
    handled again (ok u, ready', d) s l = again ready' d s.conn (omega (arith, s.same))
    handled again (err e, ready', d) s l = ((λ q. cc), s.conn)
    handled again (stuck, ready', d) s l = absurd (s.ends refl)

    parsed :
        Again
        → (p : ParseResult) → (read_frame c.recv_buf new_frame c.max_frame_size).0 ≡ p
        → Ends (process_frames (suc fuel) ready c)
    parsed again incomplete q = rw (process_frames, q) ((λ q. cc), k)
    parsed again malformed q =
        rw (process_frames, q)
          (
            (λ q. cc),
            record {
              recv_valid = k.recv_valid;
              send_valid = k.send_valid;
              streams_valid = k.streams_valid;
            },
          )
    parsed again complete q =
        rw (process_frames, q)
          (handled again (handle_frame frame ready c') (handle_frame-Keeps frame ready c' k') (
            omega
              (arith, (read_frame-Read c.recv_buf new_frame c.max_frame_size k.recv_valid).1 q)))

process_rest_lem : (c : H2Conn) → IsConn c → Ends (process_rest c)
unfolding process_rest
process_rest_lem c k = process_frames_lem (suc (readable c.recv_buf)) [] c k (omega arith)

if-Ends :
    (test : Bool) (x y : Result (List ℕ) × H2Conn) → Ends x → Ends y → Ends (if test then x else y)
if-Ends true x y h k = h
if-Ends false x y h k = k

-- `process` on a connection with valid buffers always ends, whatever bytes were received, and
-- leaves the buffers valid, on errors too.
pub process_lem : (c : H2Conn) → IsConn c → ((process c).0 ≢ stuck) × IsConn (process c).1
unfolding process
process_lem c k =
    if-Ends (c.is_server && not c.saw_preface) _ _
      (if-Ends (ltb (readable c.recv_buf) (length preface)) _ _ ((λ q. cc), k)
        (if-Ends (bytes_eq (peek (length preface) c.recv_buf) preface) _ _
          (started (write_settings [] c.send_buf) (write_settings-Good c.send_buf k.send_valid))
          (
            (λ q. cc),
            record {
              recv_valid = k.recv_valid;
              send_valid = k.send_valid;
              streams_valid = k.streams_valid;
            },
          )))
      (process_rest_lem c k)
  where
    seen : H2Conn
    seen = record c { recv_buf = commit_read (length preface) c.recv_buf; saw_preface = true }

    -- What follows the preface.
    start : Result RingBuffer → Result (List ℕ) × H2Conn
    start w = elim (sent seen w).0 [
      | ok u ↦ process_rest (sent seen w).1
      | err e ↦ (err e, (sent seen w).1)
      | stuck ↦ (stuck, (sent seen w).1)
    ]

    trimmed : IsValid (commit_read (length preface) c.recv_buf)
    trimmed = commit_read-IsValid (length preface) c.recv_buf k.recv_valid

    started : (w : Result RingBuffer) → Good w → Ends (start w)
    started (ok b) g =
        process_rest_lem (record seen { send_buf = b })
          (record { recv_valid = trimmed; send_valid = g; streams_valid = k.streams_valid })
    started (err e) g = (
      (λ q. cc),
      record { recv_valid = trimmed; send_valid = k.send_valid; streams_valid = k.streams_valid },
    )
    started stuck g = elim g [ ]

-- `feed` on a connection with valid buffers never fails, keeps them valid and puts the bytes
-- behind those that were received.
feed_lem :
    (bytes : List ℕ) (c : H2Conn)
    → IsConn c
    → ((feed bytes c).0 ≡ ok tt)
      × IsConn (feed bytes c).1
      × (contents (feed bytes c).1.recv_buf ≡ contents c.recv_buf ++ bytes)
unfolding feed
feed_lem bytes c k =
    let (b, e, v, q) = append_lem bytes c.recv_buf k.recv_valid in
    rw (feed, e)
      (
        refl,
        record { recv_valid = v; send_valid = k.send_valid; streams_valid = k.streams_valid },
        q,
      )

-- A new connection has valid buffers.
make_conn-IsConn : (is_server : Bool) → IsConn (make_conn is_server)
unfolding make_conn
make_conn-IsConn true = record {
  recv_valid = make-IsValid 65536;
  send_valid = make-IsValid 65536;
  streams_valid = tt;
}
make_conn-IsConn false =
    let (b, e, v, q) = append_lem preface (make 65536) (make-IsValid 65536) in
    record { recv_valid = make-IsValid 65536; send_valid = rw e v; streams_valid = tt }
