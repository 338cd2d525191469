-- ===== src/Http2/Streams.antt =====
-- src/http2.cpp: the buffers of a connection and of its streams stay valid where it is changed.
use uproxy.Base.{
  ℕ, ◌≡◌, ◌≢◌, refl, sym, Bool, true, false, List, [], ◌∷◌, if◌then◌else◌, ◌==◌, some, Option-cases,
  Bool-cases, inl, inr, Result, ok, err, stuck,
}
use uproxy.Buffer.{RingBuffer, readable}
use uproxy.Buffer.Fifo.{IsValid, make-IsValid}
use uproxy.Hpack.Table.{DynamicTable}
use uproxy.Http2.Conn.{H2Stream, H2Conn, find_stream, put_stream, get_or_create_stream}
use uproxy.Http2.Handle.{Handled, reply, update}
use uproxy.Http2.Safe.{Good}

-- Each stream's buffer is valid.
abbrev pub AllValid : List (ℕ × H2Stream) → Type 0
AllValid [] = Unit {0}
AllValid ((k, s) ∷ m) = IsValid s.recv_buf × AllValid m

-- Both buffers of the connection and each stream's are valid.
pub record IsConn (c : H2Conn) : Type 0 where
  pub recv_valid : IsValid c.recv_buf
  pub send_valid : IsValid c.send_buf
  pub streams_valid : AllValid c.streams

pub put_stream-AllValid :
    (id : ℕ) (s : H2Stream) (m : List (ℕ × H2Stream))
    → IsValid s.recv_buf
    → AllValid m
    → AllValid (put_stream id s m)
unfolding put_stream
put_stream-AllValid id s [] v a = (v, tt)
put_stream-AllValid id s ((k, old) ∷ m) v a = elim (Bool-cases (k == id)) [
  | inl e ↦ rw e (v, a.1)
  | inr e ↦ rw e (a.0, put_stream-AllValid id s m v a.1)
]

find_stream-valid :
    (id : ℕ) (m : List (ℕ × H2Stream)) (s : H2Stream)
    → AllValid m
    → find_stream id m ≡ some s
    → IsValid s.recv_buf
unfolding find_stream
find_stream-valid id [] s a e = cc
find_stream-valid id ((k, old) ∷ m) s a e = elim (Bool-cases (k == id)) [
  | inl q ↦ let same : old ≡ s = (let e' = rw q at e in cc) in rw (sym same) a.0
  | inr q ↦ find_stream-valid id m s a.1 (rw q at e)
]

pub get_or_create_stream-valid :
    (id : ℕ) (m : List (ℕ × H2Stream)) → AllValid m → IsValid (get_or_create_stream id m).recv_buf
unfolding get_or_create_stream
get_or_create_stream-valid id m a = elim (Option-cases (find_stream id m)) [
  | inl p ↦ rw (get_or_create_stream, p) (make-IsValid 65536)
  | inr (s, p) ↦ rw (get_or_create_stream, p) (find_stream-valid id m s a p)
]

-- A step that ends, keeps the connection valid and takes nothing off the `n` bytes received.
pub record Steady (n : ℕ) (h : Handled) : Type 0 where
  pub ends : h.0 ≢ stuck
  pub conn : IsConn h.2
  pub same : readable h.2.recv_buf ≡ n

abbrev pub Keeps : H2Conn → Handled → Type 0
Keeps c h = Steady (readable c.recv_buf) h

pub unchanged :
    (c : H2Conn) (r : Result (Unit {0})) (ready : List ℕ)
    → IsConn c
    → r ≢ stuck
    → Keeps c (r, ready, c)
unchanged c r ready k e = record { ends = e; conn = k; same = refl }

pub reply-Keeps :
    (ready : List ℕ) (c : H2Conn) (r : Result RingBuffer)
    → IsConn c
    → Good r
    → Keeps c (reply ready c r)
reply-Keeps ready c (ok b) k g = record {
  ends = λ q. cc;
  conn = record { recv_valid = k.recv_valid; send_valid = g; streams_valid = k.streams_valid };
  same = refl;
}
reply-Keeps ready c (err e) k g = unchanged c (err e) ready k (λ q. cc)
reply-Keeps ready c stuck k g = elim g [ ]

pub if-Keeps :
    (c : H2Conn) (test : Bool) (x y : Handled)
    → Keeps c x
    → Keeps c y
    → Keeps c (if test then x else y)
if-Keeps c true x y kx ky = kx
if-Keeps c false x y kx ky = ky

-- A stream with a valid buffer is written back.
pub update-Keeps :
    (c : H2Conn) (dec : DynamicTable) (s : H2Stream) (r : Result (Unit {0})) (ready : List ℕ)
    → IsConn c
    → IsValid s.recv_buf
    → r ≢ stuck
    → Keeps c (r, ready, update s (record c { hpack_dec = dec }))
update-Keeps c dec s r ready k v e = record {
  ends = e;
  conn = record {
    recv_valid = k.recv_valid;
    send_valid = k.send_valid;
    streams_valid = put_stream-AllValid s.id s c.streams v k.streams_valid;
  };
  same = refl;
}
