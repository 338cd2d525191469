-- ===== src/Proxy/Clients.antt =====
-- src/proxy.cpp: the callbacks for a client keep its buffers valid, and a client that has something
-- left to write watched for writing.
use uproxy.Base.{
  ℕ, ◌≡◌, ◌⊎◌, refl, ◌∙◌, Bool, true, false, List, [], ◌∷◌, ◌++◌, inl, inr, if◌then◌else◌,
  Bool-cases, Result, ok, err, stuck,
}
use uproxy.Base.Holds.{Holds, Holds-ok, Holds-stuck, Holds-if, Holds-bind}
use uproxy.Buffer.Fifo.{contents}
use uproxy.Loop.{Event}
use uproxy.Proxy.{read_write, Watched, Backend, Proto, http1, http2}
use uproxy.Proxy.Client.{read_client_input, write_client_output}
use uproxy.Proxy.Delivery.{write_client_output_lem}
use uproxy.Proxy.Receive.{read_client_input_lem}
use uproxy.Proxy.Http1.{After, closes, returns, goes_on}
use uproxy.Proxy.Server.{
  Answers, is_would_block, by_protocol, after_input, after_output, then_write, on_read, on_write,
  on_event,
}
use uproxy.Proxy.Served.{IsServed, Keeps, Kept, handle_http1-Kept, handle_h2_client-Kept}

after_input-Kept :
    (a : Answers) (w : Watched) (back : Backend) (r : Result Bool)
    → IsServed w.interest w.conn
    → Holds Kept (after_input a w back r)
unfolding after_input
after_input-Kept a w back (err e) v = Holds-ok tt
after_input-Kept a w back stuck v = Holds-stuck
after_input-Kept a w back (ok true) v = Holds-ok tt
after_input-Kept a w back (ok false) v = by_proto w.conn.proto
  where
    by_proto : (p : Proto) → Holds Kept (by_protocol a w back p)
    by_proto http1 = handle_http1-Kept (a.attempts 0) w back v
    by_proto http2 = handle_h2_client-Kept a.attempts w back v

on_read-Kept :
    (a : Answers) (w : Watched) (back : Backend)
    → IsServed w.interest w.conn
    → Holds Kept (on_read a w back)
unfolding on_read
on_read-Kept a w back v =
    let input = read_client_input_lem a.recvs w.conn.rbuf v.0 in
    after_input-Kept a _ back (read_client_input a.recvs w.conn.rbuf).0 (input.1, v.1, v.2)

-- Where all is written, nothing is left that the client had to be watched for.
after_output-Keeps :
    (w : Watched) (r : Result (Unit {0}))
    → IsServed w.interest w.conn
    → (r ≡ ok tt → contents w.conn.wbuf ≡ [])
    → Holds Keeps (after_output w r)
unfolding after_output
after_output-Keeps w (err e) v whole = elim (Bool-cases (is_would_block e.code)) [
  | inl later ↦ rw (after_output, later) (Holds-ok v)
  | inr broken ↦ rw (after_output, broken) (Holds-ok tt)
]
after_output-Keeps w stuck v whole = Holds-stuck
after_output-Keeps w (ok u) v whole = elim (Bool-cases w.conn.keep_alive) [
  | inl stays ↦ rw (after_output, stays) (Holds-ok (v.0, v.1, inl (whole refl)))
  | inr ends ↦ rw (after_output, ends) (Holds-ok tt)
]

nothing_left : (xs ys : List ℕ) → xs ++ ys ≡ [] → ys ≡ []
nothing_left [] ys e = e
nothing_left (x ∷ xs) ys e = cc

then_write-Kept :
    (a : Answers) (ev : Event) (x : After × Backend) → Kept x → Holds Kept (then_write a ev x)
unfolding then_write on_write
then_write-Kept a ev (closes, back) v = Holds-ok tt
then_write-Kept a ev (returns w, back) v = Holds-ok v
then_write-Kept a ev (goes_on w, back) v =
    let (r, wbuf, taken) = write_client_output a.sends w.conn.wbuf in
    let output = write_client_output_lem a.sends w.conn.wbuf v.1 in
    let watched : (contents wbuf ≡ []) ⊎ (w.interest ≡ read_write) = elim v.2 [
      | inl empty ↦ inl (nothing_left taken (contents wbuf) (output.split ∙ empty))
      | inr watching ↦ inr watching
    ] in
    Holds-if ev.writes
      (Holds-bind (on_write a w)
        (after_output-Keeps (record w { conn = record w.conn { wbuf = wbuf } }) r
          (v.0, output.valid, watched) output.whole)
        (λ ending k. Holds-ok k))
      (Holds-ok v)

pub on_event-Kept :
    (a : Answers) (ev : Event) (w : Watched) (back : Backend)
    → IsServed w.interest w.conn
    → Holds Kept (on_event a ev w back)
unfolding on_event
on_event-Kept a ev w back v =
    Holds-bind (if ev.reads then on_read a w back else ok (goes_on w, back))
      (Holds-if ev.reads (on_read-Kept a w back v) (Holds-ok v)) (λ x k. then_write-Kept a ev x k)
