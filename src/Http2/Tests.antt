-- ===== src/Http2/Tests.antt =====
-- src/http2.cpp: the round trips of frames on a few messages and a short body, and a connection.
use uproxy.Base.{
  ℕ, suc, ◌≤◌, ◌≡◌, ◌≢◌, stuck, inr, ◌++◌, refl, arith, true, List, [], ◌∷◌, map, length, ok, All,
}
use uproxy.Buffer.{RingBuffer, make}
use uproxy.Buffer.Fifo.{make-IsValid, contents-make}
use uproxy.Http2.Conn.{H2Conn, preface, make_conn}
use uproxy.Http2.Handle.{process}
use uproxy.Http2.Streams.{IsConn}
use uproxy.Http2.Process.{process_lem}
use uproxy.Http2.Frame.{write_data}
use uproxy.Http2.Wire.{IsFrame}
use uproxy.Http2.Messages.{Message, settings, ping, headers, frame_of}
use uproxy.Http2.RoundTrip.{write_all, read_frames, read-write_all}
use uproxy.Http2.Body.{payloads, IsPiece, OnlyLastEnds, read-write_data}

abbrev messages : List Message
messages = settings ((3, 100) ∷ []) ∷ ping 7 true ∷ headers 1 (0x82 ∷ 0x84 ∷ []) true ∷ []

messages-IsFrame : (limit : ℕ) → 16384 ≤ limit → All (IsFrame limit) (map frame_of messages)
messages-IsFrame limit h = (fits_settings, (fits_ping, (fits_headers, tt)))
  where
    fits_settings : IsFrame limit (frame_of (settings ((3, 100) ∷ [])))
    fits_settings = record {
      length_eq = refl;
      length_fits = omega arith;
      length_le = omega arith;
      stream_fits = omega arith;
    }

    fits_ping : IsFrame limit (frame_of (ping 7 true))
    fits_ping = record {
      length_eq = refl;
      length_fits = omega arith;
      length_le = omega arith;
      stream_fits = omega arith;
    }

    fits_headers : IsFrame limit (frame_of (headers 1 (0x82 ∷ 0x84 ∷ []) true))
    fits_headers = record {
      length_eq = refl;
      length_fits = omega arith;
      length_le = omega arith;
      stream_fits = omega arith;
    }

read-write_all_example :
    (b' : RingBuffer) × (write_all 16384 messages (make 8) ≡ ok b')
    × (read_frames (suc (length (map frame_of messages))) 16384 b' ≡ map frame_of messages)
read-write_all_example =
    read-write_all 16384 16384 messages (make 8) (make-IsValid 8) (contents-make 8)
      (omega arith, (tt, ((ground arith, omega arith, omega arith, omega arith), tt)))
      (messages-IsFrame 16384 (omega arith))

abbrev body : List ℕ
body = 1 ∷ 2 ∷ 3 ∷ 4 ∷ 5 ∷ []

read-write_data_example :
    (b' : RingBuffer) × (write_data 1 body true 2 (make 4) ≡ ok b')
    × (payloads (read_frames (suc (length body)) 16384 b') ≡ body)
    × All (IsPiece 1 2) (read_frames (suc (length body)) 16384 b')
    × OnlyLastEnds true (read_frames (suc (length body)) 16384 b')
read-write_data_example =
    read-write_data 1 2 16384 true body (make 4) (make-IsValid 4) (contents-make 4) (ground arith)
      (omega arith) (omega arith) (omega arith) (omega arith)

abbrev ping_bytes : List ℕ
ping_bytes = 0 ∷ 0 ∷ 8 ∷ 6 ∷ 0 ∷ 0 ∷ 0 ∷ 0 ∷ 0 ∷ 1 ∷ 2 ∷ 3 ∷ 4 ∷ 5 ∷ 6 ∷ 7 ∷ 8 ∷ []

-- A server that received the preface and a PING.
abbrev pinged : H2Conn
pinged = record (make_conn true) {
  recv_buf = record { bytes = preface ++ ping_bytes; read_pos = 0; write_pos = 0; size = 41 };
}

pinged-IsConn : IsConn pinged
unfolding make_conn
pinged-IsConn = record {
  recv_valid = record {
    size_in = omega arith;
    read_in = omega arith;
    write_in = omega arith;
    apart = inr refl;
  };
  send_valid = make-IsValid 65536;
  streams_valid = tt;
}

process_lem_example : ((process pinged).0 ≢ stuck) × IsConn (process pinged).1
process_lem_example = process_lem pinged pinged-IsConn
