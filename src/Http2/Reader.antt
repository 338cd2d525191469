-- ===== src/Http2/Reader.antt =====
-- include/uproxy/http1.h, src/http2.cpp: `ParseResult` and the class `H2FrameReader`.
use uproxy.Base.{ℕ, ◌+◌, ◌*◌, ◌%◌, ◌^◌, List, ltb, if◌then◌else◌, get_or}
use uproxy.Buffer.{RingBuffer, readable, peek, commit_read}
use uproxy.Http1.Message.{ParseResult, complete, incomplete, malformed}
use uproxy.Http2.Frame.{H2Frame}

-- `FRAME_HEADER_SIZE`
abbrev pub frame_header_size : ℕ
frame_header_size = 9

abbrev pub byte_at : List ℕ → ℕ → ℕ
byte_at h i = get_or h i 0

-- The buffer and the frame change only where the result is `Complete`.
unfoldable pub read_frame : RingBuffer → H2Frame → ℕ → ParseResult × RingBuffer × H2Frame
read_frame buf frame max_frame_size =
    let h = peek frame_header_size buf in
    let len = byte_at h 0 * 2 ^ 16 + byte_at h 1 * 2 ^ 8 + byte_at h 2 in
    let rest = commit_read frame_header_size buf in
    let stream_id =
      byte_at h 5 * 2 ^ 24 + byte_at h 6 * 2 ^ 16 + byte_at h 7 * 2 ^ 8 + byte_at h 8 in
    if ltb (readable buf) frame_header_size
    then (incomplete, buf, frame)
    else if ltb max_frame_size len
    then (malformed, buf, frame)
    else if ltb (readable buf) (frame_header_size + len)
    then (incomplete, buf, frame)
    else (
      complete,
      commit_read len rest,
      record {
        length = len;
        type = byte_at h 3;
        flags = byte_at h 4;
        stream_id = stream_id % 2 ^ 31;
        payload = peek len rest;
      },
    )
