-- ===== src/Http2/RoundTrip.antt =====
-- src/http2.cpp: whatever `H2FrameWriter` is asked to send, `H2FrameReader` gets it frame by frame.
use uproxy.Base.{
  ℕ, zero, suc, ◌<◌, ◌≡◌, sym, ap, ◌∙◌, true, List, [], ◌∷◌, ◌++◌, map, arith, length, ltb, Result,
  ok, ◌>>=◌, All,
}
use uproxy.Buffer.{RingBuffer}
use uproxy.Buffer.Fifo.{contents, IsValid, length-contents}
use uproxy.Buffer.Append.{Appended, Appended-bind, Appended-nil}
use uproxy.Http1.Message.{complete, incomplete}
use uproxy.Http2.Frame.{H2Frame, new_frame}
use uproxy.Http2.Reader.{read_frame}
use uproxy.Http2.Wire.{wire, IsFrame, read_frame-wire}
use uproxy.Http2.Messages.{Message, write, frame_of, IsSendable, write_lem}

-- A list of messages, one call of the writer after the other.
unfoldable pub write_all : ℕ → List Message → RingBuffer → Result RingBuffer
write_all max_size [] b = ok b
write_all max_size (m ∷ ms) b = write max_size m b >>= write_all max_size ms

-- Reading until a read is not complete, on fuel.
unfoldable pub read_frames : ℕ → ℕ → RingBuffer → List H2Frame
read_frames zero max_size b = []
read_frames (suc fuel) max_size b =
    let (parsed, b', f) = read_frame b new_frame max_size in
    elim parsed [ complete ↦ f ∷ read_frames fuel max_size b' | _ ↦ [] ]

abbrev pub wires : List H2Frame → List ℕ
wires [] = []
wires (f ∷ fs) = wire f ++ wires fs

-- An empty buffer holds no frame.
read_frame-nil :
    (max_size : ℕ) (f₀ : H2Frame) (b : RingBuffer)
    → IsValid b
    → contents b ≡ []
    → read_frame b f₀ max_size ≡ (incomplete, b, f₀)
unfolding read_frame
read_frame-nil max_size f₀ b v e =
    let z : b.size ≡ 0 = sym (length-contents b v) ∙ ap length e in
    let short : ltb b.size 9 ≡ true = ground arith in rw short

pub read_frames-wires :
    (fuel max_size : ℕ) (fs : List H2Frame) (b : RingBuffer)
    → IsValid b
    → length fs < fuel
    → All (IsFrame max_size) fs
    → contents b ≡ wires fs
    → read_frames fuel max_size b ≡ fs
unfolding read_frames
read_frames-wires zero max_size fs b v h ok_fs q = absurd (omega arith)
read_frames-wires (suc fuel) max_size [] b v h ok_fs q =
    rw (read_frame-nil max_size new_frame b v q, read_frames)
read_frames-wires (suc fuel) max_size (f ∷ fs) b v h ok_fs q =
    let (b', e, v', q') = read_frame-wire max_size f new_frame (wires fs) b v ok_fs.0 q in
    rw (e, read_frames)
      (rw e (ap (◌∷◌ f) (read_frames-wires fuel max_size fs b' v' (omega arith) ok_fs.1 q')))

write_all_lem :
    (max_size : ℕ) (ms : List Message) (b : RingBuffer)
    → IsValid b
    → All (IsSendable max_size) ms
    → Appended b (wires (map frame_of ms)) (write_all max_size ms b)
unfolding write_all
write_all_lem max_size [] b v h = Appended-nil b v
write_all_lem max_size (m ∷ ms) b v h =
    Appended-bind b (wire (frame_of m)) (wires (map frame_of ms)) (write max_size m b)
      (write_all max_size ms) (write_lem max_size m b v h.0)
      (λ b' v'. write_all_lem max_size ms b' v' h.1)

-- Any list of sendable messages, written to an empty valid buffer, is read back as its frames, in
-- order, by a reader whose limit they all keep to.
pub read-write_all :
    (max_size limit : ℕ) (ms : List Message) (b : RingBuffer)
    → IsValid b
    → contents b ≡ []
    → All (IsSendable max_size) ms
    → All (IsFrame limit) (map frame_of ms)
    → (b' : RingBuffer) × (write_all max_size ms b ≡ ok b')
      × (read_frames (suc (length (map frame_of ms))) limit b' ≡ map frame_of ms)
read-write_all max_size limit ms b v e sendable fits =
    let (b', e', v', q) = write_all_lem max_size ms b v sendable in
    (
      b',
      e',
      read_frames-wires (suc (length (map frame_of ms))) limit (map frame_of ms) b' v' (omega arith)
          fits (q ∙ ap (λ c. c ++ wires (map frame_of ms)) e),
    )
