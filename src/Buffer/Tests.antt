-- ===== src/Buffer/Tests.antt =====
-- src/buffer.cpp: the laws of the queue, on buffers whose bytes go round the end of the storage.
use uproxy.Base.{◌≡◌, refl, arith, inr, [], ◌∷◌}
use uproxy.Buffer.{RingBuffer, append}
use uproxy.Buffer.Fifo.{contents, IsValid}
use uproxy.Buffer.Append.{Appended, append_lem}

-- Two bytes are queued, 4 at the end of the storage and 1 at its start.
abbrev wrapped : RingBuffer
wrapped = record { bytes = 1 ∷ 2 ∷ 3 ∷ 4 ∷ []; read_pos = 3; write_pos = 1; size = 2 }

abbrev wrapped-IsValid : IsValid wrapped
wrapped-IsValid = record {
  size_in = omega arith;
  read_in = omega arith;
  write_in = omega arith;
  apart = inr refl;
}

wrapped_queue : contents wrapped ≡ 4 ∷ 1 ∷ []
wrapped_queue = refl

append_lem_example : Appended wrapped (7 ∷ 8 ∷ 9 ∷ []) (append (7 ∷ 8 ∷ 9 ∷ []) wrapped)
append_lem_example = append_lem (7 ∷ 8 ∷ 9 ∷ []) wrapped wrapped-IsValid
