-- ===== src/Cmd/Capture.antt =====
-- cmd/lastro/main.go: captureWriter, the bounded buffer that the child's two streams are copied to,
-- and the trailer behind what it holds.
pub mod Copies
pub mod Refusals
pub mod Trailer
use lastro.Common.{
  ℕ, ◌+◌, Bool, true, false, Bytes, List, length, [], ◌∷◌, ◌++◌, ltb, if◌then◌else◌,
}
use lastro.Common.Integers.{ℤ, pos, negsuc, decimal}

pub record CaptureWriter : Type 0 where
  pub buf : Bytes
  pub max : ℤ
  pub exceeded : Bool

-- `n > max`, on Go's int.
abbrev pub above : ℕ → ℤ → Bool
above n (pos m) = ltb m n
above n (negsuc m) = true

-- Returns the writer with the count that Write answers.
unfoldable pub write : CaptureWriter → Bytes → CaptureWriter × ℕ
write w p = (
  (if w.exceeded
      then w
      else if above (length w.buf + length p) w.max
      then record w { exceeded = true }
      else record w { buf = w.buf ++ p }),
  length p,
)

abbrev pub new_capture : ℤ → CaptureWriter
new_capture max_output = record { buf = []; max = max_output; exceeded = false }

-- The writes of both streams, in the order in which they take the lock.
unfoldable pub write_chunks : CaptureWriter → List Bytes → CaptureWriter
unfolding write
write_chunks w [] = w
write_chunks w (p ∷ ps) = write_chunks (write w p).0 ps

pub data Stream : Type 0 where
  stdout stderr : Stream

-- One read from a pipe of the child: its stream, its bytes, and whether the stream of this process
-- took them.
pub record Chunk : Type 0 where
  pub stream : Stream
  pub bytes : Bytes
  pub shown : Bool

-- Which of the two copying goroutines have stopped at an error.
pub record Stopped : Type 0 where
  pub out : Bool
  pub err : Bool

abbrev pub has_stopped : Stopped → Stream → Bool
has_stopped s stdout = s.out
has_stopped s stderr = s.err

abbrev pub stop : Stopped → Stream → Stopped
stop s stdout = record s { out = true }
stop s stderr = record s { err = true }

-- io.MultiWriter(os.Stdout, cap) and io.MultiWriter(os.Stderr, cap) under os/exec's two copies: the
-- capture comes second, so what the first writer refuses is not captured and its copy ends there.
unfoldable pub copy_chunk : Stopped × CaptureWriter → Chunk → Stopped × CaptureWriter
unfolding write
copy_chunk (s, w) x =
    if has_stopped s x.stream
    then (s, w)
    else if x.shown
    then (s, (write w x.bytes).0)
    else (stop s x.stream, w)

unfoldable pub copy_streams : Stopped × CaptureWriter → List Chunk → Stopped × CaptureWriter
unfolding copy_chunk
copy_streams state [] = state
copy_streams state (x ∷ xs) = copy_streams (copy_chunk state x) xs

-- "\n[lastro] exit-status=%d\n"
unfoldable pub trailer : ℤ → Bytes
unfolding decimal
trailer exit_code =
    b'\n'
    ∷ b'['
    ∷ b'l'
    ∷ b'a'
    ∷ b's'
    ∷ b't'
    ∷ b'r'
    ∷ b'o'
    ∷ b']'
    ∷ b' '
    ∷ b'e'
    ∷ b'x'
    ∷ b'i'
    ∷ b't'
    ∷ b'-'
    ∷ b's'
    ∷ b't'
    ∷ b'a'
    ∷ b't'
    ∷ b'u'
    ∷ b's'
    ∷ b'='
    ∷ (decimal exit_code ++ (b'\n' ∷ []))
