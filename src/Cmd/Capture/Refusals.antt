-- ===== src/Cmd/Capture/Refusals.antt =====
-- What the copies of the child's two streams capture where the terminal refuses some of the chunks.
use lastro.Common.{
  ◌≡◌, refl, ap, ◌∙◌, Bool, true, false, not, ◌&&◌, ◌||◌, Bool-cases, Bytes, List, [], ◌∷◌, map,
  All, inl, inr,
}
use lastro.Cmd.Capture.{
  CaptureWriter, Stopped, Stream, stdout, stderr, Chunk, copy_chunk, copy_streams, write,
  write_chunks,
}

abbrev pub running : Stopped
running = record { out = false; err = false }

abbrev same : Stream → Stream → Bool
same stdout stdout = true
same stderr stderr = true
same stdout stderr = false
same stderr stdout = false

-- Whether the terminal refused a chunk of the stream.
abbrev pub refused : Stream → List Chunk → Bool
refused s [] = false
refused s (x ∷ xs) = same s x.stream && not x.shown || refused s xs

abbrev pub any_refused : List Chunk → Bool
any_refused xs = refused stdout xs || refused stderr xs

-- A chunk behind others is captured where it was shown, and so was all before it in its stream.
abbrev is_kept : List Chunk → Chunk → Bool
is_kept before x = x.shown && not (refused x.stream before)

abbrev keep_if : Bool → Bytes → List Bytes → List Bytes
keep_if true b rest = b ∷ rest
keep_if false b rest = rest

abbrev kept_after : List Chunk → List Chunk → List Bytes
kept_after before [] = []
kept_after before (x ∷ xs) = keep_if (is_kept before x) x.bytes (kept_after (x ∷ before) xs)

abbrev pub kept : List Chunk → List Bytes
kept xs = kept_after [] xs

abbrev pub IsShown : List Chunk → Type 0
IsShown = All (λ x. x.shown ≡ true)

abbrev stopped_by : List Chunk → Stopped
stopped_by xs = record { out = refused stdout xs; err = refused stderr xs }

abbrev write_if : Bool → CaptureWriter → Bytes → CaptureWriter
write_if true w b = (write w b).0
write_if false w b = w

-- One chunk, by what was refused before it.
copy_chunk_lem :
    (before : List Chunk) (w : CaptureWriter) (x : Chunk)
    → copy_chunk (stopped_by before, w) x
      ≡ (stopped_by (x ∷ before), write_if (is_kept before x) w x.bytes)
unfolding copy_chunk
copy_chunk_lem before w x = going x.stream x.bytes x.shown
  where
    going :
        (s : Stream) (b : Bytes) (shown : Bool)
        → let x : Chunk = record { stream = s; bytes = b; shown = shown } in
          copy_chunk (stopped_by before, w) x
          ≡ (stopped_by (x ∷ before), write_if (is_kept before x) w b)
    going stdout b true = elim (Bool-cases (refused stdout before)) [
      | inl r ↦ rw r refl
      | inr r ↦ rw r refl
    ]
    going stdout b false = elim (Bool-cases (refused stdout before)) [
      | inl r ↦ rw r refl
      | inr r ↦ rw r refl
    ]
    going stderr b true = elim (Bool-cases (refused stderr before)) [
      | inl r ↦ rw r refl
      | inr r ↦ rw r refl
    ]
    going stderr b false = elim (Bool-cases (refused stderr before)) [
      | inl r ↦ rw r refl
      | inr r ↦ rw r refl
    ]

or_swap : (a b c : Bool) → (a || b) || c ≡ b || (a || c)
or_swap true true c = refl
or_swap true false c = refl
or_swap false b c = refl

write_kept :
    (k : Bool) (w : CaptureWriter) (b : Bytes) (rest : List Bytes)
    → write_chunks (write_if k w b) rest ≡ write_chunks w (keep_if k b rest)
unfolding write_chunks
write_kept true w b rest = refl
write_kept false w b rest = refl

copy_after :
    (before : List Chunk) (w : CaptureWriter) (xs : List Chunk)
    → copy_streams (stopped_by before, w) xs ≡ (
      record {
        out = refused stdout xs || refused stdout before;
        err = refused stderr xs || refused stderr before;
      },
      write_chunks w (kept_after before xs),
    )
unfolding copy_streams write_chunks
copy_after before w [] = refl
copy_after before w (x ∷ xs) =
    let swapped =
      λ (s : Stream). or_swap (same s x.stream && not x.shown) (refused s xs) (refused s before) in
    ap (λ state. copy_streams state xs) (copy_chunk_lem before w x)
    ∙ copy_after (x ∷ before) (write_if (is_kept before x) w x.bytes) xs
    ∙ rw
        (
          swapped stdout,
          swapped stderr,
          write_kept (is_kept before x) w x.bytes (kept_after (x ∷ before) xs),
        )
        refl

or_false : (a : Bool) → a || false ≡ a
or_false true = refl
or_false false = refl

-- The copies as a whole: which of them have stopped, and what was written to the capture.
pub copy_streams_lem :
    (w : CaptureWriter) (xs : List Chunk)
    → copy_streams (running, w) xs
      ≡ (record { out = refused stdout xs; err = refused stderr xs }, write_chunks w (kept xs))
copy_streams_lem w xs =
    rw⁻¹ (or_false (refused stdout xs), or_false (refused stderr xs)) (copy_after [] w xs)

refused-IsShown : (s : Stream) (xs : List Chunk) → IsShown xs → refused s xs ≡ false
refused-IsShown s [] h = refl
refused-IsShown s (x ∷ xs) (h, hs) = rw (h, refused-IsShown s xs hs) (none_of (same s x.stream))
  where
    none_of : (b : Bool) → b && false || false ≡ false
    none_of true = refl
    none_of false = refl

kept_shown :
    (before xs : List Chunk)
    → IsShown before
    → IsShown xs
    → kept_after before xs ≡ map (λ x. x.bytes) xs
kept_shown before [] b h = refl
kept_shown before (x ∷ xs) b (h, hs) =
    rw (kept_shown (x ∷ before) xs (h, b) hs, h, refused-IsShown x.stream before b) refl

-- What is all shown is all captured.
pub kept-IsShown : (xs : List Chunk) → IsShown xs → kept xs ≡ map (λ x. x.bytes) xs
kept-IsShown xs h = kept_shown [] xs tt h

front :
    (s : Stream) (shown out err : Bool)
    → (same stdout s && not shown || out) || (same stderr s && not shown || err) ≡ false
    → (shown ≡ true) × (out || err ≡ false)
front stdout true out err h = (refl, h)
front stderr true out err h = (refl, h)
front stdout false out err h = cc h
front stderr false true err h = cc h
front stderr false false err h = cc h

pub any_refused-IsShown : (xs : List Chunk) → IsShown xs → any_refused xs ≡ false
any_refused-IsShown xs h = rw (refused-IsShown stdout xs h, refused-IsShown stderr xs h) refl

pub IsShown-any_refused : (xs : List Chunk) → any_refused xs ≡ false → IsShown xs
IsShown-any_refused [] h = tt
IsShown-any_refused (x ∷ xs) h =
    let (shown, rest) = front x.stream x.shown (refused stdout xs) (refused stderr xs) h in
    (shown, IsShown-any_refused xs rest)
