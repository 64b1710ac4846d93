-- ===== src/Cmd/Capture/Copies.antt =====
-- What the capture holds after any order of the writes.
use lastro.Common.{
  ℕ, ◌+◌, ◌≤◌, ◌<◌, ◌≡◌, ◌↔◌, refl, ap, ◌∙◌, inl, inr, true, false, Bool-cases, Bytes, List, length,
  [], ◌∷◌, ◌++◌, append-nil, append_assoc, length-append_bytes, ltb, le→ltb, ltb→le, ltb→lt, arith,
}
use lastro.Common.Integers.{ℤ, pos}
use lastro.Cmd.Capture.{write, write_chunks, new_capture}

-- All bytes in their order.
abbrev pub concat : List Bytes → Bytes
concat [] = []
concat (p ∷ ps) = p ++ concat ps

lost-stays :
    (max : ℤ) (buf : Bytes) (ps : List Bytes)
    → write_chunks (record { buf = buf; max = max; exceeded = true }) ps
      ≡ record { buf = buf; max = max; exceeded = true }
unfolding write_chunks write
lost-stays max buf [] = refl
lost-stays max buf (p ∷ ps) = lost-stays max buf ps

write_over :
    (max : ℕ) (buf p : Bytes) (ps : List Bytes)
    → ltb max (length buf + length p) ≡ true
    → write_chunks (record { buf = buf; max = pos max; exceeded = false }) (p ∷ ps)
      ≡ record { buf = buf; max = pos max; exceeded = true }
unfolding write_chunks write
write_over max buf p ps over = rw (over, lost-stays (pos max) buf ps) refl

write_fits :
    (max : ℕ) (buf p : Bytes) (ps : List Bytes)
    → ltb max (length buf + length p) ≡ false
    → write_chunks (record { buf = buf; max = pos max; exceeded = false }) (p ∷ ps)
      ≡ write_chunks (record { buf = buf ++ p; max = pos max; exceeded = false }) ps
unfolding write_chunks write
write_fits max buf p ps fits = rw fits refl

-- From a writer that has room, in the order of the writes: what fits is all there, and what does not
-- fit is marked.
write_chunks_fit :
    (max : ℕ) (buf : Bytes) (ps : List Bytes)
    → length buf + length (concat ps) ≤ max
    → write_chunks (record { buf = buf; max = pos max; exceeded = false }) ps
      ≡ record { buf = buf ++ concat ps; max = pos max; exceeded = false }
unfolding write_chunks write
write_chunks_fit max buf [] h = rw append-nil refl
write_chunks_fit max buf (p ∷ ps) h =
    let all = length-append_bytes p (concat ps) in
    let fits : ltb max (length buf + length p) ≡ false =
      le→ltb max (length buf + length p) (omega (arith, all, h)) in
    let rest =
      write_chunks_fit max (buf ++ p) ps (omega (arith, all, h, length-append_bytes buf p)) in
    write_fits max buf p ps fits
    ∙ rest
    ∙ ap (λ b. record { buf = b; max = pos max; exceeded = false }) (append_assoc buf p (concat ps))

write_chunks_lost :
    (max : ℕ) (buf : Bytes) (ps : List Bytes)
    → length buf ≤ max
    → max < length buf + length (concat ps)
    → (write_chunks (record { buf = buf; max = pos max; exceeded = false }) ps).exceeded ≡ true
unfolding write_chunks write
write_chunks_lost max buf [] room h = absurd (omega arith)
write_chunks_lost max buf (p ∷ ps) room h = elim (Bool-cases (ltb max (length buf + length p))) [
  | inl over ↦ ap (λ w. w.exceeded) (write_over max buf p ps over)
  | inr fits ↦
      let room' : length (buf ++ p) ≤ max =
        omega (arith, length-append_bytes buf p, ltb→le max (length buf + length p) fits) in
      let rest =
        write_chunks_lost max (buf ++ p) ps room'
          (omega (arith, length-append_bytes p (concat ps), length-append_bytes buf p, h)) in
      ap (λ w. w.exceeded) (write_fits max buf p ps fits) ∙ rest
]

write_chunks_bounded :
    (max : ℕ) (buf : Bytes) (ps : List Bytes)
    → length buf ≤ max
    → length (write_chunks (record { buf = buf; max = pos max; exceeded = false }) ps).buf ≤ max
unfolding write_chunks write
write_chunks_bounded max buf [] room = room
write_chunks_bounded max buf (p ∷ ps) room = elim (Bool-cases (ltb max (length buf + length p))) [
  | inl over ↦ rw (write_over max buf p ps over) room
  | inr fits ↦ rw (write_fits max buf p ps fits) (
      write_chunks_bounded max (buf ++ p) ps
        (omega (arith, length-append_bytes buf p, ltb→le max (length buf + length p) fits)))
]

-- After any writes to a new capture of bound max, the buffer has at most max bytes; the mark is set
-- exactly when the writes have more than max bytes together; and the buffer holds all the bytes
-- written, in their order and unmarked, exactly when they are at most max.
pub write_chunks_iff :
    (max : ℕ) (ps : List Bytes)
    → (length (write_chunks (new_capture (pos max)) ps).buf ≤ max)
      × (((write_chunks (new_capture (pos max)) ps).exceeded ≡ true) ↔ (max < length (concat ps)))
      × ((write_chunks (new_capture (pos max)) ps
            ≡ record { buf = concat ps; max = pos max; exceeded = false })
          ↔ (length (concat ps) ≤ max))
write_chunks_iff max ps = (
  write_chunks_bounded max [] ps (omega arith),
  (over, λ h. write_chunks_lost max [] ps (omega arith) (omega (arith, h))),
  (within, λ h. write_chunks_fit max [] ps (omega (arith, h))),
)
  where
    over : (write_chunks (new_capture (pos max)) ps).exceeded ≡ true → max < length (concat ps)
    over marked = elim (Bool-cases (ltb max (length (concat ps)))) [
      | inl more ↦ ltb→lt max (length (concat ps)) more
      | inr fits ↦
          cc (
            marked,
            write_chunks_fit max [] ps (omega (arith, ltb→le max (length (concat ps)) fits)),
          )
    ]

    within :
        write_chunks (new_capture (pos max)) ps
          ≡ record { buf = concat ps; max = pos max; exceeded = false }
        → length (concat ps) ≤ max
    within full = elim (Bool-cases (ltb max (length (concat ps)))) [
      | inl more ↦ cc (
        ap (λ w. w.exceeded) full,
        write_chunks_lost max [] ps (omega arith)
            (omega (arith, ltb→lt max (length (concat ps)) more)),
      )
      | inr fits ↦ ltb→le max (length (concat ps)) fits
    ]
