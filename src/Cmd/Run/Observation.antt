-- ===== src/Cmd/Run/Observation.antt =====
-- When the run of a child is an observation, and what is then observed.
use lastro.Common.{
  ℕ, zero, suc, ◌≤◌, ◌<◌, ◌≡◌, ◌≢◌, ◌↔◌, ◌⊎◌, ◌||◌, inl, inr, refl, sym, ap, ◌∙◌, Bool, true, false,
  Bool-cases, Option, none, some, Bytes, List, length, ◌++◌, map, ltb, ltb→le, ltb→lt, arith,
}
use lastro.Common.Integers.{ℤ, pos, negsuc}
use lastro.Cmd.{Outcome, fails, Step, stops, goes, ◌>>=◌, ◌>>◌, stop_if, or_stop, exit_no_receipt}
use lastro.Cmd.Capture.{Stopped, stdout, stderr, Chunk, write_chunks, new_capture, trailer}
use lastro.Cmd.Capture.Copies.{concat, write_chunks_iff}
use lastro.Cmd.Capture.Refusals.{
  IsShown, kept, copy_streams_lem, any_refused-IsShown, IsShown-any_refused, refused,
}
use lastro.Cmd.Run.{World, Prepared, Child, wait, observe}

-- The bytes of what was captured, in the order of the capture.
abbrev pub captured_of : List Chunk → Bytes
captured_of xs = concat (kept xs)

-- All that was read from the child's pipes, in the order of the capture.
abbrev pub output_of : List Chunk → Bytes
output_of xs = concat (map (λ x. x.bytes) xs)

some_injective : {x y : ℤ} → some x ≡ some y → x ≡ y
some_injective h = cc h

true-false : true ≢ false
true-false h = cc h

suc-zero : {n : ℕ} → pos (suc n) ≢ pos 0
suc-zero h = cc h

negsuc-zero : {n : ℕ} → negsuc n ≢ pos 0
negsuc-zero h = cc h

-- When cmd.Wait gives an exit code, and when not, where P says that no copy has failed.
waited_iff :
    (s : Stopped) (P : Type 0) (status : Option ℤ) (e : ℤ)
    → ((s.out || s.err ≡ false) ↔ P)
    → ((wait s status ≡ some e) ↔ ((status ≡ some e) × ((e ≢ pos 0) ⊎ P)))
      × ((wait s status ≡ none) ↔ ((status ≡ none) ⊎ ((status ≡ some (pos 0)) × ¬ P)))
waited_iff s P none e h = (((λ k. cc k), (λ (k, _). cc k)), ((λ _. inl refl), (λ _. refl)))
waited_iff s P (some (pos zero)) e h = elim (Bool-cases (s.out || s.err)) [
  | inl lost ↦ rw lost (
    (
      (λ k. cc k),
      (λ (k, or). elim or [
        | inl other ↦ absurd (other (sym (some_injective k)))
        | inr p ↦ absurd (true-false (sym lost ∙ h.1 p))
      ]),
    ),
    ((λ _. inr (refl, (λ p. true-false (sym lost ∙ h.1 p)))), (λ _. refl)),
  )
  | inr well ↦ rw well (
    ((λ k. (k, inr (h.0 well))), (λ (k, _). k)),
    ((λ k. cc k), (λ or. elim or [ inl k ↦ cc k | inr (_, lost) ↦ absurd (lost (h.0 well)) ])),
  )
]
waited_iff s P (some (pos (suc n))) e h = (
  ((λ k. (k, inl (λ zeroed. suc-zero (some_injective (k ∙ ap some zeroed))))), (λ (k, _). k)),
  (
    (λ k. cc k),
    (λ or. elim or [ inl k ↦ cc k | inr (k, _) ↦ absurd (suc-zero (some_injective k)) ]),
  ),
)
waited_iff s P (some (negsuc n)) e h = (
  ((λ k. (k, inl (λ zeroed. negsuc-zero (some_injective (k ∙ ap some zeroed))))), (λ (k, _). k)),
  (
    (λ k. cc k),
    (λ or. elim or [ inl k ↦ cc k | inr (k, _) ↦ absurd (negsuc-zero (some_injective k)) ]),
  ),
)

-- The end of an observation, by the status and the capture.
abbrev ending : Option ℤ → Bool → Bytes → Step Outcome (ℤ × Bytes)
ending status exceeded buf = or_stop (fails exit_no_receipt) status >>= λ e.
    (stop_if exceeded (fails exit_no_receipt) >> goes (e, buf ++ trailer e))

ending_iff :
    (status : Option ℤ) (exceeded : Bool) (buf captured : Bytes) (e : ℤ)
    → ((ending status exceeded buf ≡ goes (e, captured))
        ↔ ((status ≡ some e) × ((exceeded ≡ false) × (captured ≡ buf ++ trailer e))))
      × ((ending status exceeded buf ≡ stops (fails 125)) ↔ ((status ≡ none) ⊎ (exceeded ≡ true)))
ending_iff none exceeded buf captured e = ground arith
ending_iff (some x) true buf captured e = ground arith
ending_iff (some x) false buf captured e = (
  ((λ h. (cc h, (refl, cc h))), (λ (h, (k, l)). cc (h, l))),
  ((λ h. cc h), (λ h. elim h [ inl k ↦ cc k | inr k ↦ cc k ])),
)

-- Where the child starts and the bound is 0 or more, whatever the terminal takes of the output:
-- the run is an observation, of an exit code and a stream, exactly when the process has that exit
-- code, which is not 0 unless all was shown, what was captured is at most as many bytes as the
-- bound, and the stream is that and the trailer; and it ends with code 125 exactly when there is
-- no exit code, or 0 with something that was not shown, or when what was captured is over the
-- bound. A chunk is captured where neither it nor one before it in its stream was refused.
pub observe_iff :
    (w : World) (p : Prepared) (child : Child) (max : ℕ) (e : ℤ) (captured : Bytes)
    → w.start p.command ≡ some child
    → p.flags.max_output ≡ pos max
    → ((observe w p ≡ goes (e, captured)) ↔ (
        ((child.status ≡ some e) × ((e ≢ pos 0) ⊎ IsShown child.chunks))
        × ((length (captured_of child.chunks) ≤ max)
            × (captured ≡ captured_of child.chunks ++ trailer e))))
      × ((observe w p ≡ stops (fails 125)) ↔ (
          ((child.status ≡ none) ⊎ ((child.status ≡ some (pos 0)) × ¬ (IsShown child.chunks)))
          ⊎ (max < length (captured_of child.chunks))))
unfolding observe
observe_iff w p child max e captured started bound =
    let ps = kept child.chunks in
    let cap = write_chunks (new_capture (pos max)) ps in
    let s : Stopped = record {
      out = refused stdout child.chunks;
      err = refused stderr child.chunks;
    } in
    let run : observe w p ≡ ending (wait s child.status) cap.exceeded cap.buf =
      rw (started, bound, copy_streams_lem (new_capture (pos max)) child.chunks) refl in
    let (within, marked, full) = write_chunks_iff max ps in
    let (done, lost) = ending_iff (wait s child.status) cap.exceeded cap.buf captured e in
    let (code, no_code) =
      waited_iff s (IsShown child.chunks) child.status e
        (IsShown-any_refused child.chunks, any_refused-IsShown child.chunks) in
    let stream : length (concat ps) ≤ max → cap.buf ++ trailer e ≡ concat ps ++ trailer e =
      λ le. ap (λ v. v.buf ++ trailer e) (full.1 le) in
    let fits : cap.exceeded ≡ false → length (concat ps) ≤ max = λ k.
      elim (Bool-cases (ltb max (length (concat ps)))) [
        | inl more ↦ cc (k, marked.1 (ltb→lt max (length (concat ps)) more))
        | inr le ↦ ltb→le max (length (concat ps)) le
      ] in
    rw run (
      (
        (λ h. let (k, (free, at)) = done.0 h in (code.0 k, (fits free, at ∙ stream (fits free)))),
        (λ (k, (le, at)).
            done.1 (code.1 k, (ap (λ v. v.exceeded) (full.1 le), at ∙ sym (stream le)))),
      ),
      (
        (λ h. elim (lost.0 h) [ inl k ↦ inl (no_code.0 k) | inr k ↦ inr (marked.0 k) ]),
        (λ h. lost.1 (elim h [ inl k ↦ inl (no_code.1 k) | inr k ↦ inr (marked.1 k) ])),
      ),
    )
