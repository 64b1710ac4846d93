-- ===== src/Wire/Cert/Pairs.antt =====
-- The (ca_key, ca_sig) pairs: the parser's loop, the encoder's loop and CAPairs.
use lastro.Common.{
  ℕ, zero, suc, ◌+◌, ◌*◌, ◌<◌, ◌≡◌, refl, false, Bytes, length, List, [], ◌∷◌, ◌++◌, arith, lengths,
  if◌then◌else◌, append_assoc, Above, Above-trans, All, ◌⊎◌, inl, inr, ◌↔◌,
}
use lastro.Common.Result.{Result-cases, ok, malformed}
use lastro.Wire.Cursor.{Reader, ◌>>=◌, pure, fail, take_bytes, reader_laws, guard-bind, slice}
use lastro.Wire.Cursor.At.{slice-append}
use lastro.Wire.Cursor.Reads.{Reads, Reads-pure, Reads-pair, Reads-guard, Reads-map, Reads-convert}
use lastro.Wire.Cursor.Primitives.{take_bytes-Reads}
use lastro.Wire.Cert.{CaPair, ca_loop, ca_pairs_loop, out_of_order, append_pairs}

-- The parser's loop, returning the pairs.
pub read_pairs : ℕ → ℕ → Bytes → Reader (List CaPair)
read_pairs zero i prev = pure []
read_pairs (suc rounds) i prev = take_bytes 32 >>= λ key.
    if out_of_order i key prev
    then fail malformed
    else (take_bytes 64 >>= λ sig.
        read_pairs rounds (i + 1) key >>= λ ps. pure (record { key = key; sig = sig } ∷ ps))

pub ca_loop-read_pairs :
    (rounds i : ℕ) (prev : Bytes)
    → ca_loop rounds i prev ≡ (read_pairs rounds i prev >>= λ _. pure tt)
unfolding ca_loop read_pairs
ca_loop-read_pairs zero i prev = simp reader_laws
ca_loop-read_pairs (suc rounds) i prev = simp (reader_laws, guard-bind, ca_loop-read_pairs rounds)

unfoldable pub write_pairs : List CaPair → Bytes
write_pairs [] = []
write_pairs (p ∷ ps) = p.key ++ (p.sig ++ write_pairs ps)

-- `rounds` pairs of the right lengths, each key above the one before.
abbrev pub FitsPairs : ℕ → ℕ → Bytes → List CaPair → Type 0
FitsPairs zero i prev [] = Unit
FitsPairs zero i prev (p ∷ ps) = ⊥
FitsPairs (suc rounds) i prev [] = ⊥
FitsPairs (suc rounds) i prev (p ∷ ps) =
    (length p.key ≡ 32)
    × ((out_of_order i p.key prev ≡ false)
        × ((length p.sig ≡ 64) × FitsPairs rounds (i + 1) p.key ps))

-- A pair in front of the others, and back.
abbrev Nested : Type 0
Nested = Bytes × (Bytes × List CaPair)

abbrev join : Nested → List CaPair
join (key, (sig, ps)) = record { key = key; sig = sig } ∷ ps

abbrev part : List CaPair → Nested
part [] = ([], ([], []))
part (p ∷ ps) = (p.key, (p.sig, ps))

read_nested : ℕ → ℕ → Bytes → Reader Nested
read_nested rounds i prev = take_bytes 32 >>= λ key.
    (if out_of_order i key prev
      then fail malformed
      else (take_bytes 64 >>= λ sig. read_pairs rounds (i + 1) key >>= λ ps. pure (sig, ps)))
    >>= λ r. pure (key, r)

read_pairs-nil : (i : ℕ) (prev : Bytes) → read_pairs zero i prev ≡ pure []
unfolding read_pairs
read_pairs-nil i prev = refl

read_pairs-nested :
    (rounds i : ℕ) (prev : Bytes)
    → read_pairs (suc rounds) i prev ≡ (read_nested rounds i prev >>= λ n. pure (join n))
unfolding read_pairs read_nested
read_pairs-nested rounds i prev = simp (reader_laws, guard-bind)

-- The formats on both sides of the last step agree.
module _ (i : ℕ) (prev : Bytes) where
  to_none : (ps : List CaPair) → [] ≡ ps → FitsPairs zero i prev ps × ([] ≡ write_pairs ps)
  unfolding write_pairs
  to_none [] h = (tt, refl)
  to_none (p ∷ ps) h = cc

  of_none : (ps : List CaPair) → FitsPairs zero i prev ps → [] ≡ ps
  of_none [] h = refl
  of_none (p ∷ ps) h = absurd h

  abbrev FitsNested : ℕ → Nested → Type 0
  FitsNested rounds n =
      (length n.0 ≡ 32)
      × ((out_of_order i n.0 prev ≡ false)
          × ((length n.1.0 ≡ 64) × FitsPairs rounds (i + 1) n.0 n.1.1))

  to_some :
      (rounds : ℕ) (ps : List CaPair)
      → FitsNested rounds (part ps) × (join (part ps) ≡ ps)
      → FitsPairs (suc rounds) i prev ps
        × ((part ps).0 ++ ((part ps).1.0 ++ write_pairs (part ps).1.1) ≡ write_pairs ps)
  unfolding write_pairs
  to_some rounds [] h = cc (h.1)
  to_some rounds (p ∷ ps) h = (h.0, refl)

  of_some :
      (rounds : ℕ) (ps : List CaPair)
      → FitsPairs (suc rounds) i prev ps
      → FitsNested rounds (part ps) × (join (part ps) ≡ ps)
  of_some rounds [] h = absurd h
  of_some rounds (p ∷ ps) h = (h, refl)

pub read_pairs-Reads :
    (rounds i : ℕ) (prev : Bytes)
    → Reads (read_pairs rounds i prev) write_pairs (FitsPairs rounds i prev)
unfolding read_nested
read_pairs-Reads zero i prev =
    rw read_pairs-nil (Reads-convert (Reads-pure []) (to_none i prev) (of_none i prev))
read_pairs-Reads (suc rounds) i prev = rw read_pairs-nested (
    Reads-convert
      (Reads-map join part (λ n h. refl)
        (Reads-pair (take_bytes-Reads 32) (λ key h.
          Reads-guard (out_of_order i key prev) malformed
            (Reads-pair (take_bytes-Reads 64) (λ sig h'. read_pairs-Reads rounds (i + 1) key)))))
      (to_some i prev rounds) (of_some i prev rounds))

slice_at :
    (pre x rest : Bytes) (a b : ℕ)
    → a ≡ length pre
    → b ≡ length pre + length x
    → slice (pre ++ (x ++ rest)) a b ≡ x
slice_at pre x rest a b p q = rw (p, q) (slice-append pre x rest)

-- CAPairs cuts out of the region the pairs that were written into it.
pub ca_pairs_loop-write_pairs :
    (rounds j : ℕ) (prev : Bytes) (ps : List CaPair) (pre : Bytes) (i : ℕ)
    → FitsPairs rounds j prev ps
    → i * 96 ≡ length pre
    → ca_pairs_loop rounds i (pre ++ write_pairs ps) ≡ ps
unfolding ca_pairs_loop write_pairs
ca_pairs_loop-write_pairs zero j prev [] pre i h e = refl
ca_pairs_loop-write_pairs zero j prev (p ∷ ps) pre i h e = absurd h
ca_pairs_loop-write_pairs (suc rounds) j prev [] pre i h e = absurd h
ca_pairs_loop-write_pairs (suc rounds) j prev (p ∷ ps) pre i h e =
    let rest = p.sig ++ write_pairs ps in
    let key = slice_at pre p.key rest (i * 96) (i * 96 + 32) e (omega arith) in
    let sig : slice (pre ++ (p.key ++ rest)) (i * 96 + 32) (i * 96 + 96) ≡ p.sig =
      rw (← append_assoc pre p.key rest) (
        slice_at (pre ++ p.key) p.sig (write_pairs ps) (i * 96 + 32) (i * 96 + 96) (omega lengths)
          (omega lengths)) in
    let others =
      ca_pairs_loop-write_pairs rounds (j + 1) p.key ps (pre ++ (p.key ++ p.sig)) (i + 1) h.1.1.1
        (omega lengths) in
    let moved : ca_pairs_loop rounds (i + 1) (pre ++ (p.key ++ rest)) ≡ ps =
      rw
        (
          ← append_assoc p.key p.sig (write_pairs ps),
          ← append_assoc pre (p.key ++ p.sig) (write_pairs ps),
        )
        others in
    λ t. record { key = key t; sig = sig t } ∷ moved t

-- The encoder's loop accepts what fits, and writes it.
append_pairs-write_pairs :
    (i : ℕ) (prev : Bytes) (ps : List CaPair)
    → FitsPairs (length ps) i prev ps
    → append_pairs i prev ps ≡ ok (write_pairs ps)
unfolding append_pairs write_pairs
append_pairs-write_pairs i prev [] h = refl
append_pairs-write_pairs i prev (p ∷ ps) h =
    rw (append_pairs-write_pairs (i + 1) p.key ps h.1.1.1) (ground arith)

append_pairs_fits :
    (i : ℕ) (prev : Bytes) (ps : List CaPair) (x : Bytes)
    → append_pairs i prev ps ≡ ok x
    → FitsPairs (length ps) i prev ps
unfolding append_pairs
append_pairs_fits i prev [] x e = tt
append_pairs_fits i prev (p ∷ ps) x e = elim (Result-cases (append_pairs (i + 1) p.key ps)) [
  | inl (y, more) ↦ ground (arith, append_pairs_fits (i + 1) p.key ps y more)
  | inr (why, none) ↦ ground (arith, none)
]

pub append_pairs_iff :
    (i : ℕ) (prev : Bytes) (ps : List CaPair) (x : Bytes)
    → (append_pairs i prev ps ≡ ok x) ↔ (FitsPairs (length ps) i prev ps × (x ≡ write_pairs ps))
append_pairs_iff i prev ps x = (
  λ e. let h = append_pairs_fits i prev ps x e in (h, cc (e, append_pairs-write_pairs i prev ps h)),
  λ (h, same). rw same (append_pairs-write_pairs i prev ps h),
)

-- Every key is strictly above every key before it.
abbrev pub Ascending : List CaPair → Type 0
Ascending [] = Unit
Ascending (p ∷ ps) = All (λ q. Above q.key p.key) ps × Ascending ps

Above-All :
    (rounds i : ℕ) (low prev : Bytes) (ps : List CaPair)
    → 0 < i
    → (low ≡ prev) ⊎ Above prev low
    → FitsPairs rounds i prev ps
    → All (λ q. Above q.key low) ps
Above-All zero i low prev [] pos over h = tt
Above-All zero i low prev (p ∷ ps) pos over h = absurd h
Above-All (suc rounds) i low prev [] pos over h = absurd h
Above-All (suc rounds) i low prev (p ∷ ps) pos over h =
    let above : Above p.key low = elim over [
      | inl same ↦ rw same (ground arith)
      | inr more ↦ Above-trans p.key prev low (ground arith) more
    ] in
    (above, Above-All rounds (i + 1) low p.key ps (omega arith) (inr above) h.1.1.1)

pub FitsPairs-Ascending :
    (rounds i : ℕ) (prev : Bytes) (ps : List CaPair) → FitsPairs rounds i prev ps → Ascending ps
FitsPairs-Ascending zero i prev [] h = tt
FitsPairs-Ascending zero i prev (p ∷ ps) h = absurd h
FitsPairs-Ascending (suc rounds) i prev [] h = absurd h
FitsPairs-Ascending (suc rounds) i prev (p ∷ ps) h = (
  Above-All rounds (i + 1) p.key p.key ps (omega arith) (inl refl) h.1.1.1,
  FitsPairs-Ascending rounds (i + 1) p.key ps h.1.1.1,
)

pub length-FitsPairs :
    (rounds i : ℕ) (prev : Bytes) (ps : List CaPair)
    → FitsPairs rounds i prev ps
    → length ps ≡ rounds
length-FitsPairs zero i prev [] h = refl
length-FitsPairs zero i prev (p ∷ ps) h = absurd h
length-FitsPairs (suc rounds) i prev [] h = absurd h
length-FitsPairs (suc rounds) i prev (p ∷ ps) h =
    omega (arith, length-FitsPairs rounds (i + 1) p.key ps h.1.1.1)
