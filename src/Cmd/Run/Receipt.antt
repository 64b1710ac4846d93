-- ===== src/Cmd/Run/Receipt.antt =====
-- The receipt that `lastro run` writes, and what `lastro verify` says to it.
use lastro.Common.{
  ℕ, ◌≤◌, ◌<◌, ◌≡◌, refl, sym, ap, ◌∙◌, ◌⊎◌, inr, true, none, some, Bytes, List, length, replicate,
  [], ◌∷◌, ◌++◌, arith, subst,
}
use lastro.Common.Integers.{ℤ, pos}
use lastro.Common.Regions.{overwrite, overwrite_full}
use lastro.Common.Result.{ok}
use lastro.Wire.Crypto.{Crypto, CryptoLaws, domain_span, sign_tagged, blake2s256}
use lastro.Wire.Method.{method_subprocess}
use lastro.Wire.Span.{Span, IsSpanFields, parse_span, build_span, verify_sig}
use lastro.Wire.Span.Build.{span_of, parse-build_span, verify_sig-build_span}
use lastro.Cmd.{goes}
use lastro.Cmd.Resource.Grammar.{validate_resource_iff}
use lastro.Cmd.Capture.{trailer}
use lastro.Cmd.Capture.Refusals.{IsShown, kept-IsShown}
use lastro.Cmd.Capture.Copies.{concat}
use lastro.Cmd.Run.Observation.{captured_of, output_of, observe_iff}
use lastro.Cmd.Run.{
  Child, World, Prepared, executor_of, resource_id_of, prepare, save, span_fields, mint, run_steps,
  cmd_run,
}
use lastro.Cmd.Run.Preparation.{IsWorld, IsPrepared, prepare-IsPrepared, resource_fits}

ok_injective {ℓ} : {A : Type ℓ} {x y : A} → ok x ≡ ok y → x ≡ y
ok_injective h = cc h

-- The span of a receipt for this stream, signed by the key of the seed.
pub record IsReceiptOf (c : Crypto) (w : World) (p : Prepared) (captured receipt : Bytes)
    (span : Span) : Type 0 where
  pub parsed : parse_span receipt ≡ ok span
  pub signed : verify_sig c span ≡ ok tt
  pub executor : span.executor ≡ executor_of c p.seed
  pub resource_id : span.resource_id ≡ resource_id_of c p
  pub trace_id : span.trace_id ≡ p.trace_id
  pub method_id : span.method_id ≡ method_subprocess
  pub observed_at : span.observed_at ≡ w.now
  pub digest : span.digest ≡ c.sum256 captured

module _ (c : Crypto) (laws : CryptoLaws c) (w : World) (p : Prepared) (typed : IsWorld w)
    (ready : IsPrepared p) where
  executor-filled : overwrite (executor_of c p.seed) (replicate 32 0) ≡ executor_of c p.seed
  executor-filled =
      overwrite_full (executor_of c p.seed) (replicate 32 0)
        (laws.length-public_key p.seed ready.seed)

  fields-IsSpanFields :
      (captured span_id : Bytes)
      → length span_id ≡ 16
      → IsSpanFields (span_fields c w p captured span_id)
  unfolding blake2s256
  fields-IsSpanFields captured span_id n = record {
    version = omega arith;
    span_id = n;
    trace_id = ready.trace_id;
    method_id = omega arith;
    volatility = omega arith;
    origin = refl;
    observed_at = typed.now;
    digest = laws.length-sum256 captured;
    executor = ap length executor-filled ∙ laws.length-public_key p.seed ready.seed;
  }

  build-IsReceiptOf :
      (captured span_id : Bytes)
      → length span_id ≡ 16
      → (receipt : Bytes) × (span : Span) × (build_span c
            (span_fields c w p captured span_id)
            (c.key_from_seed p.seed)
          ≡ ok receipt)
        × IsReceiptOf c w p captured receipt span
  unfolding blake2s256
  build-IsReceiptOf captured span_id n =
      let f = span_fields c w p captured span_id in
      let fields = fields-IsSpanFields captured span_id n in
      let fits : length f.resource_id ≤ 256 = omega (
        arith,
        resource_fits c laws (executor_of c p.seed) p.flags.namespace p.path
            ((validate_resource_iff p.flags.namespace p.path).1 ready.resource),
      ) in
      let (receipt, s, built, parsed, signed) =
        verify_sig-build_span c f p.seed laws fields fits ready.seed executor-filled in
      let (tbs, _, parsed') =
        parse-build_span c f (c.key_from_seed p.seed) receipt laws fields built in
      let span = span_of f tbs (sign_tagged c domain_span tbs (c.key_from_seed p.seed)) in
      let same : s ≡ span = ok_injective (sym parsed ∙ parsed') in
      (
        receipt,
        span,
        built,
        record {
          parsed = parsed';
          signed = subst (λ x. verify_sig c x ≡ ok tt) same signed;
          executor = executor-filled;
          resource_id = refl;
          trace_id = refl;
          method_id = refl;
          observed_at = refl;
          digest = refl;
        },
      )

  mint-IsReceiptOf :
      (exit_code : ℤ) (captured span_id : Bytes) (saved : List (Bytes × Bytes))
      → save w p captured ≡ goes saved
      → w.span_draw ≡ some span_id
      → length span_id ≡ 16
      → w.files.write_succeeds p.flags.out ≡ true
      → (receipt : Bytes) × (span : Span) × (mint c w p exit_code captured
          ≡ goes (record { code = exit_code; written = saved ++ ((p.flags.out, receipt) ∷ []) }))
        × IsReceiptOf c w p captured receipt span
  unfolding mint
  mint-IsReceiptOf exit_code captured span_id saved saves drawn n writes =
      let (receipt, span, built, made) = build-IsReceiptOf captured span_id n in
      (receipt, span, rw (saves, drawn, built, writes) refl, made)

-- What a run needs outside of the command: a child that prints at most `max` bytes, all of them shown,
-- and exits with `exit_code`, writes that succeed, and 16 random bytes for the span.
pub record RunsWell (w : World) (p : Prepared) (child : Child) (max : ℕ) (exit_code : ℤ)
    (span_id : Bytes) (saved : List (Bytes × Bytes)) : Type 0 where
  pub started : w.start p.command ≡ some child
  pub bound : p.flags.max_output ≡ pos max
  pub shown : IsShown child.chunks
  pub fits : length (output_of child.chunks) ≤ max
  pub status : child.status ≡ some exit_code
  pub saves : save w p (output_of child.chunks ++ trailer exit_code) ≡ goes saved
  pub drawn : w.span_draw ≡ some span_id
  pub span_id_size : length span_id ≡ 16
  pub writes : w.files.write_succeeds p.flags.out ≡ true

-- A run whose checks pass, whose child starts, prints at most as much as the bound (of 0 or more),
-- is shown in full by the terminal and gives an exit code, where the clock and the draws have
-- their Go types, the saved output and the receipt can be written and the span gets 16 random
-- bytes, exits with the child's exit code and writes a receipt; it parses, its signature verifies
-- under the key of the seed, and it names the resource, the trace and the time, and the hash of
-- all that the child printed with the trailer of the exit code.
pub cmd_run-IsReceiptOf :
    (c : Crypto) (w : World) (args : List Bytes) (p : Prepared) (child : Child) (max : ℕ)
    (exit_code : ℤ) (span_id : Bytes) (saved : List (Bytes × Bytes))
    → CryptoLaws c
    → IsWorld w
    → prepare c w args ≡ goes p
    → RunsWell w p child max exit_code span_id saved
    → (receipt : Bytes) × (span : Span) × (cmd_run c w args
        ≡ record { code = exit_code; written = saved ++ ((p.flags.out, receipt) ∷ []) })
      × IsReceiptOf c w p (output_of child.chunks ++ trailer exit_code) receipt span
unfolding cmd_run run_steps
cmd_run-IsReceiptOf c w args p child max exit_code span_id saved laws typed prepared r =
    let captured = output_of child.chunks ++ trailer exit_code in
    let whole : captured_of child.chunks ≡ output_of child.chunks =
      ap concat (kept-IsShown child.chunks r.shown) in
    let seen =
      (observe_iff w p child max exit_code captured r.started r.bound).0.1 (
        (r.status, inr r.shown),
        (rw whole r.fits, ap (λ b. b ++ trailer exit_code) (sym whole)),
      ) in
    let (receipt, span, minted, made) =
      mint-IsReceiptOf c laws w p typed (prepare-IsPrepared c w args p typed prepared) exit_code
        captured span_id saved r.saves r.drawn r.span_id_size r.writes in
    (receipt, span, rw (prepared, seen, minted) refl, made)

-- A run whose checks pass, whose child starts and whose bound is 0 or more leaves no file, neither
-- a receipt nor the saved output, and exits with 125, where the child gives no exit code, where it
-- gives 0 but the terminal refused a part of its output, and where more than the bound was
-- captured of its output, which is each chunk such that neither it nor one before it in its stream
-- was refused.
pub cmd_run-over_bound :
    (c : Crypto) (w : World) (args : List Bytes) (p : Prepared) (child : Child) (max : ℕ)
    → prepare c w args ≡ goes p
    → w.start p.command ≡ some child
    → p.flags.max_output ≡ pos max
    → ((child.status ≡ none) ⊎ ((child.status ≡ some (pos 0)) × ¬ (IsShown child.chunks)))
      ⊎ (max < length (captured_of child.chunks))
    → cmd_run c w args ≡ record { code = pos 125; written = [] }
unfolding cmd_run run_steps
cmd_run-over_bound c w args p child max prepared started bound bad =
    let lost = (observe_iff w p child max (pos 0) [] started bound).1.1 bad in
    rw (prepared, lost) refl
