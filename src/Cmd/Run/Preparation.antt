-- ===== src/Cmd/Run/Preparation.antt =====
-- What `lastro run` has checked when it starts a child.
use lastro.Common.{
  ℕ, ◌+◌, ◌≤◌, ◌<◌, ◌≡◌, ◌^◌, refl, inl, inr, Bool-cases, not, ◌||◌, Option, none, some, Bytes,
  List, length, arith, lengths, subst, ltb,
}
use lastro.Wire.Crypto.{Crypto, CryptoLaws, fingerprint}
use lastro.Wire.Crypto.Signing.{length-fingerprint}
use lastro.Cmd.{
  of_length, Outcome, fails, is_blank, sig_key_name, Step, stops, goes, ◌>>=◌, stop_if, or_stop,
  verify_usage, exit_no_receipt,
}
use lastro.Cmd.Resource.{ResourceError, resolve_sha_template, validate_resource}
use lastro.Cmd.Resource.Grammar.{IsResource, validate_resource_iff}
use lastro.Cmd.Run.{
  World, RunFlags, Prepared, split_args, hex_decode, resource_of, resolved_or_stop, valid_or_stop,
  trace_id, executor_of, prepare,
}

-- What a part that goes on has passed.
pub goes_on {ℓ κ} :
    {A : Type ℓ} {B : Type κ} (s : Step Outcome A) (next : A → Step Outcome B) {y : B}
    → (s >>= next) ≡ goes y
    → (x : A) × (s ≡ goes x) × (next x ≡ goes y)
goes_on (stops o) next h = cc
goes_on (goes x) next h = (x, refl, h)

-- The drawn bytes fill their arrays, and the clock is a uint64.
pub record IsWorld (w : World) : Type 0 where
  pub trace_draw : (b : Bytes) → w.trace_draw ≡ some b → length b ≡ 16
  pub now : w.now < 2 ^ 64

-- What a child is started with.
pub record IsPrepared (p : Prepared) : Type 0 where
  pub seed : length p.seed ≡ 32
  pub trace_id : length p.trace_id ≡ 16
  pub resource : IsResource p.flags.namespace p.path

pub length-resource_of :
    (fp ns path : Bytes)
    → length (resource_of fp ns path) ≡ 6 + (length fp + (length ns + length path))
length-resource_of fp ns path = omega (lengths)

or_stop-goes {ℓ} :
    {A : Type ℓ} (o : Outcome) (x : Option A) {y : A} → or_stop o x ≡ goes y → x ≡ some y
or_stop-goes o none h = cc
or_stop-goes o (some x) h = cc h

of_length-some : (n : ℕ) (x : Option Bytes) {b : Bytes} → of_length n x ≡ some b → length b ≡ n
of_length-some n none h = cc
of_length-some n (some x) h = ground (arith, h)

module _ (c : Crypto) (laws : CryptoLaws c) where
  -- A name that validateResource accepts gives a resource of at most 234 bytes, so that the test
  -- against 256 that follows it never fires.
  pub resource_fits :
      (key ns path : Bytes)
      → validate_resource ns path ≡ none
      → length (resource_of (fingerprint c key) ns path) ≤ 234
  resource_fits key ns path h =
      let r = (validate_resource_iff ns path).0 h in
      omega (
        arith,
        length-resource_of (fingerprint c key) ns path,
        length-fingerprint c key laws,
        r.namespace_length.1,
        r.path_length.1,
      )

trace_id-length :
    (w : World) (f : RunFlags) {b : Bytes} → IsWorld w → trace_id w f ≡ goes b → length b ≡ 16
unfolding trace_id
trace_id-length w f typed h = elim (Bool-cases (not (is_blank f.trace))) [
  | inl given ↦
      of_length-some 16 (hex_decode f.trace) (or_stop-goes (fails verify_usage) _ (rw given at h))
  | inr drawn ↦
      typed.trace_draw _ (or_stop-goes (fails exit_no_receipt) w.trace_draw (rw drawn at h))
]

goes_injective {ℓ κ} :
    {A : Type ℓ} {O : Type κ} {x y : A} → ◌≡◌ {A = Step O A} (goes x) (goes y) → x ≡ y
goes_injective h = cc h

valid-none : (o : Option ResourceError) → valid_or_stop o ≡ goes tt → o ≡ none
valid-none none h = refl
valid-none (some e) h = cc

-- Whatever the arguments are, a child is only started behind a seed of 32 bytes, a trace id of 16 and
-- a resource name of the grammar.
pub prepare-IsPrepared :
    (c : Crypto) (w : World) (args : List Bytes) (p : Prepared)
    → IsWorld w
    → prepare c w args ≡ goes p
    → IsPrepared p
unfolding prepare
prepare-IsPrepared c w args p typed h =
    let (parts, _, h1) = goes_on (or_stop (fails verify_usage) (split_args args)) _ h in
    let (f, _, h2) = goes_on (or_stop (fails verify_usage) (w.parse_flags parts.0)) _ h1 in
    let (_, _, h3) =
      goes_on
        (stop_if (is_blank f.key_dir || (is_blank f.namespace || is_blank f.path))
          (fails verify_usage))
        _ h2 in
    let (path, _, h4) = goes_on (resolved_or_stop (resolve_sha_template f.path w.head)) _ h3 in
    let (_, valid, h5) = goes_on (valid_or_stop (validate_resource f.namespace path)) _ h4 in
    let (seed, read, h6) =
      goes_on
        (or_stop (fails exit_no_receipt)
          (of_length 32 (w.files.read_file (w.files.join f.key_dir sig_key_name))))
        _ h5 in
    let (_, _, h7) =
      goes_on
        (stop_if
          (ltb 256 (length (resource_of (fingerprint c (executor_of c seed)) f.namespace path)))
          (fails verify_usage))
        _ h6 in
    let (trace, traced, h8) = goes_on (trace_id w f) _ h7 in
    let resource = (validate_resource_iff f.namespace path).0 (valid-none _ valid) in
    let seed_size =
      of_length-some 32 (w.files.read_file (w.files.join f.key_dir sig_key_name))
        (or_stop-goes (fails exit_no_receipt) _ read) in
    let trace_size = trace_id-length w f typed traced in
    subst IsPrepared (goes_injective h8)
      (record { seed = seed_size; trace_id = trace_size; resource = resource })
