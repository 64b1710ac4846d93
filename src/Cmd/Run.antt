-- ===== src/Cmd/Run.antt =====
-- cmd/lastro/main.go: cmdRun, in three parts: what is checked before the child starts, the child and
-- its capture, and the receipt. The texts on stderr are not modelled.
pub mod Observation
pub mod Preparation
pub mod Receipt
use lastro.Common.{
  ℕ, zero, suc, ◌+◌, ◌*◌, ◌-◌, ◌⊎◌, inl, inr, Bool, true, false, not, ◌||◌, Option, none, some,
  Bytes, List, length, replicate, [], ◌∷◌, ◌++◌, ltb, ◌==◌, equal, if◌then◌else◌,
}
use lastro.Common.Integers.{ℤ, pos, negsuc}
use lastro.Common.Regions.{overwrite}
use lastro.Wire.Crypto.{Crypto, fingerprint, blake2s256}
use lastro.Wire.Method.{method_subprocess}
use lastro.Wire.Span.{SpanFields, build_span, volatility_volatile, max_resource, len_trace_id}
use lastro.Cmd.{
  of_length, Files, Step, stops, goes, ◌>>=◌, ◌>>◌, stop_if, or_stop, ok_or_stop, returned, Outcome,
  fails, is_blank, sig_key_name, exit_no_receipt, exit_no_start, verify_usage,
}
use lastro.Cmd.Capture.{CaptureWriter, new_capture, Chunk, Stopped, copy_streams, trailer}
use lastro.Cmd.Resource.{ResourceError, between, resolve_sha_template, validate_resource}

pub record RunFlags : Type 0 where
  pub key_dir : Bytes
  pub namespace : Bytes
  pub path : Bytes
  pub trace : Bytes
  pub out : Bytes
  pub max_output : ℤ
  pub save_output : Bytes

-- A started child: what is read from its pipes, and what waiting for the process gives: its exit code,
-- -1 for a signal, or none where the wait itself fails.
pub record Child : Type 0 where
  pub chunks : List Chunk
  pub status : Option ℤ

-- What is outside of the command: the files, the flag package (none for a usage error, at which it
-- exits with 2), `git rev-parse HEAD`, the two draws of random bytes, the start of a child, and the clock.
pub record World : Type 0 where
  pub files : Files
  pub parse_flags : List Bytes → Option RunFlags
  pub head : Option Bytes
  pub trace_draw : Option Bytes
  pub start : List Bytes → Option Child
  pub now : ℕ
  pub span_draw : Option Bytes

-- The arguments in front of the first "--", and the command behind it, which must not be empty.
abbrev pub in_front : Bytes → Option (List Bytes × List Bytes) → Option (List Bytes × List Bytes)
in_front a none = none
in_front a (some (before, child)) = some (a ∷ before, child)

abbrev pub command : List Bytes → Option (List Bytes × List Bytes)
command [] = none
command (name ∷ args) = some ([], name ∷ args)

unfoldable pub split_args : List Bytes → Option (List Bytes × List Bytes)
split_args [] = none
split_args (a ∷ args) =
    let rest = split_args args in
    if equal a (b'-' ∷ b'-' ∷ []) then command args else in_front a rest

-- encoding/hex: a digit of either case, and pairs of digits.
abbrev pub hex_value : ℕ → Option ℕ
hex_value d =
    if between b'0' b'9' d
    then some (d - b'0')
    else if between b'a' b'f' d
    then some (d - 87)
    else if between b'A' b'F' d
    then some (d - 55)
    else none

abbrev pub hex_pair : Option ℕ → Option ℕ → Option Bytes → Option Bytes
hex_pair (some hi) (some lo) (some bs) = some ((hi * 16 + lo) ∷ bs)
hex_pair none lo bs = none
hex_pair (some hi) none bs = none
hex_pair (some hi) (some lo) none = none

unfoldable pub hex_decode : Bytes → Option Bytes
hex_decode [] = some []
hex_decode (hi ∷ []) = none
hex_decode (hi ∷ lo ∷ ds) = hex_pair (hex_value hi) (hex_value lo) (hex_decode ds)

-- "bol:" + fingerprint + "/" + namespace + "/" + path
abbrev pub resource_of : Bytes → Bytes → Bytes → Bytes
resource_of fp ns path = b'b' ∷ b'o' ∷ b'l' ∷ b':' ∷ (fp ++ (b'/' ∷ (ns ++ (b'/' ∷ path))))

abbrev pub resolved_or_stop : ResourceError ⊎ Bytes → Step Outcome Bytes
resolved_or_stop (inl e) = stops (fails verify_usage)
resolved_or_stop (inr path) = goes path

abbrev pub valid_or_stop : Option ResourceError → Step Outcome (Unit {0})
valid_or_stop none = goes tt
valid_or_stop (some e) = stops (fails verify_usage)

-- The trace id from the flag, or drawn.
unfoldable pub trace_id : World → RunFlags → Step Outcome Bytes
unfolding hex_decode
trace_id w f =
    if not (is_blank f.trace)
    then or_stop (fails verify_usage) (of_length len_trace_id (hex_decode f.trace))
    else or_stop (fails exit_no_receipt) w.trace_draw

-- What is known when the child is started.
pub record Prepared : Type 0 where
  pub flags : RunFlags
  pub command : List Bytes
  pub seed : Bytes
  pub path : Bytes
  pub trace_id : Bytes

-- cmd.Wait of os/exec: the exit error of the process comes before an error of the copies.
abbrev pub wait : Stopped → Option ℤ → Option ℤ
wait s none = none
wait s (some (pos zero)) = if s.out || s.err then none else some (pos 0)
wait s (some (pos (suc n))) = some (pos (suc n))
wait s (some (negsuc n)) = some (negsuc n)

-- The exit code, and the stream with its trailer.
unfoldable pub observe : World → Prepared → Step Outcome (ℤ × Bytes)
unfolding copy_streams trailer
observe w p = do
  child ← or_stop (fails exit_no_start) (w.start p.command)
  let copied =
      copy_streams (record { out = false; err = false }, new_capture p.flags.max_output)
        child.chunks
  exit_code ← or_stop (fails exit_no_receipt) (wait copied.0 child.status)
  stop_if copied.1.exceeded (fails exit_no_receipt)
  goes (exit_code, copied.1.buf ++ trailer exit_code)

unfoldable pub save : World → Prepared → Bytes → Step Outcome (List (Bytes × Bytes))
save w p captured =
    if is_blank p.flags.save_output
    then goes []
    else if w.files.write_succeeds p.flags.save_output
    then goes ((p.flags.save_output, captured) ∷ [])
    else stops (fails exit_no_receipt)

module _ (c : Crypto) where
  abbrev pub executor_of : Bytes → Bytes
  executor_of seed = c.public_key (c.key_from_seed seed)

  abbrev pub resource_id_of : Prepared → Bytes
  resource_id_of p = resource_of (fingerprint c (executor_of p.seed)) p.flags.namespace p.path

  unfoldable pub prepare : World → List Bytes → Step Outcome Prepared
  unfolding split_args trace_id
  prepare w args = do
    parts ← or_stop (fails verify_usage) (split_args args)
    f ← or_stop (fails verify_usage) (w.parse_flags parts.0)
    stop_if (is_blank f.key_dir || (is_blank f.namespace || is_blank f.path)) (fails verify_usage)
    path ← resolved_or_stop (resolve_sha_template f.path w.head)
    valid_or_stop (validate_resource f.namespace path)
    seed ←
        or_stop (fails exit_no_receipt)
          (of_length 32 (w.files.read_file (w.files.join f.key_dir sig_key_name)))
    stop_if
        (ltb max_resource
          (length (resource_of (fingerprint c (executor_of seed)) f.namespace path)))
        (fails verify_usage)
    trace ← trace_id w f
    goes (record { flags = f; command = parts.1; seed = seed; path = path; trace_id = trace })

  abbrev pub span_fields : World → Prepared → Bytes → Bytes → SpanFields
  span_fields w p captured span_id = record {
    version = 2;
    span_id = span_id;
    trace_id = p.trace_id;
    resource_id = resource_id_of p;
    method_id = method_subprocess;
    volatility = volatility_volatile;
    origin = replicate 32 0;
    observed_at = w.now;
    digest = blake2s256 c captured;
    executor = overwrite (executor_of p.seed) (replicate 32 0);
  }

  unfoldable pub mint : World → Prepared → ℤ → Bytes → Step Outcome Outcome
  unfolding save
  mint w p exit_code captured = do
    saved ← save w p captured
    let no_receipt : Outcome = record { code = pos exit_no_receipt; written = saved }
    span_id ← or_stop no_receipt w.span_draw
    receipt ←
        ok_or_stop no_receipt
          (build_span c (span_fields w p captured span_id) (c.key_from_seed p.seed))
    stop_if (not (w.files.write_succeeds p.flags.out)) no_receipt
    goes (record { code = exit_code; written = saved ++ ((p.flags.out, receipt) ∷ []) })

  unfoldable pub run_steps : World → List Bytes → Step Outcome Outcome
  unfolding prepare observe mint
  run_steps w args = do p ← prepare w args; seen ← observe w p; mint w p seen.0 seen.1

  unfoldable pub cmd_run : World → List Bytes → Outcome
  unfolding run_steps
  cmd_run w args = returned (run_steps w args)
