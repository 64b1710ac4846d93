-- ===== src/Tests/Commands.antt =====
-- The capture, the resource names and the three commands.
use lastro.Common.{
  ℕ, ◌≤◌, ◌≡◌, ◌⊎◌, inl, inr, refl, ap, true, false, none, some, Bytes, List, length, replicate, [],
  ◌∷◌, ◌++◌, arith, equal, if◌then◌else◌,
}
use lastro.Common.Integers.{pos, negsuc}
use lastro.Tests.Toy.{toy, toy_laws, seed_of, public_of}
use lastro.Wire.Crypto.{fingerprint, hex_encode}
use lastro.Wire.Span.{Span}
use lastro.Wire.Validate.{has_prefix}
use lastro.Cmd.{Files, goes, sig_key_name}
use lastro.Cmd.Capture.{write_chunks, new_capture, stdout, stderr, trailer}
use lastro.Cmd.Capture.Copies.{write_chunks_iff}
use lastro.Cmd.Capture.Trailer.{trailer_injective}
use lastro.Cmd.Resource.{
  validate_resource, resolve_sha_template, sha_token, contains, all_in, split, any_bad, trim_from,
  trim_right, to_lower, replace_from,
}
use lastro.Cmd.Resource.Grammar.{IsResource, validate_resource_iff}
use lastro.Cmd.Resource.Substitution.{IsSha, sha_of, Replaced, resolve_sha_template_lem}
use lastro.Cmd.Run.{
  World, RunFlags, Prepared, Child, resource_of, split_args, trace_id, prepare, save, observe,
  cmd_run,
}
use lastro.Cmd.Run.Observation.{observe_iff}
use lastro.Cmd.Run.Preparation.{IsWorld, IsPrepared, resource_fits, prepare-IsPrepared}
use lastro.Cmd.Run.Receipt.{IsReceiptOf, RunsWell, cmd_run-IsReceiptOf, cmd_run-over_bound}

write_chunks_iff_example :
    (write_chunks (new_capture (pos 4)) ((1 ∷ 2 ∷ 3 ∷ []) ∷ (4 ∷ 5 ∷ []) ∷ [])).exceeded ≡ true
write_chunks_iff_example =
    (write_chunks_iff 4 ((1 ∷ 2 ∷ 3 ∷ []) ∷ (4 ∷ 5 ∷ []) ∷ [])).1.1 (omega arith)

-- A signal is exit code -1.
trailer_injective_example : ((◌≡◌ {A = Bytes} (7 ∷ []) (7 ∷ [])) × (negsuc 0 ≡ negsuc 0))
trailer_injective_example =
    trailer_injective (7 ∷ []) (7 ∷ []) (negsuc 0) (negsuc 0) (omega arith) (omega arith) refl

-- "ci" and "a/b.c"
abbrev ns : Bytes
ns = b'c' ∷ b'i' ∷ []

abbrev path : Bytes
path = b'a' ∷ b'/' ∷ b'b' ∷ b'.' ∷ b'c' ∷ []

valid : validate_resource ns path ≡ none
unfolding validate_resource all_in split any_bad equal
valid = refl

validate_resource_iff_example : IsResource ns path
validate_resource_iff_example = (validate_resource_iff ns path).0 valid

-- "a/{sha}", with a HEAD in capitals between a no-break space and a line feed.
abbrev template : Bytes
template = b'a' ∷ b'/' ∷ sha_token

abbrev head : Bytes
head = 0xC2 ∷ 0xA0 ∷ b'A' ∷ b'B' ∷ b'C' ∷ b'D' ∷ b'E' ∷ b'F' ∷ b'0' ∷ b'\n' ∷ []

abbrev resolved : Bytes
resolved = b'a' ∷ b'/' ∷ b'a' ∷ b'b' ∷ b'c' ∷ b'd' ∷ b'e' ∷ b'f' ∷ b'0' ∷ []

resolves : resolve_sha_template template (some head) ≡ inr resolved
unfolding resolve_sha_template contains has_prefix equal trim_from trim_right to_lower all_in
    replace_from
resolves = refl

resolve_sha_template_lem_example :
    ((contains sha_token template ≡ false) × (resolved ≡ template))
    ⊎ ((raw : Bytes) × (some head ≡ some raw)
        × IsSha (sha_of raw)
        × Replaced sha_token (sha_of raw) template resolved)
resolve_sha_template_lem_example = resolve_sha_template_lem template resolved (some head) resolves

resource_fits_example : length (resource_of (fingerprint toy (public_of 7)) ns path) ≤ 234
resource_fits_example = resource_fits toy toy_laws (public_of 7) ns path valid

-- A directory "k" with the seed of 7s.
abbrev join : Bytes → Bytes → Bytes
join dir name = dir ++ (b'/' ∷ name)

abbrev pub files : Files
files = record {
  read_file = λ p. if equal p (b'k' ∷ b'/' ∷ sig_key_name) then some (seed_of 7) else none;
  write_succeeds = λ p. true;
  exists = λ p. equal p (b'k' ∷ b'/' ∷ sig_key_name);
  mkdir_succeeds = λ p. true;
  join = join;
}

abbrev flags : ℕ → RunFlags
flags max = record {
  key_dir = b'k' ∷ [];
  namespace = ns;
  path = path;
  trace = [];
  out = b'o' ∷ [];
  max_output = pos max;
  save_output = b's' ∷ [];
}

-- The child prints three bytes on its two streams and exits with 3.
abbrev child : Child
child = record {
  chunks =
      record { stream = stdout; bytes = 1 ∷ 2 ∷ []; shown = true }
      ∷ record { stream = stderr; bytes = 9 ∷ []; shown = true }
      ∷ [];
  status = some (pos 3);
}

abbrev pub world : ℕ → World
world max = record {
  files = files;
  parse_flags = λ args. some (flags max);
  head = none;
  trace_draw = some (replicate 16 2);
  start = λ args. some child;
  now = 1500;
  span_draw = some (replicate 16 1);
}

world-IsWorld : (max : ℕ) → IsWorld (world max)
world-IsWorld max = record { trace_draw = λ b h. ap length (some_injective h); now = omega arith }
  where
    some_injective : {x y : Bytes} → some x ≡ some y → y ≡ x
    some_injective h = cc h

-- "--" and "x"
abbrev args : List Bytes
args = (b'-' ∷ b'-' ∷ []) ∷ (b'x' ∷ []) ∷ []

abbrev pub prepared : ℕ → Prepared
prepared max = record {
  flags = flags max;
  command = (b'x' ∷ []) ∷ [];
  seed = seed_of 7;
  path = path;
  trace_id = replicate 16 2;
}

prepares : (max : ℕ) → prepare toy (world max) args ≡ goes (prepared max)
unfolding prepare split_args trace_id equal resolve_sha_template contains has_prefix
    validate_resource all_in split any_bad fingerprint hex_encode
prepares max = refl

prepare-IsPrepared_example : IsPrepared (prepared 10)
prepare-IsPrepared_example =
    prepare-IsPrepared toy (world 10) args (prepared 10) (world-IsWorld 10) (prepares 10)

runs_well :
    RunsWell
      (world 10)
      (prepared 10)
      child
      10
      (pos 3)
      (replicate 16 1)
      ((b's' ∷ [], 1 ∷ 2 ∷ 9 ∷ trailer (pos 3)) ∷ [])
unfolding save equal
runs_well = record {
  started = refl;
  bound = refl;
  shown = (refl, (refl, tt));
  fits = omega arith;
  status = refl;
  saves = refl;
  drawn = refl;
  span_id_size = refl;
  writes = refl;
}

pub minted :
    (receipt : Bytes) × (span : Span) × (cmd_run toy (world 10) args ≡ record {
      code = pos 3;
      written = (b's' ∷ [], 1 ∷ 2 ∷ 9 ∷ trailer (pos 3)) ∷ (b'o' ∷ [], receipt) ∷ [];
    })
    × IsReceiptOf toy (world 10) (prepared 10) (1 ∷ 2 ∷ 9 ∷ trailer (pos 3)) receipt span
minted =
    cmd_run-IsReceiptOf toy (world 10) args (prepared 10) child 10 (pos 3) (replicate 16 1) _
      toy_laws (world-IsWorld 10) (prepares 10) runs_well

cmd_run-IsReceiptOf_example :
    (receipt : Bytes) × (span : Span) × (cmd_run toy (world 10) args ≡ record {
      code = pos 3;
      written = (b's' ∷ [], 1 ∷ 2 ∷ 9 ∷ trailer (pos 3)) ∷ (b'o' ∷ [], receipt) ∷ [];
    })
    × IsReceiptOf toy (world 10) (prepared 10) (1 ∷ 2 ∷ 9 ∷ trailer (pos 3)) receipt span
cmd_run-IsReceiptOf_example =
    cmd_run-IsReceiptOf toy (world 10) args (prepared 10) child 10 (pos 3) (replicate 16 1)
      ((b's' ∷ [], 1 ∷ 2 ∷ 9 ∷ trailer (pos 3)) ∷ []) toy_laws (world-IsWorld 10) (prepares 10)
      runs_well

-- The terminal refuses the second chunk of the standard output: the third is not captured either.
abbrev half_shown : Child
half_shown = record {
  chunks =
      record { stream = stdout; bytes = 1 ∷ 2 ∷ []; shown = true }
      ∷ record { stream = stdout; bytes = 3 ∷ []; shown = false }
      ∷ record { stream = stdout; bytes = 4 ∷ []; shown = true }
      ∷ record { stream = stderr; bytes = 9 ∷ []; shown = true }
      ∷ [];
  status = some (pos 3);
}

abbrev unseen : ℕ → World
unseen max = record (world max) { start = λ args. some half_shown }

unseen_prepares : (max : ℕ) → prepare toy (unseen max) args ≡ goes (prepared max)
unfolding prepare split_args trace_id equal resolve_sha_template contains has_prefix
    validate_resource all_in split any_bad fingerprint hex_encode
unseen_prepares max = refl

-- The child fails, and a stream without its whole output is observed.
observe_iff_example : observe (unseen 10) (prepared 10) ≡ goes (pos 3, 1 ∷ 2 ∷ 9 ∷ trailer (pos 3))
observe_iff_example =
    (observe_iff (unseen 10) (prepared 10) half_shown 10 (pos 3) (1 ∷ 2 ∷ 9 ∷ trailer (pos 3)) refl
        refl).0.1
      ((refl, inl (λ h. cc h)), (omega arith, refl))

cmd_run-over_bound_example : cmd_run toy (unseen 2) args ≡ record { code = pos 125; written = [] }
cmd_run-over_bound_example =
    cmd_run-over_bound toy (unseen 2) args (prepared 2) half_shown 2 (unseen_prepares 2) refl refl
      (inr (omega arith))
