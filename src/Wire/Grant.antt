-- ===== src/Wire/Grant.antt =====
-- wire/grant.go.
pub mod Codec
use lastro.Common.{ℕ, ◌+◌, ◌%◌, ◌^◌, ◌<◌, ◌≡◌, Bytes, length, ◌∷◌, ◌++◌, ltb, if◌then◌else◌}
use lastro.Common.Result.{Result, ok, err, field_bounds}
use lastro.Wire.Encoding.{big_endian}
use lastro.Wire.Cursor.{
  Reader, ◌>>=◌, pure, u8, u64be, take_bytes, field16, tell, since, parse_whole,
}
use lastro.Wire.Span.{max_resource, len_pubkey, len_sig}

abbrev pub len_grant_id : ℕ
len_grant_id = 16

abbrev pub len_intent_id : ℕ
len_intent_id = 16

abbrev pub len_action_digest : ℕ
len_action_digest = 32

pub record Grant : Type 0 where
  pub version : ℕ
  pub grant_id : Bytes
  pub intent_id : Bytes
  pub approver : Bytes
  pub subject : Bytes
  pub executor : Bytes
  pub resource_id : Bytes
  pub action_digest : Bytes
  pub not_after : ℕ
  pub tbs : Bytes
  pub sig : Bytes

-- `buf[:c.pos]` is what was read since the start of the parse.
unfoldable pub read_grant : Reader Grant
read_grant = do
  start ← tell
  version ← u8
  grant_id ← take_bytes len_grant_id
  intent_id ← take_bytes len_intent_id
  approver ← take_bytes len_pubkey
  subject ← take_bytes len_pubkey
  executor ← take_bytes len_pubkey
  resource_id ← field16 max_resource
  action_digest ← take_bytes len_action_digest
  not_after ← u64be
  tbs ← since start
  sig ← take_bytes len_sig
  pure (record {
    version = version;
    grant_id = grant_id;
    intent_id = intent_id;
    approver = approver;
    subject = subject;
    executor = executor;
    resource_id = resource_id;
    action_digest = action_digest;
    not_after = not_after;
    tbs = tbs;
    sig = sig;
  })

unfoldable pub parse_grant : Bytes → Result Grant
parse_grant buf = parse_whole read_grant buf

pub record GrantFields : Type 0 where
  pub version : ℕ
  pub grant_id : Bytes
  pub intent_id : Bytes
  pub approver : Bytes
  pub subject : Bytes
  pub executor : Bytes
  pub resource_id : Bytes
  pub action_digest : Bytes
  pub not_after : ℕ

-- What the Go types of GrantFields say.
pub record IsGrantFields (f : GrantFields) : Type 0 where
  pub version : f.version < 256
  pub grant_id : length f.grant_id ≡ len_grant_id
  pub intent_id : length f.intent_id ≡ len_intent_id
  pub approver : length f.approver ≡ len_pubkey
  pub subject : length f.subject ≡ len_pubkey
  pub executor : length f.executor ≡ len_pubkey
  pub action_digest : length f.action_digest ≡ len_action_digest
  pub not_after : f.not_after < 2 ^ 64

unfoldable pub encode_grant_tbs : GrantFields → Result Bytes
encode_grant_tbs f =
    if ltb max_resource (length f.resource_id)
    then err field_bounds
    else ok (
        f.version
        ∷ (f.grant_id
            ++ (f.intent_id
                ++ (f.approver
                    ++ (f.subject
                        ++ (f.executor
                            ++ (big_endian 2 (length f.resource_id % 2 ^ 16)
                                ++ (f.resource_id
                                    ++ (f.action_digest ++ big_endian 8 f.not_after)))))))))
