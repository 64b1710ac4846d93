-- ===== src/Wire/Noise/Rejects.antt =====
-- What the two readers refuse before they do any Diffie-Hellman: the length and mac1.
use lastro.Common.{
  ℕ, ◌≤◌, ◌<◌, ◌≡◌, ◌≢◌, ◌↔◌, inl, inr, refl, Bool, true, false, Bool-cases, not, Option, none,
  some, Bytes, length, take, ltb, le→ltb, ltb→lt, lt→ltb, equal, equal_iff, ltb→le, if◌then◌else◌,
}
use lastro.Common.Result.{Result, ok, err, ◌>>=◌, ◌>>◌, refuse_if, mac1_failed, message_too_small}
use lastro.Wire.Cursor.{slice}
use lastro.Wire.Crypto.{Crypto}
use lastro.Wire.Transport.{Aead, transport_nonce}
use lastro.Wire.Noise.{SymmetricState, mix_hash, mix_key, decrypt_and_hash, decrypted}
use lastro.Wire.Noise.Messages.{
  Dh, Initiator, Responder, point, dh, compute_mac1, read_initiation, read_response,
}

-- A result that is none of the readers' two early refusals.
abbrev Late {ℓ} : {A : Type ℓ} → Result A → Type ℓ
Late r = (r ≢ err mac1_failed) × (r ≢ err message_too_small)

bind-Late {ℓ κ} :
    {A : Type ℓ} {B : Type κ} (first : Result A) (next : A → Result B)
    → Late first
    → ((x : A) → Late (next x))
    → Late (first >>= next)
bind-Late (err e) next (h, k) rest = ((λ bad. h cc), (λ bad. k cc))
bind-Late (ok x) next first rest = rest x

point-Late : (p : Option Bytes) → Late (point p)
point-Late none = ((λ bad. cc), (λ bad. cc))
point-Late (some p) = ((λ bad. cc), (λ bad. cc))

ok-Late {ℓ} : {A : Type ℓ} (x : A) → Late (ok x)
ok-Late x = ((λ bad. cc), (λ bad. cc))

decrypted-Late :
    (c : Crypto) (s : SymmetricState) (ct : Bytes) (opened : Option Bytes)
    → Late (decrypted c s ct opened)
decrypted-Late c s ct none = ((λ bad. cc), (λ bad. cc))
decrypted-Late c s ct (some p) = ((λ bad. cc), (λ bad. cc))

decrypt_and_hash-Late :
    (c : Crypto) (a : Aead) (s : SymmetricState) (ct : Bytes) → Late (decrypt_and_hash c a s ct)
unfolding decrypt_and_hash
decrypt_and_hash-Late c a s ct = either s.has_key
  where
    either :
        (keyed : Bool)
        → Late (
            if keyed
            then decrypted c s ct (a.open_sealed s.k (transport_nonce s.n) ct s.h)
            else ok (ct, mix_hash c s ct))
    either true = decrypted-Late c s ct (a.open_sealed s.k (transport_nonce s.n) ct s.h)
    either false = ((λ bad. cc), (λ bad. cc))

-- The two gates in front of a computation that gives neither of their errors.
gates_iff {ℓ} :
    {A : Type ℓ} (short bad : Bool) (rest : Result A)
    → Late rest
    → let run = refuse_if short message_too_small >> (refuse_if bad mac1_failed >> rest) in
      ((run ≡ err message_too_small) ↔ (short ≡ true))
      × ((run ≡ err mac1_failed) ↔ ((short ≡ false) × (bad ≡ true)))
gates_iff true bad rest late = (((λ h. refl), (λ h. refl)), ((λ h. cc), (λ h. cc)))
gates_iff false true rest late = (((λ h. cc), (λ h. cc)), ((λ h. (refl, refl)), (λ h. refl)))
gates_iff false false rest (no_mac, no_small) =
    (((λ h. absurd (no_small h)), (λ h. cc)), ((λ h. absurd (no_mac h)), (λ h. cc)))

-- The readers' own gates: the length and the comparison of the macs.
reads_iff {ℓ} :
    {A : Type ℓ} (size room : ℕ) (mac given : Bytes) (rest : Result A)
    → Late rest
    → let run =
        refuse_if (ltb size room) message_too_small
        >> (refuse_if (not (equal mac given)) mac1_failed >> rest) in
      ((run ≡ err message_too_small) ↔ (size < room))
      × ((run ≡ err mac1_failed) ↔ ((room ≤ size) × (mac ≢ given)))
reads_iff size room mac given rest late =
    let (small, other) = gates_iff (ltb size room) (not (equal mac given)) rest late in
    (
      ((λ h. ltb→lt size room (small.0 h)), (λ h. small.1 (lt→ltb size room h))),
      (
        (λ h. (
          ltb→le size room (other.0 h).0,
          λ same. let differ = (other.0 h).1 in cc (differ, (equal_iff mac given).1 same),
        )),
        (λ (h, k). other.1 (le→ltb size room h, differs k)),
      ),
    )
  where
    differs : mac ≢ given → not (equal mac given) ≡ true
    differs k = elim (Bool-cases (equal mac given)) [
      | inl same ↦ absurd (k ((equal_iff mac given).0 same))
      | inr other ↦ rw other refl
    ]

-- What each reader answers to a message that is too short, and to one whose mac1 is not the one of
-- the bytes in front of it: exactly then the first and the second error, whatever else it holds.
pub read_gates_iff :
    (c : Crypto) (d : Dh) (a : Aead) (i : Initiator) (r : Responder)
    (msg1 msg2 responder_sig_pub : Bytes)
    → (((read_initiation c d a r msg1 responder_sig_pub ≡ err message_too_small)
          ↔ (length msg1 < 144))
        × ((read_initiation c d a r msg1 responder_sig_pub ≡ err mac1_failed) ↔ (
            (144 ≤ length msg1)
            × (compute_mac1 c d responder_sig_pub (take 112 msg1) ≢ slice msg1 112 128))))
      × (((read_response c d a i msg2 responder_sig_pub ≡ err message_too_small)
            ↔ (length msg2 < 92))
          × ((read_response c d a i msg2 responder_sig_pub ≡ err mac1_failed) ↔ (
              (92 ≤ length msg2)
              × (compute_mac1 c d responder_sig_pub (take 60 msg2) ≢ slice msg2 60 76))))
unfolding read_initiation read_response dh
read_gates_iff c d a i r msg1 msg2 responder_sig_pub = (
  reads_iff (length msg1) 144 (compute_mac1 c d responder_sig_pub (take 112 msg1))
      (slice msg1 112 128) _
      (bind-Late _ _ (point-Late _) (λ es. bind-Late _ _ (decrypt_and_hash-Late c a _ _) (λ opened.
        bind-Late _ _ (point-Late _)
          (λ ss. bind-Late _ _ (decrypt_and_hash-Late c a _ _) (λ time. ok-Late _))))),
  reads_iff (length msg2) 92 (compute_mac1 c d responder_sig_pub (take 60 msg2)) (slice msg2 60 76)
      _
      (bind-Late _ _ (point-Late (d.x25519 i.eph_secret (slice msg2 12 44))) (λ ee.
        bind-Late _ _ (point-Late (d.x25519 i.static_secret (slice msg2 12 44))) (λ se.
          bind-Late _ (λ opened. ok (record i { re = slice msg2 12 44; sym = opened.1 }))
            (decrypt_and_hash-Late c a
              (mix_key c (mix_key c (mix_hash c i.sym (slice msg2 12 44)) ee) se)
              (slice msg2 44 60))
            (λ opened. ok-Late _)))),
)
