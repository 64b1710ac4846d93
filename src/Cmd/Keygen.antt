-- ===== src/Cmd/Keygen.antt =====
-- cmd/lastro/main.go: cmdKeygen.
use lastro.Common.{
  ◌≡◌, ◌≢◌, refl, ap, Bool, true, false, not, Option, some, Bytes, List, length, [], ◌∷◌, ◌++◌,
  append-nil, append_assoc,
}
use lastro.Common.Integers.{pos}
use lastro.Wire.Crypto.{Crypto}
use lastro.Wire.Noise.Messages.{Dh, DhLaws}
use lastro.Cmd.{
  Files, Step, goes, ◌>>=◌, ◌>>◌, stop_if, or_stop, returned, Outcome, fails, is_blank,
  sig_key_name, verify_usage,
}

-- The four files, "sig.key", "sig.pub", "static.key" and "static.pub".
abbrev key_files : Bytes → Bytes → Bytes → Bytes → List (Bytes × Bytes)
key_files sig_seed sig_public kex_secret kex_public =
    (sig_key_name, sig_seed)
    ∷ (b's' ∷ b'i' ∷ b'g' ∷ b'.' ∷ b'p' ∷ b'u' ∷ b'b' ∷ [], sig_public)
    ∷ (b's' ∷ b't' ∷ b'a' ∷ b't' ∷ b'i' ∷ b'c' ∷ b'.' ∷ b'k' ∷ b'e' ∷ b'y' ∷ [], kex_secret)
    ∷ (b's' ∷ b't' ∷ b'a' ∷ b't' ∷ b'i' ∷ b'c' ∷ b'.' ∷ b'p' ∷ b'u' ∷ b'b' ∷ [], kex_public)
    ∷ []

-- The loop over the files, behind those that are written.
unfoldable pub write_files :
    Files → Bytes → List (Bytes × Bytes) → List (Bytes × Bytes) → Step Outcome Outcome
write_files w dir written [] = goes (record { code = pos 0; written = written })
write_files w dir written ((name, content) ∷ files) = do
  stop_if (not (w.write_succeeds (w.join dir name))) (record { code = pos 1; written = written })
  write_files w dir (written ++ ((w.join dir name, content) ∷ [])) files

-- From the two reads of random bytes on.
unfoldable pub draw_keys :
    Crypto → Dh → Files → Bytes → Option Bytes → Option Bytes → Step Outcome Outcome
unfolding write_files
draw_keys c d w dir sig_draw kex_draw = do
  sig_seed ← or_stop (fails 1) sig_draw
  kex_secret ← or_stop (fails 1) kex_draw
  kex_public ← or_stop (fails 1) (d.x25519 kex_secret d.basepoint)
  write_files w dir []
      (key_files sig_seed (c.public_key (c.key_from_seed sig_seed)) kex_secret kex_public)

unfoldable pub cmd_keygen : Crypto → Dh → Files → Bytes → Option Bytes → Option Bytes → Outcome
unfolding draw_keys
cmd_keygen c d w dir sig_draw kex_draw = returned (do
  stop_if (is_blank dir) (fails verify_usage)
  stop_if (not (w.mkdir_succeeds dir)) (fails 1)
  stop_if (w.exists (w.join dir sig_key_name)) (fails 1)
  draw_keys c d w dir sig_draw kex_draw)

-- The files under the directory.
abbrev under : Files → Bytes → List (Bytes × Bytes) → List (Bytes × Bytes)
under w dir [] = []
under w dir ((name, content) ∷ files) = (w.join dir name, content) ∷ under w dir files

-- Behind two other gates, the test for a sig.key ends a command without a file.
gates_keep :
    (blank no_dir : Bool) (rest : Step Outcome Outcome)
    → let o = returned (
        stop_if blank (fails 2)
        >> (stop_if no_dir (fails 1) >> (stop_if true (fails 1) >> rest))) in
      (o.written ≡ []) × (o.code ≢ pos 0)
gates_keep true no_dir rest = (refl, λ h. cc h)
gates_keep false true rest = (refl, λ h. cc h)
gates_keep false false rest = (refl, λ h. cc h)

write_all_files :
    (w : Files) (dir : Bytes) (written files : List (Bytes × Bytes))
    → ((name : Bytes) → w.write_succeeds (w.join dir name) ≡ true)
    → write_files w dir written files
      ≡ goes (record { code = pos 0; written = written ++ under w dir files })
unfolding write_files
write_all_files w dir written [] ok = rw append-nil refl
write_all_files w dir written ((name, content) ∷ files) ok =
    rw (ok name, write_all_files w dir (written ++ ((w.join dir name, content) ∷ [])) files ok)
      (ap (λ l. goes (record { code = pos 0; written = l }))
        (append_assoc written ((w.join dir name, content) ∷ []) (under w dir files)))

-- Where the directory has a sig.key, nothing is written, and the command fails, whatever else it meets.
pub cmd_keygen-keeps :
    (c : Crypto) (d : Dh) (w : Files) (dir : Bytes) (sig_draw kex_draw : Option Bytes)
    → w.exists (w.join dir sig_key_name) ≡ true
    → ((cmd_keygen c d w dir sig_draw kex_draw).written ≡ [])
      × ((cmd_keygen c d w dir sig_draw kex_draw).code ≢ pos 0)
unfolding cmd_keygen
cmd_keygen-keeps c d w dir sig_draw kex_draw there =
    rw there (
      gates_keep (is_blank dir) (not (w.mkdir_succeeds dir))
        (draw_keys c d w dir sig_draw kex_draw))

-- In a directory with a name that is or can be made, without a sig.key, where every file can be
-- written, and with a drawn static secret of 32 bytes: the command exits with 0 and writes four files
-- there, sig.key with the drawn seed, sig.pub with the public key of that seed, static.key with the
-- drawn secret, and static.pub with X25519 of that secret and the base point.
pub cmd_keygen_lem :
    (c : Crypto) (d : Dh) (w : Files) (dir sig_seed kex_secret : Bytes)
    → DhLaws d
    → length kex_secret ≡ 32
    → is_blank dir ≡ false
    → w.mkdir_succeeds dir ≡ true
    → w.exists (w.join dir (b's' ∷ b'i' ∷ b'g' ∷ b'.' ∷ b'k' ∷ b'e' ∷ b'y' ∷ [])) ≡ false
    → ((name : Bytes) → w.write_succeeds (w.join dir name) ≡ true)
    → (kex_public : Bytes) × (d.x25519 kex_secret d.basepoint ≡ some kex_public)
      × (cmd_keygen c d w dir (some sig_seed) (some kex_secret) ≡ record {
        code = pos 0;
        written =
            (w.join dir (b's' ∷ b'i' ∷ b'g' ∷ b'.' ∷ b'k' ∷ b'e' ∷ b'y' ∷ []), sig_seed)
            ∷ (
              w.join dir (b's' ∷ b'i' ∷ b'g' ∷ b'.' ∷ b'p' ∷ b'u' ∷ b'b' ∷ []),
              c.public_key (c.key_from_seed sig_seed),
            )
            ∷ (
              w.join dir (b's' ∷ b't' ∷ b'a' ∷ b't' ∷ b'i' ∷ b'c' ∷ b'.' ∷ b'k' ∷ b'e' ∷ b'y' ∷ []),
              kex_secret,
            )
            ∷ (
              w.join dir (b's' ∷ b't' ∷ b'a' ∷ b't' ∷ b'i' ∷ b'c' ∷ b'.' ∷ b'p' ∷ b'u' ∷ b'b' ∷ []),
              kex_public,
            )
            ∷ [];
      })
unfolding cmd_keygen draw_keys
cmd_keygen_lem c d w dir sig_seed kex_secret laws n named made fresh writable =
    let (kex_public, found, _) = laws.public kex_secret n in
    let files =
      key_files sig_seed (c.public_key (c.key_from_seed sig_seed)) kex_secret kex_public in
    (
      kex_public,
      found,
      rw (named, made, fresh, found, write_all_files w dir [] files writable) refl,
    )
