-- ===== src/Wire/Noise/Sizes.antt =====
-- wire/noise.go: the sizes and offsets of the two messages, and the label of mac1.
use lastro.Common.{ℕ, Bytes, [], ◌∷◌}

abbrev pub dh_len : ℕ
dh_len = 32

abbrev pub msg1_size : ℕ
msg1_size = 144

abbrev pub msg2_size : ℕ
msg2_size = 92

abbrev pub msg1_before_mac : ℕ
msg1_before_mac = 112

abbrev pub msg2_before_mac : ℕ
msg2_before_mac = 60

abbrev pub off1_sender_index : ℕ
off1_sender_index = 4

abbrev pub off1_ephemeral : ℕ
off1_ephemeral = 8

abbrev pub off1_enc_static : ℕ
off1_enc_static = 40

abbrev pub off1_enc_time : ℕ
off1_enc_time = 88

abbrev pub off1_mac1 : ℕ
off1_mac1 = 112

abbrev pub off1_mac2 : ℕ
off1_mac2 = 128

abbrev pub off2_sender_index : ℕ
off2_sender_index = 4

abbrev pub off2_receiver_index : ℕ
off2_receiver_index = 8

abbrev pub off2_ephemeral : ℕ
off2_ephemeral = 12

abbrev pub off2_enc_nothing : ℕ
off2_enc_nothing = 44

abbrev pub off2_mac1 : ℕ
off2_mac1 = 60

abbrev pub off2_mac2 : ℕ
off2_mac2 = 76

-- "bolina-mac1-v2"
abbrev pub mac1_label : Bytes
mac1_label =
    b'b' ∷ b'o' ∷ b'l' ∷ b'i' ∷ b'n' ∷ b'a' ∷ b'-' ∷ b'm' ∷ b'a' ∷ b'c' ∷ b'1' ∷ b'-' ∷ b'v' ∷ b'2'
    ∷ []
