-- ===== src/Crypto/Toy.antt =====
-- A stream cipher and an authenticator with the contracts of src/crypto.h, to run the methods with.
use fastd.Base.{ℕ, ◌+◌, ◌*◌, ◌%◌, refl, some, List, [], ◌∷◌, get_or}
use fastd.Crypto.{Cipher}
use fastd.Crypto.Stream.{xor_stream, IsStream}

-- The key stream depends on the key, and on the last byte of the nonce.
abbrev pub toy_stream : List ℕ → ℕ → List ℕ → ℕ → ℕ
toy_stream key flags iv i = (get_or key 0 0 + get_or iv 5 0 + i * 7) % 256

abbrev pub toy_cipher : Cipher
toy_cipher = record {
  key_length = 1;
  iv_length = 8;
  crypt = λ key flags bytes iv. some (xor_stream (toy_stream key flags iv) 0 bytes);
}

pub toy_cipher-IsStream : IsStream toy_cipher
toy_cipher-IsStream = record { stream = toy_stream; law = λ key flags bytes iv. refl }

-- A sum of the bytes.
abbrev pub toy_sum : ℕ → List ℕ → ℕ
toy_sum acc [] = acc
toy_sum acc (x ∷ xs) = toy_sum ((acc * 3 + x) % 256) xs
