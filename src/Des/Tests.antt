-- ===== src/Des/Tests.antt =====
-- The theorems at small inputs.
use oscshell.Base.{[], ◌∷◌, length, ◌≡◌, refl, arith}
use oscshell.Base.Text.{Bytes, codes}
use oscshell.Des.Password.{des_key, random_des, inverse_random_des, encrypt, encrypts}
use oscshell.Des.Blocked.{encrypts-encrypt, des_key-IsKey}
use oscshell.Des.Loss.{random_des-zero}

abbrev random : Bytes
random = 1 ∷ 2 ∷ 3 ∷ 4 ∷ 5 ∷ 6 ∷ 7 ∷ 8 ∷ []

encrypts-encrypt_example :
    encrypts (encrypt (λ i. random) (codes "correct horse battery")) ≡ codes "correct horse battery"
encrypts-encrypt_example =
    encrypts-encrypt (λ i. random) (codes "correct horse battery") (λ i. (refl, omega arith))
      (omega arith)

random_des-zero_example :
    (length (random_des des_key (0 ∷ codes "abcdefg") (codes "secret")) ≡ 16)
    × (inverse_random_des des_key (random_des des_key (0 ∷ codes "abcdefg") (codes "secret")) ≡ [])
random_des-zero_example =
    random_des-zero des_key (codes "abcdefg") (codes "secret") des_key-IsKey refl (omega arith)
      (omega arith) (omega arith) (omega arith)
