-- ===== src/Database/Password.antt =====
-- `CheckEmployee`: the test of a password.
use oscshell.Base.{
  ◌+◌, ◌<◌, ◌≤◌, true, List, [], ◌∷◌, ◌++◌, some, if◌then◌else◌, ◌≡◌, ◌≢◌, ◌↔◌, sym, ap, ◌∙◌, arith,
  length, length-append, nil_of_length, append-nil,
}
use oscshell.Base.Text.{Bytes, contains, contains_iff, strcpy_fits}
use oscshell.Database.Rows.{Row, rows, text, secret}
use oscshell.Database.Backend.{Backend, decrypt_data, password_of}
use oscshell.Database.Fetch.{token_end, first_token, same_password, check_reply, check_employee}

length-token_end : (s : Bytes) → length (token_end s) ≤ length s
unfolding token_end
length-token_end [] = omega arith
length-token_end (c ∷ s) = ground (arith, length-token_end s)

length-first_token : (s : Bytes) → length (first_token s) ≤ length s
unfolding first_token
length-first_token [] = omega arith
length-first_token (c ∷ s) = ground (arith, length-first_token s, length-token_end s)

contains_refl : (s : Bytes) → contains s s ≡ true
contains_refl s = (contains_iff s s).1 ([], [], sym (append-nil s))

occurs_whole : (s p pre post : Bytes) → s ≡ pre ++ (p ++ post) → length s ≡ length p → s ≡ p
occurs_whole s p pre post e h =
    let total : length s ≡ length pre + (length p + length post) =
      ap length e ∙ length-append pre (p ++ post) ∙ ap (◌+◌ (length pre)) (length-append p post) in
    let no_pre = nil_of_length pre (omega arith) in
    let no_post = nil_of_length post (omega arith) in e ∙ rw no_pre (rw no_post (append-nil p))

same_password_iff : (s p : Bytes) → (same_password s p ≡ true) ↔ (s ≡ p)
unfolding same_password
same_password_iff s p = (there, λ e. rw e (ground (arith, contains_refl p)))
  where
    there : same_password s p ≡ true → s ≡ p
    there h =
        let (pre, post, e) = (contains_iff s p).0 (ground arith) in
        occurs_whole s p pre post e (ground arith)

check_employee-row :
    (b : Backend) (username password stored : Bytes) (row : Row) (more : List Row)
    → b.is_mysql ≡ true
    → length username < 1024
    → b.reply (password_of (first_token username)) ≡ rows ((some stored ∷ row) ∷ more)
    → check_employee b username password
      ≡ some (if same_password (decrypt_data b stored) password then 0 else 1)
unfolding check_employee check_reply secret text
check_employee-row b username password stored row more mysql fits found =
    let short : length (first_token username) < 1024 = omega (arith, length-first_token username) in
    rw mysql (rw (strcpy_fits 1024 (first_token username) short) (rw found))

-- On MySQL, for a user name of less than 1024 bytes whose part in front of "@" or "#" has a row with
-- a password, `CheckEmployee` returns 0 if the decrypted password is the given one, and 1 if not.
pub check_employee_iff :
    (b : Backend) (username password stored : Bytes) (row : Row) (more : List Row)
    → b.is_mysql ≡ true
    → length username < 1024
    → b.reply (password_of (first_token username)) ≡ rows ((some stored ∷ row) ∷ more)
    → ((check_employee b username password ≡ some 0) ↔ (decrypt_data b stored ≡ password))
      × ((check_employee b username password ≡ some 1) ↔ (decrypt_data b stored ≢ password))
check_employee_iff b username password stored row more mysql fits found =
    rw (check_employee-row b username password stored row more mysql fits found)
      (ground (arith, same_password_iff (decrypt_data b stored) password))
