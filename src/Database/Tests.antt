-- ===== src/Database/Tests.antt =====
-- Runs of the queries, and the theorems at a small database.
use oscshell.Base.{
  ◌+◌, [], ◌∷◌, Option, none, some, ◌≡◌, ◌≢◌, ◌↔◌, refl, arith, length, if◌then◌else◌,
}
use oscshell.Base.Text.{Bytes, codes, str_eq}
use oscshell.Database.Backend.{decrypt_data}
use oscshell.Database.Fetch.{check_employee}
use oscshell.Database.PolicySearch.{climb}
use oscshell.Database.Password.{check_employee_iff}
use oscshell.Database.Lists.{ResAccount, OtherLists, get_resaccount}
use oscshell.Database.Arrays.{get_resaccount-rows}
use oscshell.Database.Climb.{nearest, climb-nearest}
use oscshell.Database.Sample.{sample, groups}

check_employee_iff_example :
    ((check_employee sample (codes "ann@host") (codes "secret") ≡ some 0)
      ↔ (decrypt_data sample (codes "secret") ≡ codes "secret"))
    × ((check_employee sample (codes "ann@host") (codes "secret") ≡ some 1)
        ↔ (decrypt_data sample (codes "secret") ≢ codes "secret"))
check_employee_iff_example =
    check_employee_iff sample (codes "ann@host") (codes "secret") (codes "secret") [] [] refl
      (omega arith) refl

abbrev items : Bytes → Option Bytes
items g = if str_eq g (codes "b") then some (codes "9") else none

climb-nearest_example :
    climb (0 + length (codes "b" ∷ (codes "0000000000" ∷ []))) groups (codes "r") (codes "a")
    ≡ some (nearest items (codes "b" ∷ (codes "0000000000" ∷ [])))
climb-nearest_example =
    climb-nearest groups (codes "r") (codes "a") (codes "b" ∷ (codes "0000000000" ∷ [])) items 0
      (([], [], refl), omega arith, refl, (([], [], refl), omega arith, refl))
      (([], [], refl), (refl, tt))

abbrev account : Bytes → Bytes → ResAccount
account name pwd = record { pr_account_no = name; pr_account_pwd = pwd }

abbrev other_lists : OtherLists
other_lists = record {
  other_get_auth_uid = λ user address account old code. none;
  other_get_resaccount_count = λ id user old. none;
  other_get_resaccount = λ id user array. none;
  other_get_protocol_prot = λ code old. none;
  other_get_employeeaccount_count = λ user group old. none;
  other_get_employeeaccounts = λ user group array offset. none;
  other_get_pr_access_protocol = λ code old. none;
}

get_resaccount-rows_example :
    get_resaccount sample other_lists
      (codes "4")
      (codes "7")
      (account [] [] ∷ account [] [] ∷ account [] [] ∷ [])
    ≡ some (
      0,
      account (codes "root") (codes "r7") ∷ account (codes "ann") (codes "a7") ∷ account [] [] ∷ [],
    )
get_resaccount-rows_example =
    get_resaccount-rows sample other_lists (codes "4") (codes "7")
      (account (codes "root") (codes "r7") ∷ account (codes "ann") (codes "a7") ∷ [])
      (account [] [] ∷ account [] [] ∷ account [] [] ∷ []) refl refl
