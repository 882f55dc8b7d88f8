-- ===== src/Database/Arrays.antt =====
-- The arrays that `GetResaccount` fills.
use oscshell.Base.{
  suc, true, false, List, [], ◌∷◌, ◌++◌, none, some, map, if◌then◌else◌, drop, length, leb,
  Bool-cases, inl, inr, ◌≡◌, refl, arith,
}
use oscshell.Base.Text.{Bytes}
use oscshell.Database.Rows.{Row, rows, text}
use oscshell.Database.Backend.{Backend, accounts_of}
use oscshell.Database.Lists.{
  ResAccount, OtherLists, fill_rows, fill_array, read_resaccount, get_resaccount,
}

-- The columns of an account.
abbrev pub row_of : ResAccount → Row
row_of a = some a.pr_account_no ∷ some a.pr_account_pwd ∷ []

fill_rows-row_of :
    (accounts array : List ResAccount)
    → fill_rows read_resaccount array (map row_of accounts) ≡ (
        if leb (length accounts) (length array)
        then some (accounts ++ drop (length accounts) array)
        else none)
unfolding fill_rows read_resaccount text
fill_rows-row_of [] array = let e : leb 0 (length array) ≡ true = ground arith in rw e refl
fill_rows-row_of (a ∷ accounts) [] =
    let e : leb (suc (length accounts)) 0 ≡ false = ground arith in rw e refl
fill_rows-row_of (a ∷ accounts) (old ∷ array) =
    let same : leb (suc (length accounts)) (suc (length array))
        ≡ leb (length accounts) (length array) =
      ground arith in
    rw (fill_rows-row_of accounts array) (
      rw same (elim (Bool-cases (leb (length accounts) (length array))) [
        | inl e ↦ rw e refl
        | inr e ↦ rw e refl
      ]))

-- On MySQL, for a reply with the accounts of a user at a resource, `GetResaccount` returns 0 with the
-- accounts in the array and what stood behind them, if there are not more accounts than the array has
-- elements; otherwise it writes past the end of the array.
pub get_resaccount-rows :
    (b : Backend) (other : OtherLists) (res_id user_id : Bytes) (accounts array : List ResAccount)
    → b.is_mysql ≡ true
    → b.reply (accounts_of res_id user_id) ≡ rows (map row_of accounts)
    → get_resaccount b other res_id user_id array ≡ (
        if leb (length accounts) (length array)
        then some (0, accounts ++ drop (length accounts) array)
        else none)
unfolding get_resaccount fill_array
get_resaccount-rows b other res_id user_id accounts array mysql reply = rw mysql (
    rw reply (
      rw (fill_rows-row_of accounts array)
        (elim (Bool-cases (leb (length accounts) (length array))) [
          | inl e ↦ rw e refl
          | inr e ↦ rw e refl
        ])))
