-- ===== src/Audit/Statement.antt =====
-- The INSERT statements of DBRecord/DBoperate.c: `SetUseractivitylog` and `SetUseractivityoutlog`.
-- `none` is a write past the end of `sql`. What goes to the system log is left out.
use oscshell.Base.{ℕ, Bool, List, [], ◌∷◌, ◌++◌, Option, none, some, if◌then◌else◌, ◌>>=◌, drop}
use oscshell.Base.Int.{pos}
use oscshell.Base.Text.{Bytes, codes, contains, strcpy}
use oscshell.Base.Print.{print_int, print_padded}
use oscshell.Terminal.{Walk, done, clear_data}
use oscshell.Audit.{UserActivityLog}

-- What `localtime`, `rand` and `gettimeofday` give.
pub record Clock : Type 0 where
  pub year : ℕ
  pub month : ℕ
  pub day : ℕ
  pub hour : ℕ
  pub minute : ℕ
  pub second : ℕ
  pub first_rand : ℕ
  pub second_rand : ℕ
  pub tv_sec : ℕ
  pub tv_usec : ℕ

-- A value in a statement: '%s', null, or a time for `to_date`.
pub data Value : Type 0 where
  quoted : Bytes → Value
  null : Value
  time : Bytes → Value

unfoldable pub print_value : Value → Bytes
print_value (quoted s) = b'\'' ∷ (s ++ codes "'")
print_value null = codes "null"
print_value (time s) = codes "to_date('" ++ (s ++ codes "','yyyy-mm-dd hh24:mi:ss')")

-- Values with a comma and a space between them, and what follows the last.
unfoldable pub print_values : List Value → Bytes → Bytes
print_values [] end = end
print_values (v ∷ []) end = print_value v ++ end
print_values (v ∷ (w ∷ vs)) end = print_value v ++ (codes ", " ++ print_values (w ∷ vs) end)

-- Values with a comma and no space in front of each, and the end of the statement.
unfoldable pub print_tight : List Value → Bytes
print_tight [] = codes ");"
print_tight (v ∷ vs) = b',' ∷ (print_value v ++ print_tight vs)

unfoldable pub insert_into : Bytes → List Value → Bytes
insert_into table values =
    codes "INSERT INTO " ++ (table ++ (codes " VALUES (" ++ print_values values (codes ");")))

unfoldable pub row_id : Clock → Bytes
row_id c =
    print_padded 2 c.hour
    ++ (print_padded 2 c.minute
        ++ (print_padded 2 c.second
            ++ (print_int (pos c.first_rand) ++ print_int (pos c.second_rand))))

unfoldable pub oper_date : Clock → Bytes
oper_date c =
    print_padded 4 c.year
    ++ (b'-'
        ∷ (print_padded 2 c.month
            ++ (b'-'
                ∷ (print_padded 2 c.day
                    ++ (b' '
                        ∷ (print_padded 2 c.hour
                            ++ (b':'
                                ∷ (print_padded 2 c.minute
                                    ++ (b':' ∷ print_padded 2 c.second)))))))))

-- The escape sequence that switches attributes off is taken for the beginning of the prompt.
unfoldable pub clean_prefix : Bytes → Bytes
clean_prefix prefix = if contains prefix (27 ∷ codes "[m") then drop 3 prefix else prefix

-- A time, for the two kinds of database.
unfoldable pub date_value : Bool → Bytes → Value
date_value is_oracle s = if is_oracle then time s else quoted s

unfoldable pub log_values : Bool → Clock → UserActivityLog → List Value
log_values is_oracle c log =
    quoted (row_id c)
    ∷ quoted log.pr_client_addr
    ∷ quoted log.pr_proxy_addr
    ∷ quoted log.pr_res_id
    ∷ quoted log.pr_res_name
    ∷ quoted log.pr_res_addr
    ∷ quoted log.pr_command
    ∷ quoted (clean_prefix log.pr_cmd_prefix ++ codes " ")
    ∷ null
    ∷ null
    ∷ quoted log.pr_user_id
    ∷ quoted log.pr_user_name
    ∷ quoted log.pr_uid
    ∷ quoted log.pr_account_no
    ∷ date_value is_oracle (oper_date c)
    ∷ quoted log.pr_session_id
    ∷ quoted (print_int log.pr_level)
    ∷ quoted (print_int log.pr_access_type)
    ∷ []

-- `SetUseractivitylog`: the statement for the file, and `userlog_id`.
unfoldable pub set_useractivitylog : Bool → Clock → UserActivityLog → Option (Bytes × Bytes)
set_useractivitylog is_oracle c log = do
  sql ← strcpy 1024 (insert_into (codes "pr_useractivitylog") (log_values is_oracle c log))
  some (sql, row_id c)

-- `Pr_Useractivityoutlog`
pub record UserActivityOutLog : Type 0 where
  pub pr_id : Bytes
  pub pr_ual_id : Bytes
  pub pr_desc : Bytes
  pub pr_oper_date : Bytes
  pub pr_session_id : Bytes

unfoldable pub out_id : Clock → Bytes
out_id c = print_int (pos c.tv_sec) ++ print_int (pos c.tv_usec)

unfoldable pub out_values : Bool → Clock → UserActivityOutLog → Bytes → List Value
out_values is_oracle c log encode =
    quoted (out_id c)
    ∷ quoted log.pr_ual_id
    ∷ quoted encode
    ∷ date_value is_oracle (oper_date c)
    ∷ []

unfoldable pub cleared : Walk Bytes → Option Bytes
cleared (done s) = some s
cleared _ = none

-- `SetUseractivityoutlog` with `indb` 1, as its only caller has it.
unfoldable pub set_useractivityoutlog : Bool → Clock → UserActivityOutLog → Option Bytes
set_useractivityoutlog is_oracle c log = do
  encode ← cleared (clear_data log.pr_desc)
  strcpy 20480 (insert_into (codes "pr_useractivityoutlog") (out_values is_oracle c log encode))
