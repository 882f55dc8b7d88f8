-- ===== src/Audit/Refused.antt =====
-- The row that `InsertStopExchangeUserInfo` inserts.
use oscshell.Base.{ℕ, ◌<◌, Bool, false, List, [], ◌++◌, some, length, get_elem?, ◌≡◌, refl, arith}
use oscshell.Base.Int.{is_zero}
use oscshell.Base.Text.{Bytes, codes, strcpy_fits, strstr}
use oscshell.Base.Print.{print_int, decimal}
use oscshell.Access.Session.{ProxyInfo}
use oscshell.Audit.Statement.{Clock, Value, quoted, insert_into, clean_prefix, log_values}
use oscshell.Audit.Sql.{read_insert}
use oscshell.Audit.Plain.{IsPlainLog}
use oscshell.Audit.Rows.{set_useractivitylog-IsRow}
use oscshell.Audit.Exchange.{exchange_log, insert_stop_exchange_user_info}

abbrev pub exchange_text : ProxyInfo → Bytes
exchange_text info = codes "username:" ++ info.auth.pr_account_no

-- In an audited session with an account of less than 91 bytes, without quotes and backslashes in its
-- texts, and a statement that fits its array, `InsertStopExchangeUserInfo` writes one row to the log:
-- its command names the account, its prompt is "prevent exchange user! ", its level is 1 and its
-- session is that of the login. Nothing is left of the
-- command, the command before it and the line.
pub insert_stop_exchange_user_info_row :
    (escape : ℕ → ℕ) (is_oracle : Bool) (c : Clock) (info : ProxyInfo)
    → is_zero info.auth.pr_audit_flag ≡ false
    → length info.auth.pr_account_no < 91
    → IsPlainLog (exchange_log info (exchange_text info))
    → length (
        insert_into
          (codes "pr_useractivitylog")
          (log_values is_oracle c (exchange_log info (exchange_text info))))
      < 1024
    → (out : ProxyInfo) × (sql : Bytes) × (row : List Value) × (insert_stop_exchange_user_info
          is_oracle c info
        ≡ some (out, some sql))
      × (read_insert escape (codes "pr_useractivitylog") sql ≡ some row)
      × (get_elem? row 6 ≡ some (quoted (codes "username:" ++ info.auth.pr_account_no)))
      × (get_elem? row 7 ≡ some (quoted (codes "prevent exchange user! ")))
      × (get_elem? row 15 ≡ some (quoted info.loginlog_id))
      × (get_elem? row 16 ≡ some (quoted (codes "1")))
      × (out.cmd ≡ [])
      × (out.precmd ≡ [])
      × (out.line_out_buffer ≡ [])
unfolding insert_stop_exchange_user_info exchange_log clean_prefix strstr print_int decimal
insert_stop_exchange_user_info_row escape is_oracle c info audited short p fits =
    let text = exchange_text info in
    let (sql, row, sets, reads, r) =
      set_useractivitylog-IsRow escape is_oracle c (exchange_log info text) p fits in
    (
      record info { cmd = []; precmd = []; line_out_buffer = [] },
      sql,
      row,
      rw (strcpy_fits 100 text (omega arith)) (rw audited (rw sets refl)),
      reads,
      r.command,
      r.cmd_prefix,
      r.session_id,
      r.level,
      refl,
      refl,
      refl,
    )
