-- ===== src/Oracle/Recorded.antt =====
-- A statement that a client sends, from its packet to the record in the database.
use oscshell.Base.{
  ℕ, ◌<◌, Bool, true, false, [], ◌∷◌, ◌++◌, some, All, Any, map, if◌then◌else◌, take, drop, length,
  ◌≡◌, ◌↔◌,
}
use oscshell.Base.Int.{pos, is_zero}
use oscshell.Base.Text.{Bytes}
use oscshell.Audit.{UserActivityLog, mark_loop, recorded}
use oscshell.Audit.Marks.{quoted}
use oscshell.Audit.Levels.{Refuses}
use oscshell.Policy.Rules.{TablesFit}
use oscshell.Oracle.Query.{Query, int_minus}
use oscshell.Oracle.Session.{
  Machine, State, command, one_line, db_oracle_operate, first_byte, bytes_of,
}
use oscshell.Oracle.Request.{query_text, spoil}
use oscshell.Oracle.Spoiled.{IsSpoiled}

-- The command that the policies are tested against.
abbrev pub tested : Machine → Query → Bytes
tested m q =
    let line = one_line (query_text q) in mark_loop (length line) m.word 0 (map quoted line)

-- What is known of a session whose statements are recorded.
pub record Audits (m : Machine) (st : State) (q : Query) : Type 0 where
  pub some_word : 0 < m.word
  pub short : length (query_text q) < 512
  pub line_fits : length (query_text q) < m.line_size
  pub tables_fit : All (λ p. TablesFit p.ccl) st.info.policy
  pub is_audited : is_zero st.info.auth.pr_audit_flag ≡ false
  pub no_rows : st.sql_reslut ≡ []

-- What `DBOracleOperate` leaves of a session that it records.
record Operated (m : Machine) (st : State) (text : Bytes) (cmd : Bytes) : Type 0 where
  out : State
  log : UserActivityLog
  raised : Bool
  operates : db_oracle_operate m text st ≡ some out
  logs : out.logs ≡ command log ∷ st.logs
  level : out.info.level ≡ (if raised then pos 1 else st.info.level)
  records : log.pr_command ≡ recorded m.cmd_size cmd
  means : (raised ≡ true) ↔ Any (Refuses cmd st.info.auth.pr_cmd_flag) st.info.policy

-- What happens to the packet.
abbrev Spoiling : Query → Bytes → ℕ → Bool → Bytes → Type 0
Spoiling q buf len raised packet =
    (raised ≡ false → packet ≡ buf)
    × (raised ≡ true
        → (rest : Bytes) × (packet ≡ take q.place buf ++ rest)
          × IsSpoiled (bytes_of (int_minus len q.place)) (first_byte (one_line (query_text q)))
              (drop q.place buf) rest)

record Spoils (q : Query) (buf : Bytes) (len : ℕ) (raised : Bool) (st : State) : Type 0 where
  out : State
  packet : Bytes
  spoils : spoil q buf len st ≡ some (out, packet)
  logs : out.logs ≡ st.logs
  level : out.info.level ≡ pos 0
  means : Spoiling q buf len raised packet
