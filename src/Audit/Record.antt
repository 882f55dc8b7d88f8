-- ===== src/Audit/Record.antt =====
-- What is recorded of a command.
use oscshell.Base.{
  ℕ, zero, suc, ◌-◌, ◌<◌, Bool, true, false, List, [], ◌∷◌, some, ltb, Option-cases, ◌≤◌,
  if◌then◌else◌, ◌≡◌, ◌↔◌, inl, inr, refl, arith, Any, All, Bool-cases, length, take, map,
}
use oscshell.Base.Int.{ℤ, pos, is_zero}
use oscshell.Base.Text.{Bytes, Lacks}
use oscshell.Policy.{LevelCmd, find_level_cmd}
use oscshell.Policy.Rules.{TablesFit}
use oscshell.Policy.Levels.{find_level_cmd-none}
use oscshell.Access.Session.{ProxyInfo}
use oscshell.Audit.{UserActivityLog, mark_loop, recorded, activity, insert_useractivitylog}
use oscshell.Audit.Marks.{
  quoted, length-quoted, Lacks-quoted, Lacks-take, cleaned-mark_loop, Lacks-mark_loop,
  length-mark_loop,
}
use oscshell.Audit.Levels.{Refuses, Raises-is_raised}

Lacks-recorded : (q n : ℕ) (s : Bytes) → Lacks q s → Lacks q (recorded n s)
unfolding recorded
Lacks-recorded q n s h = elim (Bool-cases (ltb (length s) n)) [
  | inl e ↦ rw e h
  | inr e ↦ rw e (Lacks-take q (n - 1) s h)
]

length-take_le : (n : ℕ) (s : Bytes) → length (take n s) ≤ length s
length-take_le zero s = omega arith
length-take_le (suc n) [] = omega arith
length-take_le (suc n) (c ∷ s) = omega (arith, length-take_le n s)

length-recorded : (n : ℕ) (s : Bytes) → length (recorded n s) ≤ length s
unfolding recorded
length-recorded n s = ground (arith, length-take_le (n - 1) s)

find_level_cmd_total :
    (levels : List LevelCmd) (cmd : Bytes)
    → length cmd < 512
    → (level : ℤ) × (find_level_cmd levels cmd ≡ some level)
find_level_cmd_total levels cmd fits = elim (Option-cases (find_level_cmd levels cmd)) [
  | inl e ↦ absurd (let h = (find_level_cmd-none levels cmd).0 e in omega arith)
  | inr (level, e) ↦ (level, e)
]

-- For an audited session, a line of less than 512 bytes and table texts that fit their buffer,
-- `InsertUseractivitylog` stores a record. Its command is what the loop over the question marks
-- leaves of the line with double quotes for quotes, cut off at the size of `cmd`, and it has no
-- quote. The session's level becomes 1 exactly if one of its policies refuses what the loop leaves,
-- and else stays.
pub insert_useractivitylog_records :
    (word cmd_size : ℕ) (info : ProxyInfo)
    → 0 < word
    → length info.line_out_buffer < 512
    → All (λ p. TablesFit p.ccl) info.policy
    → is_zero info.auth.pr_audit_flag ≡ false
    → (out : ProxyInfo) × (log : UserActivityLog) × (cmd : Bytes) × (raised : Bool)
      × (insert_useractivitylog word cmd_size info ≡ some (out, some log))
      × (cmd ≡ mark_loop (length info.line_out_buffer) word 0 (map quoted info.line_out_buffer))
      × (log.pr_command ≡ recorded cmd_size cmd)
      × Lacks b'\'' log.pr_command
      × (out.level ≡ (if raised then pos 1 else info.level))
      × ((raised ≡ true) ↔ Any (Refuses cmd info.auth.pr_cmd_flag) info.policy)
unfolding insert_useractivitylog activity
insert_useractivitylog_records word cmd_size info some_word fits tables audited =
    let line = info.line_out_buffer in
    let cmd = mark_loop (length line) word 0 (map quoted line) in
    let short : length cmd < 512 =
      omega (arith, length-mark_loop (length line) word 0 (map quoted line), length-quoted line) in
    let c = cleaned-mark_loop word line (omega arith) in
    let r = Raises-is_raised cmd info.auth.pr_cmd_flag info.policy (omega arith) tables in
    let le = length-recorded cmd_size cmd in
    let (level, l) = find_level_cmd_total info.levelcmd (recorded cmd_size cmd) (omega arith) in
    let quotes =
      Lacks-mark_loop b'\'' (length line) word 0 (map quoted line) (ground arith)
        (Lacks-quoted line) in
    let written : ProxyInfo = record info {
      cmd = recorded cmd_size cmd;
      level = if r.answer then pos 1 else info.level;
      start_in = pos 1;
    } in
    (
      written,
      activity written level,
      cmd,
      r.answer,
      rw c (rw r.returns (rw l (rw audited))),
      refl,
      refl,
      Lacks-recorded b'\'' cmd_size cmd quotes,
      refl,
      r.means,
    )
