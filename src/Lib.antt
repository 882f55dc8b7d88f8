-- ===== src/Lib.antt =====
-- The access control and audit code of OSCShell, as far as it is plain computation on texts and
-- lists. The database module DBRecord decides whether a user may reach a resource, checks each
-- command of a session against the policy, and cleans and records the output; OracleProxy reads the
-- same commands out of the Oracle protocol and calls DBRecord.
--
-- Parts, in the order in which they use each other:
-- - Base: lists and Boolean tests over the native numbers (Base/Lists, Base/Tests), the functions of
--   <string.h> on texts (Base/Text), `atoi` and signed numbers (Base/Int), what
--   `sprintf` prints for numbers (Base/Print) and how `atoi` reads it (Base/Decimal).
-- - Replace: `find_strings_count`, `strings_replace` and `strings_replace_free` of
--   DBRecord/dbrecord.c, and `str_replace` of include/paraview/string.c.
-- - Split: `strsplit` and `FindDBTable` of DBRecord/DBoperate.c, by which a rule about a table is
--   compared with a statement.
-- - Terminal: `EncodeData`, `ClearVT100Data` and `ClearData` of DBRecord/DBoperate.c.
-- - Policy: `MatchNclItem`, `MatchPclItem`, `MatchCclItem`, `MatchTclItem`, `strupr` and
--   `FindLevelCmd` of DBRecord/DBoperate.c; `MatchCclItem` calls `FindDBTable`.
-- - Database: the queries of DBRecord/DBoperate.c: the records (Database/Records, Database/Cleared),
--   the columns of a row (Database/Rows, Database/Readers, Database/AccountReaders), the parameters
--   and `DecryptData` (Database/Backend), `CheckEmployee`, `GetEmployee`, `GetResPwd`,
--   `GetResourcePort`, `GetResource`, `GetEmployeeaccount`, `GetAuth_id`, `GetJOINTable` and
--   `GetLeveCmd` (Database/Fetch), `GetPolicy` (Database/PolicySearch), the lists of accounts and the
--   protocols (Database/Lists, Database/Arrays).
-- - Access: the loop over the policies (Access), `GetConfigForUser` and `GetConfigForID`
--   (Access/Session) of DBRecord/DBoperate.c, which use Database and Policy, and `GetConfig` of
--   DBRecord/dbrecord.c, which takes a name apart and calls them (Access/Config).
-- - Audit: `InsertUseractivitylog` of DBRecord/dbrecord.c, which cleans a command with Replace, tests
--   it with Policy, and fills the record that the database gets. The size of a pointer, which the
--   code depends on, and that of `pProxyInfo->cmd` are arguments. The statements that insert the
--   record and the output, `SetUseractivitylog` and `SetUseractivityoutlog` of DBRecord/DBoperate.c
--   (Audit/Statement), and how a database reads them (Audit/Sql, Audit/Plain, Audit/Rows, Audit/Broken). The
--   log of logins, `SetLoginlog` and `CreateLoginlog` (Audit/Login, Audit/Logins), their use in
--   `GetConfig` (Audit/Session, Audit/OneLogin), `ReflashLoginlog` (Audit/Logout), and
--   `InsertStopExchangeUserInfo` and `GetStopExchangeUserSwitch` of DBRecord/dbrecord.c
--   (Audit/Exchange, Audit/Refused), whose file is the one that Config reads.
-- - Des: DBRecord/datasafe.h, the cipher of passwords: the tables (Des/Tables), the Feistel rounds and
--   the key schedule (Des/Blocks), digits (Des/Hex), `sssDES` and `singleDES` (Des/Single),
--   `randomDES`, `encrypt` and `_encrypts` (Des/Password). A bit is a number; what `sss_rn_gen` writes
--   is an argument.
-- - Oracle: OracleProxy/oraclefilter.c, what a client sends: strings (Oracle/Strings), the place of a
--   statement (Oracle/Places, Oracle/Query), its record with `findSQL` and
--   `InsertUseractivityoutlog` of DBRecord/dbrecord.c (Oracle/Session), and `DecodeTnsData`
--   (Oracle/Request), which records through Audit; `OracleFitler` with the redirect packets
--   (Oracle/Address, Oracle/Redirect); `PrintData`, which prints a column of a reply (Oracle/Times,
--   Oracle/Cell), where `%f` is an argument; `DecodeTnsData0401`, the messages of errors
--   (Oracle/Ack); `printreslut` (Oracle/Result, Oracle/Filled) and the list of connections (Oracle/Conn). The
--   sizes and ids that the machine and the database give are the record `Machine`.
-- - Config: `GetMysqlConfig` and `Audit_GetMysqlConfig` of DBRecord/DBoperate.c, which read the
--   files with the settings of the databases; a stored password is read by Des.
--
-- A C string is the list of its bytes, with no terminator, and a pointer into it is the suffix that
-- it points at: `p - q` is a difference of lengths. `char` is signed and `int` has 32 bits. A write
-- past the end of a fixed array, and a read past the end of a text, is a result of its own (`none`,
-- `past_end`). Out parameters are results. `strtok` on a fresh copy is the list of its tokens.
--
-- Rounds: a `while` that no argument shrinks takes a number of rounds. `strsplit` and `ClearData`
-- start theirs with the length of the text and one more, which is enough, since a round reads at
-- least one byte; so do the loop of `ParseStrbyLen`, with the length of the buffer, and
-- `DecodeTnsData`, whose calls of itself get at least two bytes less (Oracle/Rounds).
-- `find_strings_count`, `strings_replace` and `str_replace` take the rounds as an argument, since
-- the source does not end on an empty search, and `FindVer` does, since its loop never moves on.
-- `GetPolicy` climbs from a group to its parent, which ends only if the stored groups do; `climb`
-- takes its rounds as an argument.
--
-- Parameters: `inet_addr` (a function from texts to numbers); the local time; the record `Backend`
-- with the reply of MySQL to each SELECT statement, `_encrypt`, `_decrypt_key` and the functions for
-- other databases. A SELECT is a constructor with the values that `sprintf` puts into it, not its
-- text, and the database does not change during a call; the statements of the audit are texts, and
-- its database is the record `AuditDatabase`. The clock and `rand` are the record `Clock`. Assumed: `malloc` succeeds, a statement fits
-- its buffer, and a column fits its field. The record types (`Policy`, `Pr_Employee`, `PROXYINFO` and
-- so on) are declared outside the repository; the fields are those that the code names.
--
-- Not modelled: the files that statements and videos are saved to, the packets of an Oracle server
-- with the rows, sockets and logging, and the C++ programs for Windows with the
-- libraries copied into them.
pub mod Base
pub mod Replace
pub mod Split
pub mod Terminal
pub mod Policy
pub mod Database
pub mod Access
pub mod Audit
pub mod Des
pub mod Oracle
pub mod Config
