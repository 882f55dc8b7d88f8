-- ===== src/Oracle/Conn.antt =====
-- `AddConn`, `DelConn` and `FindVer` of OracleProxy/oraclefilter.c: the list of connections with
-- their versions. A `PROXYINFO` is its bytes, which `memcmp` compares.
use oscshell.Base.{
  ℕ, zero, suc, ◌≤◌, true, List, [], ◌∷◌, Option, none, some, if◌then◌else◌, length, ◌>>=◌, is_some,
  bind-some, Bool-cases, take, inl, inr, ◌↔◌, ◌≡◌, refl, arith,
}
use oscshell.Base.Text.{Bytes, str_eq}

-- STCONNVER
pub record ConnVer : Type 0 where
  pub conn : Bytes
  pub uc_ver : Bytes

-- `FindVer`; the version is `none` for NULL. The loop does not move on to the next connection, so
-- that it takes rounds.
unfoldable pub find_ver : ℕ → List ConnVer → Bytes → Option (Option Bytes)
find_ver rounds [] info = some none
find_ver zero (st ∷ sts) info = none
find_ver (suc rounds) (st ∷ sts) info =
    let again = find_ver rounds (st ∷ sts) info in
    if str_eq st.conn info then some (some st.uc_ver) else again

unfoldable pub add_unless : List ConnVer → Bytes → Bytes → Option Bytes → List ConnVer
add_unless head info ver none = record { conn = info; uc_ver = take 2 ver } ∷ head
add_unless head info ver (some found) = head

-- `AddConn`, which always returns 1.
unfoldable pub add_conn : ℕ → List ConnVer → Bytes → Bytes → Option (List ConnVer)
add_conn rounds head info ver = do
  found ← find_ver rounds head info
  some (add_unless head info ver found)

-- `DelConn`, whose loop returns in its first round, and the value returned.
unfoldable pub del_conn : List ConnVer → Bytes → List ConnVer × ℕ
del_conn [] info = ([], 0)
del_conn (st ∷ sts) info = (sts, 1)

-- The calls, each of which returns.
pub data Step (old : List ConnVer) : List ConnVer → Type 0 where
  adds :
      (rounds : ℕ) (info ver : Bytes) {new : List ConnVer}
      → add_conn rounds old info ver ≡ some new
      → Step old new
  deletes : (info : Bytes) → Step old (del_conn old info).0

pub data Reach (start : List ConnVer) : List ConnVer → Type 0 where
  here : Reach start start
  next : {old new : List ConnVer} → Reach start old → Step old new → Reach start new

-- The list is empty, or its first connection is the one that is sought.
abbrev pub IsFirst : Bytes → List ConnVer → Type 0
IsFirst info [] = Unit
IsFirst info (st ∷ sts) = str_eq st.conn info ≡ true

-- `FindVer` returns exactly if there is no connection, or if the first one is the one that is
-- sought, however many rounds it gets.
pub find_ver_returns_iff :
    (rounds : ℕ) (head : List ConnVer) (info : Bytes)
    → (is_some (find_ver (suc rounds) head info) ≡ true) ↔ IsFirst info head
unfolding find_ver
find_ver_returns_iff rounds [] info = ((λ h. tt), λ h. refl)
find_ver_returns_iff zero (st ∷ sts) info = ground arith
find_ver_returns_iff (suc rounds) (st ∷ sts) info =
    ground (arith, find_ver_returns_iff rounds (st ∷ sts) info)

find_ver-none :
    (rounds : ℕ) (head : List ConnVer) (info : Bytes)
    → find_ver rounds head info ≡ some none
    → head ≡ []
unfolding find_ver
find_ver-none rounds [] info h = refl
find_ver-none zero (st ∷ sts) info h = absurd (ground arith)
find_ver-none (suc rounds) (st ∷ sts) info h = elim (Bool-cases (str_eq st.conn info)) [
  | inl e ↦ absurd (ground arith)
  | inr e ↦ find_ver-none rounds (st ∷ sts) info (ground arith)
]

length-add_unless :
    (rounds : ℕ) (head : List ConnVer) (info ver : Bytes) (found : Option Bytes)
    → find_ver rounds head info ≡ some found
    → length head ≤ 1
    → length (add_unless head info ver found) ≤ 1
unfolding add_unless
length-add_unless rounds head info ver none h small =
    rw (find_ver-none rounds head info h) (omega arith)
length-add_unless rounds head info ver (some found) h small = small

length-del_conn :
    (head : List ConnVer) (info : Bytes) → length head ≤ 1 → length (del_conn head info).0 ≤ 1
unfolding del_conn
length-del_conn [] info small = small
length-del_conn (st ∷ sts) info small = omega arith

length-Step : {old new : List ConnVer} → length old ≤ 1 → Step old new → length new ≤ 1
unfolding add_conn
length-Step {old} {new} small (adds rounds info ver e) =
    let (found, h, same) = bind-some (find_ver rounds old info) _ new e in
    let n = length-add_unless rounds old info ver found h small in ground (arith, same)
length-Step {old} small (deletes info) = length-del_conn old info small

-- However `AddConn` and `DelConn` are called from the start on, as long as the calls return, the list
-- holds at most one connection.
pub length-Reach : {head : List ConnVer} → Reach [] head → length head ≤ 1
length-Reach here = omega arith
length-Reach (next r s) = length-Step (length-Reach r) s
