-- ===== src/Audit/Plain.antt =====
-- Which values of the audit log have no quote and no backslash.
use oscshell.Base.{
  ℕ, zero, suc, ◌+◌, ◌-◌, ◌/◌, ◌%◌, ◌<◌, Bool, true, false, ◌≢◌, [], ◌∷◌, ◌++◌, All, All-append,
  drop, length, ltb, Bool-cases, inl, inr, sym, arith,
}
use oscshell.Base.Int.{ℤ, pos, negsuc}
use oscshell.Base.Text.{Bytes, Lacks, codes, contains}
use oscshell.Base.Print.{decimal, print_int, zero_digits, print_padded}
use oscshell.Audit.{UserActivityLog}
use oscshell.Audit.Statement.{Clock, row_id, oper_date, clean_prefix, date_value, log_values}
use oscshell.Audit.Sql.{IsPlain, IsPlainValue}

-- A byte that no printed number has.
abbrev IsMark : ℕ → Type 0
IsMark q = (q ≢ 45) × (((c : ℕ) → c < 10 → 48 + c ≢ q))

Lacks-append : (q : ℕ) (s t : Bytes) → Lacks q s → Lacks q t → Lacks q (s ++ t)
Lacks-append q s t = All-append (λ c. c ≢ q) s t

module _ (q : ℕ) (mark : IsMark q) where
  Lacks-decimal : (n k : ℕ) → Lacks q (decimal n k)
  unfolding decimal
  Lacks-decimal zero k = tt
  Lacks-decimal (suc n) k = elim (Bool-cases (ltb k 10)) [
    | inl e ↦ rw e (mark.1 k (ground arith), tt)
    | inr e ↦ rw e (
        Lacks-append q (decimal n (k / 10)) ((48 + k % 10) ∷ []) (Lacks-decimal n (k / 10))
          (mark.1 (k % 10) (omega arith), tt))
  ]

  Lacks-print_int : (i : ℤ) → Lacks q (print_int i)
  unfolding print_int
  Lacks-print_int (pos k) = Lacks-decimal 10 k
  Lacks-print_int (negsuc k) = ((λ e. mark.0 (sym e)), Lacks-decimal 10 (suc k))

  Lacks-zero_digits : (n : ℕ) → Lacks q (zero_digits n)
  unfolding zero_digits
  Lacks-zero_digits zero = tt
  Lacks-zero_digits (suc n) = (mark.1 0 (omega arith), Lacks-zero_digits n)

  Lacks-print_padded : (n k : ℕ) → Lacks q (print_padded n k)
  unfolding print_padded
  Lacks-print_padded n k =
      Lacks-append q (zero_digits (n - length (decimal 10 k))) (decimal 10 k)
        (Lacks-zero_digits (n - length (decimal 10 k))) (Lacks-decimal 10 k)

  Lacks-row_id : (c : Clock) → Lacks q (row_id c)
  unfolding row_id
  Lacks-row_id c = Lacks-append q (print_padded 2 c.hour) _ (Lacks-print_padded 2 c.hour) (
      Lacks-append q (print_padded 2 c.minute) _ (Lacks-print_padded 2 c.minute) (
        Lacks-append q (print_padded 2 c.second) _ (Lacks-print_padded 2 c.second) (
          Lacks-append q (print_int (pos c.first_rand)) _ (Lacks-print_int (pos c.first_rand))
            (Lacks-print_int (pos c.second_rand)))))

  Lacks-oper_date : (c : Clock) → 45 ≢ q → 32 ≢ q → 58 ≢ q → Lacks q (oper_date c)
  unfolding oper_date
  Lacks-oper_date c dash space colon =
      Lacks-append q (print_padded 4 c.year) _ (Lacks-print_padded 4 c.year) (
        dash,
        Lacks-append q (print_padded 2 c.month) _ (Lacks-print_padded 2 c.month) (
          dash,
          Lacks-append q (print_padded 2 c.day) _ (Lacks-print_padded 2 c.day) (
            space,
            Lacks-append q (print_padded 2 c.hour) _ (Lacks-print_padded 2 c.hour) (
              colon,
              Lacks-append q (print_padded 2 c.minute) _ (Lacks-print_padded 2 c.minute)
                  (colon, Lacks-print_padded 2 c.second),
            ),
          ),
        ),
      )

IsMark-quote : IsMark b'\''
IsMark-quote = ((λ e. omega (arith, e)), λ c h e. omega (arith, e))

IsMark-backslash : IsMark b'\\'
IsMark-backslash = ((λ e. omega (arith, e)), λ c h e. omega (arith, e, h))

pub IsPlain-print_int : (i : ℤ) → IsPlain (print_int i)
IsPlain-print_int i = record {
  no_quote = Lacks-print_int b'\'' IsMark-quote i;
  no_backslash = Lacks-print_int b'\\' IsMark-backslash i;
}

pub IsPlain-oper_date : (c : Clock) → IsPlain (oper_date c)
IsPlain-oper_date c = record {
  no_quote =
      Lacks-oper_date b'\'' IsMark-quote c (λ e. omega (arith, e)) (λ e. omega (arith, e))
        (λ e. omega (arith, e));
  no_backslash =
      Lacks-oper_date b'\\' IsMark-backslash c (λ e. omega (arith, e)) (λ e. omega (arith, e))
        (λ e. omega (arith, e));
}

IsPlain-date_value :
    (is_oracle : Bool) (s : Bytes) → IsPlain s → IsPlainValue (date_value is_oracle s)
unfolding date_value
IsPlain-date_value true s h = h
IsPlain-date_value false s h = h

Lacks-drop : (q n : ℕ) (s : Bytes) → Lacks q s → Lacks q (drop n s)
Lacks-drop q zero s h = h
Lacks-drop q (suc n) [] h = tt
Lacks-drop q (suc n) (c ∷ s) h = Lacks-drop q n s h.1

pub IsPlain-prefix : (s : Bytes) → IsPlain s → IsPlain (clean_prefix s ++ codes " ")
unfolding clean_prefix
IsPlain-prefix s h = elim (Bool-cases (contains s (27 ∷ codes "[m"))) [
  | inl e ↦ rw e (record {
    no_quote =
        Lacks-append b'\'' (drop 3 s) (codes " ") (Lacks-drop b'\'' 3 s h.no_quote) (omega arith);
    no_backslash =
        Lacks-append b'\\' (drop 3 s) (codes " ") (Lacks-drop b'\\' 3 s h.no_backslash)
          (omega arith);
  })
  | inr e ↦ rw e (record {
    no_quote = Lacks-append b'\'' s (codes " ") h.no_quote (omega arith);
    no_backslash = Lacks-append b'\\' s (codes " ") h.no_backslash (omega arith);
  })
]

pub IsPlain-row_id : (c : Clock) → IsPlain (row_id c)
IsPlain-row_id c = record {
  no_quote = Lacks-row_id b'\'' IsMark-quote c;
  no_backslash = Lacks-row_id b'\\' IsMark-backslash c;
}

-- No text of the record has a quote or a backslash.
pub record IsPlainLog (log : UserActivityLog) : Type 0 where
  pub client_addr : IsPlain log.pr_client_addr
  pub proxy_addr : IsPlain log.pr_proxy_addr
  pub res_id : IsPlain log.pr_res_id
  pub res_name : IsPlain log.pr_res_name
  pub res_addr : IsPlain log.pr_res_addr
  pub command : IsPlain log.pr_command
  pub cmd_prefix : IsPlain log.pr_cmd_prefix
  pub user_id : IsPlain log.pr_user_id
  pub user_name : IsPlain log.pr_user_name
  pub uid : IsPlain log.pr_uid
  pub account_no : IsPlain log.pr_account_no
  pub session_id : IsPlain log.pr_session_id

pub IsPlain-log_values :
    (is_oracle : Bool) (c : Clock) (log : UserActivityLog)
    → IsPlainLog log
    → All IsPlainValue (log_values is_oracle c log)
unfolding log_values
IsPlain-log_values is_oracle c log p = (
  IsPlain-row_id c,
  (
    p.client_addr,
    (
      p.proxy_addr,
      (
        p.res_id,
        (
          p.res_name,
          (
            p.res_addr,
            (
              p.command,
              (
                IsPlain-prefix log.pr_cmd_prefix p.cmd_prefix,
                (
                  tt,
                  (
                    tt,
                    (
                      p.user_id,
                      (
                        p.user_name,
                        (
                          p.uid,
                          (
                            p.account_no,
                            (
                              IsPlain-date_value is_oracle (oper_date c) (IsPlain-oper_date c),
                              (
                                p.session_id,
                                (
                                  IsPlain-print_int log.pr_level,
                                  (IsPlain-print_int log.pr_access_type, tt),
                                ),
                              ),
                            ),
                          ),
                        ),
                      ),
                    ),
                  ),
                ),
              ),
            ),
          ),
        ),
      ),
    ),
  ),
)
