-- ===== src/Oracle/Result.antt =====
-- `printreslut` of OracleProxy/oraclefilter.c, which collects the rows of a reply in the global array
-- `sql_reslut` of 4096 bytes.
use oscshell.Base.{
  ℕ, ◌+◌, ◌-◌, ◌≤◌, ◌<◌, true, ◌++◌, Option, none, some, if◌then◌else◌, take, length, ltb, leb,
  Bool-cases, Option-cases, inl, inr, ◌↔◌, ◌≡◌, ap, arith, length-append, length-take,
}
use oscshell.Base.Text.{Bytes, strcpy}

-- Size of `sql_reslut` and of `sprint_buf`.
abbrev pub reslut_size : ℕ
reslut_size = 4096

-- What `strcat` leaves: of a text that does not fit, as much as the size of the array allows.
unfoldable pub appended : Bytes → Bytes → Bytes
appended sql_reslut formatted =
    sql_reslut
    ++ (if leb reslut_size (length sql_reslut + length formatted)
        then take (reslut_size - length sql_reslut) formatted
        else formatted)

-- The text in `sql_reslut`; `none` is a write past the end of an array.
unfoldable pub printreslut : Bytes → Bytes → Option Bytes
printreslut sql_reslut formatted =
    if ltb (length formatted) reslut_size
    then (if leb reslut_size (length sql_reslut)
        then some sql_reslut
        else strcpy reslut_size (appended sql_reslut formatted))
    else none

-- A text that does not fit fills the array up to its last byte.
pub length-appended :
    (sql_reslut formatted : Bytes)
    → length sql_reslut < reslut_size
    → reslut_size ≤ length sql_reslut + length formatted
    → length (appended sql_reslut formatted) ≡ reslut_size
unfolding appended
length-appended r f fits over =
    let full : leb reslut_size (length r + length f) ≡ true = ground arith in
    rw full (
      omega (
        arith,
        length-append r (take (reslut_size - length r) f),
        length-take (reslut_size - length r) f,
      ))

-- While the text fits the array, a call adds the whole text that is printed if both together fit,
-- and otherwise writes past the end of the array.
pub printreslut_iff :
    (sql_reslut formatted new : Bytes)
    → length sql_reslut < reslut_size
    → (printreslut sql_reslut formatted ≡ some new)
      ↔ ((new ≡ sql_reslut ++ formatted) × (length new < reslut_size))
unfolding printreslut appended
printreslut_iff r f new fits = elim (Bool-cases (leb reslut_size (length r + length f))) [
  | inl over ↦ (
    (λ h. absurd (full over h)),
    λ (e, m). absurd (omega (arith, ap length e, total, leb→le over)),
  )
  | inr room ↦ ((λ h. ground (arith, total)), λ (e, m). ground (arith, total))
]
  where
    total : length (r ++ f) ≡ length r + length f
    total = length-append r f

    leb→le : leb reslut_size (length r + length f) ≡ true → reslut_size ≤ length r + length f
    leb→le h = ground arith

    full : leb reslut_size (length r + length f) ≡ true → printreslut r f ≡ some new → ⊥
    full over h = ground (arith, length-appended r f fits (leb→le over))

-- A text that does not fit is a write past the end of the array.
pub printreslut-none :
    (sql_reslut formatted : Bytes)
    → length sql_reslut < reslut_size
    → reslut_size ≤ length sql_reslut + length formatted
    → printreslut sql_reslut formatted ≡ none
printreslut-none r f fits over = elim (Option-cases (printreslut r f)) [
  | inl e ↦ e
  | inr (new, e) ↦
      let (same, short) = (printreslut_iff r f new fits).0 e in
      absurd (omega (arith, ap length same, length-append r f))
]
