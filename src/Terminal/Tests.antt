-- ===== src/Terminal/Tests.antt =====
-- Runs of `ClearData` and `EncodeData`, and the theorems at concrete texts.
use oscshell.Base.{Bool, ◌⊎◌, [], ◌∷◌, ◌++◌, ◌≡◌, refl, arith}
use oscshell.Base.Text.{Bytes, Lacks, codes}
use oscshell.Terminal.{
  done, past_end, escape, is_final, clear_vt100_data, skip_escapes, copy_byte, clear_loop,
  clear_data, hex_of, encode_loop, encode_data,
}
use oscshell.Terminal.Clear.{clear_data_ends}
use oscshell.Terminal.Overrun.{clear_data_overrun}

abbrev red : Bytes
red = escape ∷ codes "[31mred\r\n"

clears : clear_data red ≡ done (codes "red")
unfolding clear_data clear_loop skip_escapes clear_vt100_data is_final copy_byte
clears = refl

-- A line end behind an escape sequence stays.
keeps_line_end : clear_data (escape ∷ codes "[m\nok") ≡ done (codes "\nok")
unfolding clear_data clear_loop skip_escapes clear_vt100_data is_final copy_byte
keeps_line_end = refl

encodes : encode_data (codes "Az" ++ 200 ∷ []) ≡ codes "417AFFFFFFC8"
unfolding encode_data encode_loop hex_of
encodes = refl

clear_data_ends_example :
    (clear_data red ≡ past_end) ⊎ ((r : Bytes) × (clear_data red ≡ done r) × Lacks escape r)
clear_data_ends_example = clear_data_ends red

is_final-m : (is_final b'0' ≡ Bool.false) × (is_final b'm' ≡ Bool.true)
unfolding is_final
is_final-m = (refl, refl)

clear_data_overrun_example :
    clear_data (codes "ls" ++ (escape ∷ (b'[' ∷ ((b'0' ∷ []) ++ (b'm' ∷ []))))) ≡ past_end
clear_data_overrun_example =
    clear_data_overrun (codes "ls") (b'0' ∷ []) b'm' (omega arith) (is_final-m.0, tt) is_final-m.1
