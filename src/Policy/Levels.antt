-- ===== src/Policy/Levels.antt =====
-- `FindLevelCmd`: the level of a command.
use oscshell.Base.{
  ◌≤◌, ◌<◌, true, false, List, [], ◌∷◌, ◌++◌, none, some, All, length, ◌≡◌, ◌↔◌, refl, arith,
}
use oscshell.Base.Int.{pos}
use oscshell.Base.Text.{Bytes, contains, strupr, strcpy_fits}
use oscshell.Policy.{LevelCmd, level_loop, find_level_cmd}

level_loop_skip :
    (mycmd : Bytes) (before after : List LevelCmd)
    → All (λ l. contains mycmd l.cmd ≡ false) before
    → level_loop mycmd (before ++ after) ≡ level_loop mycmd after
unfolding level_loop
level_loop_skip mycmd [] after h = refl
level_loop_skip mycmd (l ∷ before) after h = rw h.0 (level_loop_skip mycmd before after h.1)

level_loop_none :
    (mycmd : Bytes) (levels : List LevelCmd)
    → All (λ l. contains mycmd l.cmd ≡ false) levels
    → level_loop mycmd levels ≡ pos 0
unfolding level_loop
level_loop_none mycmd [] h = refl
level_loop_none mycmd (l ∷ levels) h = rw h.0 (level_loop_none mycmd levels h.1)

-- `FindLevelCmd` writes past the end of its buffer exactly if the command has 512 bytes or more.
pub find_level_cmd-none :
    (levels : List LevelCmd) (cmd : Bytes) → (find_level_cmd levels cmd ≡ none) ↔ (512 ≤ length cmd)
unfolding find_level_cmd
find_level_cmd-none levels cmd = ground arith

-- On a command of less than 512 bytes `FindLevelCmd` returns the level of the first entry whose text
-- occurs in the command's upper case, and 0 if only entries before it are listed.
pub find_level_cmd_first :
    (before : List LevelCmd) (l : LevelCmd) (after : List LevelCmd) (cmd : Bytes)
    → length cmd < 512
    → All (λ k. contains (strupr cmd) k.cmd ≡ false) before
    → contains (strupr cmd) l.cmd ≡ true
    → (find_level_cmd (before ++ (l ∷ after)) cmd ≡ some l.level)
      × (find_level_cmd before cmd ≡ some (pos 0))
unfolding find_level_cmd level_loop
find_level_cmd_first before l after cmd fits none_before hit = (
  rw (strcpy_fits 512 cmd fits, level_loop_skip (strupr cmd) before (l ∷ after) none_before)
      (rw hit),
  rw (strcpy_fits 512 cmd fits, level_loop_none (strupr cmd) before none_before),
)
