-- ===== src/Database/Climb.antt =====
-- `GetPolicy`: the way up through the parents of a group, and where it ends.
use oscshell.Base.{
  ℕ, zero, suc, ◌+◌, ◌<◌, Bool, true, false, ◌||◌, List, [], ◌∷◌, Option, none, some, if◌then◌else◌,
  ◌≡◌, refl, ap, ◌∙◌, arith, All, length,
}
use oscshell.Base.Text.{Bytes, str_eq, strcpy_fits}
use oscshell.Database.Rows.{Row, Reply, rows, text}
use oscshell.Database.Backend.{Backend, parent_of_group, item_of_parent}
use oscshell.Database.PolicySearch.{
  Found, failed, item, item_or, group_then, top_group, no_group, role_at, climb,
}

-- The groups at which the search gives up.
abbrev pub is_root : Bytes → Bool
is_root g = str_eq g top_group || str_eq g no_group

-- The first column of the first row, or no row.
abbrev pub Answers : Reply → Option Bytes → Type 0
Answers r none = r ≡ rows []
Answers r (some s) = (row : Row) × (more : List Row) × (r ≡ rows ((some s ∷ row) ∷ more))

-- The parents of the group, one after the other, up to the first root.
abbrev pub AreParents : Backend → Bytes → List Bytes → Type 0
AreParents b g [] = ⊥
AreParents b g (p ∷ []) =
    Answers (b.reply (parent_of_group g)) (some p) × (length p < 32) × (is_root p ≡ true)
AreParents b g (p ∷ (q ∷ ps)) =
    Answers (b.reply (parent_of_group g)) (some p)
    × (length p < 32)
    × (is_root p ≡ false)
    × AreParents b p (q ∷ ps)

-- The item of the nearest group that has one.
abbrev pub nearest : (Bytes → Option Bytes) → List Bytes → Found
nearest items [] = failed 6
nearest items (p ∷ ps) = elim (items p) [ none ↦ nearest items ps | some id ↦ item id ]

climb-step :
    (b : Backend) (role g p : Bytes) (found : Option Bytes) (rounds : ℕ)
    → Answers (b.reply (parent_of_group g)) (some p)
    → length p < 32
    → Answers (b.reply (item_of_parent p (role_at p role))) found
    → climb (suc rounds) b role g ≡ elim found [
      | none ↦ if is_root p then some (failed 6) else climb rounds b role p
      | some id ↦ some (item id)
    ]
unfolding climb group_then item_or text
climb-step b role g p none rounds (row, more, e) fits a =
    rw (e, climb) (rw (strcpy_fits 32 p fits) (rw a))
climb-step b role g p (some id) rounds (row, more, e) fits (row', more', a) =
    rw (e, climb) (rw (strcpy_fits 32 p fits) (rw a))

-- If every group on the way up answers the question for its item, with an id or with no row, and its
-- id fits the buffer, then the search returns after at most one round for each parent: the item of
-- the nearest parent that has one, and the code 6 if none has. Further rounds change nothing.
pub climb-nearest :
    (b : Backend) (role g : Bytes) (parents : List Bytes) (items : Bytes → Option Bytes)
    (rounds : ℕ)
    → AreParents b g parents
    → All (λ p. Answers (b.reply (item_of_parent p (role_at p role))) (items p)) parents
    → climb (rounds + length parents) b role g ≡ some (nearest items parents)
climb-nearest b role g [] items rounds h a = absurd h
climb-nearest b role g (p ∷ []) items rounds (e, fits, root) a =
    let n : rounds + length (p ∷ []) ≡ suc (rounds + 0) = omega arith in
    ap (λ (n : ℕ). climb n b role g) n
    ∙ climb-step b role g p (items p) (rounds + 0) e fits a.0
    ∙ at_root (items p)
  where
    at_root :
        (found : Option Bytes)
        → elim found [
          | none ↦ if is_root p then some (failed 6) else climb (rounds + 0) b role p
          | some id ↦ some (item id)
        ]
          ≡ some (elim found [ none ↦ failed 6 | some id ↦ item id ])
    at_root none = rw root
    at_root (some id) = refl
climb-nearest b role g (p ∷ (q ∷ ps)) items rounds (e, fits, inner, more) a =
    let n : rounds + length (p ∷ (q ∷ ps)) ≡ suc (rounds + length (q ∷ ps)) = omega arith in
    ap (λ (n : ℕ). climb n b role g) n
    ∙ climb-step b role g p (items p) (rounds + length (q ∷ ps)) e fits a.0
    ∙ on (items p) (climb-nearest b role p (q ∷ ps) items rounds more a.1)
  where
    on :
        (found : Option Bytes)
        → climb (rounds + length (q ∷ ps)) b role p ≡ some (nearest items (q ∷ ps))
        → elim found [
          | none ↦ if is_root p then some (failed 6) else climb (rounds + length (q ∷ ps)) b role p
          | some id ↦ some (item id)
        ]
          ≡ some (elim found [ none ↦ nearest items (q ∷ ps) | some id ↦ item id ])
    on none later = rw inner later
    on (some id) later = refl

-- For a group that is its own parent and no root, and that has no item, the search never ends.
pub climb-cycle :
    (b : Backend) (role g : Bytes) (rounds : ℕ)
    → Answers (b.reply (parent_of_group g)) (some g)
    → length g < 32
    → is_root g ≡ false
    → b.reply (item_of_parent g (role_at g role)) ≡ rows []
    → climb rounds b role g ≡ none
climb-cycle b role g zero e fits inner a = unfold climb in refl
climb-cycle b role g (suc rounds) e fits inner a =
    climb-step b role g g none rounds e fits a
    ∙ rw inner (climb-cycle b role g rounds e fits inner a)
