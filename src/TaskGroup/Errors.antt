-- ===== src/TaskGroup/Errors.antt =====
-- localpost/threadtools/_task_group.py: which exceptions leave the group.
use localpost_py.Prelude.{ℕ, ◌≡◌, Option, some, List, [], ◌∷◌, get_elem?}
use localpost_py.TaskGroup.{Status, succeeded, failed, System}

-- What is left in `_tasks` of all that was appended: all but some that have succeeded, in their order.
data Kept (fs : List Status) : List ℕ → List ℕ → Type 0 where
  none_left : Kept fs [] []
  keep : (i : ℕ) {ls ts : List ℕ} → Kept fs ls ts → Kept fs (i ∷ ls) (i ∷ ts)
  drop :
      (i : ℕ) {ls ts : List ℕ}
      → get_elem? fs i ≡ some succeeded
      → Kept fs ls ts
      → Kept fs (i ∷ ls) ts

-- futures may be added, and end
abbrev Lasts : List Status → List Status → Type 0
Lasts fs gs = (i : ℕ) → get_elem? fs i ≡ some succeeded → get_elem? gs i ≡ some succeeded

-- the list as it is now, and as it was when it was taken
record IsKept (s : System) : Type 0 where
  pub now : Kept s.futures s.listed s.group.tasks
  pub taken : (ts : List ℕ) → s.failed ≡ some ts → Kept s.futures s.listed_then ts
