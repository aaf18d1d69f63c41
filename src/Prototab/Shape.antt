-- ===== src/Prototab/Shape.antt =====
-- Facts that hold of every row of the table.
use librsync.Prelude.{ℕ, ◌≤◌, ◌≡◌, ◌≢◌, arith}
use librsync.Command.{copy}
use librsync.Prototab.{prototab}

-- No row of the command table has a parameter of more than 8 bytes.
pub prototab-len : (op : ℕ) → ((prototab op).len_1 ≤ 8) × ((prototab op).len_2 ≤ 8)
unfolding prototab
prototab-len op = ground arith

-- A row of the command table with no second parameter is not a copy.
pub prototab-len_2 : (op : ℕ) → (prototab op).len_2 ≡ 0 → (prototab op).kind ≢ copy
unfolding prototab
prototab-len_2 op = ground arith

pub prototab-len_1 : (op : ℕ) → (prototab op).len_1 ≡ 0 → (prototab op).len_2 ≡ 0
unfolding prototab
prototab-len_1 op = ground arith
