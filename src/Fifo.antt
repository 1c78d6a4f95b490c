-- ===== src/Fifo.antt =====
-- What both queues of waiting sockets promise: first in, first out, up to a capacity if there is one.
use multiplexing_server.Base.{
  ℕ, Option, none, some, List, [], ◌∷◌, ◌++◌, length, ltb, if◌then◌else◌,
}

-- Oldest first.
abbrev pub Fifo : Type 0
Fifo = List ℕ

pub data Op : Type 0 where
  put : ℕ → Op
  get : Op

-- What a caller sees: whether an item was taken in, or what came out.
pub data Reply : Type 0 where
  stored full : Reply
  item : Option ℕ → Reply

unfoldable pub pop : Fifo → Option ℕ × Fifo
pop [] = (none, [])
pop (x ∷ xs) = (some x, xs)

module _ (cap : ℕ) where
  unfoldable pub push : Fifo → ℕ → Reply × Fifo
  push xs x = if ltb (length xs) cap then (stored, xs ++ x ∷ []) else (full, xs)

  unfoldable pub step : Fifo → Op → Reply × Fifo
  unfolding push pop
  step xs (put x) = push xs x
  step xs get = let (o, ys) = pop xs in (item o, ys)

  unfoldable pub run : Fifo → List Op → List Reply
  unfolding step
  run xs [] = []
  run xs (op ∷ ops) = let (r, ys) = step xs op in r ∷ run ys ops
