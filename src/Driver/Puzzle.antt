-- ===== src/Driver/Puzzle.antt =====
-- crates/chia-sdk-driver/src/puzzle.rs: a puzzle, taken apart if it is curried.
use chia_wallet_sdk.Prelude.{
  ◌≡◌, Bool, true, false, Option, none, some, Option-cases, inl, inr, arith,
}
use chia_wallet_sdk.Protocol.{Bytes32}
use chia_wallet_sdk.Driver.Clvm.{Clvm, IsClvm}

pub record CurriedPuzzle (T : Type 0) : Type 0 where
  pub curried_puzzle_hash : Bytes32
  pub curried_ptr : T
  pub mod_hash : Bytes32
  pub args : T

pub record RawPuzzle (T : Type 0) : Type 0 where
  pub puzzle_hash : Bytes32
  pub ptr : T

pub data Puzzle (T : Type 0) : Type 0 where
  curried : CurriedPuzzle T → Puzzle T
  raw : RawPuzzle T → Puzzle T

module _ {T : Type 0} where
  unfoldable pub curried_puzzle_hash : Puzzle T → Bytes32
  curried_puzzle_hash (curried p) = p.curried_puzzle_hash
  curried_puzzle_hash (raw p) = p.puzzle_hash

  unfoldable pub mod_hash : Puzzle T → Bytes32
  mod_hash (curried p) = p.mod_hash
  mod_hash (raw p) = p.puzzle_hash

  unfoldable pub ptr : Puzzle T → T
  ptr (curried p) = p.curried_ptr
  ptr (raw p) = p.ptr

  unfoldable pub is_curried : Puzzle T → Bool
  is_curried (curried p) = true
  is_curried (raw p) = false

  unfoldable pub is_raw : Puzzle T → Bool
  is_raw (curried p) = false
  is_raw (raw p) = true

  unfoldable pub as_curried : Puzzle T → Option (CurriedPuzzle T)
  as_curried (curried p) = some p
  as_curried (raw p) = none

  unfoldable pub as_raw : Puzzle T → Option (RawPuzzle T)
  as_raw (curried p) = none
  as_raw (raw p) = some p

module _ {T E : Type 0} (c : Clvm T E) where
  unfoldable pub parse_curried : T → Option (CurriedPuzzle T)
  parse_curried puzzle = elim (c.uncurry puzzle) [
    | none ↦ none
    | some (program, args) ↦ some (record {
      curried_puzzle_hash = c.curry_hash (c.tree_hash program) (c.tree_hash args);
      curried_ptr = puzzle;
      mod_hash = c.tree_hash program;
      args = args;
    })
  ]

  unfoldable pub parse : T → Puzzle T
  parse puzzle = elim (parse_curried puzzle) [
    | some p ↦ curried p
    | none ↦ raw (record { puzzle_hash = c.tree_hash puzzle; ptr = puzzle })
  ]

  -- A parsed puzzle points to what was parsed, and its hash is the tree hash of that.
  pub parse-lem :
      IsClvm c
      → (puzzle : T)
      → (ptr (parse puzzle) ≡ puzzle) × (curried_puzzle_hash (parse puzzle) ≡ c.tree_hash puzzle)
  unfolding parse parse_curried ptr curried_puzzle_hash
  parse-lem lawful puzzle = elim (Option-cases (c.uncurry puzzle)) [
    | inl e ↦ ground (arith, e)
    | inr ((program, args), e) ↦ ground (arith, e, lawful.tree_hash-uncurry puzzle program args e)
  ]
