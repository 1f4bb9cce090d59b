-- ===== src/Driver/Clvm.antt =====
-- What crates/chia-sdk-driver/src uses of CLVM, of its codecs and of the puzzles of the chia_puzzles
-- crate, and the errors of driver_error.rs. A node pointer is the value `T` that it points to.
use chia_wallet_sdk.Prelude.{◌≡◌, Option, some}
use chia_wallet_sdk.Protocol.{Bytes32, Bytes, Result, ok, err}
use Prim.Native.String.{String}

-- `E` is an error of the libraries.
pub data DriverError (E : Type 0) : Type 0 where
  io : E → DriverError E
  try_from_int : DriverError E
  to_clvm : E → DriverError E
  from_clvm : E → DriverError E
  eval : E → DriverError E
  invalid_mod_hash non_standard_layer missing_child missing_hint missing_memo : DriverError E
  invalid_memo invalid_singleton_struct odd_oracle_fee : DriverError E
  custom : String → DriverError E

pub record Clvm (T E : Type 0) : Type 0 where
  pub nil : T
  pub tree_hash : T → Bytes32
  -- `CurriedProgram`, of a program and its encoded arguments: how it is encoded, decoded and hashed.
  pub curry : T → T → Result E T
  pub uncurry : T → Option (T × T)
  pub curry_hash : Bytes32 → Bytes32 → Bytes32
  pub node_from_bytes : Bytes → Result E T
  pub serialize : T → Result E Bytes
  pub run_puzzle : T → T → Result E T

-- A curried program is decoded as it was encoded, and its hash is that of its parts.
pub record IsClvm {T E : Type 0} (c : Clvm T E) : Type 0 where
  pub uncurry-curry :
      (program args t : T) → c.curry program args ≡ ok t → c.uncurry t ≡ some (program, args)
  pub tree_hash-uncurry :
      (t program args : T)
      → c.uncurry t ≡ some (program, args)
      → c.tree_hash t ≡ c.curry_hash (c.tree_hash program) (c.tree_hash args)

-- `ToClvm` and `FromClvm` of a type.
pub record Codec (T E A : Type 0) : Type 0 where
  pub encode : A → Result E T
  pub decode : T → Result E A

-- What is encoded is decoded.
abbrev pub IsCodec : {T E A : Type 0} → Codec T E A → Type 0
IsCodec {T} {E} {A} codec = (a : A) (t : T) → codec.encode a ≡ ok t → codec.decode t ≡ ok a

-- The bytes of a puzzle and its tree hash.
pub record Mod : Type 0 where
  pub hash : Bytes32
  pub bytes : Bytes

-- The hash is that of the puzzle.
abbrev pub IsMod : {T E : Type 0} → Clvm T E → Mod → Type 0
IsMod {T} c m = (t : T) → c.node_from_bytes m.bytes ≡ ok t → c.tree_hash t ≡ m.hash

-- The error conversion of `?`.
abbrev pub try_to : {E F A : Type 0} → (E → F) → Result E A → Result F A
try_to f (ok a) = ok a
try_to f (err e) = err (f e)
