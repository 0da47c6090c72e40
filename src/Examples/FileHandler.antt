-- ===== src/Examples/FileHandler.antt =====
-- examples/linux_jobs/src/file_handler.rs: the buffer that takes the blocks of a file over the air.
pub mod Blocks
use fibocom_cellular_rs.Prelude.{
  ℕ, zero, suc, ◌+◌, ◌-◌, Option, none, some, ◌⊎◌, inl, inr, List, [], ◌∷◌, ◌++◌, length, take,
  drop,
}
use fibocom_cellular_rs.Command.{Bytes}

-- The errors of `rustot` that the handler names.
pub data OtaPalError : Type 0 where
  bad_file_handle file_write_failed : OtaPalError

-- `std::io::Cursor<Vec<u8>>`
pub record Cursor : Type 0 where
  pub bytes : Bytes
  pub position : ℕ

unfoldable pub zeros : ℕ → Bytes
zeros zero = []
zeros (suc n) = 0 ∷ zeros n

-- `Cursor::write`, which never fails on a vector: what lies between the end of the vector and the
-- position is filled with zeros.
unfoldable pub write : Bytes → Cursor → Cursor
unfolding zeros
write payload c = record {
  bytes =
      take c.position c.bytes
      ++ (zeros (c.position - length c.bytes)
          ++ (payload ++ drop (c.position + length payload) c.bytes));
  position = c.position + length payload;
}

pub record FileHandler : Type 0 where
  pub filebuf : Option Cursor

abbrev pub new : FileHandler
new = record { filebuf = none }

unfoldable pub create_file_for_rx : FileHandler → (OtaPalError ⊎ Unit {0}) × FileHandler
create_file_for_rx h = (inr tt, record h { filebuf = some (record { bytes = []; position = 0 }) })

-- The hash that is logged is left out.
unfoldable pub close_file : FileHandler → (OtaPalError ⊎ Unit {0}) × FileHandler
close_file h = elim h.filebuf [
  | none ↦ (inl OtaPalError.bad_file_handle, h)
  | some buf ↦ (inr tt, h)
]

abbrev pub abort : FileHandler → (OtaPalError ⊎ Unit {0}) × FileHandler
abort h = (inr tt, h)

unfoldable pub write_block :
    (block_offset : ℕ) (block_payload : Bytes) → FileHandler → (OtaPalError ⊎ ℕ) × FileHandler
unfolding write
write_block block_offset block_payload h = elim h.filebuf [
  | none ↦ (inl OtaPalError.bad_file_handle, h)
  | some buf ↦ (
    inr (length block_payload),
    record h { filebuf = some (write block_payload (record buf { position = block_offset })) },
  )
]

-- A run of blocks; the results are dropped.
unfoldable pub write_blocks : List (ℕ × Bytes) → FileHandler → FileHandler
write_blocks [] h = h
write_blocks ((block_offset, block_payload) ∷ rest) h =
    write_blocks rest (write_block block_offset block_payload h).1
