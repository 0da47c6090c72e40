-- ===== src/Examples/FileHandler/Blocks.antt =====
-- examples/linux_jobs/src/file_handler.rs: the blocks of a file make up the file.
use fibocom_cellular_rs.Prelude.{
  ℕ, zero, suc, ◌+◌, ◌-◌, ◌≤◌, ◌<◌, ◌≡◌, refl, Bool, true, false, ◌&&◌, ◌||◌, ◌⊎◌, inl, inr, Option,
  none, some, All, List, [], ◌∷◌, ◌++◌, length, take, drop, get_elem?, get_elem?-append,
  get_elem?-take, get_elem?-drop, get_elem?-beyond, get_elem?-within, get_elem?-ext, length-append,
  length-take, length-drop, ltb, ltb→lt, leb, Bool-cases, if◌then◌else◌, arith,
}
use fibocom_cellular_rs.Command.{Bytes}
use fibocom_cellular_rs.Examples.FileHandler.{
  Cursor, zeros, write, FileHandler, create_file_for_rx, write_block, write_blocks,
}

length-zeros : (n : ℕ) → length (zeros n) ≡ n
unfolding zeros
length-zeros zero = refl
length-zeros (suc n) = ground (arith, length-zeros n)

get_elem?-zeros : (n i : ℕ) → get_elem? (zeros n) i ≡ (if ltb i n then some 0 else none)
unfolding zeros
get_elem?-zeros zero i = ground arith
get_elem?-zeros (suc n) zero = ground arith
get_elem?-zeros (suc n) (suc i) = ground (arith, get_elem?-zeros n i)

-- The bytes after a write at an offset.
abbrev written : ℕ → Bytes → Bytes → Bytes
written o p b = (write p (record { bytes = b; position = o })).bytes

get_elem?-written :
    (o : ℕ) (p b : Bytes) (i : ℕ)
    → get_elem? (written o p b) i ≡ (
        if ltb i o
        then (if ltb i (length b) then get_elem? b i else some 0)
        else if ltb i (o + length p)
        then get_elem? p (i - o)
        else get_elem? b i)
unfolding write
get_elem?-written o p b i =
    let tail = p ++ drop (o + length p) b in
    let head = length-take o b in
    let gap = length-zeros (o - length b) in
    let first = get_elem?-append (take o b) (zeros (o - length b) ++ tail) i in
    let second = get_elem?-append (zeros (o - length b)) tail (i - length (take o b)) in
    let third =
      get_elem?-append p (drop (o + length p) b)
        (i - length (take o b) - length (zeros (o - length b))) in
    let kept = get_elem?-take o b i in
    let zero = get_elem?-zeros (o - length b) (i - length (take o b)) in
    let rest =
      get_elem?-drop (o + length p) b
        (i - length (take o b) - length (zeros (o - length b)) - length p) in
    let beyond = get_elem?-beyond b i in grind arith

length-written :
    (o : ℕ) (p b : Bytes)
    → length (written o p b) ≡ (if ltb (length b) (o + length p) then o + length p else length b)
unfolding write
length-written o p b = ground (
  arith,
  length-append (take o b) (zeros (o - length b) ++ (p ++ drop (o + length p) b)),
  length-append (zeros (o - length b)) (p ++ drop (o + length p) b),
  length-append p (drop (o + length p) b),
  length-take o b,
  length-zeros (o - length b),
  length-drop (o + length p) b,
)

-- A block of the file: what it holds is what the file holds there.
unfoldable pub IsBlockOf : Bytes → ℕ × Bytes → Type 0
IsBlockOf file block =
    (block.0 + length block.1 ≤ length file)
    × ((i : ℕ) → i < length block.1 → get_elem? block.1 i ≡ get_elem? file (block.0 + i))

-- Some block has the byte at an index.
unfoldable pub is_covered : ℕ → List (ℕ × Bytes) → Bool
is_covered i [] = false
is_covered i ((offset, payload) ∷ rest) =
    (leb offset i && ltb i (offset + length payload)) || is_covered i rest

-- What the buffer of a handler holds.
abbrev pub contents : FileHandler → Option Bytes
contents h = elim h.filebuf [ none ↦ none | some buf ↦ some buf.bytes ]

module _ (file : Bytes) where
  -- A byte that is right stays right, and those of the block become right.
  written-right :
      (o : ℕ) (p b : Bytes) (i : ℕ)
      → IsBlockOf file (o, p)
      → i < length file
      → ((get_elem? b i ≡ get_elem? file i) ⊎ ((leb o i && ltb i (o + length p)) ≡ true))
      → get_elem? (written o p b) i ≡ get_elem? file i
  unfolding IsBlockOf
  written-right o p b i block inside h =
      let at = get_elem?-written o p b i in
      let same = block.1 (i - o) in
      let beyond = get_elem?-beyond b i in
      let within = get_elem?-within file i inside in grind arith

  write_blocks-right :
      (ws : List (ℕ × Bytes)) (c : Cursor)
      → All (IsBlockOf file) ws
      → length c.bytes ≤ length file
      → (b : Bytes) × (contents (write_blocks ws (record { filebuf = some c })) ≡ some b)
        × (length b ≤ length file)
        × ((i : ℕ)
            → i < length file
            → ((get_elem? c.bytes i ≡ get_elem? file i) ⊎ (is_covered i ws ≡ true))
            → get_elem? b i ≡ get_elem? file i)
  unfolding write_blocks write_block is_covered
  write_blocks-right [] c blocks short = (c.bytes, refl, short, λ i inside h. ground arith)
  write_blocks-right ((o, p) ∷ rest) c blocks short =
      let fits : o + length p ≤ length file = unfold IsBlockOf in blocks.0.0 in
      let grown = length-written o p c.bytes in
      let ih =
        write_blocks-right rest (write p (record c { position = o })) blocks.1 (ground arith) in
      (
        ih.0,
        ih.1,
        ih.2,
        λ i inside h.
            let right = written-right o p c.bytes i blocks.0 inside in
            let later = ih.3 i inside in
            elim h [
              | inl e ↦ later (inl (right (inl e)))
              | inr covered ↦ elim (Bool-cases (leb o i && ltb i (o + length p))) [
                | inl here ↦ later (inl (right (inr here)))
                | inr elsewhere ↦ later (inr (ground arith))
              ]
            ],
      )

-- After a file is created, blocks of it that cover it make it up, in whatever order they come and
-- however often, and also where they overlap: what the buffer holds in the end is the file.
pub write_blocks-contents :
    (file : Bytes) (ws : List (ℕ × Bytes)) (h : FileHandler)
    → All (IsBlockOf file) ws
    → ((i : ℕ) → i < length file → is_covered i ws ≡ true)
    → contents (write_blocks ws (create_file_for_rx h).1) ≡ some file
unfolding create_file_for_rx
write_blocks-contents file ws h blocks covers =
    let run =
      write_blocks-right file ws (record { bytes = []; position = 0 }) blocks (omega arith) in
    let same = get_elem?-ext run.0 file λ i. elim (Bool-cases (ltb i (length file))) [
      | inl inside ↦ run.3 i (ltb→lt _ _ inside) (inr (covers i (ltb→lt _ _ inside)))
      | inr outside ↦
          (let none_left = get_elem?-beyond run.0 i (let short = run.2 in ground arith) in
            let none_right = get_elem?-beyond file i (ground arith) in cc)
    ] in
    let held = run.1 in cc
