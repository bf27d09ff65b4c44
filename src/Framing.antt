-- ===== src/Framing.antt =====
-- navigation_server/router_core/IPCoupler.py, the loop of `IPAsynchReader`: it cuts the buffers that the
-- transport gives into frames, at the separator CR LF. `part` and `part_buf` are what it keeps from
-- one buffer to the next. The buffer from `start_idx` on is an argument, and the indices are relative
-- to it. `is_fatal` says for which frames the processing raises `CouplerReadError`, which ends
-- the work on a buffer; the frames are what is given to the processing. A transparent reader, time
-- outs of the transport and the stop flag are left out.
pub mod Chunks
pub mod Streams
pub mod Splits
mod Tests
use navigation_server.Base.{
  ℕ, zero, suc, ◌+◌, Bool, true, false, not, ◌&&◌, ◌||◌, Option, none, some, List, [], ◌∷◌, ◌++◌,
  ◌==◌, if◌then◌else◌, length, take, drop,
}

abbrev pub in_separator : ℕ → Bool
in_separator c = (c == 13) || (c == 10)

-- buffer.find(b'\r\n')
unfoldable pub find_separator : List ℕ → Option ℕ
find_separator [] = none
find_separator (c ∷ cs) =
    let rest = find_separator cs in
    elim cs [
      | [] ↦ none
      | d ∷ ds ↦
          if c == 13
          then (if d == 10 then some 0 else elim rest [ none ↦ none | some i ↦ some (i + 1) ])
          else elim rest [ none ↦ none | some i ↦ some (i + 1) ]
    ]

abbrev pub last_in_separator : List ℕ → Bool
last_in_separator [] = false
last_in_separator (c ∷ []) = in_separator c
last_in_separator (c ∷ d ∷ ds) = last_in_separator (d ∷ ds)

-- One byte of a separator in front is skipped.
abbrev pub skip_first : List ℕ → List ℕ
skip_first [] = []
skip_first (c ∷ cs) = if in_separator c then cs else c ∷ cs

abbrev pub without_last : List ℕ → List ℕ
without_last [] = []
without_last (c ∷ []) = []
without_last (c ∷ d ∷ ds) = c ∷ without_last (d ∷ ds)

pub record Reader : Type 0 where
  pub part : Bool
  pub part_buf : List ℕ

-- The frame that ends at the separator: what was kept, and the text up to there.
abbrev pub joined : Reader → List ℕ → List ℕ
joined r text = if r.part then r.part_buf ++ skip_first text else skip_first text

abbrev pub is_empty : List ℕ → Bool
is_empty [] = true
is_empty (c ∷ cs) = false

-- What is left of the buffer without a separator in it, when no full frame is seen in it.
unfoldable pub keep : Reader → List ℕ → Reader
keep r rest =
    if r.part
    then record r {
      part_buf = r.part_buf ++ (if last_in_separator rest then without_last rest else rest);
    }
    else if is_empty (skip_first rest)
    then r
    else record { part = true; part_buf = skip_first rest }

-- A frame is processed, if it is not empty, and what comes after it is cut, unless the processing is
-- fatal.
abbrev pub emitted :
    (List ℕ → Bool) → List ℕ → Reader → List (List ℕ) × Reader → List (List ℕ) × Reader
emitted is_fatal frame closed rest =
    if is_empty frame
    then rest
    else if is_fatal frame
    then (frame ∷ [], closed)
    else (frame ∷ rest.0, rest.1)

-- The inner loop. A buffer without a separator that ends in a part of one is a full frame, if nothing
-- is kept. Each round takes a byte at least, so that the length of the buffer is fuel enough.
unfoldable pub cut_within : ℕ → (List ℕ → Bool) → Reader → List ℕ → List (List ℕ) × Reader
unfolding find_separator keep
cut_within zero is_fatal r rest = ([], r)
cut_within (suc fuel) is_fatal r [] = ([], r)
cut_within (suc fuel) is_fatal r (c ∷ cs) =
    let rest = c ∷ cs in
    let closed = record r { part = false } in
    elim (find_separator rest) [
      | some i ↦
          emitted is_fatal (joined r (take i rest)) closed
            (cut_within fuel is_fatal closed (drop (i + 2) rest))
      | none ↦
          if not r.part && last_in_separator rest
          then emitted is_fatal (joined r (without_last rest)) closed ([], closed)
          else ([], keep r rest)
    ]

unfoldable pub cut : (List ℕ → Bool) → Reader → List ℕ → List (List ℕ) × Reader
unfolding cut_within
cut is_fatal r buffer = cut_within (length buffer) is_fatal r buffer

-- The buffers one after the other.
unfoldable pub cut_all : (List ℕ → Bool) → Reader → List (List ℕ) → List (List ℕ) × Reader
unfolding cut
cut_all is_fatal r [] = ([], r)
cut_all is_fatal r (buffer ∷ buffers) =
    let one = cut is_fatal r buffer in
    let rest = cut_all is_fatal one.1 buffers in (one.0 ++ rest.0, rest.1)
