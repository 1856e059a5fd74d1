-- ===== src/MiParser.antt =====
-- src/gdbwire_mi_parser.c: the bytes that the user pushes are cut into lines, and each line is
-- parsed. The parse of one line is a parameter here: a function of the parser's other state.
pub mod Cut
pub mod Lines
pub mod Scan
pub mod Next
pub mod Feed
pub mod Texts
pub mod Chunks
pub mod Drain
pub mod Push
use gdbwire.Base.{
  ℕ, zero, suc, ◌+◌, Bool, true, false, ◌&&◌, ◌||◌, Option, none, some, List, [], ◌∷◌, Bytes, ltb,
  ◌==◌, if◌then◌else◌, M, Exec, value, stop, fault, pure, fail, undefined, ◌>>=◌, GdbwireResult,
  gdbwire_ok, gdbwire_assert,
}
use gdbwire.StringBuf.{
  Status, succeeded, failed, Cell, GdbwireString, load, append_bytes, create, find_first_of,
  erase_range,
}

abbrev pub line_breaks : Bytes
line_breaks = b'\r' ∷ b'\n' ∷ []

-- `data[0]` to `data[n - 1]`, as `gdbwire_string_append_data` reads them.
unfoldable pub load_bytes : Option (List Cell) → ℕ → ℕ → M Bytes
load_bytes p pos zero = pure []
load_bytes p pos (suc n) = do c ← load p pos; cs ← load_bytes p (pos + 1) n; pure (c ∷ cs)

-- `line_length`: behind the line break at `pos`, which may be "\r\n".
unfoldable pub line_end : Option (List Cell) → ℕ → ℕ → M ℕ
line_end p size pos = do
  c ← load p pos
  elim (c == b'\r' && ltb (pos + 1) size) [
    | true ↦ load p (pos + 1) >>= λ d. pure (if d == b'\n' then pos + 2 else pos + 1)
    | false ↦ pure (pos + 1)
  ]

-- The assertions on a new string and on a status.
abbrev pub asserted_string : Option GdbwireString → M GdbwireString
asserted_string none = fail gdbwire_assert
asserted_string (some s) = pure s

abbrev pub asserted_status : Status × GdbwireString → M GdbwireString
asserted_status (succeeded, s) = pure s
asserted_status (failed, s) = fail gdbwire_assert

-- The first `n` bytes of the buffer go to a new line with a NUL behind them.
unfoldable pub take_line : GdbwireString → ℕ → M (GdbwireString × Option GdbwireString)
take_line buffer n = do
  created ← create
  line ← asserted_string created
  bytes ← load_bytes buffer.contents 0 n
  r1 ← append_bytes line bytes
  line1 ← asserted_status r1
  r2 ← append_bytes line1 (0 ∷ [])
  line2 ← asserted_status r2
  r3 ← erase_range buffer 0 n
  buffer1 ← asserted_status r3
  pure (buffer1, some line2)

-- `gdbwire_mi_parser_get_next_line`: the buffer that is left, and the line if there is one. Where
-- an assertion fails the buffer is as it was.
unfoldable pub get_next_line : GdbwireString → M (GdbwireString × Option GdbwireString)
get_next_line buffer = do
  pos ← find_first_of (some buffer) (some line_breaks)
  elim (pos == buffer.size) [
    | true ↦ pure (buffer, none)
    | false ↦ line_end buffer.contents buffer.size pos >>= take_line buffer
  ]

-- The C string at the start of the cells: the bytes in front of the first NUL.
unfoldable pub text_at : List Cell → M Bytes
text_at [] = undefined
text_at (none ∷ cells) = undefined
text_at (some b ∷ cells) = elim b [
  | zero ↦ pure []
  | suc k ↦ text_at cells >>= λ t. pure (suc k ∷ t)
]

-- `gdbwire_string_data(line)`, read as a C string
unfoldable pub line_text : GdbwireString → M Bytes
line_text line = elim line.contents [ none ↦ undefined | some cells ↦ text_at cells ]

-- Is there a line break in the data? (The loop runs from the end.)
unfoldable pub has_newline : Bytes → Bool
has_newline [] = false
has_newline (c ∷ cs) = c == b'\n' || c == b'\r' || has_newline cs

-- `struct gdbwire_mi_parser`: the buffer, and the lexer's and push parser's state with what the
-- callbacks work on.
pub record MiParser (P : Type 0) : Type 0 where
  pub buffer : GdbwireString
  pub state : P

-- How a call that may return an error code early is used: its value, or the code.
pub data Caught (A : Type 0) : Type 0 where
  returned : A → Caught A
  stopped : GdbwireResult → Caught A

abbrev pub caught : {A : Type 0} → Exec A → Exec (Caught A)
caught (value a mem) = value (returned a) mem
caught (stop code mem) = value (stopped code) mem
caught fault = fault

abbrev pub catch : {A : Type 0} → M A → M (Caught A)
catch m mem = caught (m mem)

module _ {P : Type 0} (parse_line : P → Bytes → M (GdbwireResult × P)) where
  -- One round of the loop, behind `get_next_line`; `next` is the rest of the loop.
  unfoldable pub use_line :
      (MiParser P → M (GdbwireResult × MiParser P))
      → MiParser P
      → Caught (GdbwireString × Option GdbwireString)
      → M (GdbwireResult × MiParser P)
  use_line next p (stopped code) = pure (gdbwire_assert, p)
  use_line next p (returned (buffer, none)) = pure (gdbwire_ok, record p { buffer = buffer })
  use_line next p (returned (buffer, some line)) = do
    text ← line_text line
    (code, state) ← parse_line p.state text
    let q = record p { buffer = buffer; state = state }
    elim code [ gdbwire_ok ↦ next q | _ ↦ pure (gdbwire_assert, q) ]

  -- The loop of `gdbwire_mi_parser_push_data`. Each round takes a line off the buffer, so a fuel
  -- above the buffer's size is enough.
  unfoldable pub drain : ℕ → MiParser P → M (GdbwireResult × MiParser P)
  drain zero p = undefined
  drain (suc fuel) p = catch (get_next_line p.buffer) >>= use_line (drain fuel) p

  unfoldable pub push_data : MiParser P → Bytes → M (GdbwireResult × MiParser P)
  push_data p bytes = do
    (r, buffer) ← append_bytes p.buffer bytes
    let q = record p { buffer = buffer }
    elim r [
      | failed ↦ pure (gdbwire_assert, q)
      | succeeded ↦ elim (has_newline bytes) [
        | true ↦ drain (suc buffer.size) q
        | false ↦ pure (gdbwire_ok, q)
      ]
    ]
