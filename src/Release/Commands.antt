-- ===== src/Release/Commands.antt =====
-- src/gdbwire_mi_command.c: how the commands are released, with the addresses of their blocks.
use gdbwire.Base.{◌≡◌, refl, List, [], ◌∷◌, ◌++◌, not, ◌&&◌, Option, none, some, mem_byte}
use gdbwire.Release.{Address, Allocated, Release, ◌then◌, nothing, read, free, free_text}
use gdbwire.Release.Order.{
  Releases, Releases-then, Releases-read, Releases-free, text_block, Releases-text, Releases-member,
  AreBlocks, Releases-AreBlocks,
}

-- `struct gdbwire_mi_source_file`: its address, file and fullname, and the next file.
pub data SourceFileAt : Type 0 where
  no_file : SourceFileAt
  file_at : Address → Option Address → Option Address → SourceFileAt → SourceFileAt

pub record BreakpointTexts : Type 0 where
  pub number : Option Address
  pub type : Option Address
  pub catch_type : Option Address
  pub address : Option Address
  pub func_name : Option Address
  pub file : Option Address
  pub fullname : Option Address
  pub original_location : Option Address

-- `struct gdbwire_mi_breakpoint`: its address, its texts, `multi_breakpoints`, and the next one.
pub data BreakpointAt : Type 0 where
  no_breakpoint : BreakpointAt
  breakpoint_at : Address → BreakpointTexts → BreakpointAt → BreakpointAt → BreakpointAt

-- `struct gdbwire_mi_stack_frame`
pub record FrameTexts : Type 0 where
  pub address : Option Address
  pub func : Option Address
  pub file : Option Address
  pub fullname : Option Address
  pub from : Option Address

-- `struct gdbwire_mi_command` with the variant of its kind. The frame of a command is a pointer
-- that may be NULL.
pub data CommandAt : Type 0 where
  no_command : CommandAt
  break_info_at : Address → BreakpointAt → CommandAt
  stack_info_frame_at : Address → Option (Address × FrameTexts) → CommandAt
  source_file_at : Address → Option Address → Option Address → CommandAt
  source_files_at : Address → SourceFileAt → CommandAt

-- The texts of the block at `a`, each read and released, and then `next`.
abbrev pub free_members : Address → List (Option Address) → Release → Release
free_members a [] next = next
free_members a (t ∷ ts) next = read a then free_text t then free_members a ts next

-- `gdbwire_mi_source_files_free`
unfoldable pub source_files_free : SourceFileAt → Release
source_files_free no_file = nothing
source_files_free (file_at a file fullname next) =
    free_members a (file ∷ fullname ∷ []) (read a then free a) then source_files_free next

abbrev pub breakpoint_texts : BreakpointTexts → List (Option Address)
breakpoint_texts t =
    t.original_location ∷ t.fullname ∷ t.file ∷ t.func_name ∷ t.address ∷ t.catch_type ∷ t.type
    ∷ t.number ∷ []

-- `gdbwire_mi_breakpoints_free`
unfoldable pub breakpoints_free : BreakpointAt → Release
breakpoints_free no_breakpoint = nothing
breakpoints_free (breakpoint_at a texts multi next) =
    free_members a (breakpoint_texts texts)
      (read a then breakpoints_free multi then read a then free a)
    then breakpoints_free next

abbrev pub frame_texts : FrameTexts → List (Option Address)
frame_texts t = t.address ∷ t.func ∷ t.file ∷ t.fullname ∷ t.from ∷ []

-- `gdbwire_mi_stack_frame_free`, which reads its argument without a test for NULL
unfoldable pub stack_frame_free : Option (Address × FrameTexts) → Release
stack_frame_free none live = none
stack_frame_free (some (a, texts)) live = free_members a (frame_texts texts) (free a) live

-- `gdbwire_mi_command_free`
unfoldable pub command_free : CommandAt → Release
command_free no_command = nothing
command_free (break_info_at a bps) = read a then breakpoints_free bps then free a
command_free (stack_info_frame_at a frame) = read a then stack_frame_free frame then free a
command_free (source_file_at a file fullname) = free_members a (file ∷ fullname ∷ []) (free a)
command_free (source_files_at a files) = read a then source_files_free files then free a

abbrev members_blocks : List (Option Address) → List Address → List Address
members_blocks [] rest = rest
members_blocks (t ∷ ts) rest = text_block t ++ members_blocks ts rest

Releases-members :
    (a : Address) (ts : List (Option Address)) (next : Release) (xs : List Address)
    → Releases next (xs ++ (a ∷ []))
    → Releases (free_members a ts next) (members_blocks ts xs ++ (a ∷ []))
Releases-members a [] next xs h = h
Releases-members a (t ∷ ts) next xs h =
    Releases-member a _ _ _ _ (Releases-text t) (Releases-members a ts next xs h)

-- The blocks of a command, from what its structures hold.
abbrev files_blocks : SourceFileAt → List Address
files_blocks no_file = []
files_blocks (file_at a file fullname next) =
    ((text_block file ++ (text_block fullname ++ [])) ++ (a ∷ [])) ++ files_blocks next

source_files_free-Releases : (f : SourceFileAt) → Releases (source_files_free f) (files_blocks f)
unfolding source_files_free
source_files_free-Releases no_file = record { runs = λ live fit. refl }
source_files_free-Releases (file_at a file fullname next) =
    Releases-then _ _ _ _
      (Releases-members a (file ∷ fullname ∷ []) _ [] (Releases-read a _ [] (Releases-free a)))
      (source_files_free-Releases next)

abbrev breakpoints_blocks : BreakpointAt → List Address
breakpoints_blocks no_breakpoint = []
breakpoints_blocks (breakpoint_at a texts multi next) =
    ((text_block texts.original_location
        ++ (text_block texts.fullname
            ++ (text_block texts.file
                ++ (text_block texts.func_name
                    ++ (text_block texts.address
                        ++ (text_block texts.catch_type
                            ++ (text_block texts.type
                                ++ (text_block texts.number
                                    ++ (breakpoints_blocks multi ++ [])))))))))
      ++ (a ∷ []))
    ++ breakpoints_blocks next

breakpoints_free-Releases :
    (b : BreakpointAt) → Releases (breakpoints_free b) (breakpoints_blocks b)
unfolding breakpoints_free
breakpoints_free-Releases no_breakpoint = record { runs = λ live fit. refl }
breakpoints_free-Releases (breakpoint_at a texts multi next) =
    Releases-then _ _ _ _
      (Releases-members a (breakpoint_texts texts) _ _ (
        Releases-member a _ _ _ [] (breakpoints_free-Releases multi)
          (Releases-read a _ [] (Releases-free a))))
      (breakpoints_free-Releases next)

abbrev pub HasFrame : CommandAt → Type 0
HasFrame (stack_info_frame_at a none) = ⊥
HasFrame _ = Unit {0}

abbrev pub command_blocks : CommandAt → List Address
command_blocks no_command = []
command_blocks (break_info_at a bps) = (breakpoints_blocks bps ++ []) ++ (a ∷ [])
command_blocks (stack_info_frame_at a none) = a ∷ []
command_blocks (stack_info_frame_at a (some (b, texts))) =
    (((text_block texts.address
          ++ (text_block texts.func
              ++ (text_block texts.file
                  ++ (text_block texts.fullname ++ (text_block texts.from ++ ([]))))))
        ++ (b ∷ []))
      ++ [])
    ++ (a ∷ [])
command_blocks (source_file_at a file fullname) =
    (text_block file ++ (text_block fullname ++ [])) ++ (a ∷ [])
command_blocks (source_files_at a files) = (files_blocks files ++ []) ++ (a ∷ [])

command_free-Releases : (c : CommandAt) → HasFrame c → Releases (command_free c) (command_blocks c)
unfolding command_free stack_frame_free
command_free-Releases no_command h = record { runs = λ live fit. refl }
command_free-Releases (break_info_at a bps) h =
    Releases-member a _ _ _ [] (breakpoints_free-Releases bps) (Releases-free a)
command_free-Releases (stack_info_frame_at a none) h = absurd h
command_free-Releases (stack_info_frame_at a (some (b, texts))) h =
    Releases-member a _ _ _ [] (Releases-members b (frame_texts texts) _ [] (Releases-free b))
      (Releases-free a)
command_free-Releases (source_file_at a file fullname) h =
    Releases-members a (file ∷ fullname ∷ []) _ [] (Releases-free a)
command_free-Releases (source_files_at a files) h =
    Releases-member a _ _ _ [] (source_files_free-Releases files) (Releases-free a)

-- Where the blocks of a command are allocated and no two of them are at one address, and a command
-- for a frame has its frame, the release of the command runs to its end: each of its blocks is
-- released exactly once, none is read after its release, and every other block stays as it was.
pub command_free_lem :
    (c : CommandAt) (live : Allocated)
    → HasFrame c
    → AreBlocks live (command_blocks c)
    → (live1 : Allocated) × (command_free c live ≡ some live1)
      × ((a : Address) → live1 a ≡ (live a && not (mem_byte a (command_blocks c))))
command_free_lem c live h fit =
    Releases-AreBlocks (command_free c) (command_blocks c) live (command_free-Releases c h) fit
