-- ===== src/Tests/Release.antt =====
-- The release of a parse tree and of a command, at concrete addresses.
use gdbwire.Base.{◌≡◌, refl, [], ◌∷◌, not, ◌&&◌, none, some, mem_byte}
use gdbwire.Release.{
  Address, Allocated, no_result, cstring_at, results_at, record_at, result_record_at, no_output,
  output_at, output_free, OutputAt,
}
use gdbwire.Release.Blocks.{output_blocks, output_free_lem}
use gdbwire.Release.Commands.{
  CommandAt, breakpoint_at, no_breakpoint, break_info_at, command_free, command_blocks,
  command_free_lem,
}

-- `^done,a={b="x"}`: a record at 2 with a tuple at 3, whose one result is at 5.
abbrev done_output : OutputAt
done_output =
    output_at 1
      (result_record_at (
        record_at 2 none
          (results_at 3 (some 4) (cstring_at 5 (some 6) (some 7) no_result) no_result)))
      (some 8) no_output

abbrev live : Allocated
live a = mem_byte a (1 ∷ 2 ∷ 3 ∷ 4 ∷ 5 ∷ 6 ∷ 7 ∷ 8 ∷ 9 ∷ [])

output_free_lem_example :
    (live1 : Allocated) × (output_free done_output live ≡ some live1)
    × ((a : Address) → live1 a ≡ (live a && not (mem_byte a (output_blocks done_output))))
output_free_lem_example = output_free_lem done_output live (
  refl,
  refl,
  (
    refl,
    refl,
    (refl, refl, (refl, refl, (refl, refl, (refl, refl, (refl, refl, (refl, refl, tt)))))),
  ),
)

-- A breakpoint at 2 with its number at 3 and one location at 4, with its number at 5.
abbrev breakpoint : CommandAt
breakpoint = break_info_at 1 (
    breakpoint_at 2
      (record {
        number = some 3;
        type = none;
        catch_type = none;
        address = none;
        func_name = none;
        file = none;
        fullname = none;
        original_location = none;
      })
      (breakpoint_at 4
        (record {
          number = some 5;
          type = none;
          catch_type = none;
          address = none;
          func_name = none;
          file = some 6;
          fullname = none;
          original_location = none;
        })
        no_breakpoint no_breakpoint)
      no_breakpoint)

command_free_lem_example :
    (live1 : Allocated) × (command_free breakpoint live ≡ some live1)
    × ((a : Address) → live1 a ≡ (live a && not (mem_byte a (command_blocks breakpoint))))
command_free_lem_example =
    command_free_lem breakpoint live tt
      (refl, refl, (refl, refl, (refl, refl, (refl, refl, (refl, refl, (refl, refl, tt))))))
